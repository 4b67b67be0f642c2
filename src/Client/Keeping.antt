-- ===== src/Client/Keeping.antt =====
-- What every step of a client keeps, if the operations on its buffer and on its receipts keep it.
use go_uspclient.Base.{
  ℕ, ◌^◌, ◌<◌, ◌≡◌, ◌⊎◌, refl, Bool, true, false, ◌==◌, if◌then◌else◌, inl, inr, List, [], ◌∷◌,
  Option, none, some, arith,
}
use go_uspclient.Protocol.Messages.{DataMessage, ControlMessage}
use go_uspclient.Buffer.State.{AckBuffer}
use go_uspclient.Buffer.Deliver.{reset_delivery, ack, get_next_to_deliver}
use go_uspclient.Buffer.Blocking.{add_round, add_timeout}
use go_uspclient.Buffer.Control.{update_capacity, close, begin_drain, drain_round}
use go_uspclient.Client.State.{ReceiptLifetime, set_receipt_lifetime, ClientError, Client}
use go_uspclient.Client.Control.{reconnect, process_ack, process_control_message}
use go_uspclient.Client.Receipts.{admission_receipt_owner}
use go_uspclient.Client.Threads.{Answer, reads}
use go_uspclient.Client.Workers.{
  Worker, Kind, listener, sender, keep_alive, Phase, starts, loops, busy, throttled, exited, Report,
  on, breaks, takes, garbles, fires, gives, break_off, listen, transmit, transmitted, send, ping,
  serve, wake_up, proceed,
}
use go_uspclient.Client.System.{Move, advances, proceeds}

-- A window is a slice length, so it is below 2 ^ 63.
abbrev pub FitsAnswer : Answer → Type 0
FitsAnswer (reads msg) = msg.window_size < 2 ^ 63
FitsAnswer a = Unit

abbrev pub FitsReport : Report → Type 0
FitsReport (gives msg) = msg.window_size < 2 ^ 63
FitsReport r = Unit

abbrev pub FitsMove : Move → Type 0
FitsMove (advances i a) = FitsAnswer a
FitsMove (proceeds i r) = FitsReport r
FitsMove m = Unit

abbrev pub AllFitMoves : List Move → Type 0
AllFitMoves [] = Unit
AllFitMoves (m ∷ ms) = FitsMove m × AllFitMoves ms

-- The same buffer and the same receipt state.
abbrev pub SameCore : Client → Client → Type 0
SameCore c c' =
    (c'.buffer ≡ c.buffer)
    × (c'.receipt_lifetime ≡ c.receipt_lifetime)
    × (c'.receipt_owner ≡ c.receipt_owner)

abbrev pub with_core : AckBuffer → Client → Client
with_core b c = record c { buffer = b }

-- The operations keep `P`, and so does every other change of a client.
pub record Keeps (P : Client → Type 0) : Type 0 where
  pub rest : (c c' : Client) → SameCore c c' → P c → P c'
  pub acks : (n : ℕ) (c : Client) → P c → P (with_core (ack n c.buffer).1 c)
  pub window :
      (n : ℕ) (c : Client) → n < 2 ^ 63 → P c → P (with_core (update_capacity n c.buffer) c)
  pub delivery : (c : Client) → P c → P (with_core (get_next_to_deliver c.buffer).1 c)
  pub reset : (c : Client) → P c → P (with_core (reset_delivery c.buffer) c)
  pub seal : (c : Client) → P c → P (with_core (close c.buffer) c)
  pub detach :
      (c : Client)
      → P c
      → P (with_core (record c.buffer { receipts = []; deliver_cursor = none }) c)
  pub lifetime : (l : ReceiptLifetime) (c : Client) → P c → P (set_receipt_lifetime l c)
  pub owner : (c : Client) → P c → P (admission_receipt_owner c)
  pub drain : (c : Client) → P c → P (with_core (begin_drain c.buffer) c)
  pub polls : (done : Bool) (c : Client) → P c → P (with_core (drain_round done c.buffer).1 c)
  pub timeout : (w : Option ℕ) (c : Client) → P c → P (with_core (add_timeout w c.buffer).1 c)
  pub add :
      (e : DataMessage) (size : ℕ) (waiter receipt : Option ℕ) (limit : ℕ) (c : Client)
      → P c
      → P (with_core (add_round e size waiter receipt limit c.buffer).1 c)

pub reconnect-SameCore : (c : Client) → SameCore c (reconnect c).1
unfolding reconnect
reconnect-SameCore c = ground arith

process_ack-SameCore :
    (msg : ControlMessage) (c : Client)
    → SameCore (with_core (ack msg.seq_num c.buffer).1 c) (process_ack msg c)
unfolding process_ack
process_ack-SameCore msg c = ground arith

process_control_message-SameCore :
    (msg : ControlMessage) (c : Client)
    → SameCore c (process_control_message msg c).1
      ⊎ SameCore (with_core (ack msg.seq_num c.buffer).1 c) (process_control_message msg c).1
      ⊎ SameCore
          (with_core (update_capacity msg.window_size c.buffer) c)
          (process_control_message msg c).1
unfolding process_control_message
process_control_message-SameCore msg c =
    ground (arith, process_ack-SameCore msg c, reconnect-SameCore c)

module _ {P : Client → Type 0} (p : Keeps P) where
  pub process_control_message_keeps :
      (msg : ControlMessage) (c : Client)
      → msg.window_size < 2 ^ 63
      → P c
      → P (process_control_message msg c).1
  process_control_message_keeps msg c f s = elim (process_control_message-SameCore msg c) [
    | inl e ↦ p.rest c _ e s
    | inr (inl e) ↦ p.rest (with_core (ack msg.seq_num c.buffer).1 c) _ e (p.acks msg.seq_num c s)
    | inr (inr e) ↦
        p.rest (with_core (update_capacity msg.window_size c.buffer) c) _ e
          (p.window msg.window_size c f s)
  ]

  -- What a worker, or a thread, leaves.
  abbrev pub PAfter {ℓ} : {A : Type ℓ} → Option (A × Client × Bool) → Type 0
  PAfter none = Unit
  PAfter (some (x, c, b)) = P c

  pub if_PAfter {ℓ} :
      {A : Type ℓ} (t : Bool) (x y : Option (A × Client × Bool))
      → PAfter x
      → PAfter y
      → PAfter (if t then x else y)
  if_PAfter true x y h k = h
  if_PAfter false x y h k = k

  break_off-PAfter : (w : Worker) (c : Client) → P c → PAfter (some (break_off w c))
  unfolding break_off
  break_off-PAfter w c s =
      p.rest c _ (reconnect-SameCore (record c { last_error = some ClientError.io_failed })) s

  transmitted-PAfter :
      (r : Report) (m : Option DataMessage) (w : Worker) (c : Client)
      → P c
      → PAfter (transmitted r m w c)
  unfolding transmitted
  transmitted-PAfter on none w c s = s
  transmitted-PAfter breaks none w c s = tt
  transmitted-PAfter takes none w c s = tt
  transmitted-PAfter garbles none w c s = tt
  transmitted-PAfter fires none w c s = tt
  transmitted-PAfter (gives msg) none w c s = tt
  transmitted-PAfter on (some m) w c s = tt
  transmitted-PAfter breaks (some m) w c s = break_off-PAfter w c s
  transmitted-PAfter takes (some m) w c s = if_PAfter c.is_socket_open _ _ s tt
  transmitted-PAfter garbles (some m) w c s = p.rest c _ (refl, refl, refl) s
  transmitted-PAfter fires (some m) w c s = tt
  transmitted-PAfter (gives msg) (some m) w c s = tt

  listen-PAfter :
      (r : Report) (w : Worker) (c : Client) → FitsReport r → P c → PAfter (listen r w c)
  unfolding listen
  listen-PAfter on w c f s = tt
  listen-PAfter breaks w c f s = break_off-PAfter w c s
  listen-PAfter takes w c f s = tt
  listen-PAfter garbles w c f s = tt
  listen-PAfter fires w c f s = tt
  listen-PAfter (gives msg) w c f s = process_control_message_keeps msg c f s

  send-PAfter : (r : Report) (w : Worker) (c : Client) → P c → PAfter (send r w c)
  unfolding send transmit
  send-PAfter r w c s =
      if_PAfter (c.backoff_time == 0) _ _
        (transmitted-PAfter r (get_next_to_deliver c.buffer).0 w
          (record c { buffer = (get_next_to_deliver c.buffer).1 }) (p.delivery c s))
        (p.rest c _ (refl, refl, refl) s)

  ping-PAfter : (r : Report) (w : Worker) (c : Client) → P c → PAfter (ping r w c)
  unfolding ping
  ping-PAfter on w c s = tt
  ping-PAfter breaks w c s = break_off-PAfter w c s
  ping-PAfter takes w c s = if_PAfter c.is_socket_open _ _ s tt
  ping-PAfter garbles w c s = tt
  ping-PAfter fires w c s = tt
  ping-PAfter (gives msg) w c s = tt

  serve-PAfter :
      (r : Report) (k : Kind) (w : Worker) (c : Client)
      → FitsReport r
      → P c
      → PAfter (serve r k w c)
  unfolding serve
  serve-PAfter r listener w c f s = listen-PAfter r w c f s
  serve-PAfter r sender w c f s = send-PAfter r w c s
  serve-PAfter r keep_alive w c f s = ping-PAfter r w c s

  wake_up-PAfter : (r : Report) (w : Worker) (c : Client) → P c → PAfter (wake_up r w c)
  unfolding wake_up
  wake_up-PAfter on w c s = tt
  wake_up-PAfter breaks w c s = if_PAfter c.is_cancelled _ _ s tt
  wake_up-PAfter takes w c s = tt
  wake_up-PAfter garbles w c s = tt
  wake_up-PAfter fires w c s = s
  wake_up-PAfter (gives msg) w c s = tt

  pub proceed-PAfter :
      (r : Report) (p : Phase) (w : Worker) (c : Client)
      → FitsReport r
      → P c
      → PAfter (proceed r p w c)
  unfolding proceed
  proceed-PAfter r starts w c f s = if_PAfter c.is_start.v _ _ s tt
  proceed-PAfter r loops w c f s = if_PAfter c.is_stop.v _ _ s s
  proceed-PAfter r busy w c f s = serve-PAfter r w.kind w c f s
  proceed-PAfter r (throttled n) w c f s = wake_up-PAfter r w c s
  proceed-PAfter r exited w c f s = tt
