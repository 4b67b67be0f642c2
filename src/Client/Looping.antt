-- ===== src/Client/Looping.antt =====
-- A sender that loops while a call of `Close` waits for it.
use go_uspclient.Base.{
  ◌≡◌, ◌⊎◌, refl, Bool, true, false, Option, none, some, arith, if◌then◌else◌, inl, inr,
}
use go_uspclient.Buffer.Valid.Delivering.{get_next_to_deliver_asleep}
use go_uspclient.Client.State.{Client}
use go_uspclient.Client.Control.{reconnect}
use go_uspclient.Client.Workers.{
  Worker, Kind, listener, sender, keep_alive, Phase, starts, loops, busy, throttled, exited, Report,
  on, breaks, takes, garbles, fires, gives, break_off, listen, transmit, transmitted, send, ping,
  serve, wake_up, proceed,
}

-- `Close` has set `isClosing` and closed the buffer and the socket, but `isStop` is clear again, and
-- the sender finds nothing to deliver.
pub record IsHung (c : Client) : Type 0 where
  pub closing : c.is_closing ≡ true
  pub not_stopped : c.is_stop.v ≡ false
  pub cut : c.is_socket_open ≡ false
  pub unthrottled : c.backoff_time ≡ 0
  pub sealed : c.buffer.is_running ≡ false
  pub idle : c.buffer.is_ready_to_deliver.v ≡ false

abbrev pub Looping : Worker → Type 0
Looping w = (w.kind ≡ sender) × ((w.phase ≡ loops) ⊎ (w.phase ≡ busy))

-- What a step of a worker leaves; `w` is the worker before it.
abbrev pub HungAfter : Option (Worker × Client × Bool) → Type 0
HungAfter none = Unit
HungAfter (some (w', c, b)) = IsHung c × (b ≡ false)

-- The listener's read gives no message.
abbrev pub NoFrame : Report → Type 0
NoFrame (gives msg) = ⊥
NoFrame r = Unit

break_off-HungAfter : (w : Worker) (c : Client) → IsHung c → HungAfter (some (break_off w c))
unfolding break_off reconnect
break_off-HungAfter w c h = ground (arith, h.closing)

if_HungAfter :
    (t : Bool) (x y : Option (Worker × Client × Bool))
    → HungAfter x
    → HungAfter y
    → HungAfter (if t then x else y)
if_HungAfter true x y h k = h
if_HungAfter false x y h k = k

shut_off :
    (t : Bool) (x : Option (Worker × Client × Bool)) → t ≡ false → HungAfter (if t then x else none)
shut_off true x e = absurd (cc)
shut_off false x e = tt

-- The sender's body finds no message.
send_idle : (r : Report) (w : Worker) (c : Client) → IsHung c → send r w c ≡ transmitted r none w c
unfolding send transmit
send_idle r w c h = ground (arith, get_next_to_deliver_asleep c.buffer h.idle, h.unthrottled)

-- The next state of a sender that loops.
abbrev pub StillLooping : Option (Worker × Client × Bool) → Type 0
StillLooping none = Unit
StillLooping (some (w, c, b)) = Looping w

transmitted-none :
    (r : Report) (w : Worker) (c : Client) → w.kind ≡ sender → StillLooping (transmitted r none w c)
unfolding transmitted
transmitted-none on w c k = (k, inl refl)
transmitted-none breaks w c k = tt
transmitted-none takes w c k = tt
transmitted-none garbles w c k = tt
transmitted-none fires w c k = tt
transmitted-none (gives msg) w c k = tt

transmitted_hung :
    (r : Report) (w : Worker) (c : Client) → IsHung c → HungAfter (transmitted r none w c)
unfolding transmitted
transmitted_hung on w c h = (h, refl)
transmitted_hung breaks w c h = tt
transmitted_hung takes w c h = tt
transmitted_hung garbles w c h = tt
transmitted_hung fires w c h = tt
transmitted_hung (gives msg) w c h = tt

send-HungAfter :
    (r : Report) (w : Worker) (c : Client)
    → IsHung c
    → HungAfter (transmitted r none w c)
    → HungAfter (send r w c)
send-HungAfter r w c h t = rw (send_idle r w c h) t

serve-HungAfter :
    (r : Report) (k : Kind) (w : Worker) (c : Client)
    → NoFrame r
    → IsHung c
    → HungAfter (serve r k w c)
unfolding serve listen ping
serve-HungAfter on listener w c n h = tt
serve-HungAfter breaks listener w c n h = break_off-HungAfter w c h
serve-HungAfter takes listener w c n h = tt
serve-HungAfter garbles listener w c n h = tt
serve-HungAfter fires listener w c n h = tt
serve-HungAfter (gives msg) listener w c n h = absurd n
serve-HungAfter r sender w c n h = send-HungAfter r w c h (transmitted_hung r w c h)
serve-HungAfter on keep_alive w c n h = tt
serve-HungAfter breaks keep_alive w c n h = break_off-HungAfter w c h
serve-HungAfter takes keep_alive w c n h = shut_off c.is_socket_open _ h.cut
serve-HungAfter garbles keep_alive w c n h = tt
serve-HungAfter fires keep_alive w c n h = tt
serve-HungAfter (gives msg) keep_alive w c n h = tt

pub proceed-HungAfter :
    (r : Report) (p : Phase) (w : Worker) (c : Client)
    → NoFrame r
    → IsHung c
    → HungAfter (proceed r p w c)
unfolding proceed wake_up
proceed-HungAfter r starts w c n h = if_HungAfter c.is_start.v _ _ (h, refl) tt
proceed-HungAfter r loops w c n h = if_HungAfter c.is_stop.v _ _ (h, refl) (h, refl)
proceed-HungAfter r busy w c n h = serve-HungAfter r w.kind w c n h
proceed-HungAfter on (throttled t) w c n h = tt
proceed-HungAfter breaks (throttled t) w c n h = if_HungAfter c.is_cancelled _ _ (h, refl) tt
proceed-HungAfter takes (throttled t) w c n h = tt
proceed-HungAfter garbles (throttled t) w c n h = tt
proceed-HungAfter fires (throttled t) w c n h = (h, refl)
proceed-HungAfter (gives msg) (throttled t) w c n h = tt
proceed-HungAfter r exited w c n h = tt

-- A looping sender goes on looping.
serve_looping :
    (r : Report) (k : Kind) (w : Worker) (c : Client)
    → IsHung c
    → w.kind ≡ sender
    → k ≡ sender
    → StillLooping (serve r k w c)
unfolding serve
serve_looping r listener w c h e q = absurd (cc)
serve_looping r sender w c h e q = rw (send_idle r w c h) (transmitted-none r w c e)
serve_looping r keep_alive w c h e q = absurd (cc)

loops_on :
    (t : Bool) (w : Worker) (c : Client)
    → t ≡ false
    → w.kind ≡ sender
    → StillLooping (
        if t
        then some (record w { phase = exited }, c, false)
        else some (record w { phase = busy }, c, false))
loops_on true w c e k = absurd (cc)
loops_on false w c e k = (k, inr refl)

pub proceed_looping :
    (r : Report) (p : Phase) (w : Worker) (c : Client)
    → IsHung c
    → w.kind ≡ sender
    → (p ≡ loops) ⊎ (p ≡ busy)
    → StillLooping (proceed r p w c)
unfolding proceed
proceed_looping r loops w c h k l = loops_on c.is_stop.v w c h.not_stopped k
proceed_looping r busy w c h k l = serve_looping r w.kind w c h k k
proceed_looping r starts w c h k l = absurd (ground arith)
proceed_looping r (throttled n) w c h k l = absurd (ground arith)
proceed_looping r exited w c h k l = absurd (ground arith)
