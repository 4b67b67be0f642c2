-- ===== src/Client/Ending.antt =====
-- The receipts of a client after `Close`.
use go_uspclient.Base.{ℕ, refl, Bool, true, false, not, [], Option, none, some, if◌then◌else◌, ◌==◌}
use go_uspclient.Protocol.Messages.{ControlMessage}
use go_uspclient.Buffer.State.{AckBuffer, ReceiptFrameState}
use go_uspclient.Buffer.Stopped.{IsStopped, close_stops}
use go_uspclient.Buffer.Detached.{IsDetached}
use go_uspclient.Client.State.{ClientError, Client}
use go_uspclient.Client.Control.{process_control_message}
use go_uspclient.Client.Threads.{
  Thread, marking, cancelling, sealing, stopping, locking, joining, collecting, releasing, shutting,
  returned, shrinking, rewinding, connecting, dialing, checking, starting, spawning, handing,
  publishing, unlocking, failing, waiting, finished, closes, reconnects, Answer, fails, reads,
  goes_on, answered, advance, give_up,
}
use go_uspclient.Client.Keeping.{Keeps}
use go_uspclient.Client.Final.{
  IsStopped-kept, IsDetached-kept, IsFinal, IsFinal-kept, closed-IsFinal, some_kept,
}

-- What holds of the client once a thread has come to this point.
abbrev pub Due : Thread → Client → Type 0
Due (stopping closes) c = IsStopped c.buffer
Due (locking closes) c = IsStopped c.buffer
Due (joining closes) c = IsStopped c.buffer
Due collecting c = IsStopped c.buffer
Due (releasing ms) c = IsStopped c.buffer
Due (shutting ms) c = (f : ℕ → ReceiptFrameState) × IsDetached f c.buffer
Due (returned ms) c = (f : ℕ → ReceiptFrameState) × IsFinal f c
Due t c = Unit

nothing_kept : Keeps (λ c. Unit)
nothing_kept = record {
  rest = λ c c' e s. tt;
  acks = λ n c s. tt;
  window = λ n c h s. tt;
  delivery = λ c s. tt;
  reset = λ c s. tt;
  seal = λ c s. tt;
  detach = λ c s. tt;
  lifetime = λ l c s. tt;
  owner = λ c s. tt;
  drain = λ c s. tt;
  polls = λ done c s. tt;
  timeout = λ w c s. tt;
  add = λ e size waiter receipt limit c s. tt;
}

pub Due-kept : (t : Thread) → Keeps (Due t)
Due-kept (stopping closes) = IsStopped-kept
Due-kept (locking closes) = IsStopped-kept
Due-kept (joining closes) = IsStopped-kept
Due-kept collecting = IsStopped-kept
Due-kept (releasing ms) = IsStopped-kept
Due-kept (shutting ms) = some_kept IsDetached-kept
Due-kept (returned ms) = some_kept IsFinal-kept
Due-kept (stopping reconnects) = nothing_kept
Due-kept (locking reconnects) = nothing_kept
Due-kept (joining reconnects) = nothing_kept
Due-kept marking = nothing_kept
Due-kept cancelling = nothing_kept
Due-kept sealing = nothing_kept
Due-kept shrinking = nothing_kept
Due-kept rewinding = nothing_kept
Due-kept connecting = nothing_kept
Due-kept dialing = nothing_kept
Due-kept checking = nothing_kept
Due-kept starting = nothing_kept
Due-kept spawning = nothing_kept
Due-kept handing = nothing_kept
Due-kept publishing = nothing_kept
Due-kept unlocking = nothing_kept
Due-kept failing = nothing_kept
Due-kept waiting = nothing_kept
Due-kept finished = nothing_kept

-- What a thread's step leaves.
abbrev pub DueAfter : Option (Thread × Client × Bool) → Type 0
DueAfter none = Unit
DueAfter (some (t, c, b)) = Due t c

if_DueAfter :
    (x : Bool) (p q : Option (Thread × Client × Bool))
    → DueAfter p
    → DueAfter q
    → DueAfter (if x then p else q)
if_DueAfter true p q h k = h
if_DueAfter false p q h k = k

answered-DueAfter : (msg : ControlMessage) (c : Client) → DueAfter (some (answered msg c))
unfolding answered
answered-DueAfter msg c = after_answer (process_control_message msg c)
  where
    after_answer :
        (r : Option ClientError × Client × Bool)
        → DueAfter (
            some
              (elim r.0 [ none ↦ (checking, r.1, r.2) | some e ↦ (failing, give_up e r.1, r.2) ]))
    after_answer (none, c', b) = tt
    after_answer (some e, c', b) = tt

dialing-DueAfter : (a : Answer) (n : ℕ) (c : Client) → DueAfter (advance a n dialing c)
unfolding advance
dialing-DueAfter fails n c = tt
dialing-DueAfter (reads msg) n c = answered-DueAfter msg c
dialing-DueAfter goes_on n c = tt

waiting-DueAfter : (a : Answer) (n : ℕ) (c : Client) → DueAfter (advance a n waiting c)
unfolding advance
waiting-DueAfter fails n c = if_DueAfter c.is_cancelled _ _ tt tt
waiting-DueAfter (reads msg) n c = tt
waiting-DueAfter goes_on n c = tt

detaches :
    (b : AckBuffer)
    → IsStopped b
    → IsDetached b.cells (record b { receipts = []; deliver_cursor = none })
detaches b h = record { stopped = h; untracked = refl; cells = refl }

module _ (a : Answer) (n : ℕ) (c : Client) where
  pub advance-DueAfter : (t : Thread) → Due t c → DueAfter (advance a n t c)
  unfolding advance
  advance-DueAfter marking h = tt
  advance-DueAfter cancelling h = tt
  advance-DueAfter sealing h = close_stops c.buffer
  advance-DueAfter (stopping closes) h = h
  advance-DueAfter (locking closes) h = if_DueAfter c.is_locked _ _ tt h
  advance-DueAfter (joining closes) h = if_DueAfter (not (n == 0)) _ _ tt h
  advance-DueAfter (stopping reconnects) h = tt
  advance-DueAfter (locking reconnects) h = if_DueAfter c.is_locked _ _ tt tt
  advance-DueAfter (joining reconnects) h = if_DueAfter (not (n == 0)) _ _ tt tt
  advance-DueAfter collecting h = h
  advance-DueAfter (releasing ms) h = (c.buffer.cells, detaches c.buffer h)
  advance-DueAfter (shutting ms) (f, d) = (f, closed-IsFinal f c d)
  advance-DueAfter (returned ms) h = tt
  advance-DueAfter shrinking h = tt
  advance-DueAfter rewinding h = tt
  advance-DueAfter connecting h =
      if_DueAfter c.is_locked _ _ tt (if_DueAfter c.is_closing _ _ tt tt)
  advance-DueAfter dialing h = dialing-DueAfter a n c
  advance-DueAfter checking h = if_DueAfter c.is_closing _ _ tt tt
  advance-DueAfter starting h = tt
  advance-DueAfter spawning h = tt
  advance-DueAfter handing h = tt
  advance-DueAfter publishing h = tt
  advance-DueAfter unlocking h = tt
  advance-DueAfter failing h = if_DueAfter c.is_closing _ _ tt tt
  advance-DueAfter waiting h = waiting-DueAfter a n c
  advance-DueAfter finished h = tt
