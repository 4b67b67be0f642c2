-- ===== src/Client/Threads.antt =====
-- client.go: the goroutines of `Close` and `Reconnect`, with `disconnect` and
-- `connectBeforeWorkers`, as program counters between their accesses to shared state.
use go_uspclient.Base.{ℕ, Bool, true, false, not, List, Option, none, some, ◌==◌, if◌then◌else◌}
use go_uspclient.Event.{set_event, clear_event}
use go_uspclient.Protocol.Messages.{DataMessage, ControlMessage}
use go_uspclient.Buffer.Deliver.{reset_delivery}
use go_uspclient.Buffer.Control.{release_receipt_tracking, close, get_un_acked, update_capacity}
use go_uspclient.Client.State.{
  closing, closed, ClientError, io_failed, Client, set_last_error, set_receipt_lifetime,
}
use go_uspclient.Client.Control.{process_control_message}

-- Who called `disconnect`.
pub data Caller : Type 0 where
  closes reconnects : Caller

pub data Thread : Type 0 where
  -- `Close` after `isClosing.Store(true)`: before `setReceiptLifetime`, `closeCancel`, `ab.Close`
  marking cancelling sealing : Thread
  -- `disconnect`: before `isStop.Set()`, before `connMutex.Lock()`, in `wg.Wait()`
  stopping locking joining : Caller → Thread
  -- `Close` after `disconnect`: before `GetUnAcked`, before `releaseReceiptTracking`, before the
  -- last `setReceiptLifetime`
  collecting : Thread
  releasing shutting : List (Option DataMessage) → Thread
  -- `Close` has returned these messages.
  returned : List (Option DataMessage) → Thread
  -- the goroutine of `Reconnect`: before `UpdateCapacity(1)` and before `ResetDelivery()`
  shrinking rewinding : Thread
  -- `connectBeforeWorkers`: before `connMutex.Lock()`; at the dial, the header and the read of the
  -- answer; before the second `isClosing.Load()`; before `isStop.Clear()`; before the workers start;
  -- before `beforeWorkers()`; before `isStart.Set()`; before the unlock
  connecting dialing checking starting spawning handing publishing unlocking : Thread
  -- `connectBeforeWorkers` returned an error; then the wait between two attempts
  failing waiting : Thread
  finished : Thread

-- What the environment answers where a thread waits for it.
pub data Answer : Type 0 where
  -- the dial, the header or the read of the answer failed, or the context fired
  fails : Answer
  -- the answer was read
  reads : ControlMessage → Answer
  -- a timer fired, or no answer is needed
  goes_on : Answer

-- `conn.Close()` on the way out of a failed connection attempt, and the deferred unlock.
abbrev pub give_up : ClientError → Client → Client
give_up e c = record c { is_locked = false; last_error = some e }

-- The answer that `connectBeforeWorkers` has read.
unfoldable pub answered : ControlMessage → Client → Thread × Client × Bool
answered msg c =
    let (e, c', spawned) = process_control_message msg c in
    elim e [
      | none ↦ (checking, c', spawned)
      | some failure ↦ (failing, give_up failure c', spawned)
    ]

-- `Close`, outside of `disconnect`.
abbrev pub close_step : Thread → Client → Option (Thread × Client × Bool)
close_step marking c = some (cancelling, set_receipt_lifetime closing c, false)
close_step cancelling c = some (sealing, record c { is_cancelled = true }, false)
close_step sealing c = some (stopping closes, record c { buffer = close c.buffer }, false)
close_step collecting c = some (releasing (get_un_acked c.buffer), set_last_error none c, false)
close_step (releasing ms) c =
    some (shutting ms, record c { buffer = release_receipt_tracking c.buffer }, false)
close_step (shutting ms) c = some (returned ms, set_receipt_lifetime closed c, false)
close_step t c = none

abbrev pub after_disconnect : Caller → Thread
after_disconnect closes = collecting
after_disconnect reconnects = shrinking

-- `disconnect` beside `alive` workers.
abbrev pub disconnect_step : ℕ → Thread → Client → Option (Thread × Client × Bool)
disconnect_step alive (stopping p) c =
    some (locking p, record c { is_stop = set_event c.is_stop }, false)
disconnect_step alive (locking p) c =
    if c.is_locked
    then none
    else some (joining p, record c { is_locked = true; is_socket_open = false }, false)
disconnect_step alive (joining p) c =
    if not (alive == 0)
    then none
    else some (after_disconnect p, record c { conn = false; is_locked = false }, false)
disconnect_step alive t c = none

-- The goroutine of `Reconnect`, outside of `disconnect` and `connectBeforeWorkers`.
abbrev pub reconnect_step : Answer → Thread → Client → Option (Thread × Client × Bool)
reconnect_step a shrinking c =
    some (rewinding, record c { buffer = update_capacity 1 c.buffer }, false)
reconnect_step a rewinding c =
    some (connecting, record c { buffer = reset_delivery c.buffer }, false)
reconnect_step a failing c =
    if c.is_closing
    then some (finished, record c { is_reconnecting = false }, false)
    else some (waiting, c, false)
reconnect_step fails waiting c =
    if c.is_cancelled then some (finished, record c { is_reconnecting = false }, false) else none
reconnect_step goes_on waiting c = some (connecting, c, false)
reconnect_step a t c = none

-- `connectBeforeWorkers`, whose callback clears `isReconnecting`.
abbrev pub connect_step : Answer → Thread → Client → Option (Thread × Client × Bool)
connect_step a connecting c =
    if c.is_locked
    then none
    else if c.is_closing
    then some (failing, c, false)
    else some (dialing, record c { is_locked = true; is_start = clear_event c.is_start }, false)
connect_step fails dialing c = some (failing, give_up io_failed c, false)
connect_step (reads msg) dialing c = some (answered msg c)
connect_step a checking c =
    if c.is_closing
    then some (failing, record c { is_locked = false }, false)
    else some (starting, c, false)
connect_step a starting c = some (spawning, record c { is_stop = clear_event c.is_stop }, false)
connect_step a spawning c = some (handing, record c { conn = true; is_socket_open = true }, false)
connect_step a handing c = some (publishing, record c { is_reconnecting = false }, false)
connect_step a publishing c = some (unlocking, record c { is_start = set_event c.is_start }, false)
connect_step a unlocking c = some (finished, record c { is_locked = false }, false)
connect_step a t c = none

-- One step of a thread beside `alive` workers: its next counter, the state, and whether a reconnect
-- goroutine starts. `none`: the thread is blocked or has ended.
unfoldable pub advance : Answer → ℕ → Thread → Client → Option (Thread × Client × Bool)
unfolding set_event clear_event
advance a alive (stopping p) c = disconnect_step alive (stopping p) c
advance a alive (locking p) c = disconnect_step alive (locking p) c
advance a alive (joining p) c = disconnect_step alive (joining p) c
advance a alive shrinking c = reconnect_step a shrinking c
advance a alive rewinding c = reconnect_step a rewinding c
advance a alive failing c = reconnect_step a failing c
advance a alive waiting c = reconnect_step a waiting c
advance a alive connecting c = connect_step a connecting c
advance a alive dialing c = connect_step a dialing c
advance a alive checking c = connect_step a checking c
advance a alive starting c = connect_step a starting c
advance a alive spawning c = connect_step a spawning c
advance a alive handing c = connect_step a handing c
advance a alive publishing c = connect_step a publishing c
advance a alive unlocking c = connect_step a unlocking c
advance a alive t c = close_step t c
