-- ===== src/Client/Workers.antt =====
-- client.go: `listener`, `sender` and `keepAliveSender`.
use go_uspclient.Base.{ℕ, ◌*◌, Bool, false, Option, none, some, ltb, ◌==◌, if◌then◌else◌}
use go_uspclient.Protocol.Messages.{DataMessage, ControlMessage}
use go_uspclient.Buffer.Deliver.{get_next_to_deliver}
use go_uspclient.Client.State.{io_failed, Client, set_last_error}
use go_uspclient.Client.Control.{reconnect, process_control_message}

pub data Kind : Type 0 where
  listener sender keep_alive : Kind

pub data Phase : Type 0 where
  -- before `isStart.Wait()` returns
  starts : Phase
  -- before the test of `isStop` at the head of the loop
  loops : Phase
  -- in the body of the loop; the sender before its test of `backoffTime`
  busy : Phase
  -- in `waitBackoff`, for so many seconds
  throttled : ℕ → Phase
  exited : Phase

pub record Worker : Type 0 where
  pub kind : Kind
  pub phase : Phase

-- What the environment answers: nothing is asked; the read, or the write, of the socket failed; the
-- socket gave a message, or took what was written; the encoder failed; the timer fired.
pub data Report : Type 0 where
  on breaks takes garbles fires : Report
  gives : ControlMessage → Report

abbrev pub max_backoff : ℕ
max_backoff = 24 * 3600

-- The cap on `backoffSec`.
unfoldable pub cap_backoff : ℕ → ℕ
cap_backoff n = if ltb max_backoff n then max_backoff else n

-- A failed worker asks for a reconnection and exits.
unfoldable pub break_off : Worker → Client → Worker × Client × Bool
break_off w c =
    let (spawned, c') = reconnect (set_last_error (some io_failed) c) in
    (record w { phase = exited }, c', spawned)

-- The listener's read and its answer. The socket's reader is buffered, so that a read may still give
-- a message once the socket is closed.
unfoldable pub listen : Report → Worker → Client → Option (Worker × Client × Bool)
listen breaks w c = some (break_off w c)
listen (gives msg) w c =
    let (e, c', spawned) = process_control_message msg c in
    some (record w { phase = loops }, c', spawned)
listen r w c = none

-- The sender's round with the message that `GetNextToDeliver` returned. Without one it loops.
unfoldable pub transmitted :
    Report → Option DataMessage → Worker → Client → Option (Worker × Client × Bool)
transmitted on none w c = some (record w { phase = loops }, c, false)
transmitted r none w c = none
transmitted breaks (some m) w c = some (break_off w c)
transmitted garbles (some m) w c =
    some (record w { phase = loops }, set_last_error (some io_failed) c, false)
transmitted takes (some m) w c =
    if c.is_socket_open then some (record w { phase = loops }, c, false) else none
transmitted r (some m) w c = none

unfoldable pub transmit : Report → Worker → Client → Option (Worker × Client × Bool)
unfolding transmitted
transmit r w c =
    let (m, b) = get_next_to_deliver c.buffer in transmitted r m w (record c { buffer = b })

-- The sender's body: `SwapUint64(&c.backoffTime, 0)` first.
unfoldable pub send : Report → Worker → Client → Option (Worker × Client × Bool)
unfolding transmit cap_backoff
send r w c =
    if c.backoff_time == 0
    then transmit r w c
    else some (
      record w { phase = throttled (cap_backoff c.backoff_time) },
      record c { backoff_time = 0 },
      false,
    )

unfoldable pub ping : Report → Worker → Client → Option (Worker × Client × Bool)
ping breaks w c = some (break_off w c)
ping takes w c = if c.is_socket_open then some (record w { phase = loops }, c, false) else none
ping r w c = none

unfoldable pub serve : Report → Kind → Worker → Client → Option (Worker × Client × Bool)
unfolding listen send ping
serve r listener w c = listen r w c
serve r sender w c = send r w c
serve r keep_alive w c = ping r w c

-- The end of `waitBackoff`: `closeCtx` is done, or the timer fired.
unfoldable pub wake_up : Report → Worker → Client → Option (Worker × Client × Bool)
wake_up fires w c = some (record w { phase = busy }, c, false)
wake_up breaks w c = if c.is_cancelled then some (record w { phase = exited }, c, false) else none
wake_up r w c = none

-- One step of a worker, as `advance` is one of a thread.
unfoldable pub proceed : Report → Phase → Worker → Client → Option (Worker × Client × Bool)
unfolding serve wake_up
proceed r starts w c = if c.is_start.v then some (record w { phase = loops }, c, false) else none
proceed r loops w c =
    if c.is_stop.v
    then some (record w { phase = exited }, c, false)
    else some (record w { phase = busy }, c, false)
proceed r busy w c = serve r w.kind w c
proceed r (throttled n) w c = wake_up r w c
proceed r exited w c = none

abbrev pub is_alive : Worker → ℕ
is_alive w = elim w.phase [ exited ↦ 0 | _ ↦ 1 ]

-- The three `go` statements.
abbrev pub new_worker : Kind → Worker
new_worker k = record { kind = k; phase = starts }
