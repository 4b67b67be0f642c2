-- ===== src/Client/Api.antt =====
-- client.go: the calls that a program makes on a `Client`, in `TestSinkMode` and out of it.
use go_uspclient.Base.{ℕ, ◌+◌, ◌*◌, Bool, List, [], Option, none, some}
use go_uspclient.Protocol.Messages.{DataMessage}
use go_uspclient.Buffer.Blocking.{AddStep, added, size_of, add_round, buffered_bytes}
use go_uspclient.Buffer.Control.{begin_drain, DrainStep, drained, drain_round, get_un_acked}
use go_uspclient.Buffer.Run.{Op, run}
use go_uspclient.Client.State.{Client, ClientError}
use go_uspclient.Client.Options.{second}

-- What `NewClient` returned: in `TestSinkMode` there is no buffer.
pub data Handle : Type 0 where
  in_sink : Handle
  in_service : Client → Handle

-- The first round of `Ship`.
unfoldable pub ship : DataMessage → Handle → AddStep × Handle
ship e in_sink = (added, in_sink)
ship e (in_service c) =
    let (r, b) = add_round e (size_of e c.buffer) none none 0 c.buffer in
    (r, in_service (record c { buffer = b }))

unfoldable pub client_buffered_bytes : Handle → ℕ
client_buffered_bytes in_sink = 0
client_buffered_bytes (in_service c) = buffered_bytes c.buffer

unfoldable pub get_unsent : Handle → List (Option DataMessage)
get_unsent in_sink = []
get_unsent (in_service c) = get_un_acked c.buffer

unfoldable pub client_begin_drain : Handle → Handle
client_begin_drain in_sink = in_sink
client_begin_drain (in_service c) = in_service (record c { buffer = begin_drain c.buffer })

-- The deadline of `DrainContext`, which caps a context that has none at a minute from `now`.
unfoldable pub drain_deadline : ℕ → Option ℕ → ℕ
drain_deadline now none = now + 60 * second
drain_deadline now (some d) = d

-- The deadline of `Drain`.
unfoldable pub timeout_deadline : ℕ → ℕ → Option ℕ
timeout_deadline now timeout = some (now + timeout)

-- The first round of `DrainContext`; `done` says that the context is done by then.
unfoldable pub drain_context : Bool → Handle → DrainStep × Handle
drain_context done in_sink = (drained, in_sink)
drain_context done (in_service c) =
    let (r, b) = drain_round done (begin_drain c.buffer) in
    (r, in_service (record c { buffer = b }))

unfoldable pub get_last_error : Handle → Option ClientError
get_last_error in_sink = none
get_last_error (in_service c) = c.last_error

-- What goes on in the buffer of a client meanwhile.
abbrev pub meanwhile : List Op → Handle → Handle
meanwhile os in_sink = in_sink
meanwhile os (in_service c) = in_service (record c { buffer = run os c.buffer })
