-- ===== src/Client/Control.antt =====
-- client.go: `processControlMessage` and the part of `Reconnect` before its goroutine.
use text.Mathlib.Text.{◌==◌}
use go_uspclient.Base.{Bool, true, false, ◌||◌, Option, none, some, String, if◌then◌else◌}
use go_uspclient.Protocol.Messages.{ControlMessage}
use go_uspclient.Buffer.Deliver.{ack}
use go_uspclient.Buffer.Control.{update_capacity}
use go_uspclient.Client.State.{
  ClientError, ack_failed, reconnect_requested, server_error, unknown_verb, Client, set_last_error,
}

abbrev pub control_message_ack : String
control_message_ack = "ack"

abbrev pub control_message_backoff : String
control_message_backoff = "bo"

abbrev pub control_message_reconnect : String
control_message_reconnect = "re"

abbrev pub control_message_error : String
control_message_error = "error"

abbrev pub control_message_ready : String
control_message_ready = "rd"

abbrev pub control_message_flow : String
control_message_flow = "fl"

-- `Reconnect` up to its `go`: whether a goroutine starts.
unfoldable pub reconnect : Client → Bool × Client
reconnect c =
    if c.is_closing || c.is_reconnecting
    then (false, c)
    else (true, record c { is_reconnecting = true })

-- `case protocol.ControlMessageACK`
unfoldable pub process_ack : ControlMessage → Client → Client
process_ack msg c =
    let (e, b) = ack msg.seq_num c.buffer in
    let c' = record c { buffer = b } in
    elim e [ none ↦ c' | some failure ↦ set_last_error (some ack_failed) c' ]

-- The error that is returned, the new state, and whether a reconnect goroutine starts.
unfoldable pub process_control_message :
    ControlMessage → Client → Option ClientError × Client × Bool
process_control_message msg c =
    if msg.verb == control_message_ack
    then (none, process_ack msg c, false)
    else if msg.verb == control_message_backoff
    then (none, record c { backoff_time = msg.duration }, false)
    else if msg.verb == control_message_reconnect
    then (let (spawned, c') = reconnect c in (some reconnect_requested, c', spawned))
    else if msg.verb == control_message_error
    then (some (server_error msg.error), c, false)
    else if msg.verb == control_message_ready
    then (none, c, false)
    else if msg.verb == control_message_flow
    then (none, record c { buffer = update_capacity msg.window_size c.buffer }, false)
    else (some (unknown_verb msg.verb), set_last_error (some (unknown_verb msg.verb)) c, false)
