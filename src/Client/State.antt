-- ===== src/Client/State.antt =====
-- The state that the goroutines of a `Client` share.
use go_uspclient.Base.{ℕ, Bool, true, false, Option, none, some, String, ltb, if◌then◌else◌}
use go_uspclient.Event.{Event, new_event, set_event}
use go_uspclient.Buffer.State.{AckBuffer}

pub data ReceiptLifetime : Type 0 where
  unknown live closing closed : ReceiptLifetime

-- The order of the Go constants.
abbrev pub rank : ReceiptLifetime → ℕ
rank unknown = 0
rank live = 1
rank closing = 2
rank closed = 3

-- The errors that the client keeps in `lastError`.
pub data ClientError : Type 0 where
  ack_failed reconnect_requested io_failed client_closing : ClientError
  server_error unknown_verb : String → ClientError

-- `receipt_owner` is the lifetime in the owner's cell, if the client has made its owner. `conn` says
-- that `c.conn` is not nil and `is_socket_open` that the socket has not been closed. `is_locked` is
-- `connMutex`, and `is_cancelled` says that `closeCtx` is done.
pub record Client : Type 0 where
  pub buffer : AckBuffer
  pub receipt_owner : Option ReceiptLifetime
  pub receipt_lifetime : ReceiptLifetime
  pub conn : Bool
  pub is_socket_open : Bool
  pub is_locked : Bool
  pub is_start : Event
  pub is_stop : Event
  pub is_reconnecting : Bool
  pub backoff_time : ℕ
  pub last_error : Option ClientError
  pub is_closing : Bool
  pub is_cancelled : Bool

-- The client as `NewClient` returns it: connected.
unfoldable pub new_client : AckBuffer → Client
unfolding new_event set_event
new_client buffer = record {
  buffer = buffer;
  receipt_owner = none;
  receipt_lifetime = unknown;
  conn = true;
  is_socket_open = true;
  is_locked = false;
  is_start = set_event new_event;
  is_stop = new_event;
  is_reconnecting = false;
  backoff_time = 0;
  last_error = none;
  is_closing = false;
  is_cancelled = false;
}

-- `setLastError`
abbrev pub set_last_error : Option ClientError → Client → Client
set_last_error e c = record c { last_error = e }

abbrev pub store_owner : ReceiptLifetime → Option ReceiptLifetime → Option ReceiptLifetime
store_owner l none = none
store_owner l (some o) = some l

-- `setReceiptLifetime`
unfoldable pub set_receipt_lifetime : ReceiptLifetime → Client → Client
set_receipt_lifetime l c =
    let l' = if ltb (rank c.receipt_lifetime) (rank l) then l else c.receipt_lifetime in
    record c { receipt_lifetime = l'; receipt_owner = store_owner l' c.receipt_owner }
