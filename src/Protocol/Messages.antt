-- ===== src/Protocol/Messages.antt =====
-- protocol/messages.go. A Go string or byte slice is the list of its bytes. A decoded JSON value is
-- one of the dynamic types that `estimateJSONValue` of byte_budget.go tells apart; a map is the
-- list of its entries in the order in which a `range` loop meets them.
use go_uspclient.Base.{ℕ, Bool, false, List, [], String}

abbrev pub Bytes : Type 0
Bytes = List ℕ

mutual
  pub data JsonValue : Type 0 where
    text : Bytes → JsonValue
    object : JsonMap → JsonValue
    array : JsonArray → JsonValue
    texts : List Bytes → JsonValue
    text_map : List (Bytes × Bytes) → JsonValue
    binary : Bytes → JsonValue
    scalar : JsonValue
    other : JsonValue

  pub data JsonMap : Type 0 where
    no_entries : JsonMap
    entry : Bytes → JsonValue → JsonMap → JsonMap

  pub data JsonArray : Type 0 where
    no_elements : JsonArray
    element : JsonValue → JsonArray → JsonArray

pub record DataMessage : Type 0 where
  pub seq_num : ℕ
  pub ack_requested : Bool
  pub text_payload : Bytes
  pub json_payload : JsonMap
  pub binary_payload : Bytes
  pub bundle_payload : Bytes
  pub compressed_bundle_payload : Bytes
  pub event_type : Bytes
  pub timestamp_ms : ℕ
  pub this_atom : Bytes
  pub parent_atom : Bytes
  pub target_atom : Bytes
  pub investigation_id : Bytes

-- `&protocol.DataMessage{SeqNum: seq}`
abbrev pub with_seq_num : ℕ → DataMessage
with_seq_num seq = record {
  seq_num = seq;
  ack_requested = false;
  text_payload = [];
  json_payload = no_entries;
  binary_payload = [];
  bundle_payload = [];
  compressed_bundle_payload = [];
  event_type = [];
  timestamp_ms = 0;
  this_atom = [];
  parent_atom = [];
  target_atom = [];
  investigation_id = [];
}

-- `ControlMessage`, with `Verb` a text and the optional components as numbers.
pub record ControlMessage : Type 0 where
  pub verb : String
  pub seq_num : ℕ
  pub duration : ℕ
  pub window_size : ℕ
  pub error : String
