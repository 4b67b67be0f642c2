-- ===== src/Size.antt =====
-- The size estimate of byte_budget.go. Sums are `uint64` sums.
use go_uspclient.Base.{
  ℕ, ◌+◌, ◌*◌, Bool, true, false, List, [], ◌∷◌, length, leb, if◌then◌else◌, add64,
}
use go_uspclient.Protocol.Messages.{
  Bytes, JsonValue, text, object, array, texts, text_map, binary, scalar, other, JsonMap,
  no_entries, entry, JsonArray, no_elements, element, DataMessage,
}

abbrev pub message_overhead_bytes : ℕ
message_overhead_bytes = 256

abbrev pub json_entry_overhead_bytes : ℕ
json_entry_overhead_bytes = 64

abbrev pub json_scalar_bytes : ℕ
json_scalar_bytes = 16

abbrev pub max_estimate_depth : ℕ
max_estimate_depth = 32

abbrev pub json_deep_penalty_bytes : ℕ
json_deep_penalty_bytes = 4096

-- `case []string`
pub estimate_texts : List Bytes → ℕ
estimate_texts [] = 0
estimate_texts (s ∷ ss) = add64 (json_entry_overhead_bytes + length s) (estimate_texts ss)

-- `case map[string]string`
pub estimate_text_map : List (Bytes × Bytes) → ℕ
estimate_text_map [] = 0
estimate_text_map ((k, s) ∷ ss) =
    add64 (json_entry_overhead_bytes + length k + length s) (estimate_text_map ss)

-- The loops of `estimateJSONMap` and of `case []interface{}` are `estimate_entries` and
-- `estimate_elements`; their argument is the depth at which the values stand.
unfoldable mutual
  unfolding estimate_texts estimate_text_map

  pub estimate_json_value : JsonValue → ℕ → ℕ
  estimate_json_value (text t) depth = length t
  estimate_json_value (object m) depth =
      let n = estimate_entries m (depth + 1) in
      if leb max_estimate_depth depth then json_deep_penalty_bytes else n
  estimate_json_value (array a) depth =
      let n = estimate_elements a (depth + 1) in
      if leb max_estimate_depth depth then json_deep_penalty_bytes else n
  estimate_json_value (texts ss) depth = estimate_texts ss
  estimate_json_value (text_map ss) depth = estimate_text_map ss
  estimate_json_value (binary b) depth = length b
  estimate_json_value scalar depth = json_scalar_bytes
  estimate_json_value other depth = 2 * json_entry_overhead_bytes

  pub estimate_entries : JsonMap → ℕ → ℕ
  estimate_entries no_entries depth = 0
  estimate_entries (entry k v m) depth =
      add64 (json_entry_overhead_bytes + length k + estimate_json_value v depth)
        (estimate_entries m depth)

  pub estimate_elements : JsonArray → ℕ → ℕ
  estimate_elements no_elements depth = 0
  estimate_elements (element v a) depth =
      add64 (json_entry_overhead_bytes + estimate_json_value v depth) (estimate_elements a depth)

unfoldable pub estimate_json_map : JsonMap → ℕ → ℕ
unfolding estimate_entries estimate_json_value estimate_elements
estimate_json_map m depth =
    let n = estimate_entries m (depth + 1) in
    if leb max_estimate_depth depth then json_deep_penalty_bytes else n

abbrev pub has_entries : JsonMap → Bool
has_entries no_entries = false
has_entries (entry k v m) = true

unfoldable pub estimate_message_size : DataMessage → ℕ
unfolding estimate_json_map
estimate_message_size m =
    let n = add64 message_overhead_bytes (
      length m.text_payload
      + length m.binary_payload
      + length m.bundle_payload
      + length m.compressed_bundle_payload
      + length m.event_type
      + length m.this_atom
      + length m.parent_atom
      + length m.target_atom
      + length m.investigation_id) in
    if has_entries m.json_payload then add64 n (estimate_json_map m.json_payload 0) else n
