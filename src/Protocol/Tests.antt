-- ===== src/Protocol/Tests.antt =====
-- A descriptor is loaded from two documents, and the theorem at them.
use text.Mathlib.Text.{◌==◌}
use go_uspclient.Base.{
  ◌≡◌, ◌⊎◌, inl, inr, refl, Bool, true, false, List, [], ◌∷◌, Option, none, some, String,
  if◌then◌else◌,
}
use go_uspclient.Protocol.Messages.{no_entries}
use go_uspclient.Protocol.Mapping.{MappingDescriptor}
use go_uspclient.Protocol.Decoding.{
  Json, loaded, failed, not_a_bool, lookup, put, normalize, unmarshal_json, unmarshal_json_text,
}

abbrev renaming : Bool → MappingDescriptor
renaming r = record {
  parsing_re = "";
  parsing_grok = [];
  sensor_key_path = "";
  sensor_identity_type = "";
  sensor_hostname_path = "";
  event_type_path = "";
  event_time_path = "";
  event_time_timezone = "";
  investigation_id_path = "";
  is_rename_only = r;
  mappings = [];
  transform = no_entries;
  drop_fields = [];
  sensor_id_replication_path = "";
}

abbrev Value : Type 0
Value = String ⊎ Bool

abbrev spelled : Value → Option String
spelled (inl s) = some s
spelled (inr b) = none

abbrev shown : List (String × Value) → Option String
shown [] = none
shown ((k, inl s) ∷ d) = none
shown ((k, inr true) ∷ d) = some "{true}"
shown ((k, inr false) ∷ d) = some "{false}"

-- A JSON package that knows documents with one entry.
abbrev json : Json
json = record {
  Value = Value;
  as_text = spelled;
  of_bool = inr;
  parse = λ s.
      if s == "{text}"
      then some (("rename_only", inl "true") ∷ [])
      else if s == "{true}"
      then some (("rename_only", inr true) ∷ [])
      else none;
  render = shown;
  fill = λ s. if s == "{true}" then some (renaming true) else none;
  parse_bool = λ s. if s == "true" then some true else none;
}

loads_text : unmarshal_json json "{text}" ≡ loaded (renaming true)
unfolding unmarshal_json normalize lookup put
loads_text = refl

unmarshal_json_text_example :
    (unmarshal_json json "{text}" ≡ unmarshal_json json "{true}")
    ⊎ ((json.parse_bool "true" ≡ none) × (unmarshal_json json "{text}" ≡ failed not_a_bool))
unfolding lookup put
unmarshal_json_text_example =
    unmarshal_json_text json (λ b. refl) "{text}" "{true}" (("rename_only", inl "true") ∷ [])
      (inl "true") "true" refl refl refl spelled_true
  where
    spelled_true :
        (b : Bool)
        → json.parse_bool "true" ≡ some b
        → json.parse "{true}" ≡ some (put (("rename_only", inl "true") ∷ []) "rename_only" (inr b))
    spelled_true true h = refl
    spelled_true false h = absurd cc
