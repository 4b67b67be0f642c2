-- ===== src/Protocol/Mapping.antt =====
-- protocol/mapping.go and protocol/indexing.go: validation of what a client declares. The regular
-- expression compiler, the grok compiler and the time zone database are parameters: a test says
-- whether they accept a text.
use text.Mathlib.Text.{◌==◌}
use go_uspclient.Protocol.Messages.{JsonMap}
use go_uspclient.Base.{
  Bool, true, false, not, ◌&&◌, ◌||◌, List, [], ◌∷◌, Option, none, some, String, if◌then◌else◌,
}

pub record FieldMapping : Type 0 where
  pub source_field : String
  pub destination_field : String

-- `Transform` is a JSON object.
pub record MappingDescriptor : Type 0 where
  pub parsing_re : String
  pub parsing_grok : List (String × String)
  pub sensor_key_path : String
  pub sensor_identity_type : String
  pub sensor_hostname_path : String
  pub event_type_path : String
  pub event_time_path : String
  pub event_time_timezone : String
  pub investigation_id_path : String
  pub is_rename_only : Bool
  pub mappings : List FieldMapping
  pub transform : JsonMap
  pub drop_fields : List String
  pub sensor_id_replication_path : String

pub record IndexDescriptor : Type 0 where
  pub events_included : List String
  pub events_excluded : List String
  pub path : String
  pub regexp : String
  pub index_type : String

unfoldable pub valid_sensor_identity_type : String → Bool
valid_sensor_identity_type t =
    t == "" || t == "email" || t == "username" || t == "github_login" || t == "device"

pub data Invalid : Type 0 where
  bad_identity_type bad_regexp bad_grok bad_timezone : Invalid

-- What validation needs from libraries: `regexp.Compile`, `grok.NewComplete`, `time.LoadLocation`.
pub record Compilers : Type 0 where
  pub regexp_ok : String → Bool
  pub grok_ok : List (String × String) → Bool
  pub timezone_ok : String → Bool

abbrev is_empty_grok : List (String × String) → Bool
is_empty_grok [] = true
is_empty_grok (p ∷ ps) = false

module _ (lib : Compilers) where
  -- `MappingDescriptor.Validate`: `none` is the nil error.
  unfoldable pub validate : MappingDescriptor → Option Invalid
  validate d =
      if not (valid_sensor_identity_type d.sensor_identity_type)
      then some bad_identity_type
      else if not (d.parsing_re == "") && not (lib.regexp_ok d.parsing_re)
      then some bad_regexp
      else if not (is_empty_grok d.parsing_grok) && not (lib.grok_ok d.parsing_grok)
      then some bad_grok
      else if not (d.event_time_timezone == "") && not (lib.timezone_ok d.event_time_timezone)
      then some bad_timezone
      else none

  -- `IndexDescriptor.Validate`
  unfoldable pub validate_index : IndexDescriptor → Option Invalid
  validate_index d =
      if not (d.regexp == "") && not (lib.regexp_ok d.regexp) then some bad_regexp else none
