-- ===== src/Client/Starting.antt =====
-- client.go: what `NewClient` tests before it connects, and the header of a connection.
use text.Mathlib.Text.{◌==◌}
use go_uspclient.Base.{ℕ, suc, Bool, true, false, not, ◌&&◌, List, [], ◌∷◌, Option, none, String}
use go_uspclient.Protocol.Mapping.{Compilers, MappingDescriptor, valid_sensor_identity_type}
use go_uspclient.Protocol.Auth.{ConnectionHeader, current_version}
use go_uspclient.Client.Options.{ClientOptions, and_then, refuse}

pub data StartError : Type 0 where
  bad_identity_type bad_mappings_identity_type : StartError
  -- the mapping at this position
  missing_parser_at bad_regexp_at bad_grok_at : ℕ → StartError
  bad_regexp bad_grok : StartError

abbrev pub is_nil : List (String × String) → Bool
is_nil [] = true
is_nil (p ∷ ps) = false

unfoldable pub check_identity_types : List MappingDescriptor → Option StartError
check_identity_types [] = none
check_identity_types (m ∷ ms) =
    and_then
      (refuse (not (valid_sensor_identity_type m.sensor_identity_type)) bad_mappings_identity_type)
      (check_identity_types ms)

-- `regexp_ok` of `lib` is `regexp.Compile`; `patterns_ok` is `AddPatterns` on a new grok.
module _ (lib : Compilers) (patterns_ok : List (String × String) → Bool) where
  unfoldable pub check_parsers : StartError → StartError → MappingDescriptor → Option StartError
  check_parsers re grok m =
      and_then (refuse (not (m.parsing_re == "") && not (lib.regexp_ok m.parsing_re)) re)
        (refuse (not (is_nil m.parsing_grok) && not (patterns_ok m.parsing_grok)) grok)

  -- The loop over `Mappings` that needs a parser for each.
  unfoldable pub check_mappings : ℕ → List MappingDescriptor → Option StartError
  check_mappings i [] = none
  check_mappings i (m ∷ ms) =
      and_then (refuse (m.parsing_re == "" && is_nil m.parsing_grok) (missing_parser_at i))
        (and_then (check_parsers (bad_regexp_at i) (bad_grok_at i) m) (check_mappings (suc i) ms))

  -- The tests of `NewClient`; `none`: it goes on.
  unfoldable pub check_options : ClientOptions → Option StartError
  check_options o =
      and_then
        (refuse (not (valid_sensor_identity_type o.mapping.sensor_identity_type)) bad_identity_type)
        (and_then (check_identity_types o.mappings)
          (and_then (check_mappings 0 o.mappings) (check_parsers bad_regexp bad_grok o.mapping)))

-- The header that `connectBeforeWorkers` writes.
unfoldable pub connection_header : String → ClientOptions → ConnectionHeader
connection_header instance_id o = record {
  version = current_version;
  oid = o.identity.oid;
  installation_key = o.identity.installation_key;
  hostname = o.hostname;
  platform = o.platform;
  architecture = o.architecture;
  mapping = o.mapping;
  mappings = o.mappings;
  sensor_seed_key = o.sensor_seed_key;
  is_compressed = o.is_compressed;
  data_format = "msgpack";
  instance_id = instance_id;
  indexing = o.indexing;
}
