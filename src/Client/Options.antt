-- ===== src/Client/Options.antt =====
-- The options of client.go: their defaults, `Validate`, and the checks of `NewClient`. The URL parser
-- is a parameter beside the compilers of Protocol/Mapping.
use text.Mathlib.Text.{◌==◌}
use go_uspclient.Base.{
  ℕ, zero, suc, ◌*◌, ◌^◌, Bool, true, false, not, ◌&&◌, ◌||◌, List, [], ◌∷◌, Option, none, some,
  String, if◌then◌else◌,
}
use go_uspclient.Buffer.State.{AckBufferOptions}
use go_uspclient.Protocol.Mapping.{
  Compilers, MappingDescriptor, IndexDescriptor, Invalid, validate, validate_index,
}

pub record Identity : Type 0 where
  pub oid : String
  pub installation_key : String

-- Times are in nanoseconds.
pub record ProxyOptions : Type 0 where
  pub url : String
  pub username : String
  pub password : String
  pub handshake_timeout : ℕ
  pub connect_timeout : ℕ
  pub read_write_timeout : ℕ

-- Without the callbacks.
pub record ClientOptions : Type 0 where
  pub identity : Identity
  pub hostname : String
  pub platform : String
  pub architecture : String
  pub mapping : MappingDescriptor
  pub mappings : List MappingDescriptor
  pub indexing : List IndexDescriptor
  pub buffer_options : AckBufferOptions
  pub is_compressed : Bool
  pub sensor_seed_key : String
  pub dest_url : String
  pub test_sink_mode : Bool
  pub proxy : ProxyOptions

abbrev pub second : ℕ
second = 10 ^ 9

abbrev or_default : ℕ → ℕ → ℕ
or_default d zero = d
or_default d (suc t) = suc t

unfoldable pub normalize_proxy_config : ClientOptions → ClientOptions
normalize_proxy_config o = record o {
  proxy = record o.proxy {
    handshake_timeout = or_default (45 * second) o.proxy.handshake_timeout;
    connect_timeout = or_default (10 * second) o.proxy.connect_timeout;
    read_write_timeout = or_default (30 * second) o.proxy.read_write_timeout;
  };
}

pub data OptionsError : Type 0 where
  missing_oid missing_installation_key missing_platform : OptionsError
  invalid_proxy_url proxy_url_with_credentials incomplete_proxy_credentials : OptionsError
  -- the descriptor at this position
  invalid_index invalid_mapping_at : ℕ → Invalid → OptionsError
  invalid_mapping : Invalid → OptionsError

-- What `url.Parse` says of a text: an error, or a URL, with user information or without.
pub data ParsedUrl : Type 0 where
  unparsed with_user without_user : ParsedUrl

abbrev pub check_url : ParsedUrl → Option OptionsError
check_url unparsed = some invalid_proxy_url
check_url with_user = some proxy_url_with_credentials
check_url without_user = none

-- The next check, if there was no error so far.
abbrev pub and_then {ℓ} : {E : Type ℓ} → Option E → Option E → Option E
and_then (some e) r = some e
and_then none r = r

abbrev pub refuse {ℓ} : {E : Type ℓ} → Bool → E → Option E
refuse true e = some e
refuse false e = none

-- An error is wrapped in another one.
abbrev pub wrapped {ℓ} : {E : Type ℓ} → (E → OptionsError) → Option E → Option OptionsError
wrapped f none = none
wrapped f (some e) = some (f e)

module _ {A : Type 0} (check : A → Option Invalid) where
  -- The first descriptor that is invalid, from position `i` on.
  unfoldable pub first_invalid : ℕ → List A → Option (ℕ × Invalid)
  first_invalid i [] = none
  first_invalid i (x ∷ xs) =
      let rest = first_invalid (suc i) xs in elim (check x) [ some e ↦ some (i, e) | none ↦ rest ]

unfoldable pub validate_proxy : (String → ParsedUrl) → ProxyOptions → Option OptionsError
validate_proxy parse p =
    if p.url == ""
    then none
    else and_then (check_url (parse p.url)) (
        refuse
          (not (p.username == "") && p.password == "" || p.username == "" && not (p.password == ""))
          incomplete_proxy_credentials)

module _ (lib : Compilers) where
  unfoldable pub validate_indexing : List IndexDescriptor → Option OptionsError
  validate_indexing ds =
      wrapped (λ (i, e). invalid_index i e) (first_invalid (validate_index lib) 0 ds)

  -- `Mapping` is looked at only if there are no `Mappings`.
  unfoldable pub validate_mappings :
      MappingDescriptor → List MappingDescriptor → Option OptionsError
  validate_mappings m [] = wrapped invalid_mapping (validate lib m)
  validate_mappings m (d ∷ ds) =
      wrapped (λ (i, e). invalid_mapping_at i e) (first_invalid (validate lib) 0 (d ∷ ds))

-- `ClientOptions.Validate`; `none` is the nil error.
unfoldable pub validate_options :
    (String → ParsedUrl) → Compilers → ClientOptions → Option OptionsError
validate_options parse lib o = and_then (refuse (o.identity.oid == "") missing_oid) (
    and_then (refuse (o.identity.installation_key == "") missing_installation_key) (
      and_then (refuse (o.platform == "") missing_platform) (
        and_then (validate_proxy parse o.proxy) (
          and_then (validate_indexing lib o.indexing)
            (validate_mappings lib o.mapping o.mappings)))))
