-- ===== src/Client/Passing.antt =====
-- Which options the tests of `NewClient` let through.
use text.Mathlib.Text.{◌==◌}
use text.Mathlib.TextEquality.{eq_iff}
use go_uspclient.Base.{
  ℕ, suc, ◌≡◌, ◌⊎◌, ◌↔◌, refl, Bool, true, false, not, ◌&&◌, List, [], ◌∷◌, none, String, arith,
  inl, inr,
}
use go_uspclient.Protocol.Mapping.{Compilers, MappingDescriptor, valid_sensor_identity_type}
use go_uspclient.Client.Options.{ClientOptions}
use go_uspclient.Client.Starting.{
  StartError, is_nil, check_parsers, check_mappings, check_identity_types, check_options,
}
use go_uspclient.Client.Accepting.{and_then_iff, refuse_iff}

abbrev Every : (MappingDescriptor → Type 0) → List MappingDescriptor → Type 0
Every P [] = Unit
Every P (m ∷ ms) = P m × Every P ms

not-false_iff : (b : Bool) → (not b ≡ false) ↔ (b ≡ true)
not-false_iff true = ((λ _. refl), λ _. refl)
not-false_iff false = ((λ h. absurd (cc h)), λ h. absurd (cc h))

-- The test of a field that is set and refused.
unset_or_iff : (a b : Bool) → ((not a && not b) ≡ false) ↔ (a ≡ true) ⊎ (b ≡ true)
unset_or_iff true b = ((λ _. inl refl), λ _. refl)
unset_or_iff false true = ((λ _. inr refl), λ _. refl)
unset_or_iff false false =
    ((λ h. absurd (cc h)), λ h. absurd (elim h [ inl q ↦ cc q | inr q ↦ cc q ]))

-- The identity types that there are, and the text of none.
abbrev Known : String → Type 0
Known t = (t ≡ "") ⊎ (t ≡ "email") ⊎ (t ≡ "username") ⊎ (t ≡ "github_login") ⊎ (t ≡ "device")

Known-iff : (t : String) → (valid_sensor_identity_type t ≡ true) ↔ Known t
unfolding valid_sensor_identity_type
Known-iff t = ground (
  arith,
  eq_iff t "",
  eq_iff t "email",
  eq_iff t "username",
  eq_iff t "github_login",
  eq_iff t "device",
)

Known-test : (t : String) → (not (valid_sensor_identity_type t) ≡ false) ↔ Known t
Known-test t =
    ((λ h. (Known-iff t).0 ((not-false_iff _).0 h)), λ h. (not-false_iff _).1 ((Known-iff t).1 h))

module _ (lib : Compilers) (patterns_ok : List (String × String) → Bool) where
  abbrev HasKnownIdentity : MappingDescriptor → Type 0
  HasKnownIdentity m = Known m.sensor_identity_type

  -- Each parser that the descriptor has compiles.
  abbrev Compiles : MappingDescriptor → Type 0
  Compiles m =
      (((m.parsing_re == "") ≡ true) ⊎ (lib.regexp_ok m.parsing_re ≡ true))
      × ((is_nil m.parsing_grok ≡ true) ⊎ (patterns_ok m.parsing_grok ≡ true))

  abbrev Parses : MappingDescriptor → Type 0
  Parses m = ((m.parsing_re == "" && is_nil m.parsing_grok) ≡ false) × Compiles m

  pub record CanStart (o : ClientOptions) : Type 0 where
    pub identity : HasKnownIdentity o.mapping
    pub identities : Every HasKnownIdentity o.mappings
    pub parsers : Every Parses o.mappings
    pub parser : Compiles o.mapping

  check_parsers_iff :
      (re grok : StartError) (m : MappingDescriptor)
      → (check_parsers lib patterns_ok re grok m ≡ none) ↔ Compiles m
  unfolding check_parsers
  check_parsers_iff re grok m = (
    (λ h.
        let a = (and_then_iff _ _).0 h in
        (
          (unset_or_iff _ _).0 ((refuse_iff _ _).0 a.0),
          (unset_or_iff _ _).0 ((refuse_iff _ _).0 a.1),
        )),
    λ h. (and_then_iff _ _).1 (
      (refuse_iff _ _).1 ((unset_or_iff _ _).1 h.0),
      (refuse_iff _ _).1 ((unset_or_iff _ _).1 h.1),
    ),
  )

  check_mappings_iff :
      (i : ℕ) (ms : List MappingDescriptor)
      → (check_mappings lib patterns_ok i ms ≡ none) ↔ Every Parses ms
  unfolding check_mappings
  check_mappings_iff i [] = ((λ _. tt), λ _. refl)
  check_mappings_iff i (m ∷ ms) = (
    (λ h.
        let a = (and_then_iff _ _).0 h in
        let b = (and_then_iff _ _).0 a.1 in
        (
          ((refuse_iff _ _).0 a.0, (check_parsers_iff _ _ m).0 b.0),
          (check_mappings_iff (suc i) ms).0 b.1,
        )),
    λ h. (and_then_iff _ _).1 (
      (refuse_iff _ _).1 h.0.0,
      (and_then_iff _ _).1
          ((check_parsers_iff _ _ m).1 h.0.1, (check_mappings_iff (suc i) ms).1 h.1),
    ),
  )

  check_identity_types_iff :
      (ms : List MappingDescriptor) → (check_identity_types ms ≡ none) ↔ Every HasKnownIdentity ms
  unfolding check_identity_types
  check_identity_types_iff [] = ((λ _. tt), λ _. refl)
  check_identity_types_iff (m ∷ ms) = (
    (λ h.
        let a = (and_then_iff _ _).0 h in
        ((Known-test _).0 ((refuse_iff _ _).0 a.0), (check_identity_types_iff ms).0 a.1)),
    λ h.
        (and_then_iff _ _).1
          ((refuse_iff _ _).1 ((Known-test _).1 h.0), (check_identity_types_iff ms).1 h.1),
  )

  -- The tests of `NewClient` let options through exactly when the mappings all name the identity type
  -- email, username, github_login or device, or none, the `Mappings` each have a parser, and the
  -- parsers all compile, whatever the proxy options are.
  pub check_options_iff :
      (o : ClientOptions) → (check_options lib patterns_ok o ≡ none) ↔ CanStart o
  unfolding check_options
  check_options_iff o = (
    (λ h.
        let a = (and_then_iff _ _).0 h in
        let b = (and_then_iff _ _).0 a.1 in
        let c = (and_then_iff _ _).0 b.1 in
        record {
          identity = (Known-test _).0 ((refuse_iff _ _).0 a.0);
          identities = (check_identity_types_iff o.mappings).0 b.0;
          parsers = (check_mappings_iff 0 o.mappings).0 c.0;
          parser = (check_parsers_iff _ _ o.mapping).0 c.1;
        }),
    λ h. (and_then_iff _ _).1 (
      (refuse_iff _ _).1 ((Known-test _).1 h.identity),
      (and_then_iff _ _).1 (
        (check_identity_types_iff o.mappings).1 h.identities,
        (and_then_iff _ _).1 (
          (check_mappings_iff 0 o.mappings).1 h.parsers,
          (check_parsers_iff _ _ o.mapping).1 h.parser,
        ),
      ),
    ),
  )
