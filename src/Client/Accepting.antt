-- ===== src/Client/Accepting.antt =====
-- Which options `ClientOptions.Validate` accepts.
use text.Mathlib.Text.{◌==◌}
use go_uspclient.Base.{
  ℕ, suc, ◌≡◌, ◌⊎◌, ◌↔◌, refl, Bool, true, false, not, ◌&&◌, ◌||◌, List, [], ◌∷◌, Option, none,
  some, String, arith, inl, inr, Option-cases, Bool-cases,
}
use go_uspclient.Protocol.Mapping.{
  Compilers, MappingDescriptor, IndexDescriptor, Invalid, validate, validate_index,
}
use go_uspclient.Client.Options.{
  ProxyOptions, ClientOptions, OptionsError, ParsedUrl, unparsed, with_user, without_user, wrapped,
  and_then, refuse, check_url, first_invalid, validate_proxy, validate_indexing, validate_mappings,
  validate_options,
}

module _ {A : Type 0} (check : A → Option Invalid) where
  -- Every element passes the check.
  abbrev AllPass : List A → Type 0
  AllPass [] = Unit
  AllPass (x ∷ xs) = (check x ≡ none) × AllPass xs

  first_invalid_iff : (i : ℕ) (xs : List A) → (first_invalid check i xs ≡ none) ↔ AllPass xs
  unfolding first_invalid
  first_invalid_iff i [] = ((λ _. tt), λ _. refl)
  first_invalid_iff i (x ∷ xs) = elim (Option-cases (check x)) [
    | inl e ↦
        let (to, from) = first_invalid_iff (suc i) xs in
        ((λ h. (e, to (ground (arith, e, h)))), λ h. ground (arith, e, from h.1))
    | inr (r, e) ↦ ((λ h. absurd (ground (arith, e, h))), λ h. absurd (cc (e, h.0)))
  ]

pub and_then_iff {ℓ} :
    {E : Type ℓ} (a r : Option E) → (and_then a r ≡ none) ↔ (a ≡ none) × (r ≡ none)
and_then_iff (some e) r = ((λ h. absurd (cc h)), λ h. absurd (cc h.0))
and_then_iff none r = ((λ h. (refl, h)), λ h. h.1)

pub refuse_iff {ℓ} : {E : Type ℓ} (b : Bool) (e : E) → (refuse b e ≡ none) ↔ (b ≡ false)
refuse_iff true e = ((λ h. absurd (cc h)), λ h. absurd (cc h))
refuse_iff false e = ((λ _. refl), λ _. refl)

module _ (parse : String → ParsedUrl) (lib : Compilers) where
  -- No proxy, or a URL without user information and a name and a password, or neither.
  abbrev IsProxyAccepted : ProxyOptions → Type 0
  IsProxyAccepted p =
      ((p.url == "") ≡ true)
      ⊎ ((parse p.url ≡ without_user) × ((p.username == "") ≡ (p.password == "")))

  abbrev AreMappingsAccepted : MappingDescriptor → List MappingDescriptor → Type 0
  AreMappingsAccepted m [] = validate lib m ≡ none
  AreMappingsAccepted m (d ∷ ds) = AllPass (validate lib) (d ∷ ds)

  pub record IsAccepted (o : ClientOptions) : Type 0 where
    pub oid : (o.identity.oid == "") ≡ false
    pub key : (o.identity.installation_key == "") ≡ false
    pub platform : (o.platform == "") ≡ false
    pub proxy : IsProxyAccepted o.proxy
    pub indexing : AllPass (validate_index lib) o.indexing
    pub mappings : AreMappingsAccepted o.mapping o.mappings

  wrapped_iff {ℓ} :
      {E : Type ℓ} (f : E → OptionsError) (r : Option E) → (wrapped f r ≡ none) ↔ (r ≡ none)
  wrapped_iff f none = ((λ _. refl), λ _. refl)
  wrapped_iff f (some x) = ((λ h. absurd (cc h)), λ h. absurd (cc h))

  check_url_iff : (u : ParsedUrl) → (check_url u ≡ none) ↔ (u ≡ without_user)
  check_url_iff unparsed = ((λ h. absurd (cc h)), λ h. absurd (cc h))
  check_url_iff with_user = ((λ h. absurd (cc h)), λ h. absurd (cc h))
  check_url_iff without_user = ((λ _. refl), λ _. refl)

  -- One of the two is missing.
  credentials_iff : (a b : Bool) → ((not a && b || a && not b) ≡ false) ↔ (a ≡ b)
  credentials_iff true true = ((λ _. refl), λ _. refl)
  credentials_iff true false = ((λ h. absurd (cc h)), λ h. absurd (cc h))
  credentials_iff false true = ((λ h. absurd (cc h)), λ h. absurd (cc h))
  credentials_iff false false = ((λ _. refl), λ _. refl)

  abbrev missing : ProxyOptions → Bool
  missing p =
      not (p.username == "") && p.password == "" || p.username == "" && not (p.password == "")

  validate_proxy_iff : (p : ProxyOptions) → (validate_proxy parse p ≡ none) ↔ IsProxyAccepted p
  unfolding validate_proxy
  validate_proxy_iff p = elim (Bool-cases (p.url == "")) [
    | inl e ↦ ((λ _. inl e), λ _. ground (arith, e))
    | inr e ↦
        let (split, join) =
          and_then_iff (check_url (parse p.url))
            (refuse (missing p) OptionsError.incomplete_proxy_credentials) in
        let (to, from) = check_url_iff (parse p.url) in
        let (to', from') = credentials_iff (p.username == "") (p.password == "") in
        let (to₂, from₂) = refuse_iff (missing p) OptionsError.incomplete_proxy_credentials in
        (
          (λ h. let q = split (ground (arith, e, h)) in inr (to q.0, to' (to₂ q.1))),
          λ h. elim h [
            | inl q ↦ absurd (cc (e, q))
            | inr q ↦ let k = join (from q.0, from₂ (from' q.1)) in ground (arith, e, k)
          ],
        )
  ]

  validate_indexing_iff :
      (ds : List IndexDescriptor)
      → (validate_indexing lib ds ≡ none) ↔ AllPass (validate_index lib) ds
  unfolding validate_indexing
  validate_indexing_iff ds =
      let (to, from) = wrapped_iff _ (first_invalid (validate_index lib) 0 ds) in
      let (to', from') = first_invalid_iff (validate_index lib) 0 ds in
      ((λ h. to' (to h)), λ h. from (from' h))

  validate_mappings_iff :
      (m : MappingDescriptor) (ds : List MappingDescriptor)
      → (validate_mappings lib m ds ≡ none) ↔ AreMappingsAccepted m ds
  unfolding validate_mappings
  validate_mappings_iff m [] = wrapped_iff _ _
  validate_mappings_iff m (d ∷ ds) =
      let (to, from) = wrapped_iff _ (first_invalid (validate lib) 0 (d ∷ ds)) in
      let (to', from') = first_invalid_iff (validate lib) 0 (d ∷ ds) in
      ((λ h. to' (to h)), λ h. from (from' h))

  -- `Validate` accepts exactly the options that name an organization, a key and a platform, whose
  -- proxy has a URL without user information and either both credentials or none, if there is a
  -- proxy, and whose index and mapping descriptors are all valid, where `Mapping` counts only if
  -- there are no `Mappings`.
  pub validate_options_iff :
      (o : ClientOptions) → (validate_options parse lib o ≡ none) ↔ IsAccepted o
  unfolding validate_options
  validate_options_iff o = (accepts, refuses)
    where
      accepts : validate_options parse lib o ≡ none → IsAccepted o
      accepts h =
          let a = (and_then_iff _ _).0 h in
          let b = (and_then_iff _ _).0 a.1 in
          let c = (and_then_iff _ _).0 b.1 in
          let d = (and_then_iff _ _).0 c.1 in
          let e = (and_then_iff _ _).0 d.1 in
          record {
            oid = (refuse_iff _ _).0 a.0;
            key = (refuse_iff _ _).0 b.0;
            platform = (refuse_iff _ _).0 c.0;
            proxy = (validate_proxy_iff o.proxy).0 d.0;
            indexing = (validate_indexing_iff o.indexing).0 e.0;
            mappings = (validate_mappings_iff o.mapping o.mappings).0 e.1;
          }

      refuses : IsAccepted o → validate_options parse lib o ≡ none
      refuses h = (and_then_iff _ _).1 (
        (refuse_iff _ _).1 h.oid,
        (and_then_iff _ _).1 (
          (refuse_iff _ _).1 h.key,
          (and_then_iff _ _).1 (
            (refuse_iff _ _).1 h.platform,
            (and_then_iff _ _).1 (
              (validate_proxy_iff o.proxy).1 h.proxy,
              (and_then_iff _ _).1 (
                (validate_indexing_iff o.indexing).1 h.indexing,
                (validate_mappings_iff o.mapping o.mappings).1 h.mappings,
              ),
            ),
          ),
        ),
      )
