-- ===== src/Protocol/Decoding.antt =====
-- protocol/mapping.go: `MappingDescriptor.UnmarshalJSON`. The JSON package and `strconv.ParseBool` are
-- parameters.
use text.Mathlib.Text.{◌==◌}
use text.Mathlib.TextPositions.{eq_refl}
use go_uspclient.Base.{
  ◌≡◌, refl, sym, ap, ◌∙◌, Bool, List, [], ◌∷◌, Option, none, some, String, if◌then◌else◌, inl, inr,
  Bool-cases, Option-cases, ◌⊎◌,
}
use go_uspclient.Protocol.Mapping.{MappingDescriptor}

-- `Value` is a decoded `interface{}`, and a `map[string]interface{}` is the list of its entries.
-- `as_text` is the assertion `ro.(string)`; `parse`, `render` and `fill` are `json.Unmarshal` into a
-- map, `json.Marshal` of a map and `json.Unmarshal` into a descriptor; `none` is an error.
pub record Json : Type 1 where
  pub Value : Type 0
  pub as_text : Value → Option String
  pub of_bool : Bool → Value
  pub parse : String → Option (List (String × Value))
  pub render : List (String × Value) → Option String
  pub fill : String → Option MappingDescriptor
  pub parse_bool : String → Option Bool

pub data UnmarshalError : Type 0 where
  not_an_object not_a_bool not_rendered not_a_descriptor : UnmarshalError

-- On an error the descriptor is as it was.
pub data Unmarshaled : Type 0 where
  loaded : MappingDescriptor → Unmarshaled
  failed : UnmarshalError → Unmarshaled

module _ {V : Type 0} where
  -- `d[key]` and `d[key] = v`
  unfoldable pub lookup : List (String × V) → String → Option V
  lookup [] key = none
  lookup ((k, v) ∷ d) key = if k == key then some v else lookup d key

  unfoldable pub put : List (String × V) → String → V → List (String × V)
  put [] key v = (key, v) ∷ []
  put ((k, u) ∷ d) key v = if k == key then (k, v) ∷ d else (k, u) ∷ put d key v

  lookup-put : (d : List (String × V)) (key : String) (v : V) → lookup (put d key v) key ≡ some v
  unfolding lookup put
  lookup-put [] key v = rw (eq_refl key) refl
  lookup-put ((k, u) ∷ d) key v = elim (Bool-cases (k == key)) [
    | inl e ↦ rw (e, e) refl
    | inr e ↦ rw (e, e) (lookup-put d key v)
  ]

abbrev pub rename_only : String
rename_only = "rename_only"

module _ (lib : Json) where
  -- Marshal the map again, and decode that into a descriptor.
  abbrev load : Option String → Unmarshaled
  load none = failed not_rendered
  load (some t) = elim (lib.fill t) [ none ↦ failed not_a_descriptor | some d ↦ loaded d ]

  -- `d["rename_only"]`, if it is a text, becomes a Boolean; `none` is the error of `ParseBool`.
  abbrev with_bool : List (String × lib.Value) → Option Bool → Option (List (String × lib.Value))
  with_bool d none = none
  with_bool d (some b) = some (put d rename_only (lib.of_bool b))

  abbrev with_text : List (String × lib.Value) → Option String → Option (List (String × lib.Value))
  with_text d none = some d
  with_text d (some s) = with_bool d (lib.parse_bool s)

  unfoldable pub normalize :
      List (String × lib.Value) → Option lib.Value → Option (List (String × lib.Value))
  normalize d none = some d
  normalize d (some v) = with_text d (lib.as_text v)

  abbrev load_normal : Option (List (String × lib.Value)) → Unmarshaled
  load_normal none = failed not_a_bool
  load_normal (some d) = load (lib.render d)

  abbrev load_object : Option (List (String × lib.Value)) → Unmarshaled
  load_object none = failed not_an_object
  load_object (some d) = load_normal (normalize d (lookup d rename_only))

  unfoldable pub unmarshal_json : String → Unmarshaled
  unmarshal_json json = load_object (lib.parse json)

-- That `rename_only` may be a text: `json` gives it as the text `s`. The law is that a Boolean is no
-- text to a type assertion.
module _ (lib : Json) (untyped : (b : Bool) → lib.as_text (lib.of_bool b) ≡ none) where
  normalize_text :
      (d : List (String × lib.Value)) (v : lib.Value) (s : String)
      → lookup d rename_only ≡ some v
      → lib.as_text v ≡ some s
      → normalize lib d (lookup d rename_only) ≡ with_bool lib d (lib.parse_bool s)
  unfolding normalize
  normalize_text d v s h t = ap (normalize lib d) h ∙ ap (with_text lib d) t

  -- A second document that has the Boolean in the place of the text.
  normalize_bool :
      (d : List (String × lib.Value)) (b : Bool)
      → let d' = put d rename_only (lib.of_bool b) in
        normalize lib d' (lookup d' rename_only) ≡ some d'
  unfolding normalize
  normalize_bool d b =
      let d' = put d rename_only (lib.of_bool b) in
      ap (normalize lib d') (lookup-put d rename_only (lib.of_bool b))
      ∙ ap (with_text lib d') (untyped b)

  -- Where `rename_only` is a text: a document that spells a Boolean in it loads exactly as the
  -- document that has the Boolean itself in its place, be it into a descriptor or into an error; and
  -- one that spells none is an error of `ParseBool`.
  pub unmarshal_json_text :
      (json json' : String) (d : List (String × lib.Value)) (v : lib.Value) (s : String)
      → lib.parse json ≡ some d
      → lookup d rename_only ≡ some v
      → lib.as_text v ≡ some s
      → ((b : Bool)
          → lib.parse_bool s ≡ some b
          → lib.parse json' ≡ some (put d rename_only (lib.of_bool b)))
      → (unmarshal_json lib json ≡ unmarshal_json lib json')
        ⊎ ((lib.parse_bool s ≡ none) × (unmarshal_json lib json ≡ failed not_a_bool))
  unfolding unmarshal_json
  unmarshal_json_text json json' d v s p h t q =
      let n = normalize_text d v s h t in
      let here : unmarshal_json lib json ≡ load_normal lib (with_bool lib d (lib.parse_bool s)) =
        ap (load_object lib) p ∙ ap (load_normal lib) n in
      elim (Option-cases (lib.parse_bool s)) [
        | inl e ↦ inr (e, here ∙ ap (λ r. load_normal lib (with_bool lib d r)) e)
        | inr (b, e) ↦ inl (
            here
            ∙ ap (λ r. load_normal lib (with_bool lib d r)) e
            ∙ sym (ap (load_object lib) (q b e) ∙ ap (load_normal lib) (normalize_bool d b)))
      ]
