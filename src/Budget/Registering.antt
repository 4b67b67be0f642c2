-- ===== src/Budget/Registering.antt =====
-- The registration of a buffer in a fair budget, and its end.
use text.Mathlib.Text.{◌==◌ as str_eq}
use text.Mathlib.TextPositions.{eq_refl}
use go_uspclient.Base.{
  ℕ, zero, suc, ◌+◌, ◌<◌, ◌≡◌, refl, ap, ◌∙◌, true, false, List, [], ◌∷◌, ◌++◌, Option, none, some,
  String, arith, word, add64, sub64, length, get_or, get_or-set, set-set, set-get_or, set, ◌==◌,
  inl, inr, Bool-cases,
}
use go_uspclient.Budget.State.{
  BudgetGroup, ByteBudget, new_group, group_at, put_group, find_group, delete_group, Registered,
  ungrouped, missing_group, registered, register_fair, unregister_locked,
}

-- Every group that a key names is there, and has references.
abbrev pub AllHeld : List (String × ℕ) → List BudgetGroup → Type 0
AllHeld [] gs = Unit
AllHeld ((k, g) ∷ m) gs =
    (g < length gs)
    × (0 < (get_or gs g (new_group "" 0)).refs)
    × ((get_or gs g (new_group "" 0)).refs + 1 < word)
    × AllHeld m gs

find_group-AllHeld :
    (m : List (String × ℕ)) (gs : List BudgetGroup) (key : String) (g : ℕ)
    → AllHeld m gs
    → find_group m key ≡ some g
    → (g < length gs)
      × (0 < (get_or gs g (new_group "" 0)).refs)
      × ((get_or gs g (new_group "" 0)).refs + 1 < word)
unfolding find_group
find_group-AllHeld [] gs key g a h = absurd cc
find_group-AllHeld ((k, i) ∷ m) gs key g a h = elim (Bool-cases (str_eq k key)) [
  | inl e ↦ let same : some i ≡ some g = rw e at h in let p : i ≡ g = cc in rw (← p) (a.0, a.1, a.2)
  | inr e ↦ find_group-AllHeld m gs key g a.3 (rw e at h)
]

-- A key that is not there is not taken out.
delete_group-absent :
    (m : List (String × ℕ)) (key : String) → find_group m key ≡ none → delete_group m key ≡ m
unfolding find_group delete_group
delete_group-absent [] key h = refl
delete_group-absent ((k, g) ∷ m) key h = elim (Bool-cases (str_eq k key)) [
  | inl e ↦ let absent : some g ≡ none = rw e at h in absurd cc
  | inr e ↦ rw e (ap (◌∷◌ (k, g)) (delete_group-absent m key (rw e at h)))
]

get_or-append :
    (gs : List BudgetGroup) (v d : BudgetGroup) (i : ℕ)
    → i < length gs
    → get_or (gs ++ v ∷ []) i d ≡ get_or gs i d
get_or-append [] v d i h = absurd (omega (arith, h))
get_or-append (g ∷ gs) v d zero h = refl
get_or-append (g ∷ gs) v d (suc i) h = get_or-append gs v d i (omega (arith, h))

get_or-append_end :
    (gs : List BudgetGroup) (v d : BudgetGroup) → get_or (gs ++ v ∷ []) (length gs) d ≡ v
get_or-append_end [] v d = refl
get_or-append_end (g ∷ gs) v d = get_or-append_end gs v d

set-append_end :
    (gs : List BudgetGroup) (v u : BudgetGroup) → set (gs ++ v ∷ []) (length gs) u ≡ gs ++ u ∷ []
set-append_end [] v u = refl
set-append_end (g ∷ gs) v u = ap (◌∷◌ g) (set-append_end gs v u)

-- The same names for the same groups.
pub record SameGroups (bb bb' : ByteBudget) : Type 0 where
  pub names : bb'.groups ≡ bb.groups
  pub groups : (i : ℕ) → i < length bb.group_store → group_at bb' i ≡ group_at bb i
  pub used : bb'.used ≡ bb.used
  pub active : bb'.active ≡ bb.active

-- What the end of a registration brings back; without one there is nothing to end.
abbrev pub Undoes : ByteBudget → Registered × ByteBudget → Type 0
Undoes bb (registered g, b) = SameGroups bb (unregister_locked g b)
Undoes bb (missing_group, b) = b ≡ bb
Undoes bb (ungrouped, b) = b ≡ bb

module _ (key : String) (bb : ByteBudget) (f : bb.fair ≡ true) where
  -- A group that is there gets one reference more, and one less.
  unregister-known :
      (g : ℕ)
      → AllHeld bb.groups bb.group_store
      → find_group bb.groups key ≡ some g
      → let b = put_group bb g (record (group_at bb g) { refs = add64 (group_at bb g).refs 1 }) in
        SameGroups bb (unregister_locked g b)
  unfolding unregister_locked
  unregister-known g a h =
      let (there, held, small) = find_group-AllHeld bb.groups bb.group_store key g a h in
      let v = group_at bb g in
      let v' = record v { refs = add64 v.refs 1 } in
      let back : sub64 v'.refs 1 ≡ v.refs = omega (arith, held, small) in
      let kept : (v.refs == 0) ≡ false = ground (arith, held) in
      rw (f, get_or-set bb.group_store g v' (new_group "" 0) there, back, kept)
        (record {
          names = refl;
          groups = λ i lt.
              ap (λ xs. get_or xs i (new_group "" 0))
                (set-set bb.group_store g v' v ∙ set-get_or bb.group_store g (new_group "" 0));
          used = refl;
          active = refl;
        })

  -- A new one goes.
  unregister-new :
      find_group bb.groups key ≡ none
      → let b = record bb {
        group_store = bb.group_store ++ new_group key 1 ∷ [];
        groups = (key, length bb.group_store) ∷ bb.groups;
      } in
        SameGroups bb (unregister_locked (length bb.group_store) b)
  unfolding unregister_locked delete_group
  unregister-new h =
      rw
        (
          f,
          get_or-append_end bb.group_store (new_group key 1) (new_group "" 0),
          eq_refl key,
          delete_group-absent bb.groups key h,
        )
        (record {
          names = refl;
          groups = λ i lt.
              ap (λ xs. get_or xs i (new_group "" 0))
                (set-append_end bb.group_store (new_group key 1) _)
              ∙ get_or-append bb.group_store _ (new_group "" 0) i lt;
          used = refl;
          active = refl;
        })

  -- In a fair budget whose keys name groups that have references: the end of a registration brings
  -- back the keys, every group that was there, the bytes in use and the number of active groups,
  -- whether the key was new or another buffer holds it; and a registration without a key changes
  -- nothing.
  pub register_fair-undone : AllHeld bb.groups bb.group_store → Undoes bb (register_fair key bb)
  unfolding register_fair
  register_fair-undone a = elim (Bool-cases (str_eq key "")) [
    | inl e ↦ rw e refl
    | inr e ↦ rw e (found (find_group bb.groups key) refl)
  ]
    where
      found :
          (r : Option ℕ)
          → find_group bb.groups key ≡ r
          → Undoes bb (elim r [
            | some g ↦
                let v = group_at bb g in
                (registered g, put_group bb g (record v { refs = add64 v.refs 1 }))
            | none ↦
                let g = length bb.group_store in
                (
                  registered g,
                  record bb {
                    group_store = bb.group_store ++ new_group key 1 ∷ [];
                    groups = (key, g) ∷ bb.groups;
                  },
                )
          ])
      found (some g) h = unregister-known g a h
      found none h = unregister-new h
