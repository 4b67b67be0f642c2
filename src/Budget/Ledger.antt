-- ===== src/Budget/Ledger.antt =====
-- That a release undoes a charge in the books of the fair budget.
use go_uspclient.Base.{
  ℕ, ◌+◌, ◌≤◌, ◌<◌, ◌≡◌, refl, ap, ◌∙◌, Bool, true, false, arith, word, add64, sub64, length,
  length-set, set, get_or, get_or-set, set-set, set-get_or, if◌then◌else◌,
}
use go_uspclient.Budget.State.{BudgetGroup, ByteBudget, new_group, group_at}
use go_uspclient.Budget.Account.{is_active, activate_locked, charge, release_locked}

-- Group `g` of a fair budget, with its books in order and room for `n` bytes more in 64 bits.
pub record IsOpen (n g : ℕ) (bb : ByteBudget) : Type 0 where
  pub fair : bb.fair ≡ true
  pub known : g < length bb.group_store
  pub counted : (group_at bb g).active ≡ is_active (group_at bb g)
  pub group_room : (group_at bb g).used + n < word
  pub room : bb.used + n < word
  pub share_room : (group_at bb g).used ≤ bb.used
  pub escape_room : bb.escape + n < word
  pub group_escape_room : (group_at bb g).escape + n < word
  pub active_room : bb.active + 1 < word

-- The number of active groups after one with flag `was` became active or not.
abbrev tally : Bool → Bool → ℕ → ℕ
tally now was k = if now then if was then k else add64 k 1 else if was then sub64 k 1 else k

tally_undone : (now was : Bool) (k : ℕ) → k + 1 < word → tally was now (tally now was k) ≡ k
tally_undone true true k h = refl
tally_undone true false k h = omega arith
tally_undone false true k h = omega arith
tally_undone false false k h = refl

module _ (g : ℕ) (bb : ByteBudget) (f : bb.fair ≡ true) (k : g < length bb.group_store) where
  activate-store :
      (activate_locked g bb).group_store
      ≡ set bb.group_store g (record (group_at bb g) { active = is_active (group_at bb g) })
  unfolding activate_locked
  activate-store = ground (arith, f, set-get_or bb.group_store g (new_group "" 0))

  activate-used :
      ((activate_locked g bb).used ≡ bb.used) × ((activate_locked g bb).escape ≡ bb.escape)
  unfolding activate_locked
  activate-used = ground (arith, f)

  activate-active :
      (activate_locked g bb).active
      ≡ tally (is_active (group_at bb g)) (group_at bb g).active bb.active
  unfolding activate_locked
  activate-active = ground (arith, f)

  activate-fair : (activate_locked g bb).fair ≡ true
  unfolding activate_locked
  activate-fair = ground (arith, f)

-- The group after a charge, and after the release of it.
abbrev charged : ℕ → Bool → BudgetGroup → BudgetGroup
charged n escape v = record v {
  used = add64 v.used n;
  escape = if escape then add64 v.escape n else v.escape;
}

abbrev booked : BudgetGroup → BudgetGroup
booked v = record v { active = is_active v }

-- The budget that `charge` activates.
abbrev before_activation : ℕ → ℕ → Bool → ByteBudget → ByteBudget
before_activation n g escape bb = record bb {
  used = add64 bb.used n;
  escape = if escape then add64 bb.escape n else bb.escape;
  group_store = set bb.group_store g (charged n escape (group_at bb g));
}

charge-eq :
    (n g : ℕ) (escape : Bool) (bb : ByteBudget)
    → bb.fair ≡ true
    → charge n g escape bb ≡ activate_locked g (before_activation n g escape bb)
unfolding charge
charge-eq n g escape bb f = ground (arith, f)

abbrev refunded : ℕ → ℕ → BudgetGroup → BudgetGroup
refunded n escape v = record v { used = sub64 v.used n; escape = sub64 v.escape escape }

refund :
    (n : ℕ) (escape : Bool) (v : BudgetGroup)
    → v.used + n < word
    → v.escape + n < word
    → v.active ≡ is_active v
    → booked (refunded n (if escape then n else 0) (booked (charged n escape v))) ≡ v
refund n true v u e a =
    let p : sub64 (add64 v.used n) n ≡ v.used = omega arith in
    let q : sub64 (add64 v.escape n) n ≡ v.escape = omega arith in rw (p, q) (ground (arith, a))
refund n false v u e a =
    let p : sub64 (add64 v.used n) n ≡ v.used = omega arith in
    let q : sub64 v.escape 0 ≡ v.escape = omega arith in rw (p, q) (ground (arith, a))

-- The budget that `releaseLocked` activates, where nothing is capped.
abbrev before_release : ℕ → ℕ → ℕ → ByteBudget → ByteBudget
before_release n escape g bb = record bb {
  used = sub64 bb.used n;
  escape = sub64 bb.escape escape;
  group_store = set bb.group_store g (refunded n escape (group_at bb g));
}

release-eq :
    (n escape g : ℕ) (bb : ByteBudget)
    → bb.fair ≡ true
    → n ≤ (group_at bb g).used
    → n ≤ bb.used
    → release_locked n escape g bb ≡ activate_locked g (before_release n escape g bb)
unfolding release_locked
release-eq n escape g bb f a b = ground (arith, f)

module _ (n g : ℕ) (escape : Bool) (bb : ByteBudget) (o : IsOpen n g bb) where
  abbrev v : BudgetGroup
  v = group_at bb g

  abbrev c : ByteBudget
  c = before_activation n g escape bb

  known-charge : g < length c.group_store
  known-charge = omega (arith, o.known, length-set bb.group_store g (charged n escape v))

  at-charge : group_at c g ≡ charged n escape v
  at-charge = get_or-set bb.group_store g _ _ o.known

  charge-store :
      (charge n g escape bb).group_store ≡ set bb.group_store g (booked (charged n escape v))
  charge-store =
      ap (λ (x : ByteBudget). x.group_store) (charge-eq n g escape bb o.fair)
      ∙ activate-store g c o.fair known-charge
      ∙ set-set bb.group_store g _ _
      ∙ ap (λ x. set bb.group_store g (booked x)) at-charge

  at-charged : group_at (charge n g escape bb) g ≡ booked (charged n escape v)
  at-charged =
      ap (λ xs. get_or xs g (new_group "" 0)) charge-store ∙ get_or-set bb.group_store g _ _ o.known

  abbrev held_back : ℕ
  held_back = if escape then n else 0

  abbrev paid : ByteBudget
  paid = charge n g escape bb

  paid-totals :
      (paid.used ≡ bb.used + n) × (paid.escape ≡ bb.escape + held_back) × (paid.fair ≡ true)
  paid-totals = rw (charge-eq n g escape bb o.fair) (
    omega (arith, o.room, (activate-used g c o.fair known-charge).0),
    ground (arith, o.room, o.escape_room, (activate-used g c o.fair known-charge).1),
    activate-fair g c o.fair known-charge,
  )

  abbrev repaid : ByteBudget
  repaid = release_locked n held_back g paid

  known-paid : g < length paid.group_store
  known-paid = omega (
    arith,
    o.known,
    length-set bb.group_store g (booked (charged n escape v)),
    ap length charge-store,
  )

  repaid-eq : repaid ≡ activate_locked g (before_release n held_back g paid)
  repaid-eq =
      release-eq n held_back g paid paid-totals.2
        (omega (arith, ap (λ (x : BudgetGroup). x.used) at-charged, o.group_room))
        (omega (arith, paid-totals.0))

  abbrev owed : ByteBudget
  owed = before_release n held_back g paid

  at-owed : group_at owed g ≡ refunded n held_back (group_at paid g)
  at-owed = get_or-set paid.group_store g _ _ known-paid

  known-owed : g < length owed.group_store
  known-owed =
      omega
        (arith, known-paid, length-set paid.group_store g (refunded n held_back (group_at paid g)))

  settled : booked (group_at owed g) ≡ v
  settled =
      ap booked at-owed
      ∙ ap (λ x. booked (refunded n held_back x)) at-charged
      ∙ refund n escape v o.group_room o.group_escape_room o.counted

  repaid-store : repaid.group_store ≡ bb.group_store
  repaid-store =
      ap (λ (x : ByteBudget). x.group_store) repaid-eq
      ∙ activate-store g owed paid-totals.2 known-owed
      ∙ set-set paid.group_store g _ _
      ∙ ap (λ x. set paid.group_store g x) settled
      ∙ ap (λ xs. set xs g v) charge-store
      ∙ set-set bb.group_store g _ _
      ∙ set-get_or bb.group_store g _

  paid-active : paid.active ≡ tally (is_active (charged n escape v)) v.active bb.active
  paid-active =
      ap (λ (x : ByteBudget). x.active) (charge-eq n g escape bb o.fair)
      ∙ activate-active g c o.fair known-charge
      ∙ ap (λ (x : BudgetGroup). tally (is_active x) x.active bb.active) at-charge

  repaid-active : repaid.active ≡ bb.active
  repaid-active =
      ap (λ (x : ByteBudget). x.active) repaid-eq
      ∙ activate-active g owed paid-totals.2 known-owed
      ∙ ap (λ (x : BudgetGroup). tally x.active (group_at owed g).active paid.active) settled
      ∙ ap (λ (x : BudgetGroup). tally v.active x.active paid.active)
          (at-owed ∙ ap (refunded n held_back) at-charged)
      ∙ ap (tally v.active (is_active (charged n escape v))) paid-active
      ∙ tally_undone (is_active (charged n escape v)) v.active bb.active o.active_room

  -- The release of what a charge took, in a group whose books are in order, brings the totals, the
  -- number of active groups and every group back to what they were.
  pub release_locked-charge :
      let bb' = release_locked n (if escape then n else 0) g (charge n g escape bb) in
      (bb'.used ≡ bb.used)
      × (bb'.escape ≡ bb.escape)
      × (bb'.active ≡ bb.active)
      × (bb'.group_store ≡ bb.group_store)
  release_locked-charge = (
    ap (λ (x : ByteBudget). x.used) repaid-eq
        ∙ (activate-used g owed paid-totals.2 known-owed).0
        ∙ omega (arith, paid-totals.0, o.room),
    ap (λ (x : ByteBudget). x.escape) repaid-eq
        ∙ (activate-used g owed paid-totals.2 known-owed).1
        ∙ ground (arith, paid-totals.1, o.escape_room),
    repaid-active,
    repaid-store,
  )
