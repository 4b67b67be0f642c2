-- ===== src/Budget/Fair.antt =====
-- What fits in the fair budget, and what its constructor gives.
use native.Mathlib.Nat.{div-le_self}
use go_uspclient.Base.{
  ℕ, ◌+◌, ◌-◌, ◌/◌, ◌≤◌, ◌<◌, ◌≡◌, ◌⊎◌, ◌↔◌, refl, true, none, some, arith, word, inl, inr,
  Bool-cases, ltb, ◌==◌, add64, if◌then◌else◌,
}
use go_uspclient.Budget.State.{
  BudgetGroup, ByteBudget, FairByteBudgetOptions, new_byte_budget, new_fair_byte_budget,
}
use go_uspclient.Budget.Account.{share, fits}

-- A fair budget with a limit: the escape bytes are among those in use, and the reserve is a part of
-- the total.
pub record IsFair (bb : ByteBudget) : Type 0 where
  pub fair : bb.fair ≡ true
  pub small : bb.total < word
  pub limited : 0 < bb.total
  pub reserved : bb.reserve < bb.total
  pub escaped : bb.escape ≤ bb.used
  pub used : bb.used < word
  pub floor : bb.min_group < word

-- The number of groups that a share is for.
abbrev share_count : ByteBudget → BudgetGroup → ℕ
share_count bb v =
    let n = if v.active then bb.active else add64 bb.active 1 in if ltb n 2 then 2 else n

share-lt-word : (bb : ByteBudget) (v : BudgetGroup) → IsFair bb → share bb v < word
unfolding share
share-lt-word bb v i = ground (arith, i.small, i.floor, div-le_self bb.total (share_count bb v))

-- `n` bytes fit when they leave the total kept, and either the reserve untouched or the group within
-- its share.
pub fits_iff :
    (n : ℕ) (v : BudgetGroup) (bb : ByteBudget)
    → IsFair bb
    → (fits n v bb ≡ true) ↔ (
        (bb.used - bb.escape + n ≤ bb.total)
        × ((bb.used - bb.escape + n ≤ bb.total - bb.reserve) ⊎ (v.used + n ≤ share bb v)))
unfolding fits
fits_iff n v bb i =
    ground (arith, i.fair, i.small, i.limited, i.reserved, i.escaped, i.used, share-lt-word bb v i)

-- What the constructor gives where it accepts.
abbrev accepted : ℕ → FairByteBudgetOptions → ByteBudget
unfolding new_byte_budget
accepted total o = record (new_byte_budget total) {
  fair = true;
  reserve = if o.reserve_bytes == 0 then total / 8 else o.reserve_bytes;
  min_group = if o.min_group_bytes == 0 then 256 else o.min_group_bytes;
}

-- The reserve that was asked for, or an eighth of the total where none was.
abbrev pub ReserveOf : ℕ → FairByteBudgetOptions → ByteBudget → Type 0
ReserveOf total o bb =
    ((o.reserve_bytes ≡ 0) × (bb.reserve ≡ total / 8))
    ⊎ ((0 < o.reserve_bytes) × (bb.reserve ≡ o.reserve_bytes))

-- The least share that was asked for, or 256 bytes where none was.
abbrev pub MinGroupOf : FairByteBudgetOptions → ByteBudget → Type 0
MinGroupOf o bb =
    ((o.min_group_bytes ≡ 0) × (bb.min_group ≡ 256))
    ⊎ ((0 < o.min_group_bytes) × (bb.min_group ≡ o.min_group_bytes))

-- The constructor of a fair budget with a limit accepts exactly the options whose reserve is smaller
-- than the total, and gives an empty, consistent budget that has that total, the reserve that was
-- asked for, or an eighth of the total where none was, and the least share that was asked for, or
-- 256 bytes where none was.
pub new_fair_byte_budget_cases :
    (total : ℕ) (o : FairByteBudgetOptions)
    → 0 < total
    → total < word
    → o.min_group_bytes < word
    → ((o.reserve_bytes < total)
        × ((bb : ByteBudget) × (new_fair_byte_budget total o ≡ some bb)
            × IsFair bb
            × (bb.total ≡ total)
            × (bb.used ≡ 0)
            × ReserveOf total o bb
            × MinGroupOf o bb))
      ⊎ ((total ≤ o.reserve_bytes) × (new_fair_byte_budget total o ≡ none))
unfolding new_fair_byte_budget new_byte_budget
new_fair_byte_budget_cases total o p s m = elim (Bool-cases (ltb o.reserve_bytes total)) [
  | inl h ↦ inl (
    ground (arith, h),
    (
      accepted total o,
      ground (arith, h),
      record {
        fair = refl;
        small = s;
        limited = p;
        reserved = ground (arith, h);
        escaped = omega arith;
        used = omega arith;
        floor = ground arith;
      },
      refl,
      refl,
      ground arith,
      ground arith,
    ),
  )
  | inr h ↦ inr (ground (arith, h), ground (arith, h))
]
