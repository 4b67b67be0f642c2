-- ===== src/Budget/Rounds.antt =====
-- `scheduleLocked`: each round that goes on pays a part of what its waiter still wants.
use go_uspclient.Base.{
  ℕ, ◌<◌, ◌≡◌, ◌⊎◌, refl, Bool, true, false, not, ◌&&◌, Option, none, some, arith, sub64, length,
  leb, ◌==◌, inl, inr, Bool-cases, if◌then◌else◌,
}
use go_uspclient.Budget.State.{ByteBudget}
use go_uspclient.Budget.Schedule.{base_room, pick, credit_for, spend, schedule_round}
use go_uspclient.Budget.Relinked.{Relinked, pick-Relinked}

-- The loop of `scheduleLocked` runs from the first state and ends by its own conditions in the
-- second.
pub data Settles : ByteBudget → ByteBudget → Type 0 where
  ends : (bb bb' : ByteBudget) → schedule_round bb ≡ (false, bb') → Settles bb bb'
  goes_on :
      (bb bb₁ bb' : ByteBudget) → schedule_round bb ≡ (true, bb₁) → Settles bb₁ bb' → Settles bb bb'

module _ (bb : ByteBudget) where
  -- The credit of a round that serves `g`.
  abbrev pub price : ℕ → ByteBudget → ℕ
  price g bb' = credit_for (base_room bb) (sub64 bb.used bb.escape) g bb'

  pub schedule_round_cases {ℓ} :
      (P : Bool × ByteBudget → Type ℓ)
      → ((bb' : ByteBudget) → Relinked bb bb' → P (false, bb'))
      → ((g : ℕ) (bb' : ByteBudget)
          → Relinked bb bb'
          → (bb.total ≡ 0) ⊎ (sub64 bb.used bb.escape < bb.total)
          → 0 < price g bb'
          → P (true, spend (price g bb') g bb'))
      → P (schedule_round bb)
  unfolding schedule_round
  schedule_round_cases P stops pays = elim (Bool-cases (length bb.waiting == 0)) [
    | inl e ↦ rw e (stops bb refl)
    | inr e ↦ elim (Bool-cases (not (bb.total == 0) && leb bb.total (sub64 bb.used bb.escape))) [
      | inl f ↦ rw (e, f) (stops bb refl)
      | inr f ↦ rw (e, f) (go (ground (arith, f)) (pick bb) refl)
    ]
  ]
    where
      go :
          (bb.total ≡ 0) ⊎ (sub64 bb.used bb.escape < bb.total)
          → (r : Option ℕ × ByteBudget) → pick bb ≡ r
          → P (elim r.0 [
            | none ↦ (false, r.1)
            | some g ↦ if price g r.1 == 0 then (false, r.1) else (true, spend (price g r.1) g r.1)
          ])
      go l (none, bb') e = stops bb' (let r = pick-Relinked bb in rw e at r)
      go l (some g, bb') e = elim (Bool-cases (price g bb' == 0)) [
        | inl h ↦ rw h (stops bb' (let r = pick-Relinked bb in rw e at r))
        | inr h ↦ rw h (pays g bb' (let r = pick-Relinked bb in rw e at r) l (ground (arith, h)))
      ]
