-- ===== src/Budget/Ungrouped.antt =====
-- The ungrouped budget: what `reserveFor` admits, and that its total holds over sequences of calls.
use go_uspclient.Base.{
  ℕ, ◌+◌, ◌≤◌, ◌<◌, ◌≡◌, ◌⊎◌, ◌↔◌, refl, true, false, Option, none, some, List, [], ◌∷◌, arith,
  word, inl, inr, Bool-cases, ◌==◌,
}
use go_uspclient.Budget.State.{ByteBudget, new_byte_budget, group_or_legacy, get_used}
use go_uspclient.Budget.Account.{release_locked}
use go_uspclient.Budget.Reserve.{
  reserve_for, reserve_legacy, wait_on_legacy, release_for, release_group, wake_legacy,
}

-- An ungrouped budget of `total` bytes, at most all of them in use.
pub record IsWithin (total : ℕ) (bb : ByteBudget) : Type 0 where
  pub ungrouped : bb.fair ≡ false
  pub limit : bb.total ≡ total
  pub small : total < word
  pub limited : 0 < total
  pub within : bb.used ≤ total

-- The same, with more than `total` bytes in use after an overshoot, perhaps.
pub record IsLimited (total : ℕ) (bb : ByteBudget) : Type 0 where
  pub ungrouped : bb.fair ≡ false
  pub limit : bb.total ≡ total
  pub small : total < word
  pub limited : 0 < total
  pub held : bb.used < word

module _ (n : ℕ) (group waiter : Option ℕ) (total : ℕ) (bb : ByteBudget)
    (i : IsLimited total bb) where
  reserve_for_iff :
      ((reserve_for n false group waiter bb).0.admitted ≡ true) ↔ (bb.used + n ≤ total)
  unfolding reserve_for reserve_legacy
  reserve_for_iff = ground (arith, i.ungrouped, i.limit, i.small, i.limited, i.held)

  reserve_for-used :
      let (r, bb') = reserve_for n false group waiter bb in
      ((r.admitted ≡ true) × (bb'.used ≡ bb.used + n))
      ⊎ ((r.admitted ≡ false) × (bb'.used ≡ bb.used))
  unfolding reserve_for reserve_legacy wait_on_legacy
  reserve_for-used = ground (arith, i.ungrouped, i.limit, i.small, i.limited, i.held)

  -- In an ungrouped budget with a limit, whatever is in use, also more than the limit, a reservation
  -- that is not forced is admitted exactly when its bytes fit beside those in use, and then adds
  -- them; otherwise the use stays as it was.
  pub reserve_for_exact :
      let (r, bb') = reserve_for n false group waiter bb in
      ((r.admitted ≡ true) ↔ (bb.used + n ≤ total))
      × (((r.admitted ≡ true) × (bb'.used ≡ bb.used + n))
          ⊎ ((r.admitted ≡ false) × (bb'.used ≡ bb.used)))
  reserve_for_exact = (reserve_for_iff, reserve_for-used)

module _ (n : ℕ) (group waiter : Option ℕ) (total : ℕ) (bb : ByteBudget)
    (i : IsWithin total bb) where
  pub reserve_for-IsWithin : IsWithin total (reserve_for n false group waiter bb).1
  unfolding reserve_for reserve_legacy wait_on_legacy
  reserve_for-IsWithin = record {
    ungrouped = ground (arith, i.ungrouped);
    limit = ground (arith, i.limit);
    small = i.small;
    limited = i.limited;
    within = ground (arith, i.ungrouped, i.limit, i.small, i.limited, i.within);
  }

  release_group-IsWithin :
      (escape : ℕ) → IsWithin total (release_group n escape (group_or_legacy group) bb)
  unfolding release_group release_locked wake_legacy
  release_group-IsWithin escape = record {
    ungrouped = ground (arith, i.ungrouped);
    limit = ground (arith, i.ungrouped, i.limit);
    small = i.small;
    limited = i.limited;
    within = ground (arith, i.ungrouped, i.limit, i.small, i.limited, i.within);
  }

  -- The release of a reservation that fitted brings the use back to what it was.
  pub release_for-reserve_for :
      (escape : ℕ)
      → bb.used + n ≤ total
      → get_used (release_for n escape group (some (reserve_for n false group waiter bb).1))
        ≡ bb.used
  unfolding get_used reserve_for reserve_legacy release_for release_group release_locked wake_legacy
  release_for-reserve_for escape h =
      ground (arith, i.ungrouped, i.limit, i.small, i.limited, i.within)

-- A call on the pool by any of the clients: a reservation that is not forced, with its group and
-- waiter, or a release with its escape bytes and group.
pub data Call : Type 0 where
  reserves : ℕ → Option ℕ → Option ℕ → Call
  releases : ℕ → ℕ → Option ℕ → Call

abbrev or_same : ByteBudget → Option ByteBudget → ByteBudget
or_same bb none = bb
or_same bb (some bb') = bb'

unfoldable pub call : Call → ByteBudget → ByteBudget
call (reserves n group waiter) bb = (reserve_for n false group waiter bb).1
call (releases n escape group) bb = or_same bb (release_for n escape group (some bb))

unfoldable pub calls : List Call → ByteBudget → ByteBudget
calls [] bb = bb
calls (c ∷ cs) bb = calls cs (call c bb)

call-IsWithin :
    (c : Call) (total : ℕ) (bb : ByteBudget) → IsWithin total bb → IsWithin total (call c bb)
unfolding call release_for
call-IsWithin (reserves n group waiter) total bb i = reserve_for-IsWithin n group waiter total bb i
call-IsWithin (releases n escape group) total bb i = elim (Bool-cases (n == 0)) [
  | inl e ↦ rw e i
  | inr e ↦ rw e (release_group-IsWithin n group none total bb i escape)
]

pub calls-IsWithin :
    (cs : List Call) (total : ℕ) (bb : ByteBudget)
    → IsWithin total bb
    → IsWithin total (calls cs bb)
unfolding calls
calls-IsWithin [] total bb i = i
calls-IsWithin (c ∷ cs) total bb i =
    calls-IsWithin cs total (call c bb) (call-IsWithin c total bb i)

new_byte_budget-IsWithin :
    (total : ℕ) → 0 < total → total < word → IsWithin total (new_byte_budget total)
unfolding new_byte_budget
new_byte_budget-IsWithin total p s = record {
  ungrouped = refl;
  limit = refl;
  small = s;
  limited = p;
  within = omega arith;
}

-- From a new budget with a limit on, any calls of its clients that force nothing leave at most the
-- limit in use.
pub calls-bounded :
    (cs : List Call) (total : ℕ)
    → 0 < total
    → total < word
    → (calls cs (new_byte_budget total)).used ≤ total
calls-bounded cs total p s =
    (calls-IsWithin cs total (new_byte_budget total) (new_byte_budget-IsWithin total p s)).within
