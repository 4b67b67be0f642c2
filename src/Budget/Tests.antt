-- ===== src/Budget/Tests.antt =====
-- Runs of the budget on small inputs, and the theorems at them.
use go_uspclient.Base.{
  ◌+◌, ◌-◌, ◌≤◌, ◌<◌, ◌≡◌, ◌⊎◌, ◌↔◌, refl, true, false, none, some, List, [], ◌∷◌, arith, delete,
}
use go_uspclient.Budget.Account.{group_need, activate_locked, share, fits, charge, release_locked}
use go_uspclient.Budget.Ungrouped.{
  IsWithin, IsLimited, Call, reserves, releases, calls, calls-bounded, reserve_for_exact,
  release_for-reserve_for,
}
use go_uspclient.Budget.Fair.{IsFair, ReserveOf, MinGroupOf, fits_iff, new_fair_byte_budget_cases}
use go_uspclient.Budget.Schedule.{
  schedule_locked, rounds, wanted, schedule_round, pick, credit_for, spend, refresh_locked,
  refresh_waiting, rotate, next_reserve_locked, promote, first_eligible,
}
use go_uspclient.Budget.GroupHeap.{heap_fix, down, up, less, lesser_child}
use go_uspclient.Budget.Paying.{AllWithin}
use go_uspclient.Budget.Rounds.{Settles}
use go_uspclient.Budget.Settling.{schedule_locked-Settles, IsFunded, schedule_locked-IsFunded}
use go_uspclient.Budget.Registering.{Undoes, register_fair-undone}
use go_uspclient.Budget.Ledger.{IsOpen, release_locked-charge}
use go_uspclient.Budget.State.{
  ByteBudget, FairByteBudgetOptions, new_byte_budget, new_fair_byte_budget, register_fair,
  find_group, group_at, get_used, new_group, waiter_at,
}
use go_uspclient.Budget.Reserve.{reserve_for, release_for}

abbrev fair_1000 : ByteBudget
unfolding new_fair_byte_budget
fair_1000 = elim (new_fair_byte_budget 1000 (record { reserve_bytes = 0; min_group_bytes = 0 })) [
  | none ↦ new_byte_budget 0
  | some bb ↦ bb
]

abbrev one_group : ByteBudget
unfolding new_fair_byte_budget register_fair
one_group = (register_fair "b" (register_fair "a" fair_1000).1).1

-- Group 1 takes 800 bytes; 300 more wait; a release of 400 grants them.
abbrev scenario : ByteBudget
unfolding new_fair_byte_budget register_fair reserve_for release_for
scenario =
    let r = reserve_for 800 false (some 1) none one_group in
    let s = reserve_for 300 false (some 1) none r.1 in
    elim (release_for 400 0 (some 1) (some s.1)) [ none ↦ one_group | some bb ↦ bb ]

pool_100-IsWithin : IsWithin 100 (new_byte_budget 100)
unfolding new_byte_budget
pool_100-IsWithin = record {
  ungrouped = refl;
  limit = refl;
  small = omega arith;
  limited = omega arith;
  within = omega arith;
}

-- 120 bytes of 100 are in use, after an overshoot.
abbrev overshot : ByteBudget
unfolding new_byte_budget
overshot = record (new_byte_budget 100) { used = 120 }

overshot-IsLimited : IsLimited 100 overshot
unfolding new_byte_budget
overshot-IsLimited = record {
  ungrouped = refl;
  limit = refl;
  small = omega arith;
  limited = omega arith;
  held = omega arith;
}

reserve_for_exact_example :
    let (r, bb') = reserve_for 60 false none none overshot in
    ((r.admitted ≡ true) ↔ (overshot.used + 60 ≤ 100))
    × (((r.admitted ≡ true) × (bb'.used ≡ overshot.used + 60))
        ⊎ ((r.admitted ≡ false) × (bb'.used ≡ overshot.used)))
reserve_for_exact_example = reserve_for_exact 60 none none 100 overshot overshot-IsLimited

release_for-reserve_for_example :
    get_used (release_for 60 0 none (some (reserve_for 60 false none none (new_byte_budget 100)).1))
    ≡ (new_byte_budget 100).used
release_for-reserve_for_example =
    release_for-reserve_for 60 none none 100 (new_byte_budget 100) pool_100-IsWithin 0
      (unfold new_byte_budget in omega arith)

abbrev traffic : List Call
traffic =
    reserves 60 none none ∷ reserves 50 none none ∷ releases 20 0 none ∷ reserves 50 none none ∷ []

calls-bounded_example : (calls traffic (new_byte_budget 100)).used ≤ 100
calls-bounded_example = calls-bounded traffic 100 (omega arith) (omega arith)

one_group-IsFair : IsFair one_group
unfolding new_fair_byte_budget register_fair find_group new_byte_budget
one_group-IsFair = record {
  fair = refl;
  small = omega arith;
  limited = omega arith;
  reserved = omega arith;
  escaped = omega arith;
  used = omega arith;
  floor = omega arith;
}

fits_iff_example : (fits 800 (group_at one_group 1) one_group ≡ true) ↔ (
    (one_group.used - one_group.escape + 800 ≤ one_group.total)
    × ((one_group.used - one_group.escape + 800 ≤ one_group.total - one_group.reserve)
        ⊎ ((group_at one_group 1).used + 800 ≤ share one_group (group_at one_group 1))))
fits_iff_example = fits_iff 800 (group_at one_group 1) one_group one_group-IsFair

one_group-IsOpen : IsOpen 300 1 one_group
unfolding new_fair_byte_budget register_fair find_group new_byte_budget
one_group-IsOpen = record {
  fair = refl;
  known = omega arith;
  counted = refl;
  group_room = omega arith;
  room = omega arith;
  share_room = omega arith;
  escape_room = omega arith;
  group_escape_room = omega arith;
  active_room = omega arith;
}

release_locked-charge_example :
    let bb' = release_locked 300 300 1 (charge 300 1 true one_group) in
    (bb'.used ≡ one_group.used)
    × (bb'.escape ≡ one_group.escape)
    × (bb'.active ≡ one_group.active)
    × (bb'.group_store ≡ one_group.group_store)
release_locked-charge_example = release_locked-charge 300 1 true one_group one_group-IsOpen

abbrev options : FairByteBudgetOptions
options = record { reserve_bytes = 0; min_group_bytes = 0 }

new_fair_byte_budget_cases_example :
    ((0 < 1000)
      × ((bb : ByteBudget) × (new_fair_byte_budget 1000 options ≡ some bb)
          × IsFair bb
          × (bb.total ≡ 1000)
          × (bb.used ≡ 0)
          × ReserveOf 1000 options bb
          × MinGroupOf options bb))
    ⊎ ((1000 ≤ 0) × (new_fair_byte_budget 1000 options ≡ none))
new_fair_byte_budget_cases_example =
    new_fair_byte_budget_cases 1000 options (omega arith) (omega arith) (omega arith)

-- Group 1 holds 700 of 1000 bytes, and asks for 400 more.
abbrev one_waiting : ByteBudget
unfolding new_fair_byte_budget register_fair find_group new_byte_budget
one_waiting = record one_group {
  used = 700;
  active = 1;
  waiting = 1 ∷ [];
  blocked = 1 ∷ [];
  group_store =
      new_group "" 0
      ∷ record (new_group "a" 1) {
        used = 700;
        active = true;
        waiters = 0 ∷ [];
        all_elem = true;
        heap_index = some 0;
      }
      ∷ new_group "b" 1
      ∷ [];
  waiter_store =
      record { n = 400; credit = 0; group = 1; wake = 0; elem = true; granted = false } ∷ [];
  next_chan = 1;
}

-- The bytes outside the reserve go to it.
one_waiting_served :
    ((schedule_locked one_waiting).used ≡ 875)
    × ((waiter_at (schedule_locked one_waiting) 0).credit ≡ 175)
unfolding one_waiting schedule_locked rounds wanted schedule_round pick credit_for share group_need
    spend charge activate_locked refresh_locked refresh_waiting heap_fix down up less lesser_child
    rotate next_reserve_locked promote first_eligible new_fair_byte_budget register_fair find_group
    new_byte_budget delete
one_waiting_served = (refl, refl)

schedule_locked-Settles_example :
    Settles one_waiting (schedule_locked one_waiting)
    × AllWithin (schedule_locked one_waiting).waiter_store
schedule_locked-Settles_example =
    schedule_locked-Settles one_waiting (unfold one_waiting in omega arith)

one_waiting-IsFunded : IsFunded one_waiting
unfolding one_waiting new_fair_byte_budget register_fair find_group new_byte_budget
one_waiting-IsFunded = record {
  limited = omega arith;
  reserved = omega arith;
  escaped = omega arith;
  funded = omega arith;
  small = omega arith;
  within = omega arith;
}

schedule_locked-IsFunded_example : IsFunded (schedule_locked one_waiting)
schedule_locked-IsFunded_example = schedule_locked-IsFunded one_waiting one_waiting-IsFunded

register_fair-undone_example : Undoes one_group (register_fair "a" one_group)
unfolding new_fair_byte_budget register_fair find_group new_byte_budget
register_fair-undone_example = register_fair-undone "a" one_group refl (omega arith)
