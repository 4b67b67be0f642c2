-- ===== src/Budget/Schedule.antt =====
-- byte_budget.go: the lists of groups that wait, and the scheduler that spends freed bytes on them.
use go_uspclient.Base.{
  ℕ, zero, suc, ◌+◌, ◌-◌, ◌*◌, Bool, true, false, not, ◌&&◌, ◌||◌, List, [], ◌∷◌, ◌++◌, Option,
  none, some, ltb, leb, ◌==◌, if◌then◌else◌, length, delete, add64, sub64, max_word,
}
use go_uspclient.Budget.State.{
  BudgetWaiter, ByteBudget, group_at, put_group, waiter_at, put_waiter, front,
}
use go_uspclient.Budget.Account.{share, group_need, charge}
use go_uspclient.Budget.GroupHeap.{heap_push, heap_pop, heap_fix, heap_remove}

-- `bb.waiting.Remove(g.allElem); g.allElem = nil`
abbrev pub leave_waiting : ℕ → ByteBudget → ByteBudget
leave_waiting g bb =
    put_group (record bb { waiting = delete bb.waiting g }) g
      (record (group_at bb g) { all_elem = false })

abbrev pub enter_waiting : ℕ → ByteBudget → ByteBudget
enter_waiting g bb =
    put_group (record bb { waiting = bb.waiting ++ g ∷ [] }) g
      (record (group_at bb g) { all_elem = true })

abbrev pub leave_reserve : ℕ → ByteBudget → ByteBudget
leave_reserve g bb =
    put_group (record bb { reserve_ready = delete bb.reserve_ready g }) g
      (record (group_at bb g) { reserve_elem = false })

abbrev pub enter_reserve : ℕ → ByteBudget → ByteBudget
enter_reserve g bb =
    put_group (record bb { reserve_ready = bb.reserve_ready ++ g ∷ [] }) g
      (record (group_at bb g) { reserve_elem = true })

abbrev pub when : Bool → (ByteBudget → ByteBudget) → ByteBudget → ByteBudget
when true f bb = f bb
when false f bb = bb

abbrev pub leave_blocked : Option ℕ → ByteBudget → ByteBudget
leave_blocked none bb = bb
leave_blocked (some i) bb = heap_remove i bb

abbrev pub enter_blocked : ℕ → Option ℕ → ByteBudget → ByteBudget
enter_blocked g none bb = heap_push g bb
enter_blocked g (some i) bb = heap_fix i bb

-- The branch of `refreshLocked` for a group with no waiter.
unfoldable pub refresh_idle : ℕ → ByteBudget → ByteBudget
refresh_idle g bb =
    let bb₁ = when (group_at bb g).all_elem (leave_waiting g) bb in
    let bb₂ = when (group_at bb₁ g).reserve_elem (leave_reserve g) bb₁ in
    leave_blocked (group_at bb₂ g).heap_index bb₂

unfoldable pub refresh_waiting : ℕ → ByteBudget → ByteBudget
refresh_waiting g bb =
    let bb₁ = when (not (group_at bb g).all_elem) (enter_waiting g) bb in
    let v = group_at bb₁ g in
    let promoted = leave_blocked v.heap_index bb₁ in
    let demoted = when v.reserve_elem (leave_reserve g) bb₁ in
    if not bb₁.fair || leb (group_need bb₁ v) (share bb₁ v)
    then when (not (group_at promoted g).reserve_elem) (enter_reserve g) promoted
    else enter_blocked g (group_at demoted g).heap_index demoted

unfoldable pub refresh_locked : ℕ → ByteBudget → ByteBudget
refresh_locked g bb =
    if length (group_at bb g).waiters == 0 then refresh_idle g bb else refresh_waiting g bb

abbrev pub eligible : ℕ → ByteBudget → Bool
eligible g bb = leb (group_need bb (group_at bb g)) (share bb (group_at bb g))

-- The first loop of `nextReserveLocked`; each round shortens the heap.
unfoldable pub promote : ℕ → ByteBudget → ByteBudget
promote zero bb = bb
promote (suc fuel) bb =
    let g = front bb.blocked in
    elim (length bb.blocked == 0 || not (eligible g bb)) [
      | true ↦ bb
      | false ↦ promote fuel (enter_reserve g (heap_pop bb))
    ]

-- The second loop; each round that goes on takes a group off `reserve_ready`.
unfoldable pub first_eligible : ℕ → ByteBudget → Option ℕ × ByteBudget
first_eligible zero bb = (none, bb)
first_eligible (suc fuel) bb = elim bb.reserve_ready [
  | [] ↦ (none, bb)
  | g ∷ gs ↦ elim (eligible g bb) [
    | true ↦ (some g, bb)
    | false ↦ first_eligible fuel (refresh_locked g bb)
  ]
]

unfoldable pub next_reserve_locked : ByteBudget → Option ℕ × ByteBudget
next_reserve_locked bb =
    let bb' = promote (length bb.blocked) bb in first_eligible (length bb'.reserve_ready + 1) bb'

abbrev pub budget_quantum : ℕ
budget_quantum = 64 * 1024

-- `base`: the bytes outside the reserve.
abbrev pub base_room : ByteBudget → ℕ
base_room bb =
    let used = sub64 bb.used bb.escape in
    if bb.total == 0
    then max_word
    else if ltb used (sub64 bb.total bb.reserve)
    then sub64 (sub64 bb.total bb.reserve) used
    else 0

-- The group that the round serves.
unfoldable pub pick : ByteBudget → Option ℕ × ByteBudget
pick bb =
    if not (base_room bb == 0) || not bb.fair
    then (some (front bb.waiting), bb)
    else next_reserve_locked bb

-- `credit`, after its two caps; `base` and `used` are those of the start of the round.
unfoldable pub credit_for : ℕ → ℕ → ℕ → ByteBudget → ℕ
credit_for base used g bb =
    let v = group_at bb g in
    let w = waiter_at bb (front v.waiters) in
    let room =
      if bb.total == 0
      then max_word
      else if not bb.fair || leb (group_need bb v) (share bb v)
      then sub64 bb.total used
      else base in
    let wanted = sub64 w.n w.credit in
    let quantum = if ltb budget_quantum wanted then budget_quantum else wanted in
    if ltb room quantum then room else quantum

-- The head waiter `w` of `g` gets all that it asked for: it leaves the queue and is woken.
unfoldable pub grant : ℕ → ℕ → ByteBudget → ByteBudget
grant w g bb =
    let v = group_at bb g in
    let x = waiter_at bb w in
    put_waiter
      (put_group (record bb { closed = x.wake ∷ bb.closed }) g
        (record v { waiters = delete v.waiters w }))
      w (record x { elem = false; granted = true })

-- The end of a round: `g` goes to the back of its lists.
unfoldable pub rotate : ℕ → ByteBudget → ByteBudget
rotate g bb =
    let v = group_at bb g in
    record bb {
      waiting = if v.all_elem then delete bb.waiting g ++ g ∷ [] else bb.waiting;
      reserve_ready =
          if v.reserve_elem then delete bb.reserve_ready g ++ g ∷ [] else bb.reserve_ready;
    }

-- The charge of `credit` bytes to the head of `g` and what follows it.
unfoldable pub spend : ℕ → ℕ → ByteBudget → ByteBudget
spend credit g bb =
    let w = front (group_at bb g).waiters in
    let bb₁ = charge credit g false bb in
    let x = waiter_at bb₁ w in
    let x' = record x { credit = add64 x.credit credit } in
    let bb₂ = put_waiter bb₁ w x' in
    rotate g (refresh_locked g (if x'.credit == x'.n then grant w g bb₂ else bb₂))

-- One round of `scheduleLocked`. `false`: the loop ends or returns.
unfoldable pub schedule_round : ByteBudget → Bool × ByteBudget
schedule_round bb =
    let used = sub64 bb.used bb.escape in
    let base = base_room bb in
    if length bb.waiting == 0
    then (false, bb)
    else if not (bb.total == 0) && leb bb.total used
    then (false, bb)
    else let (chosen, bb') = pick bb in
      elim chosen [
        | none ↦ (false, bb')
        | some g ↦
            let credit = credit_for base used g bb' in
            if credit == 0 then (false, bb') else (true, spend credit g bb')
      ]

-- What the queued waiters still want. A round that goes on lowers it.
unfoldable pub wanted : List BudgetWaiter → ℕ
wanted [] = 0
wanted (w ∷ ws) = (w.n - w.credit) + wanted ws

unfoldable pub rounds : ℕ → ByteBudget → ByteBudget
rounds zero bb = bb
rounds (suc fuel) bb =
    let (more, bb') = schedule_round bb in elim more [ true ↦ rounds fuel bb' | false ↦ bb' ]

unfoldable pub schedule_locked : ByteBudget → ByteBudget
schedule_locked bb = rounds (wanted bb.waiter_store + 1) bb
