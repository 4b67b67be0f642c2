-- ===== src/Budget/Account.antt =====
-- byte_budget.go: activation, the fair share, admission tests, charges and releases.
use go_uspclient.Base.{
  ℕ, ◌/◌, Bool, true, false, not, ◌&&◌, ◌||◌, ltb, leb, ◌==◌, if◌then◌else◌, add64, sub64, max_word,
}
use go_uspclient.Budget.State.{BudgetGroup, ByteBudget, group_at, put_group, waiter_at, front}

abbrev pub is_active : BudgetGroup → Bool
is_active v = not (v.used == 0) || not (v.pending == 0)

unfoldable pub activate_locked : ℕ → ByteBudget → ByteBudget
activate_locked g bb =
    let v = group_at bb g in
    let active = is_active v in
    if not bb.fair
    then bb
    else if active && not v.active
    then record bb {
      active = add64 bb.active 1;
      group_store = (put_group bb g (record v { active = true })).group_store;
    }
    else if v.active && not active
    then record bb {
      active = sub64 bb.active 1;
      group_store = (put_group bb g (record v { active = false })).group_store;
    }
    else bb

unfoldable pub share : ByteBudget → BudgetGroup → ℕ
share bb v =
    let n = if v.active then bb.active else add64 bb.active 1 in
    let n' = if ltb n 2 then 2 else n in
    let s = bb.total / n' in if ltb s bb.min_group then bb.min_group else s

unfoldable pub group_need : ByteBudget → BudgetGroup → ℕ
group_need bb v =
    let w = waiter_at bb (front v.waiters) in
    let remaining = sub64 w.n w.credit in
    if ltb (sub64 max_word v.used) remaining then max_word else add64 v.used remaining

unfoldable pub fits : ℕ → BudgetGroup → ByteBudget → Bool
fits n v bb =
    let used = sub64 bb.used bb.escape in
    let s = share bb v in
    if bb.total == 0
    then true
    else if ltb bb.total n || ltb (sub64 bb.total n) used
    then false
    else if not bb.fair || leb (add64 used n) (sub64 bb.total bb.reserve)
    then true
    else leb n s && leb v.used (sub64 s n)

unfoldable pub charge : ℕ → ℕ → Bool → ByteBudget → ByteBudget
charge n g escape bb =
    let v = group_at bb g in
    if not bb.fair
    then record bb { used = add64 bb.used n }
    else activate_locked g (record bb {
      used = add64 bb.used n;
      escape = if escape then add64 bb.escape n else bb.escape;
      group_store =
          (put_group bb g (record v {
            used = add64 v.used n;
            escape = if escape then add64 v.escape n else v.escape;
          })).group_store;
    })

unfoldable pub release_locked : ℕ → ℕ → ℕ → ByteBudget → ByteBudget
release_locked n escape g bb =
    let v = group_at bb g in
    let n₁ = if ltb v.used n then v.used else n in
    let n₂ = if ltb bb.used n₁ then bb.used else n₁ in
    if not bb.fair
    then record bb { used = sub64 bb.used (if ltb bb.used n then bb.used else n) }
    else activate_locked g (record bb {
      used = sub64 bb.used n₂;
      escape = sub64 bb.escape escape;
      group_store =
          (put_group bb g
            (record v { used = sub64 v.used n₂; escape = sub64 v.escape escape })).group_store;
    })
