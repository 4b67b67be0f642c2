-- ===== src/Budget/Reserve.antt =====
-- byte_budget.go: reservation, cancellation and release.
use go_uspclient.Base.{
  ℕ, suc, Bool, true, false, not, ◌&&◌, ◌||◌, [], ◌∷◌, ◌++◌, Option, none, some, leb, ◌==◌,
  if◌then◌else◌, length, delete, add64, sub64,
}
use go_uspclient.Budget.State.{
  BudgetWaiter, ByteBudget, group_at, put_group, waiter_at, put_waiter, no_waiter,
  unregister_locked, group_or_legacy,
}
use go_uspclient.Budget.Account.{activate_locked, fits, charge, release_locked}
use go_uspclient.Budget.Schedule.{refresh_locked, schedule_locked}

-- The results of `reserveFor`.
pub record Reserved : Type 0 where
  pub admitted : Bool
  pub overshot : Bool
  pub used : ℕ
  pub waiter : Option ℕ

-- `g.pending--`
abbrev drop_pending : ℕ → ByteBudget → ByteBudget
drop_pending g bb =
    let v = group_at bb g in put_group bb g (record v { pending = sub64 v.pending 1 })

-- The first `if` of `removeWaiterLocked`.
abbrev dequeue : ℕ → ByteBudget → ByteBudget
dequeue w bb =
    let x = waiter_at bb w in
    let v = group_at bb x.group in
    if x.elem
    then put_waiter (put_group bb x.group (record v { waiters = delete v.waiters w })) w
        (record x { elem = false })
    else bb

-- The second `if`.
abbrev return_credit : ℕ → ByteBudget → ByteBudget
return_credit w bb =
    let x = waiter_at bb w in
    if x.credit == 0
    then bb
    else put_waiter (release_locked x.credit 0 x.group bb) w (record x { credit = 0 })

unfoldable pub remove_waiter_locked : ℕ → ByteBudget → ByteBudget
remove_waiter_locked w bb =
    let g = (waiter_at bb w).group in
    refresh_locked g
      (unregister_locked g (activate_locked g (drop_pending g (return_credit w (dequeue w bb)))))

-- `w.wake = bb.legacyWake`, with the channel and the waiter made if there are none.
unfoldable pub wait_on_legacy : Option ℕ → ByteBudget → ℕ × ByteBudget
wait_on_legacy waiter bb =
    let (chan, bb₁) =
      let r : ℕ × ByteBudget = elim bb.legacy_wake [
        | some c ↦ (c, bb)
        | none ↦ (
          bb.next_chan,
          record bb { legacy_wake = some bb.next_chan; next_chan = suc bb.next_chan },
        )
      ] in
      r in
    elim waiter [
      | some w ↦ (w, put_waiter bb₁ w (record (waiter_at bb₁ w) { wake = chan }))
      | none ↦ (
        length bb₁.waiter_store,
        record bb₁ { waiter_store = bb₁.waiter_store ++ record no_waiter { wake = chan } ∷ [] },
      )
    ]

unfoldable pub reserve_legacy : ℕ → Bool → Option ℕ → ByteBudget → Reserved × ByteBudget
reserve_legacy n force waiter bb =
    let room = bb.total == 0 || (leb n bb.total && leb bb.used (sub64 bb.total n)) in
    let used = add64 bb.used n in
    let (w, bb') = wait_on_legacy waiter bb in
    if room || force
    then (
      record { admitted = true; overshot = not room; used = used; waiter = none },
      record bb { used = used },
    )
    else (record { admitted = false; overshot = false; used = bb.used; waiter = some w }, bb')

-- A new waiter of group `g` at the end of its queue, on a channel of its own.
unfoldable pub enqueue : ℕ → ℕ → ByteBudget → ℕ × ByteBudget
enqueue n g bb =
    let w = length bb.waiter_store in
    let v = group_at bb g in
    let x : BudgetWaiter = record {
      n = n;
      credit = 0;
      group = g;
      wake = bb.next_chan;
      elem = true;
      granted = false;
    } in
    let bb₁ = record bb {
      waiter_store = bb.waiter_store ++ x ∷ [];
      next_chan = suc bb.next_chan;
      group_store =
          (put_group bb g (record v {
            waiters = v.waiters ++ w ∷ [];
            pending = add64 v.pending 1;
            refs = if bb.fair then add64 v.refs 1 else v.refs;
          })).group_store;
    } in
    (w, schedule_locked (refresh_locked g (activate_locked g bb₁)))

-- The end of `reserveFor`, where the caller holds no waiter; `removed` says that it gave one up.
unfoldable pub reserve_now : ℕ → Bool → ℕ → Bool → ByteBudget → Reserved × ByteBudget
reserve_now n force g removed bb =
    let v = group_at bb g in
    let room = fits n v bb in
    let queued = not (length v.waiters == 0) in
    let escaped = bb.fair && (not room || queued) in
    let bb₁ = charge n g escaped bb in
    let bb₂ = if length (group_at bb₁ g).waiters == 0 then bb₁ else refresh_locked g bb₁ in
    let bb₃ = if removed then schedule_locked bb₂ else bb₂ in
    let (w, bb') = enqueue n g bb in
    if (room && not queued) || force
    then (
      record { admitted = true; overshot = not room || escaped; used = bb₃.used; waiter = none },
      bb₃,
    )
    else (record { admitted = false; overshot = false; used = bb'.used; waiter = some w }, bb')

-- A grant is taken: the bytes were charged when it was made.
unfoldable pub take_grant : ℕ → ByteBudget → ByteBudget
take_grant g bb = unregister_locked g (activate_locked g (drop_pending g bb))

unfoldable pub reserve_fair : ℕ → Bool → ℕ → Option ℕ → ByteBudget → Reserved × ByteBudget
reserve_fair n force g none bb = reserve_now n force g false bb
reserve_fair n force g (some w) bb =
    if (waiter_at bb w).granted
    then (let bb' = take_grant g bb in
        (record { admitted = true; overshot = false; used = bb'.used; waiter = none }, bb'))
    else if force
    then reserve_now n force g true (remove_waiter_locked w bb)
    else (record { admitted = false; overshot = false; used = bb.used; waiter = some w }, bb)

unfoldable pub reserve_for : ℕ → Bool → Option ℕ → Option ℕ → ByteBudget → Reserved × ByteBudget
reserve_for n force g waiter bb =
    if not bb.fair
    then reserve_legacy n force waiter bb
    else reserve_fair n force (group_or_legacy g) waiter bb

unfoldable pub cancel : Option ℕ → Option ByteBudget → Option ByteBudget
cancel w none = none
cancel none (some bb) = some bb
cancel (some w) (some bb) =
    if not bb.fair then some bb else some (schedule_locked (remove_waiter_locked w bb))

-- The broadcast of an ungrouped release.
unfoldable pub wake_legacy : ByteBudget → ByteBudget
wake_legacy bb = elim bb.legacy_wake [
  | none ↦ bb
  | some c ↦ record bb { closed = c ∷ bb.closed; legacy_wake = none }
]

unfoldable pub release_group : ℕ → ℕ → ℕ → ByteBudget → ByteBudget
release_group n escape g bb =
    let bb₁ = release_locked n escape g bb in
    if not bb.fair
    then wake_legacy bb₁
    else schedule_locked
        (if length (group_at bb₁ g).waiters == 0 then bb₁ else refresh_locked g bb₁)

unfoldable pub release_for : ℕ → ℕ → Option ℕ → Option ByteBudget → Option ByteBudget
release_for n escape g none = none
release_for n escape g (some bb) =
    if n == 0 then some bb else some (release_group n escape (group_or_legacy g) bb)
