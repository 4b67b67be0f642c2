-- ===== src/Budget/Relinked.antt =====
-- The lists and the heap of waiting groups: moving a group between them leaves the accounts and the
-- waiters as they are.
use go_uspclient.Base.{
  ℕ, zero, suc, ◌+◌, ◌-◌, ◌*◌, ◌/◌, ◌≡◌, refl, ap, ◌∙◌, Bool, true, false, not, ◌||◌, List, [], ◌∷◌,
  Option, none, some, length, leb, ltb, ◌==◌, inl, inr, Bool-cases, if◌then◌else◌,
}
use go_uspclient.Budget.State.{ByteBudget, group_at, front}
use go_uspclient.Budget.Account.{share, group_need}
use go_uspclient.Budget.GroupHeap.{
  less, swap, up, lesser_child, down, push_back, pop_back, heap_push, heap_pop, heap_fix,
  heap_remove, settle,
}
use go_uspclient.Budget.Schedule.{
  refresh_idle, refresh_waiting, refresh_locked, promote, first_eligible, next_reserve_locked,
  enter_reserve, eligible, pick, rotate, leave_blocked, enter_blocked, when, leave_waiting,
  enter_waiting, leave_reserve, base_room,
}

-- Only the lists, the heap and the groups' own fields differ.
abbrev pub Relinked : ByteBudget → ByteBudget → Type 0
Relinked bb bb' = bb' ≡ record bb {
  waiting = bb'.waiting;
  reserve_ready = bb'.reserve_ready;
  blocked = bb'.blocked;
  group_store = bb'.group_store;
}

pub Relinked-trans : (a b c : ByteBudget) → Relinked a b → Relinked b c → Relinked a c
Relinked-trans a b c f g =
    g
    ∙ ap
        (λ (x : ByteBudget). record x {
          waiting = c.waiting;
          reserve_ready = c.reserve_ready;
          blocked = c.blocked;
          group_store = c.group_store;
        })
        f

if-Relinked :
    (c : Bool) (bb x y : ByteBudget)
    → Relinked bb x
    → Relinked bb y
    → Relinked bb (if c then x else y)
if-Relinked true bb x y f g = f
if-Relinked false bb x y f g = g

when-Relinked :
    (c : Bool) (f : ByteBudget → ByteBudget) (bb : ByteBudget)
    → Relinked bb (f bb)
    → Relinked bb (when c f bb)
when-Relinked true f bb r = r
when-Relinked false f bb r = refl

swap-Relinked : (i j : ℕ) (bb : ByteBudget) → Relinked bb (swap i j bb)
unfolding swap
swap-Relinked i j bb = refl

up-Relinked : (fuel j : ℕ) (bb : ByteBudget) → Relinked bb (up fuel j bb)
unfolding up
up-Relinked zero j bb = refl
up-Relinked (suc fuel) j bb =
    elim (Bool-cases ((j - 1) / 2 == j || not (less bb j ((j - 1) / 2)))) [
      | inl e ↦ rw (e, up) refl
      | inr e ↦
          rw (e, up)
            (Relinked-trans bb (swap ((j - 1) / 2) j bb) _ (swap-Relinked ((j - 1) / 2) j bb)
              (up-Relinked fuel ((j - 1) / 2) (swap ((j - 1) / 2) j bb)))
    ]

down-Relinked : (fuel i n : ℕ) (bb : ByteBudget) → Relinked bb (down fuel i n bb).0
unfolding down
down-Relinked zero i n bb = refl
down-Relinked (suc fuel) i n bb =
    let j = lesser_child i n bb in
    elim (Bool-cases (leb n (2 * i + 1) || not (less bb j i))) [
      | inl e ↦ rw (e, down) refl
      | inr e ↦
          rw (e, down)
            (Relinked-trans bb (swap i j bb) _ (swap-Relinked i j bb)
              (down-Relinked fuel j n (swap i j bb)))
    ]

settle-Relinked : (i n : ℕ) (bb : ByteBudget) → Relinked bb (settle i n bb)
settle-Relinked i n bb = elim (Bool-cases (ltb i (down (length bb.blocked) i n bb).1)) [
  | inl e ↦ rw e (down-Relinked (length bb.blocked) i n bb)
  | inr e ↦ rw e (
      Relinked-trans bb (down (length bb.blocked) i n bb).0 _
        (down-Relinked (length bb.blocked) i n bb) (up-Relinked (length bb.blocked) i _))
]

pop_back-Relinked : (bb : ByteBudget) → Relinked bb (pop_back bb)
unfolding pop_back
pop_back-Relinked bb = refl

heap_push-Relinked : (g : ℕ) (bb : ByteBudget) → Relinked bb (heap_push g bb)
unfolding heap_push push_back
heap_push-Relinked g bb =
    Relinked-trans bb (push_back g bb) _ refl (up-Relinked _ _ (push_back g bb))

heap_pop-Relinked : (bb : ByteBudget) → Relinked bb (heap_pop bb)
unfolding heap_pop
heap_pop-Relinked bb =
    let n = length bb.blocked - 1 in
    let d = (down (length bb.blocked) 0 n (swap 0 n bb)).0 in
    Relinked-trans bb d _
      (Relinked-trans bb (swap 0 n bb) d (swap-Relinked 0 n bb) (down-Relinked _ 0 n (swap 0 n bb)))
      (pop_back-Relinked d)

heap_remove-Relinked : (i : ℕ) (bb : ByteBudget) → Relinked bb (heap_remove i bb)
unfolding heap_remove
heap_remove-Relinked i bb =
    let n = length bb.blocked - 1 in
    let s = swap i n bb in
    elim (Bool-cases (n == i)) [
      | inl e ↦ rw e (pop_back-Relinked bb)
      | inr e ↦ rw e (
          Relinked-trans bb (settle i n s) _
            (Relinked-trans bb s (settle i n s) (swap-Relinked i n bb) (settle-Relinked i n s))
            (pop_back-Relinked (settle i n s)))
    ]

leave_blocked-Relinked : (i : Option ℕ) (bb : ByteBudget) → Relinked bb (leave_blocked i bb)
leave_blocked-Relinked none bb = refl
leave_blocked-Relinked (some i) bb = heap_remove-Relinked i bb

enter_blocked-Relinked :
    (g : ℕ) (i : Option ℕ) (bb : ByteBudget) → Relinked bb (enter_blocked g i bb)
unfolding heap_fix
enter_blocked-Relinked g none bb = heap_push-Relinked g bb
enter_blocked-Relinked g (some i) bb = settle-Relinked i (length bb.blocked) bb

refresh_idle-Relinked : (g : ℕ) (bb : ByteBudget) → Relinked bb (refresh_idle g bb)
unfolding refresh_idle
refresh_idle-Relinked g bb =
    let bb₁ = when (group_at bb g).all_elem (leave_waiting g) bb in
    let bb₂ = when (group_at bb₁ g).reserve_elem (leave_reserve g) bb₁ in
    Relinked-trans bb bb₂ _
      (Relinked-trans bb bb₁ bb₂ (when-Relinked (group_at bb g).all_elem (leave_waiting g) bb refl)
        (when-Relinked (group_at bb₁ g).reserve_elem (leave_reserve g) bb₁ refl))
      (leave_blocked-Relinked (group_at bb₂ g).heap_index bb₂)

refresh_waiting-Relinked : (g : ℕ) (bb : ByteBudget) → Relinked bb (refresh_waiting g bb)
unfolding refresh_waiting
refresh_waiting-Relinked g bb =
    let bb₁ = when (not (group_at bb g).all_elem) (enter_waiting g) bb in
    let v = group_at bb₁ g in
    let promoted = leave_blocked v.heap_index bb₁ in
    let demoted = when v.reserve_elem (leave_reserve g) bb₁ in
    Relinked-trans bb bb₁ _ (when-Relinked (not (group_at bb g).all_elem) (enter_waiting g) bb refl)
      (if-Relinked (not bb₁.fair || leb (group_need bb₁ v) (share bb₁ v)) bb₁ _ _
        (Relinked-trans bb₁ promoted _ (leave_blocked-Relinked v.heap_index bb₁)
          (when-Relinked (not (group_at promoted g).reserve_elem) (enter_reserve g) promoted refl))
        (Relinked-trans bb₁ demoted _ (when-Relinked v.reserve_elem (leave_reserve g) bb₁ refl)
          (enter_blocked-Relinked g (group_at demoted g).heap_index demoted)))

pub refresh_locked-Relinked : (g : ℕ) (bb : ByteBudget) → Relinked bb (refresh_locked g bb)
unfolding refresh_locked
refresh_locked-Relinked g bb =
    if-Relinked (length (group_at bb g).waiters == 0) bb _ _ (refresh_idle-Relinked g bb)
      (refresh_waiting-Relinked g bb)

promote-Relinked : (fuel : ℕ) (bb : ByteBudget) → Relinked bb (promote fuel bb)
unfolding promote
promote-Relinked zero bb = refl
promote-Relinked (suc fuel) bb =
    let g = front bb.blocked in
    elim (Bool-cases (length bb.blocked == 0 || not (eligible g bb))) [
      | inl e ↦ rw (e, promote) refl
      | inr e ↦
          let popped = enter_reserve g (heap_pop bb) in
          rw (e, promote)
            (Relinked-trans bb popped _
              (Relinked-trans bb (heap_pop bb) popped (heap_pop-Relinked bb) refl)
              (promote-Relinked fuel popped))
    ]

first_eligible-Relinked : (fuel : ℕ) (bb : ByteBudget) → Relinked bb (first_eligible fuel bb).1
unfolding first_eligible
first_eligible-Relinked zero bb = refl
first_eligible-Relinked (suc fuel) bb =
    go bb.reserve_ready refl (λ g. first_eligible-Relinked fuel (refresh_locked g bb))
  where
    go :
        (gs : List ℕ)
        → bb.reserve_ready ≡ gs
        → ((g : ℕ) → Relinked (refresh_locked g bb) (first_eligible fuel (refresh_locked g bb)).1)
        → Relinked bb (first_eligible (suc fuel) bb).1
    go [] e r = rw (e, first_eligible) refl
    go (g ∷ gs) e r = elim (Bool-cases (eligible g bb)) [
      | inl h ↦ rw (e, h, first_eligible) refl
      | inr h ↦
          rw (e, h, first_eligible)
            (Relinked-trans bb (refresh_locked g bb) _ (refresh_locked-Relinked g bb) (r g))
    ]

pub pick-Relinked : (bb : ByteBudget) → Relinked bb (pick bb).1
unfolding next_reserve_locked pick
pick-Relinked bb = elim (Bool-cases (not (base_room bb == 0) || not bb.fair)) [
  | inl e ↦ rw (e, pick) refl
  | inr e ↦
      let bb' = promote (length bb.blocked) bb in
      rw (e, pick)
        (Relinked-trans bb bb' _ (promote-Relinked (length bb.blocked) bb)
          (first_eligible-Relinked (length bb'.reserve_ready + 1) bb'))
]

pub rotate-Relinked : (g : ℕ) (bb : ByteBudget) → Relinked bb (rotate g bb)
unfolding rotate
rotate-Relinked g bb = refl
