-- ===== src/Budget/Paying.antt =====
-- What one payment of `scheduleLocked` does to the accounts and the waiters.
use go_uspclient.Base.{
  ℕ, zero, suc, ◌+◌, ◌-◌, ◌≤◌, ◌<◌, ◌≡◌, ◌⊎◌, refl, ap, ◌∙◌, true, false, List, [], ◌∷◌, arith,
  word, add64, sub64, length, get_or, get_or-set, get_or-past, set-set, set, ltb, ◌==◌, inl, inr,
  Bool-cases, if◌then◌else◌,
}
use go_uspclient.Budget.State.{
  BudgetWaiter, ByteBudget, no_waiter, group_at, waiter_at, put_waiter, front,
}
use go_uspclient.Budget.Account.{charge, activate_locked}
use go_uspclient.Budget.Schedule.{credit_for, grant, spend, wanted, refresh_locked}
use go_uspclient.Budget.Relinked.{
  Relinked, Relinked-trans, refresh_locked-Relinked, rotate-Relinked,
}

-- No waiter has more credit than the bytes that it asked for, a `uint64`.
abbrev pub AllWithin : List BudgetWaiter → Type 0
AllWithin [] = Unit
AllWithin (w ∷ ws) = (w.credit ≤ w.n) × (w.n < word) × AllWithin ws

pub AllWithin-get :
    (ws : List BudgetWaiter) (i : ℕ)
    → AllWithin ws
    → ((get_or ws i no_waiter).credit ≤ (get_or ws i no_waiter).n)
      × ((get_or ws i no_waiter).n < word)
AllWithin-get [] i a = (omega arith, omega arith)
AllWithin-get (w ∷ ws) zero a = (a.0, a.1)
AllWithin-get (w ∷ ws) (suc i) a = AllWithin-get ws i a.2

pub AllWithin-set :
    (ws : List BudgetWaiter) (i : ℕ) (w : BudgetWaiter)
    → AllWithin ws
    → w.credit ≤ w.n
    → w.n < word
    → AllWithin (set ws i w)
AllWithin-set [] i w a c n = tt
AllWithin-set (x ∷ ws) zero w a c n = (c, n, a.2)
AllWithin-set (x ∷ ws) (suc i) w a c n = (a.0, a.1, AllWithin-set ws i w a.2 c n)

-- Only a waiter that is there wants something.
pub wanted-set :
    (ws : List BudgetWaiter) (i : ℕ) (w : BudgetWaiter)
    → let x = get_or ws i no_waiter in
      w.n ≡ x.n
      → x.credit ≤ w.credit
      → w.credit ≤ w.n
      → wanted (set ws i w) + (w.credit - x.credit) ≡ wanted ws
unfolding wanted
wanted-set [] i w n c d = omega (arith, n, c, d)
wanted-set (x ∷ ws) zero w n c d = omega (arith, n, c, d)
wanted-set (x ∷ ws) (suc i) w n c d = omega (arith, wanted-set ws i w n c d)

charge-waiters :
    (n g : ℕ) (bb : ByteBudget)
    → ((charge n g false bb).waiter_store ≡ bb.waiter_store)
      × ((charge n g false bb).used ≡ add64 bb.used n)
      × ((charge n g false bb).escape ≡ bb.escape)
      × ((charge n g false bb).total ≡ bb.total)
      × ((charge n g false bb).reserve ≡ bb.reserve)
unfolding charge activate_locked
charge-waiters n g bb = ground arith

-- The head waiter of a group.
abbrev pub head : ℕ → ByteBudget → ℕ
head g bb = front (group_at bb g).waiters

abbrev pub head_waiter : ℕ → ByteBudget → BudgetWaiter
head_waiter g bb = waiter_at bb (head g bb)

pub credit_for-wanted :
    (base used g : ℕ) (bb : ByteBudget)
    → credit_for base used g bb ≤ sub64 (head_waiter g bb).n (head_waiter g bb).credit
unfolding credit_for
credit_for-wanted base used g bb = ground arith

pub credit_for-room :
    (base used g : ℕ) (bb : ByteBudget)
    → 0 < bb.total
    → (credit_for base used g bb ≤ sub64 bb.total used) ⊎ (credit_for base used g bb ≤ base)
unfolding credit_for
credit_for-room base used g bb t = ground (arith, t)

-- What `spend` makes of the head waiter.
abbrev pub served : ℕ → BudgetWaiter → BudgetWaiter
served credit x =
    let x' = record x { credit = add64 x.credit credit } in
    if x'.credit == x'.n then record x' { elem = false; granted = true } else x'

grant-waiters :
    (w g : ℕ) (bb : ByteBudget)
    → ((grant w g bb).waiter_store
        ≡ set bb.waiter_store w (record (waiter_at bb w) { elem = false; granted = true }))
      × ((grant w g bb).used ≡ bb.used)
      × ((grant w g bb).escape ≡ bb.escape)
      × ((grant w g bb).total ≡ bb.total)
      × ((grant w g bb).reserve ≡ bb.reserve)
unfolding grant
grant-waiters w g bb = (refl, refl, refl, refl, refl)

-- The accounts and the waiters after `credit` bytes went to the head of `g`.
pub record Paid (credit g : ℕ) (bb bb' : ByteBudget) : Type 0 where
  pub store : bb'.waiter_store ≡ set bb.waiter_store (head g bb) (served credit (head_waiter g bb))
  pub used : bb'.used ≡ add64 bb.used credit
  pub escape : bb'.escape ≡ bb.escape
  pub total : bb'.total ≡ bb.total
  pub reserve : bb'.reserve ≡ bb.reserve

Relinked-Paid :
    (credit g : ℕ) (a b c : ByteBudget) → Paid credit g a b → Relinked b c → Paid credit g a c
Relinked-Paid credit g a b c p r = record {
  store = ap (λ (x : ByteBudget). x.waiter_store) r ∙ p.store;
  used = ap (λ (x : ByteBudget). x.used) r ∙ p.used;
  escape = ap (λ (x : ByteBudget). x.escape) r ∙ p.escape;
  total = ap (λ (x : ByteBudget). x.total) r ∙ p.total;
  reserve = ap (λ (x : ByteBudget). x.reserve) r ∙ p.reserve;
}

abbrev raised : ℕ → BudgetWaiter → BudgetWaiter
raised credit x = record x { credit = add64 x.credit credit }

-- `spend` between the charge and the refresh.
abbrev pay : ℕ → ℕ → ℕ → ByteBudget → ByteBudget
pay credit w g bb =
    let x' = raised credit (waiter_at bb w) in
    let bb₂ = put_waiter bb w x' in if x'.credit == x'.n then grant w g bb₂ else bb₂

pay-store :
    (credit w g : ℕ) (bb : ByteBudget)
    → w < length bb.waiter_store
    → (pay credit w g bb).waiter_store ≡ set bb.waiter_store w (served credit (waiter_at bb w))
unfolding grant
pay-store credit w g bb h =
    elim (Bool-cases (add64 (waiter_at bb w).credit credit == (waiter_at bb w).n)) [
      | inl e ↦
          rw (e, get_or-set bb.waiter_store w (raised credit (waiter_at bb w)) no_waiter h)
            (set-set bb.waiter_store w _ _)
      | inr e ↦ rw e refl
    ]

pay-accounts :
    (credit w g : ℕ) (bb : ByteBudget)
    → ((pay credit w g bb).used ≡ bb.used)
      × ((pay credit w g bb).escape ≡ bb.escape)
      × ((pay credit w g bb).total ≡ bb.total)
      × ((pay credit w g bb).reserve ≡ bb.reserve)
unfolding grant
pay-accounts credit w g bb = ground arith

pay-Paid :
    (credit g : ℕ) (bb : ByteBudget)
    → head g bb < length bb.waiter_store
    → Paid credit g bb (pay credit (head g bb) g (charge credit g false bb))
pay-Paid credit g bb h =
    let c = charge credit g false bb in
    let (store, used, escape, total, reserve) = charge-waiters credit g bb in
    let a = pay-accounts credit (head g bb) g c in
    record {
      store =
          pay-store credit (head g bb) g c (rw store h)
          ∙ ap (λ ws. set ws (head g bb) (served credit (get_or ws (head g bb) no_waiter))) store;
      used = a.0 ∙ used;
      escape = a.1 ∙ escape;
      total = a.2 ∙ total;
      reserve = a.3 ∙ reserve;
    }

pub spend-Paid :
    (credit g : ℕ) (bb : ByteBudget)
    → head g bb < length bb.waiter_store
    → Paid credit g bb (spend credit g bb)
unfolding spend
spend-Paid credit g bb h =
    let paid = pay credit (head g bb) g (charge credit g false bb) in
    Relinked-Paid credit g bb paid _ (pay-Paid credit g bb h) (
      Relinked-trans paid (refresh_locked g paid) _ (refresh_locked-Relinked g paid)
        (rotate-Relinked g (refresh_locked g paid)))

-- A waiter that is not there wants nothing.
pub head-there :
    (base used g : ℕ) (bb : ByteBudget)
    → 0 < credit_for base used g bb
    → head g bb < length bb.waiter_store
head-there base used g bb h = elim (Bool-cases (ltb (head g bb) (length bb.waiter_store))) [
  | inl e ↦ ground (arith, e)
  | inr e ↦
      let past = get_or-past bb.waiter_store (head g bb) no_waiter (ground (arith, e)) in
      absurd (
        omega (
          arith,
          h,
          credit_for-wanted base used g bb,
          ap (λ (x : BudgetWaiter). x.n) past,
          ap (λ (x : BudgetWaiter). x.credit) past,
        ))
]
