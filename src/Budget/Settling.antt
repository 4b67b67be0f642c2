-- ===== src/Budget/Settling.antt =====
-- What the loop of `scheduleLocked` keeps, and that it ends by its own conditions.
use go_uspclient.Base.{
  ℕ, zero, suc, ◌+◌, ◌-◌, ◌≤◌, ◌<◌, ◌≡◌, ◌⊎◌, refl, ap, Bool, true, false, arith, word, add64,
  sub64, inl, inr,
}
use go_uspclient.Budget.State.{BudgetWaiter, ByteBudget}
use go_uspclient.Budget.Schedule.{
  base_room, credit_for, spend, schedule_round, wanted, rounds, schedule_locked,
}
use go_uspclient.Budget.Relinked.{Relinked}
use go_uspclient.Budget.Paying.{
  AllWithin, AllWithin-get, AllWithin-set, wanted-set, credit_for-wanted, credit_for-room,
  spend-Paid, head-there, served, head, head_waiter,
}
use go_uspclient.Budget.Rounds.{Settles, ends, goes_on, price, schedule_round_cases}

served-fields :
    (credit : ℕ) (x : BudgetWaiter)
    → ((served credit x).n ≡ x.n) × ((served credit x).credit ≡ add64 x.credit credit)
served-fields credit x = ground arith

module _ (base used g : ℕ) (bb : ByteBudget) (a : AllWithin bb.waiter_store) where
  abbrev credit : ℕ
  credit = credit_for base used g bb

  -- The head waiter's credit after the payment.
  raised_credit :
      let x = head_waiter g bb in
      ((served credit x).credit ≡ x.credit + credit) × (x.credit + credit ≤ x.n)
  raised_credit =
      let x = head_waiter g bb in
      let w = AllWithin-get bb.waiter_store (head g bb) a in
      let c = credit_for-wanted base used g bb in
      (omega (arith, (served-fields credit x).1, w.0, w.1, c), omega (arith, w.0, w.1, c))

  -- A payment keeps the credits within what was asked for, and lowers what is wanted by as much.
  spend-AllWithin :
      0 < credit
      → AllWithin (spend credit g bb).waiter_store
        × (wanted (spend credit g bb).waiter_store + credit ≡ wanted bb.waiter_store)
  spend-AllWithin h =
      let x = head_waiter g bb in
      let y = served credit x in
      let n = (served-fields credit x).0 in
      let (c, d) = raised_credit in
      let w = AllWithin-get bb.waiter_store (head g bb) a in
      rw (spend-Paid credit g bb (head-there base used g bb h)).store (
        AllWithin-set bb.waiter_store (head g bb) y a (omega (arith, n, c, d))
            (omega (arith, n, w.1)),
        omega (
          arith,
          c,
          d,
          wanted-set bb.waiter_store (head g bb) y n (omega (arith, c)) (omega (arith, n, c, d)),
        ),
      )

-- A round that goes on lowers what is wanted.
schedule_round-lowers :
    (bb : ByteBudget)
    → AllWithin bb.waiter_store
    → let (more, bb') = schedule_round bb in
      AllWithin bb'.waiter_store × (more ≡ true → wanted bb'.waiter_store < wanted bb.waiter_store)
schedule_round-lowers bb a =
    schedule_round_cases bb
      (λ r.
        AllWithin r.1.waiter_store
        × (r.0 ≡ true → wanted r.1.waiter_store < wanted bb.waiter_store))
      (λ bb' r. (rw r a, λ e. cc))
      (λ g bb' r l h.
        let s = ap (λ (x : ByteBudget). x.waiter_store) r in
        let (p, q) = spend-AllWithin (base_room bb) (sub64 bb.used bb.escape) g bb' (rw s a) h in
        (p, λ _. omega (arith, q, h, ap wanted s)))

rounds-Settles :
    (fuel : ℕ) (bb : ByteBudget)
    → AllWithin bb.waiter_store
    → wanted bb.waiter_store < fuel
    → Settles bb (rounds fuel bb) × AllWithin (rounds fuel bb).waiter_store
unfolding rounds
rounds-Settles zero bb a h = absurd (omega (arith, h))
rounds-Settles (suc fuel) bb a h =
    go (schedule_round bb) refl (schedule_round-lowers bb a) (rounds-Settles fuel)
  where
    go :
        (r : Bool × ByteBudget)
        → schedule_round bb ≡ r
        → AllWithin r.1.waiter_store
          × (r.0 ≡ true → wanted r.1.waiter_store < wanted bb.waiter_store)
        → ((c : ByteBudget)
            → AllWithin c.waiter_store
            → wanted c.waiter_store < fuel
            → Settles c (rounds fuel c) × AllWithin (rounds fuel c).waiter_store)
        → let out : ByteBudget =
            let (more, bb') = r in elim more [ true ↦ rounds fuel bb' | false ↦ bb' ] in
          Settles bb out × AllWithin out.waiter_store
    go (false, bb') e (a', l) rest = (ends bb bb' e, a')
    go (true, bb') e (a', l) rest =
        let (s, t) = rest bb' a' (omega (arith, l refl, h)) in (goes_on bb bb' _ e s, t)

-- While no waiter has more credit than it asked for, the loop of `scheduleLocked` ends by its own
-- conditions, never for want of fuel, and still no waiter has more credit than it asked for.
pub schedule_locked-Settles :
    (bb : ByteBudget)
    → AllWithin bb.waiter_store
    → Settles bb (schedule_locked bb) × AllWithin (schedule_locked bb).waiter_store
unfolding schedule_locked
schedule_locked-Settles bb a = rounds-Settles (wanted bb.waiter_store + 1) bb a (omega arith)

-- A budget with a limit whose bytes outside the escape do not exceed it.
pub record IsFunded (bb : ByteBudget) : Type 0 where
  pub limited : 0 < bb.total
  pub reserved : bb.reserve ≤ bb.total
  pub escaped : bb.escape ≤ bb.used
  pub funded : bb.used ≤ bb.escape + bb.total
  pub small : bb.escape + bb.total < word
  pub within : AllWithin bb.waiter_store

Relinked-IsFunded : (bb bb' : ByteBudget) → Relinked bb bb' → IsFunded bb → IsFunded bb'
Relinked-IsFunded bb bb' r i = rw r (record {
  limited = i.limited;
  reserved = i.reserved;
  escaped = i.escaped;
  funded = i.funded;
  small = i.small;
  within = i.within;
})

module _ (bb bb' : ByteBudget) (g : ℕ) (r : Relinked bb bb') (i : IsFunded bb) where
  -- A round's credit fits in what the limit leaves.
  price-funded :
      sub64 bb.used bb.escape < bb.total → price bb g bb' ≤ bb.escape + bb.total - bb.used
  price-funded l =
      let t = ap (λ (x : ByteBudget). x.total) r in
      ground (
        arith,
        l,
        t,
        i.limited,
        i.reserved,
        i.escaped,
        i.funded,
        i.small,
        credit_for-room (base_room bb) (sub64 bb.used bb.escape) g bb'
            (omega (arith, t, i.limited)),
      )

  spend-IsFunded :
      sub64 bb.used bb.escape < bb.total
      → 0 < price bb g bb'
      → IsFunded (spend (price bb g bb') g bb')
  spend-IsFunded l h =
      let c = price bb g bb' in
      let j = Relinked-IsFunded bb bb' r i in
      let p = spend-Paid c g bb' (head-there (base_room bb) (sub64 bb.used bb.escape) g bb' h) in
      let u = ap (λ (x : ByteBudget). x.used) r in
      let e = ap (λ (x : ByteBudget). x.escape) r in
      let t = ap (λ (x : ByteBudget). x.total) r in
      let f = price-funded l in
      record {
        limited = omega (arith, p.total, j.limited);
        reserved = omega (arith, p.total, p.reserve, j.reserved);
        escaped = omega (arith, p.used, p.escape, j.escaped, j.funded, j.small, f, u, e, t);
        funded = omega (arith, p.used, p.escape, p.total, j.funded, j.small, f, u, e, t);
        small = omega (arith, p.escape, p.total, j.small);
        within = (spend-AllWithin (base_room bb) (sub64 bb.used bb.escape) g bb' j.within h).0;
      }

rounds-IsFunded : (fuel : ℕ) (bb : ByteBudget) → IsFunded bb → IsFunded (rounds fuel bb)
unfolding rounds
rounds-IsFunded zero bb i = i
rounds-IsFunded (suc fuel) bb i =
    go (schedule_round bb)
      (schedule_round_cases bb (λ r. IsFunded r.1) (λ bb' r. Relinked-IsFunded bb bb' r i)
        (λ g bb' r l h. spend-IsFunded bb bb' g r i (room l) h))
      (rounds-IsFunded fuel)
  where
    room :
        (bb.total ≡ 0) ⊎ (sub64 bb.used bb.escape < bb.total) → sub64 bb.used bb.escape < bb.total
    room (inl z) = absurd (omega (arith, z, i.limited))
    room (inr l) = l

    go :
        (r : Bool × ByteBudget)
        → IsFunded r.1
        → ((c : ByteBudget) → IsFunded c → IsFunded (rounds fuel c))
        → IsFunded (let (more, bb') = r in elim more [ true ↦ rounds fuel bb' | false ↦ bb' ])
    go (false, bb') j rest = j
    go (true, bb') j rest = rest bb' j

-- The scheduler never lends more than the limit: in a budget with a limit, whose reserve is within
-- it and whose limit and escape bytes together fit in 64 bits, if the bytes in use beyond the escape
-- do not exceed the limit and no waiter has more credit than it asked for, then all of this still
-- holds after `scheduleLocked`.
pub schedule_locked-IsFunded : (bb : ByteBudget) → IsFunded bb → IsFunded (schedule_locked bb)
unfolding schedule_locked
schedule_locked-IsFunded bb i = rounds-IsFunded (wanted bb.waiter_store + 1) bb i
