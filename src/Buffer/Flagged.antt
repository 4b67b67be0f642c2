-- ===== src/Buffer/Flagged.antt =====
-- That the slot which `lastFlaggedSeq` names asks for an ACK, after any operations.
use go_uspclient.Base.{
  ℕ, suc, ◌+◌, ◌≤◌, ◌<◌, ◌≡◌, ap, word, length, add64, length-take, ◌⊎◌, refl, ◌∙◌, Bool, true,
  false, List, [], ◌∷◌, ◌++◌, Option, none, some, arith, inl, inr,
}
use go_uspclient.Protocol.Messages.{DataMessage}
use go_uspclient.Buffer.State.{AckBuffer, pending}
use go_uspclient.Buffer.Valid.Retiring.{IsSound}
use go_uspclient.Budget.State.{ByteBudget}
use go_uspclient.Buffer.State.{fresh_buffer}
use go_uspclient.Buffer.Admit.{append, track, must_flag, stamped, try_add}
use go_uspclient.Buffer.Window.{Numbered}
use go_uspclient.Buffer.Valid.{IsValid}
use go_uspclient.Buffer.Valid.Admitting.{pending-append, Gated-IsValid, try_add_cases}
use go_uspclient.Buffer.Run.{
  Op, adds, acks, delivers, resets, resizes, drains, polls_drain, closes, step, run, AllFit,
  step-IsSound, fresh_buffer-IsSound,
}
use go_uspclient.Buffer.Asking.{Asks, AllAsk, Stays, Same, Same-Stays, ack-Stays}
use go_uspclient.Buffer.Staying.{
  get_next_to_deliver-Stays, reset_delivery-Stays, update_capacity-Stays, others-Stays,
}

-- The slot that `lastFlaggedSeq` names asks for an ACK, and the number is in the past.
pub record IsFlagged (b : AckBuffer) : Type 0 where
  pub slots : AllAsk b.last_flagged_seq (pending b)
  pub past : b.last_flagged_seq < b.next_seq_num

append-AllAsk :
    (last : ℕ) (xs : List (Option DataMessage)) (x : Option DataMessage)
    → AllAsk last xs
    → Asks last x
    → AllAsk last (xs ++ x ∷ [])
append-AllAsk last [] x h a = (a, tt)
append-AllAsk last (y ∷ xs) x h a = (h.0, append-AllAsk last xs x h.1 a)

-- The next number is not that of a slot.
Numbered-AllAsk :
    (s t : ℕ) (xs : List (Option DataMessage))
    → s < word
    → length xs < word
    → t ≡ add64 s (length xs)
    → Numbered s xs
    → AllAsk t xs
Numbered-AllAsk s t [] h l e n = tt
Numbered-AllAsk s t (none ∷ xs) h l e n = absurd n
Numbered-AllAsk s t (some m ∷ xs) h l e n = (
  inr (inl (λ q. omega (arith, n.0))),
  Numbered-AllAsk (add64 s 1) t xs (omega arith) (omega arith) (omega arith) n.1,
)

Stays-IsFlagged : (b b' : AckBuffer) → Stays b b' → 0 < b.next_seq_num → IsFlagged b → IsFlagged b'
Stays-IsFlagged b b' f p h = record {
  slots = f.slots h.slots;
  past = ground (arith, f.last, f.next, h.past);
}

append_fields :
    (e : DataMessage) (size : ℕ) (forced : Bool) (step : ℕ) (receipt : Option ℕ) (limit : ℕ)
    (b : AckBuffer)
    → let b' = append e size forced step receipt limit b in
      (b'.next_seq_num ≡ add64 b.next_seq_num 1)
      × (((must_flag e size forced step b ≡ true) × (b'.last_flagged_seq ≡ b.next_seq_num))
          ⊎ (b'.last_flagged_seq ≡ b.last_flagged_seq))
unfolding append track
append_fields e size forced step none limit b = ground arith
append_fields e size forced step (some c) limit b = ground arith

append-IsFlagged :
    (e : DataMessage) (size : ℕ) (forced : Bool) (step : ℕ) (receipt : Option ℕ) (limit : ℕ)
    (b : AckBuffer)
    → IsValid b
    → b.is_available.v ≡ true
    → suc b.next_seq_num < word
    → IsFlagged b
    → IsFlagged (append e size forced step receipt limit b)
append-IsFlagged e size forced step receipt limit b v a w h =
    go (append_fields e size forced step receipt limit b)
  where
    b' : AckBuffer
    b' = append e size forced step receipt limit b

    behind : pending b' ≡ pending b ++ some (stamped e size forced step b) ∷ []
    behind =
        let lt : b.next_index_free < b.current_capacity = ground (arith, v.room, a) in
        pending-append e size forced step receipt limit b v (omega (arith, v.capacity))

    others : AllAsk b.next_seq_num (pending b)
    others =
        Numbered-AllAsk b.first_seq_num b.next_seq_num (pending b) v.first
          (omega (arith, v.fits, v.small, length-take b.next_index_free b.buff))
          (omega (arith, v.next, v.fits, length-take b.next_index_free b.buff)) v.numbered

    go :
        (b'.next_seq_num ≡ add64 b.next_seq_num 1)
          × (((must_flag e size forced step b ≡ true) × (b'.last_flagged_seq ≡ b.next_seq_num))
              ⊎ (b'.last_flagged_seq ≡ b.last_flagged_seq))
        → IsFlagged b'
    go (n, inl (m, l)) = record {
      slots = rw (l, behind) (append-AllAsk b.next_seq_num (pending b) _ others (inr (inr m)));
      past = omega arith;
    }
    go (n, inr l) = record {
      slots =
          rw (l, behind)
            (append-AllAsk b.last_flagged_seq (pending b) _ h.slots
              (inr (inl (λ q. omega (arith, h.past)))));
      past = omega (arith, h.past);
    }

-- What an operation does: the invariant is kept, and at most one number is given.
abbrev Goes : AckBuffer → AckBuffer → Type 0
Goes b b' = IsFlagged b' × (0 < b'.next_seq_num) × (b'.next_seq_num ≤ suc b.next_seq_num)

module _ (b : AckBuffer) (s : IsSound b) (p : 0 < b.next_seq_num) (w : suc b.next_seq_num < word)
    (h : IsFlagged b) where
  Stays-Goes : (b' : AckBuffer) → Stays b b' → Goes b b'
  Stays-Goes b' f = (Stays-IsFlagged b b' f p h, omega (arith, f.next), omega (arith, f.next))

  adds-Goes :
      (e : DataMessage) (size : ℕ) (waiter receipt : Option ℕ) (limit : ℕ)
      → Goes b (try_add e size waiter receipt limit b).1
  adds-Goes e size waiter receipt limit =
      try_add_cases e size waiter receipt limit b (λ r. Goes b r.1)
        (λ _. Stays-Goes _ (Same-Stays b _ (refl, refl, refl)))
        (λ _ b' _ _ g. Stays-Goes b' (Same-Stays b b' (ground arith)))
        (λ forced step b' a _ g.
          let same : Same b b' = ground arith in
          let n = (append_fields e size forced step receipt limit b').0 in
          (
            append-IsFlagged e size forced step receipt limit b' (Gated-IsValid b b' g s.valid)
                (ap (λ (x : AckBuffer). x.is_available.v) g ∙ a) (omega (arith, same.0))
                (Stays-IsFlagged b b' (Same-Stays b b' same) p h),
            omega (arith, n, same.0),
            omega (arith, n, same.0),
          ))

  step-Goes : (o : Op) → Goes b (step o b)
  unfolding step
  step-Goes (adds e size waiter receipt limit) = adds-Goes e size waiter receipt limit
  step-Goes (acks seq) = Stays-Goes _ (ack-Stays seq b s)
  step-Goes delivers = Stays-Goes _ (get_next_to_deliver-Stays b s)
  step-Goes resets = Stays-Goes _ (reset_delivery-Stays b s)
  step-Goes (resizes n) = Stays-Goes _ (update_capacity-Stays n b s)
  step-Goes drains = Stays-Goes _ (others-Stays false b).1
  step-Goes (polls_drain done) = Stays-Goes _ (others-Stays done b).2
  step-Goes closes = Stays-Goes _ (others-Stays false b).0

pub run-IsFlagged :
    (os : List Op) (b : AckBuffer)
    → AllFit os
    → IsSound b
    → 0 < b.next_seq_num
    → suc b.next_seq_num + length os < word
    → IsFlagged b
    → IsSound (run os b) × IsFlagged (run os b)
unfolding run
run-IsFlagged [] b f s p w h = (s, h)
run-IsFlagged (o ∷ os) b f s p w h =
    let g = step-Goes b s p (omega arith) h o in
    run-IsFlagged os (step o b) f.1 (step-IsSound o b f.0 s) g.1 (omega (arith, g.2)) g.0

pub run-fresh-IsFlagged :
    (os : List Op) (max_bytes : ℕ) (shared : Option ByteBudget) (group : Option ℕ)
    → AllFit os
    → length os + 2 < word
    → let b = run os (fresh_buffer max_bytes shared group) in IsSound b × IsFlagged b
unfolding fresh_buffer
run-fresh-IsFlagged os max_bytes shared group f w =
    run-IsFlagged os _ f (fresh_buffer-IsSound max_bytes shared group) (omega arith) (omega arith)
      (record { slots = tt; past = omega arith })
