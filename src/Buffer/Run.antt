-- ===== src/Buffer/Run.antt =====
-- Any sequence of operations on one `AckBuffer`: each runs under the buffer's lock, so concurrent
-- callers take turns.
use go_uspclient.Base.{
  ℕ, suc, ◌^◌, ◌<◌, ◌≡◌, ap, ◌∙◌, Bool, true, Option, none, some, arith, List, [], ◌∷◌, add64,
  Option-cases, inl, inr,
}
use go_uspclient.Protocol.Messages.{DataMessage}
use go_uspclient.Budget.State.{ByteBudget}
use go_uspclient.Buffer.State.{AckBuffer, fresh_buffer}
use go_uspclient.Buffer.Retire.{ack_receipts_locked}
use go_uspclient.Buffer.Admit.{append, track, try_add}
use go_uspclient.Buffer.Deliver.{ack_check, ack_prefix, ack, get_next_to_deliver, reset_delivery}
use go_uspclient.Buffer.Control.{close, begin_drain, drain_round, update_capacity}
use go_uspclient.Buffer.Chain.{IsTracked, append-Chain, grow-Chain}
use go_uspclient.Buffer.Valid.{IsValid, fresh_buffer-IsValid}
use go_uspclient.Buffer.Valid.Admitting.{Gated, try_add_cases, Gated-IsValid, try_add-IsValid}
use go_uspclient.Buffer.Valid.Acking.{
  Tracked-IsValid, drop_receipts-Tracked, ack_check-lt, ack_accepts, ack_refuses,
}
use go_uspclient.Buffer.Valid.Retiring.{
  IsSound, drop_receipts-IsTracked, release_retired_head-IsSound,
}
use go_uspclient.Buffer.Valid.Removing.{remove_prefix-IsValid}
use go_uspclient.Buffer.Valid.Delivering.{get_next_to_deliver-IsSound, reset_delivery-IsSound}
use go_uspclient.Buffer.Valid.Controlling.{
  close-IsSound, begin_drain-IsSound, drain_round-IsSound, update_capacity-IsSound,
}

append-IsTracked :
    (e : DataMessage) (size : ℕ) (forced : Bool) (step : ℕ) (receipt : Option ℕ) (limit : ℕ)
    (b : AckBuffer)
    → IsValid b
    → b.is_available.v ≡ true
    → IsTracked b
    → IsTracked (append e size forced step receipt limit b)
unfolding append track
append-IsTracked e size forced step none limit b v h t = record {
  chain =
      let f : add64 b.next_index_free 1 ≡ suc b.next_index_free = omega (arith, v.fits, v.small) in
      rw f (grow-Chain b.first_seq_num b.next_index_free _ 0 b.receipts (omega arith) t.chain);
}
append-IsTracked e size forced step (some c) limit b v h t = record {
  chain =
      let f : add64 b.next_index_free 1 ≡ suc b.next_index_free = omega (arith, v.fits, v.small) in
      rw f (
        append-Chain b.first_seq_num b.next_index_free 0 b.receipts _ v.first
          (omega (arith, v.fits, v.small)) (omega arith) v.next t.chain);
}

Gated-IsTracked : (b b' : AckBuffer) → Gated b b' → IsTracked b → IsTracked b'
Gated-IsTracked b b' g t = rw g (record { chain = t.chain })

pub try_add-IsSound :
    (e : DataMessage) (size : ℕ) (waiter receipt : Option ℕ) (limit : ℕ) (b : AckBuffer)
    → IsSound b
    → IsSound (try_add e size waiter receipt limit b).1
try_add-IsSound e size waiter receipt limit b s = record {
  valid = try_add-IsValid e size waiter receipt limit b s.valid;
  tracked =
      try_add_cases e size waiter receipt limit b (λ r. IsTracked r.1)
        (λ _. record { chain = s.tracked.chain }) (λ w b' _ _ g. Gated-IsTracked b b' g s.tracked)
        (λ forced step b' h _ g.
          append-IsTracked e size forced step receipt limit b' (Gated-IsValid b b' g s.valid)
            (ap (λ (x : AckBuffer). x.is_available.v) g ∙ h) (Gated-IsTracked b b' g s.tracked));
}

ack_prefix-IsSound :
    (k : ℕ) (b : AckBuffer) → k < b.next_index_free → IsSound b → IsSound (ack_prefix k b)
unfolding ack_prefix ack_receipts_locked
ack_prefix-IsSound k b h s = release_retired_head-IsSound _ (record {
  valid =
      Tracked-IsValid _ _ (drop_receipts-Tracked _ _ true _) (remove_prefix-IsValid k b s.valid h);
  tracked = drop_receipts-IsTracked k true b s.valid s.tracked h;
})

pub ack-IsSound : (seq : ℕ) (b : AckBuffer) → IsSound b → IsSound (ack seq b).1
ack-IsSound seq b s = elim (Option-cases (ack_check seq b)) [
  | inl e ↦ rw (ack_accepts seq b e) (ack_prefix-IsSound _ b (ack_check-lt seq b e) s)
  | inr (r, e) ↦ rw (ack_refuses seq b r e) s
]

-- One locked operation: an attempt of `Add` with its size, waiter, receipt cell and limit, and the
-- others.
pub data Op : Type 0 where
  adds : DataMessage → ℕ → Option ℕ → Option ℕ → ℕ → Op
  acks : ℕ → Op
  delivers : Op
  resets : Op
  resizes : ℕ → Op
  drains : Op
  polls_drain : Bool → Op
  closes : Op

unfoldable pub step : Op → AckBuffer → AckBuffer
step (adds e size waiter receipt limit) b = (try_add e size waiter receipt limit b).1
step (acks seq) b = (ack seq b).1
step delivers b = (get_next_to_deliver b).1
step resets b = reset_delivery b
step (resizes capacity) b = update_capacity capacity b
step drains b = begin_drain b
step (polls_drain done) b = (drain_round done b).1
step closes b = close b

unfoldable pub run : List Op → AckBuffer → AckBuffer
run [] b = b
run (o ∷ os) b = run os (step o b)

-- Windows are slice lengths, so they are below 2 ^ 63.
abbrev pub Fits : Op → Type 0
Fits (resizes capacity) = capacity < 2 ^ 63
Fits (adds e size waiter receipt limit) = Unit
Fits o = Unit

abbrev pub AllFit : List Op → Type 0
AllFit [] = Unit
AllFit (o ∷ os) = Fits o × AllFit os

pub step-IsSound : (o : Op) (b : AckBuffer) → Fits o → IsSound b → IsSound (step o b)
unfolding step
step-IsSound (adds e size waiter receipt limit) b f s =
    try_add-IsSound e size waiter receipt limit b s
step-IsSound (acks seq) b f s = ack-IsSound seq b s
step-IsSound delivers b f s = get_next_to_deliver-IsSound b s
step-IsSound resets b f s = reset_delivery-IsSound b s
step-IsSound (resizes capacity) b f s = update_capacity-IsSound capacity b f s
step-IsSound drains b f s = begin_drain-IsSound b s
step-IsSound (polls_drain done) b f s = drain_round-IsSound done b s
step-IsSound closes b f s = close-IsSound b s

pub fresh_buffer-IsSound :
    (max_bytes : ℕ) (shared : Option ByteBudget) (group : Option ℕ)
    → IsSound (fresh_buffer max_bytes shared group)
unfolding fresh_buffer
fresh_buffer-IsSound max_bytes shared group = record {
  valid = fresh_buffer-IsValid max_bytes shared group;
  tracked = record { chain = tt };
}

run-IsSound : (os : List Op) (b : AckBuffer) → AllFit os → IsSound b → IsSound (run os b)
unfolding run
run-IsSound [] b f s = s
run-IsSound (o ∷ os) b f s = run-IsSound os (step o b) f.1 (step-IsSound o b f.0 s)

-- From a new buffer on, after any sequence of operations whose windows are slice lengths: the slots
-- in use fit in the backing array and hold messages numbered consecutively (modulo 2 ^ 64) from
-- `firstSeqNum`, up to `nextSeqNum`; the delivery index is within them; `isAvailable` is set exactly
-- while there are fewer of them than the window allows; `isReadyToDeliver` is set while one of them
-- waits for delivery, and `isEmpty` is its negation; `ackEvery` is positive; and the receipts
-- tracked are those of slots in the window, in slot order.
pub run-fresh-IsSound :
    (os : List Op) (max_bytes : ℕ) (shared : Option ByteBudget) (group : Option ℕ)
    → AllFit os
    → IsSound (run os (fresh_buffer max_bytes shared group))
run-fresh-IsSound os max_bytes shared group f =
    run-IsSound os _ f (fresh_buffer-IsSound max_bytes shared group)
