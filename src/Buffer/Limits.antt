-- ===== src/Buffer/Limits.antt =====
-- The transmission limit of a tracked message.
use go_uspclient.Base.{
  ℕ, zero, suc, ◌≡◌, refl, ap, ◌∙◌, Bool, Option, none, some, List, [], ◌∷◌, arith, sub64, inl, inr,
  Bool-cases,
}
use go_uspclient.Protocol.Messages.{DataMessage}
use go_uspclient.Buffer.State.{
  TrackedAdmission, AckBuffer, fresh_buffer, signal_locked, sample_wake,
}
use go_uspclient.Budget.State.{ByteBudget}
use go_uspclient.Buffer.Admit.{append, track, try_add}
use go_uspclient.Buffer.Control.{
  close, begin_drain, drain_round, update_capacity, release_all_locked,
}
use go_uspclient.Buffer.Valid.Delivering.{
  deliver_loop_cases, get_next_to_deliver_ready, get_next_to_deliver_asleep,
}
use go_uspclient.Buffer.Valid.Admitting.{try_add_cases}
use go_uspclient.Buffer.Run.{
  Op, adds, acks, delivers, resets, resizes, drains, polls_drain, closes, step, run,
}
use go_uspclient.Buffer.Deliver.{
  take_entry, deliver_loop, get_next_to_deliver, retire_exhausted, reset_delivery, first_cell,
}
use go_uspclient.Buffer.Retire.{shrink_backing_locked, update_availability}
use go_uspclient.Buffer.Counts.{
  WithinLimits, IsFound, append-WithinLimits, release_retired_head-WithinLimits, ack-WithinLimits,
  retire_locked-receipts, take_entry-IsFound, take_entry-receipts, hand_out-receipts,
  count-WithinLimits, fence-WithinLimits,
}

deliver_loop-WithinLimits :
    (fuel : ℕ) (b : AckBuffer)
    → WithinLimits b.receipts
    → WithinLimits (deliver_loop fuel b).1.receipts
unfolding deliver_loop
deliver_loop-WithinLimits zero b w = w
deliver_loop-WithinLimits (suc fuel) b w =
    deliver_loop_cases fuel b (λ r. WithinLimits r.1.receipts) (λ _. w)
      (λ _ _. deliver_loop-WithinLimits fuel _ kept)
      (λ _ _ _. deliver_loop-WithinLimits fuel _ (fence-WithinLimits _ _ _ kept))
      (λ _ _ l.
        rw (hand_out-receipts b.next_index_to_deliver _ _) (count-WithinLimits _ _ found l kept))
  where
    kept : WithinLimits (take_entry b.next_index_to_deliver b).1.receipts
    kept = rw (take_entry-receipts b.next_index_to_deliver b) w

    found :
        IsFound
          (take_entry b.next_index_to_deliver b).0
          (take_entry b.next_index_to_deliver b).1.receipts
    found =
        rw (take_entry-receipts b.next_index_to_deliver b)
          (take_entry-IsFound b.next_index_to_deliver b)

get_next_to_deliver-WithinLimits :
    (b : AckBuffer) → WithinLimits b.receipts → WithinLimits (get_next_to_deliver b).1.receipts
get_next_to_deliver-WithinLimits b w = elim (Bool-cases b.is_ready_to_deliver.v) [
  | inl e ↦ rw (get_next_to_deliver_ready b e) (deliver_loop-WithinLimits _ b w)
  | inr e ↦ rw (get_next_to_deliver_asleep b e) w
]

retire_exhausted-receipts :
    (es : List TrackedAdmission) (b : AckBuffer) → (retire_exhausted es b).receipts ≡ b.receipts
unfolding retire_exhausted
retire_exhausted-receipts [] b = refl
retire_exhausted-receipts (e ∷ es) b =
    retire_exhausted-receipts es _
    ∙ ground (arith, retire_locked-receipts (sub64 e.seq b.first_seq_num) e b)

-- `ResetDelivery` before its loop.
abbrev rewound : AckBuffer → AckBuffer
rewound b = record b { next_index_to_deliver = 0; deliver_cursor = first_cell b.receipts }

reset_delivery-WithinLimits :
    (b : AckBuffer) → WithinLimits b.receipts → WithinLimits (reset_delivery b).receipts
unfolding reset_delivery
reset_delivery-WithinLimits b w =
    let k =
      release_retired_head-WithinLimits (retire_exhausted b.receipts (rewound b))
        (rw (retire_exhausted-receipts b.receipts (rewound b)) w) in
    ground (arith, k)

update_capacity-receipts : (n : ℕ) (b : AckBuffer) → (update_capacity n b).receipts ≡ b.receipts
unfolding update_capacity signal_locked update_availability shrink_backing_locked
update_capacity-receipts n b = ground arith

close-receipts : (b : AckBuffer) → (close b).receipts ≡ b.receipts
unfolding close release_all_locked signal_locked
close-receipts b = ground arith

begin_drain-receipts : (b : AckBuffer) → (begin_drain b).receipts ≡ b.receipts
unfolding begin_drain signal_locked
begin_drain-receipts b = ground arith

drain_round-receipts : (done : Bool) (b : AckBuffer) → (drain_round done b).1.receipts ≡ b.receipts
unfolding drain_round sample_wake
drain_round-receipts done b = ground arith

append_entry-WithinLimits :
    (e : DataMessage) (size : ℕ) (forced : Bool) (step : ℕ) (receipt : Option ℕ) (limit : ℕ)
    (b : AckBuffer)
    → WithinLimits b.receipts
    → WithinLimits (append e size forced step receipt limit b).receipts
unfolding append track
append_entry-WithinLimits e size forced step none limit b w = w
append_entry-WithinLimits e size forced step (some d) limit b w =
    append-WithinLimits b.receipts _ refl w

try_add-WithinLimits :
    (e : DataMessage) (size : ℕ) (waiter receipt : Option ℕ) (limit : ℕ) (b : AckBuffer)
    → WithinLimits b.receipts
    → WithinLimits (try_add e size waiter receipt limit b).1.receipts
try_add-WithinLimits e size waiter receipt limit b w =
    try_add_cases e size waiter receipt limit b (λ r. WithinLimits r.1.receipts) (λ _. w)
      (λ _ b' _ _ g. rw (ap (λ (x : AckBuffer). x.receipts) g) w)
      (λ forced step b' _ _ g.
        append_entry-WithinLimits e size forced step receipt limit b'
          (rw (ap (λ (x : AckBuffer). x.receipts) g) w))

step-WithinLimits :
    (o : Op) (b : AckBuffer) → WithinLimits b.receipts → WithinLimits (step o b).receipts
unfolding step
step-WithinLimits (adds e size waiter receipt limit) b w =
    try_add-WithinLimits e size waiter receipt limit b w
step-WithinLimits (acks seq) b w = ack-WithinLimits seq b w
step-WithinLimits delivers b w = get_next_to_deliver-WithinLimits b w
step-WithinLimits resets b w = reset_delivery-WithinLimits b w
step-WithinLimits (resizes n) b w = rw (update_capacity-receipts n b) w
step-WithinLimits drains b w = rw (begin_drain-receipts b) w
step-WithinLimits (polls_drain done) b w = rw (drain_round-receipts done b) w
step-WithinLimits closes b w = rw (close-receipts b) w

run-WithinLimits :
    (os : List Op) (b : AckBuffer) → WithinLimits b.receipts → WithinLimits (run os b).receipts
unfolding run
run-WithinLimits [] b w = w
run-WithinLimits (o ∷ os) b w = run-WithinLimits os (step o b) (step-WithinLimits o b w)

-- From a new buffer on, after any sequence of operations, every tracked message that has a
-- transmission limit has been counted as handed out at most that often.
pub run-fresh-WithinLimits :
    (os : List Op) (max_bytes : ℕ) (shared : Option ByteBudget) (group : Option ℕ)
    → WithinLimits (run os (fresh_buffer max_bytes shared group)).receipts
unfolding fresh_buffer
run-fresh-WithinLimits os max_bytes shared group = run-WithinLimits os _ tt
