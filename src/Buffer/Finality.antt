-- ===== src/Buffer/Finality.antt =====
-- A receipt that reads retired is never turned into another state.
use go_uspclient.Base.{
  ℕ, zero, suc, ◌≡◌, ◌≢◌, ap, ◌∙◌, Bool, true, false, Option, none, some, List, [], ◌∷◌, arith, leb,
  sub64, ◌==◌, if◌then◌else◌, inl, inr, Bool-cases, Option-cases,
}
use go_uspclient.Protocol.Messages.{DataMessage}
use go_uspclient.Buffer.State.{
  retired, TrackedAdmission, AckBuffer, store_cell, signal_locked, sample_wake,
}
use go_uspclient.Buffer.Admit.{append, track, try_add}
use go_uspclient.Buffer.Control.{
  close, begin_drain, drain_round, update_capacity, release_all_locked,
}
use go_uspclient.Buffer.Valid.Taking.{take_entry-Cursor}
use go_uspclient.Buffer.Valid.Delivering.{
  deliver_loop_cases, get_next_to_deliver_ready, get_next_to_deliver_asleep,
}
use go_uspclient.Buffer.Valid.Admitting.{try_add_cases}
use go_uspclient.Buffer.Run.{
  Op, adds, acks, delivers, resets, resizes, drains, polls_drain, closes, step, run,
}
use go_uspclient.Buffer.Deliver.{
  ack, ack_check, ack_prefix, take_entry, hand_out, fence, deliver_loop, get_next_to_deliver,
  retire_exhausted, reset_delivery, first_cell,
}
use go_uspclient.Buffer.Valid.Acking.{release_retired_head_cases, ack_accepts, ack_refuses}
use go_uspclient.Buffer.Retire.{
  confirm, release_retired_head_locked, ack_receipts_locked, drop_entries, drop_receipts_locked,
  remove_prefix_locked, move_slots, shift_slots, free_prefix_bytes, shrink_backing_locked,
  update_availability, adjust_delivery, retire_locked, free_slot_bytes,
}

-- Whatever cell reads retired in `b` still does in `b'`.
abbrev pub KeepsRetired : ℕ → AckBuffer → AckBuffer → Type 0
KeepsRetired c b b' = b.cells c ≡ retired → b'.cells c ≡ retired

confirm-KeepsRetired :
    (c d : ℕ) (ack : Bool) (b : AckBuffer)
    → KeepsRetired c b (if ack then store_cell d (confirm (b.cells d)) b else b)
confirm-KeepsRetired c d ack b h = elim (Bool-cases (c == d)) [
  | inl e ↦ let q : c ≡ d = ground (arith, e) in ground (arith, ap b.cells q)
  | inr e ↦ ground (arith, e)
]

drop_entries-KeepsRetired :
    (c first index : ℕ) (ack : Bool) (es : List TrackedAdmission) (gone : Bool) (b : AckBuffer)
    → KeepsRetired c b (drop_entries first index ack es gone b).1
unfolding drop_entries
drop_entries-KeepsRetired c first index ack [] gone b h = h
drop_entries-KeepsRetired c first index ack (e ∷ es) gone b h =
    elim (Bool-cases (leb (sub64 e.seq first) index)) [
      | inl q ↦
          rw (q, drop_entries)
            (drop_entries-KeepsRetired c first index ack es _ _
              (confirm-KeepsRetired c e.state ack b h))
      | inr q ↦ rw (q, drop_entries) h
    ]

drop_receipts-KeepsRetired :
    (c first index : ℕ) (ack : Bool) (b : AckBuffer)
    → KeepsRetired c b (drop_receipts_locked first index ack b)
unfolding drop_receipts_locked
drop_receipts-KeepsRetired c first index ack b h =
    ground (arith, drop_entries-KeepsRetired c first index ack b.receipts false b h)

free_prefix_bytes-cells : (k : ℕ) (b : AckBuffer) → (free_prefix_bytes k b).cells ≡ b.cells
unfolding free_prefix_bytes
free_prefix_bytes-cells k b = ground arith

remove_prefix-cells : (k : ℕ) (b : AckBuffer) → (remove_prefix_locked k b).cells ≡ b.cells
unfolding remove_prefix_locked move_slots shift_slots shrink_backing_locked update_availability
    adjust_delivery signal_locked
remove_prefix-cells k b = ground (arith, free_prefix_bytes-cells k b)

retire_locked-KeepsRetired :
    (c index : ℕ) (e : TrackedAdmission) (b : AckBuffer)
    → KeepsRetired c b (retire_locked index e b)
unfolding retire_locked free_slot_bytes signal_locked
retire_locked-KeepsRetired c index e b h = ground arith

pub release_retired_head-KeepsRetired :
    (c : ℕ) (b : AckBuffer) → KeepsRetired c b (release_retired_head_locked b)
release_retired_head-KeepsRetired c b h =
    release_retired_head_cases (λ b'. b'.cells c ≡ retired) b h
      λ k ring _ _.
        drop_receipts-KeepsRetired c _ k false _
          (ap (λ f. f c) (remove_prefix-cells k (record b { released_retired = ring })) ∙ h)

ack-KeepsRetired : (c seq : ℕ) (b : AckBuffer) → KeepsRetired c b (ack seq b).1
unfolding ack_prefix ack_receipts_locked
ack-KeepsRetired c seq b h = elim (Option-cases (ack_check seq b)) [
  | inl e ↦ rw (ack_accepts seq b e) (
      release_retired_head-KeepsRetired c _ (
        drop_receipts-KeepsRetired c _ _ true _
          (ap (λ f. f c) (remove_prefix-cells (sub64 seq b.first_seq_num) b) ∙ h)))
  | inr (r, e) ↦ rw (ack_refuses seq b r e) h
]

take_entry-cells : (index : ℕ) (b : AckBuffer) → (take_entry index b).1.cells ≡ b.cells
take_entry-cells index b = ap (λ (x : AckBuffer). x.cells) (take_entry-Cursor index b)

hand_out-cells :
    (index : ℕ) (e : Option TrackedAdmission) (b : AckBuffer)
    → (hand_out index e b).1.cells ≡ b.cells
unfolding hand_out
hand_out-cells index e b = ground arith

fence-KeepsRetired :
    (c index : ℕ) (e : Option TrackedAdmission) (b : AckBuffer) → KeepsRetired c b (fence index e b)
unfolding fence
fence-KeepsRetired c index none b h = h
fence-KeepsRetired c index (some e) b h =
    release_retired_head-KeepsRetired c _ (retire_locked-KeepsRetired c index e b h)

pub deliver_loop-KeepsRetired :
    (c fuel : ℕ) (b : AckBuffer) → KeepsRetired c b (deliver_loop fuel b).1
unfolding deliver_loop
deliver_loop-KeepsRetired c zero b h = h
deliver_loop-KeepsRetired c (suc fuel) b h =
    deliver_loop_cases fuel b (λ r. r.1.cells c ≡ retired) (λ _. h)
      (λ _ _. deliver_loop-KeepsRetired c fuel _ kept)
      (λ _ _ _. deliver_loop-KeepsRetired c fuel _ (fence-KeepsRetired c _ _ _ kept))
      (λ _ _ _. ap (λ f. f c) (hand_out-cells _ _ _) ∙ kept)
  where
    kept : (take_entry b.next_index_to_deliver b).1.cells c ≡ retired
    kept = ap (λ f. f c) (take_entry-cells b.next_index_to_deliver b) ∙ h

get_next_to_deliver-KeepsRetired :
    (c : ℕ) (b : AckBuffer) → KeepsRetired c b (get_next_to_deliver b).1
get_next_to_deliver-KeepsRetired c b h = elim (Bool-cases b.is_ready_to_deliver.v) [
  | inl e ↦ rw (get_next_to_deliver_ready b e) (deliver_loop-KeepsRetired c _ b h)
  | inr e ↦ rw (get_next_to_deliver_asleep b e) h
]

retire_exhausted-KeepsRetired :
    (c : ℕ) (es : List TrackedAdmission) (b : AckBuffer) → KeepsRetired c b (retire_exhausted es b)
unfolding retire_exhausted
retire_exhausted-KeepsRetired c [] b h = h
retire_exhausted-KeepsRetired c (e ∷ es) b h =
    retire_exhausted-KeepsRetired c es _
      (ground (arith, retire_locked-KeepsRetired c (sub64 e.seq b.first_seq_num) e b h))

-- `ResetDelivery` before its loop.
abbrev rewound : AckBuffer → AckBuffer
rewound b = record b { next_index_to_deliver = 0; deliver_cursor = first_cell b.receipts }

reset_delivery-KeepsRetired : (c : ℕ) (b : AckBuffer) → KeepsRetired c b (reset_delivery b)
unfolding reset_delivery
reset_delivery-KeepsRetired c b h =
    let k =
      release_retired_head-KeepsRetired c (retire_exhausted b.receipts (rewound b))
        (retire_exhausted-KeepsRetired c b.receipts (rewound b) h) in
    ground (arith, k)

update_capacity-cells : (n : ℕ) (b : AckBuffer) → (update_capacity n b).cells ≡ b.cells
unfolding update_capacity signal_locked update_availability shrink_backing_locked
update_capacity-cells n b = ground arith

close-cells : (b : AckBuffer) → (close b).cells ≡ b.cells
unfolding close release_all_locked signal_locked
close-cells b = ground arith

begin_drain-cells : (b : AckBuffer) → (begin_drain b).cells ≡ b.cells
unfolding begin_drain signal_locked
begin_drain-cells b = ground arith

drain_round-cells : (done : Bool) (b : AckBuffer) → (drain_round done b).1.cells ≡ b.cells
unfolding drain_round sample_wake
drain_round-cells done b = ground arith

append-KeepsRetired :
    (c : ℕ) (e : DataMessage) (size : ℕ) (forced : Bool) (step : ℕ) (receipt : Option ℕ) (limit : ℕ)
    (b : AckBuffer)
    → receipt ≢ some c
    → KeepsRetired c b (append e size forced step receipt limit b)
unfolding append track
append-KeepsRetired c e size forced step none limit b n h = h
append-KeepsRetired c e size forced step (some d) limit b n h = elim (Bool-cases (c == d)) [
  | inl q ↦ absurd (n (ap some (ground (arith, q))))
  | inr q ↦ ground (arith, q)
]

try_add-KeepsRetired :
    (c : ℕ) (e : DataMessage) (size : ℕ) (waiter receipt : Option ℕ) (limit : ℕ) (b : AckBuffer)
    → receipt ≢ some c
    → KeepsRetired c b (try_add e size waiter receipt limit b).1
try_add-KeepsRetired c e size waiter receipt limit b n h =
    try_add_cases e size waiter receipt limit b (λ r. r.1.cells c ≡ retired) (λ _. h)
      (λ w b' _ _ g. ap (λ (x : AckBuffer). x.cells c) g ∙ h)
      (λ forced step b' _ _ g.
        append-KeepsRetired c e size forced step receipt limit b' n
          (ap (λ (x : AckBuffer). x.cells c) g ∙ h))

-- Each receipt has a cell of its own, made for it: no later message comes with cell `c`.
abbrev pub Avoids : ℕ → Op → Type 0
Avoids c (adds e size waiter receipt limit) = receipt ≢ some c
Avoids c o = Unit

abbrev pub AllAvoid : ℕ → List Op → Type 0
AllAvoid c [] = Unit
AllAvoid c (o ∷ os) = Avoids c o × AllAvoid c os

step-KeepsRetired : (c : ℕ) (o : Op) (b : AckBuffer) → Avoids c o → KeepsRetired c b (step o b)
unfolding step
step-KeepsRetired c (adds e size waiter receipt limit) b a h =
    try_add-KeepsRetired c e size waiter receipt limit b a h
step-KeepsRetired c (acks seq) b a h = ack-KeepsRetired c seq b h
step-KeepsRetired c delivers b a h = get_next_to_deliver-KeepsRetired c b h
step-KeepsRetired c resets b a h = reset_delivery-KeepsRetired c b h
step-KeepsRetired c (resizes n) b a h = ap (λ f. f c) (update_capacity-cells n b) ∙ h
step-KeepsRetired c drains b a h = ap (λ f. f c) (begin_drain-cells b) ∙ h
step-KeepsRetired c (polls_drain done) b a h = ap (λ f. f c) (drain_round-cells done b) ∙ h
step-KeepsRetired c closes b a h = ap (λ f. f c) (close-cells b) ∙ h

-- A receipt that reads retired reads so after any later operations on the buffer, ACKs that cover
-- its number and closing included, as long as no other message is tracked in its cell.
pub run-keeps_retired :
    (c : ℕ) (os : List Op) (b : AckBuffer)
    → AllAvoid c os
    → b.cells c ≡ retired
    → (run os b).cells c ≡ retired
unfolding run
run-keeps_retired c [] b a h = h
run-keeps_retired c (o ∷ os) b a h =
    run-keeps_retired c os (step o b) a.1 (step-KeepsRetired c o b a.0 h)
