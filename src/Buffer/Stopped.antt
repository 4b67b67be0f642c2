-- ===== src/Buffer/Stopped.antt =====
-- Only `Close`, `BeginDrain` and `Drain` touch `isRunning`, and they clear it.
use go_uspclient.Base.{
  ℕ, zero, suc, ◌≡◌, ap, ◌∙◌, Bool, true, false, Option, none, some, List, [], ◌∷◌, arith, sub64,
  ◌||◌, if◌then◌else◌, inl, inr, Bool-cases, Option-cases,
}
use go_uspclient.Buffer.State.{TrackedAdmission, AckBuffer, signal_locked, store_cell, sample_wake}
use go_uspclient.Buffer.Control.{
  update_capacity, close, begin_drain, drain_round, release_all_locked,
}
use go_uspclient.Buffer.Deliver.{
  ack, ack_check, ack_prefix, take_entry, hand_out, fence, deliver_loop, get_next_to_deliver,
  retire_exhausted, reset_delivery, first_cell,
}
use go_uspclient.Buffer.Valid.Taking.{take_entry-Cursor}
use go_uspclient.Buffer.Valid.Delivering.{
  deliver_loop_cases, get_next_to_deliver_ready, get_next_to_deliver_asleep,
}
use go_uspclient.Buffer.Valid.Acking.{release_retired_head_cases, ack_accepts, ack_refuses}
use go_uspclient.Buffer.Retire.{
  release_retired_head_locked, ack_receipts_locked, drop_entries, drop_receipts_locked,
  remove_prefix_locked, move_slots, shift_slots, free_prefix_bytes, shrink_backing_locked,
  update_availability, adjust_delivery, retire_locked, free_slot_bytes, confirm, names,
}

-- Nothing is accepted any more.
abbrev pub IsStopped : AckBuffer → Type 0
IsStopped b = b.is_running ≡ false

module _ (first index : ℕ) (a : Bool) where
  drop_entries-IsStopped :
      (es : List TrackedAdmission) (gone : Bool) (b : AckBuffer)
      → IsStopped b
      → IsStopped (drop_entries first index a es gone b).1
  unfolding drop_entries
  drop_entries-IsStopped [] gone b h = h
  drop_entries-IsStopped (e ∷ es) gone b h =
      let b' = if a then store_cell e.state (confirm (b.cells e.state)) b else b in
      ground (
        arith,
        drop_entries-IsStopped es (gone || names b.deliver_cursor e.state) b' (ground arith),
      )

  drop_receipts-IsStopped :
      (b : AckBuffer) → IsStopped b → IsStopped (drop_receipts_locked first index a b)
  unfolding drop_receipts_locked
  drop_receipts-IsStopped b h = ground (arith, drop_entries-IsStopped b.receipts false b h)

remove_prefix-IsStopped :
    (k : ℕ) (b : AckBuffer) → IsStopped b → IsStopped (remove_prefix_locked k b)
unfolding remove_prefix_locked move_slots shift_slots shrink_backing_locked update_availability
    adjust_delivery signal_locked free_prefix_bytes
remove_prefix-IsStopped k b h = ground arith

release_retired_head-IsStopped :
    (b : AckBuffer) → IsStopped b → IsStopped (release_retired_head_locked b)
release_retired_head-IsStopped b h =
    release_retired_head_cases IsStopped b h
      λ k ring _ _. drop_receipts-IsStopped _ k false _ (remove_prefix-IsStopped k _ h)

retire_locked-IsStopped :
    (index : ℕ) (e : TrackedAdmission) (b : AckBuffer)
    → IsStopped b
    → IsStopped (retire_locked index e b)
unfolding retire_locked free_slot_bytes signal_locked
retire_locked-IsStopped index e b h = ground arith

pub ack-IsStopped : (seq : ℕ) (b : AckBuffer) → IsStopped b → IsStopped (ack seq b).1
unfolding ack_prefix ack_receipts_locked
ack-IsStopped seq b h = elim (Option-cases (ack_check seq b)) [
  | inl e ↦ rw (ack_accepts seq b e) (
      release_retired_head-IsStopped _ (
        drop_receipts-IsStopped _ _ true _
          (remove_prefix-IsStopped (sub64 seq b.first_seq_num) b h)))
  | inr (r, e) ↦ rw (ack_refuses seq b r e) h
]

fence-IsStopped :
    (index : ℕ) (e : Option TrackedAdmission) (b : AckBuffer)
    → IsStopped b
    → IsStopped (fence index e b)
unfolding fence
fence-IsStopped index none b h = h
fence-IsStopped index (some e) b h =
    release_retired_head-IsStopped _ (retire_locked-IsStopped index e b h)

hand_out-IsStopped :
    (index : ℕ) (e : Option TrackedAdmission) (b : AckBuffer)
    → IsStopped b
    → IsStopped (hand_out index e b).1
unfolding hand_out
hand_out-IsStopped index e b h = ground arith

deliver_loop-IsStopped :
    (fuel : ℕ) (b : AckBuffer) → IsStopped b → IsStopped (deliver_loop fuel b).1
unfolding deliver_loop
deliver_loop-IsStopped zero b h = h
deliver_loop-IsStopped (suc fuel) b h =
    deliver_loop_cases fuel b (λ r. IsStopped r.1) (λ _. h)
      (λ _ _. deliver_loop-IsStopped fuel _ kept)
      (λ _ _ _. deliver_loop-IsStopped fuel _ (fence-IsStopped _ _ _ kept))
      (λ _ _ _. hand_out-IsStopped _ _ _ kept)
  where
    kept : IsStopped (take_entry b.next_index_to_deliver b).1
    kept = ap (λ (x : AckBuffer). x.is_running) (take_entry-Cursor b.next_index_to_deliver b) ∙ h

pub get_next_to_deliver-IsStopped :
    (b : AckBuffer) → IsStopped b → IsStopped (get_next_to_deliver b).1
get_next_to_deliver-IsStopped b h = elim (Bool-cases b.is_ready_to_deliver.v) [
  | inl e ↦ rw (get_next_to_deliver_ready b e) (deliver_loop-IsStopped _ b h)
  | inr e ↦ rw (get_next_to_deliver_asleep b e) h
]

retire_exhausted-IsStopped :
    (es : List TrackedAdmission) (b : AckBuffer) → IsStopped b → IsStopped (retire_exhausted es b)
unfolding retire_exhausted
retire_exhausted-IsStopped [] b h = h
retire_exhausted-IsStopped (e ∷ es) b h =
    retire_exhausted-IsStopped es _
      (ground (arith, retire_locked-IsStopped (sub64 e.seq b.first_seq_num) e b h))

pub reset_delivery-IsStopped : (b : AckBuffer) → IsStopped b → IsStopped (reset_delivery b)
unfolding reset_delivery
reset_delivery-IsStopped b h =
    let r = record b { next_index_to_deliver = 0; deliver_cursor = first_cell b.receipts } in
    let k =
      release_retired_head-IsStopped (retire_exhausted b.receipts r)
        (retire_exhausted-IsStopped b.receipts r h) in
    ground (arith, k)

pub update_capacity-IsStopped :
    (n : ℕ) (b : AckBuffer) → IsStopped b → IsStopped (update_capacity n b)
unfolding update_capacity signal_locked update_availability shrink_backing_locked
update_capacity-IsStopped n b h = ground arith

pub close_stops : (b : AckBuffer) → IsStopped (close b)
unfolding close release_all_locked signal_locked
close_stops b = ground arith

pub begin_drain_stops : (b : AckBuffer) → IsStopped (begin_drain b)
unfolding begin_drain signal_locked
begin_drain_stops b = ground arith

pub drain_round-IsStopped :
    (done : Bool) (b : AckBuffer) → IsStopped b → IsStopped (drain_round done b).1
unfolding drain_round sample_wake
drain_round-IsStopped done b h = ground arith
