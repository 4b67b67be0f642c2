-- ===== src/Buffer/Detached.antt =====
-- A buffer that is closed and whose receipts are detached (`releaseReceiptTracking`).
use go_uspclient.Base.{
  sub64, ℕ, zero, suc, ◌≡◌, refl, ap, ◌∙◌, Bool, true, false, Option, none, some, [], arith, inl,
  inr, Bool-cases, Option-cases,
}
use go_uspclient.Buffer.State.{ReceiptFrameState, AckBuffer, signal_locked, sample_wake}
use go_uspclient.Buffer.Control.{
  close, begin_drain, drain_round, update_capacity, release_all_locked,
}
use go_uspclient.Buffer.Deliver.{
  limit_reached, ack, ack_check, ack_prefix, find_entry, take_entry, hand_out, deliver_loop,
  get_next_to_deliver, retire_exhausted, reset_delivery,
}
use go_uspclient.Buffer.Valid.Delivering.{
  deliver_loop_cases, get_next_to_deliver_ready, get_next_to_deliver_asleep,
}
use go_uspclient.Buffer.Valid.Acking.{release_retired_head_cases, ack_accepts, ack_refuses}
use go_uspclient.Buffer.Retire.{
  release_retired_head_locked, ack_receipts_locked, drop_entries, drop_receipts_locked,
  remove_prefix_locked, move_slots, shift_slots, free_prefix_bytes, shrink_backing_locked,
  update_availability, adjust_delivery,
}

-- Nothing is accepted, no receipt is tracked, and the cells read `f`.
pub record IsDetached (f : ℕ → ReceiptFrameState) (b : AckBuffer) : Type 0 where
  pub stopped : b.is_running ≡ false
  pub untracked : b.receipts ≡ []
  pub cells : b.cells ≡ f

-- `b'` differs from `b` in other fields.
abbrev AsBefore : AckBuffer → AckBuffer → Type 0
AsBefore b b' = (b'.is_running ≡ b.is_running) × (b'.receipts ≡ b.receipts) × (b'.cells ≡ b.cells)

module _ (f : ℕ → ReceiptFrameState) where
  AsBefore-IsDetached : (b b' : AckBuffer) → AsBefore b b' → IsDetached f b → IsDetached f b'
  AsBefore-IsDetached b b' (r, t, c) d = record {
    stopped = r ∙ d.stopped;
    untracked = t ∙ d.untracked;
    cells = c ∙ d.cells;
  }

  drop_receipts-IsDetached :
      (first index : ℕ) (a : Bool) (b : AckBuffer)
      → IsDetached f b
      → IsDetached f (drop_receipts_locked first index a b)
  unfolding drop_receipts_locked drop_entries
  drop_receipts-IsDetached first index a b d =
      AsBefore-IsDetached b _ (rw d.untracked (refl, refl, refl)) d

  free_prefix_bytes-AsBefore : (k : ℕ) (b : AckBuffer) → AsBefore b (free_prefix_bytes k b)
  unfolding free_prefix_bytes
  free_prefix_bytes-AsBefore k b = ground arith

  remove_prefix-IsDetached :
      (k : ℕ) (b : AckBuffer) → IsDetached f b → IsDetached f (remove_prefix_locked k b)
  unfolding remove_prefix_locked move_slots shift_slots shrink_backing_locked update_availability
      adjust_delivery signal_locked
  remove_prefix-IsDetached k b d =
      AsBefore-IsDetached b _ (ground (arith, free_prefix_bytes-AsBefore k b)) d

  release_retired_head-IsDetached :
      (b : AckBuffer) → IsDetached f b → IsDetached f (release_retired_head_locked b)
  release_retired_head-IsDetached b d = release_retired_head_cases (IsDetached f) b d λ k ring _ _.
      drop_receipts-IsDetached _ k false _
        (remove_prefix-IsDetached k _ (AsBefore-IsDetached b _ (refl, refl, refl) d))

  pub ack-IsDetached : (seq : ℕ) (b : AckBuffer) → IsDetached f b → IsDetached f (ack seq b).1
  unfolding ack_prefix ack_receipts_locked
  ack-IsDetached seq b d = elim (Option-cases (ack_check seq b)) [
    | inl e ↦ rw (ack_accepts seq b e) (
        release_retired_head-IsDetached _ (
          drop_receipts-IsDetached _ _ true _
            (remove_prefix-IsDetached (sub64 seq b.first_seq_num) b d)))
    | inr (r, e) ↦ rw (ack_refuses seq b r e) d
  ]

  -- Without tracked receipts the cursor finds no entry.
  find_entry-none : (c : Option ℕ) → find_entry c [] ≡ none
  unfolding find_entry
  find_entry-none none = refl
  find_entry-none (some c) = refl

  take_entry_untracked :
      (index : ℕ) (b : AckBuffer) → b.receipts ≡ [] → take_entry index b ≡ (none, b)
  unfolding take_entry
  take_entry_untracked index b e =
      let n : find_entry b.deliver_cursor b.receipts ≡ none =
        ap (find_entry b.deliver_cursor) e ∙ find_entry-none b.deliver_cursor in
      ground (arith, n)

  hand_out-AsBefore : (index : ℕ) (b : AckBuffer) → AsBefore b (hand_out index none b).1
  unfolding hand_out
  hand_out-AsBefore index b = ground arith

  deliver_loop-IsDetached :
      (fuel : ℕ) (b : AckBuffer) → IsDetached f b → IsDetached f (deliver_loop fuel b).1
  unfolding deliver_loop
  deliver_loop-IsDetached zero b d = d
  deliver_loop-IsDetached (suc fuel) b d =
      deliver_loop_cases fuel b (λ r. IsDetached f r.1)
        (λ _. AsBefore-IsDetached b _ (refl, refl, refl) d)
        (λ _ _.
          rw q (deliver_loop-IsDetached fuel _ (AsBefore-IsDetached b _ (refl, refl, refl) d)))
        (λ _ _ l. absurd (cc (ap limit_reached (ap (λ p. p.0) q) ∙ refl, l)))
        (λ _ _ _. rw q (AsBefore-IsDetached b _ (hand_out-AsBefore b.next_index_to_deliver b) d))
    where
      q : take_entry b.next_index_to_deliver b ≡ (none, b)
      q = take_entry_untracked b.next_index_to_deliver b d.untracked

  pub get_next_to_deliver-IsDetached :
      (b : AckBuffer) → IsDetached f b → IsDetached f (get_next_to_deliver b).1
  get_next_to_deliver-IsDetached b d = elim (Bool-cases b.is_ready_to_deliver.v) [
    | inl e ↦ rw (get_next_to_deliver_ready b e) (deliver_loop-IsDetached _ b d)
    | inr e ↦ rw (get_next_to_deliver_asleep b e) d
  ]

  pub reset_delivery-IsDetached : (b : AckBuffer) → IsDetached f b → IsDetached f (reset_delivery b)
  unfolding reset_delivery retire_exhausted
  reset_delivery-IsDetached b d =
      let k =
        release_retired_head-IsDetached
          (record b { next_index_to_deliver = 0; deliver_cursor = none })
          (AsBefore-IsDetached b _ (refl, refl, refl) d) in
      AsBefore-IsDetached
        (release_retired_head_locked
          (record b { next_index_to_deliver = 0; deliver_cursor = none }))
        _ (rw d.untracked (ground arith)) k

  pub update_capacity-IsDetached :
      (n : ℕ) (b : AckBuffer) → IsDetached f b → IsDetached f (update_capacity n b)
  unfolding update_capacity signal_locked update_availability shrink_backing_locked
  update_capacity-IsDetached n b d = AsBefore-IsDetached b _ (ground arith) d

  pub close-IsDetached : (b : AckBuffer) → IsDetached f b → IsDetached f (close b)
  unfolding close release_all_locked signal_locked
  close-IsDetached b d = record {
    stopped = ground arith;
    untracked = ground (arith, d.untracked);
    cells = ground (arith, d.cells);
  }

  pub begin_drain-IsDetached : (b : AckBuffer) → IsDetached f b → IsDetached f (begin_drain b)
  unfolding begin_drain signal_locked
  begin_drain-IsDetached b d = record {
    stopped = ground arith;
    untracked = ground (arith, d.untracked);
    cells = ground (arith, d.cells);
  }

  pub drain_round-IsDetached :
      (done : Bool) (b : AckBuffer) → IsDetached f b → IsDetached f (drain_round done b).1
  unfolding drain_round sample_wake
  drain_round-IsDetached done b d = AsBefore-IsDetached b _ (ground arith) d
