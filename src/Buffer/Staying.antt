-- ===== src/Buffer/Staying.antt =====
-- Delivery, `ResetDelivery` and the other calls keep the slot that `lastFlaggedSeq` names asking.
use go_uspclient.Base.{
  ℕ, zero, suc, ◌<◌, refl, Bool, true, false, List, [], ◌∷◌, Option, none, some, arith, drop, sub64,
  ltb, leb, ◌==◌, ◌||◌, if◌then◌else◌, inl, inr, Bool-cases,
}
use go_uspclient.Event.{set_event, clear_event}
use go_uspclient.Buffer.State.{AckBuffer, TrackedAdmission, is_retired, signal_locked, sample_wake}
use go_uspclient.Buffer.Retire.{
  release_retired_head_locked, retire_locked, free_slot_bytes, update_availability,
  shrink_backing_locked,
}
use go_uspclient.Buffer.Deliver.{
  take_entry, advance, delivery_over, hand_out, fence, deliver_loop, get_next_to_deliver,
  retire_exhausted, reset_delivery, first_cell,
}
use go_uspclient.Buffer.Control.{
  close, begin_drain, drain_round, update_capacity, release_all_locked,
}
use go_uspclient.Buffer.Valid.Retiring.{IsSound, retire-IsValid, retire-IsTracked}
use go_uspclient.Buffer.Valid.Taking.{
  EntryAt, take_entry-Cursor, take_entry-IsSound, take_entry-EntryAt, advance-IsSound,
  fence-IsSound,
}
use go_uspclient.Buffer.Valid.Controlling.{pending-update_capacity}
use go_uspclient.Buffer.Valid.Delivering.{
  deliver_loop_cases, get_next_to_deliver_ready, get_next_to_deliver_asleep,
  retire_exhausted-IsSound,
}
use go_uspclient.Buffer.Asking.{
  Stays, Stays-trans, Same-Stays, release_retired_head-Stays, retire-Stays,
}

take_entry-Stays : (index : ℕ) (b : AckBuffer) → Stays b (take_entry index b).1
take_entry-Stays index b = Same-Stays b _ (ground (arith, take_entry-Cursor index b))

fence-Stays :
    (index : ℕ) (e : Option TrackedAdmission) (b : AckBuffer)
    → b.next_index_to_deliver < b.next_index_free
    → index < b.next_index_free
    → EntryAt index e b
    → IsSound b
    → Stays b (fence index e b)
unfolding fence
fence-Stays index none b d h q s = Same-Stays b b (refl, refl, refl)
fence-Stays index (some e) b d h q s =
    let r = retire_locked index e b in
    Stays-trans b r _ (retire-Stays index e b) (
      Stays-trans r (advance r) _ (Same-Stays r (advance r) (refl, refl, refl)) (
        release_retired_head-Stays {a = true} (advance r)
          (advance-IsSound r (unfold retire_locked free_slot_bytes signal_locked in ground arith)
            (record {
              valid = retire-IsValid index e b s.valid h q;
              tracked = retire-IsTracked index e b s.tracked;
            })).valid))

hand_out-Stays :
    (index : ℕ) (e : Option TrackedAdmission) (b : AckBuffer) → Stays b (hand_out index e b).1
unfolding hand_out
hand_out-Stays index none b = Same-Stays b _ (ground arith)
hand_out-Stays index (some e) b = Same-Stays b _ (ground arith)

deliver_loop-Stays : (fuel : ℕ) (b : AckBuffer) → IsSound b → Stays b (deliver_loop fuel b).1
unfolding deliver_loop
deliver_loop-Stays zero b s = Same-Stays b b (refl, refl, refl)
deliver_loop-Stays (suc fuel) b s =
    deliver_loop_cases fuel b (λ r. Stays b r.1) (λ _. Same-Stays b _ (refl, refl, refl))
      (λ h _. Stays-trans b t _ cursor (
        Stays-trans t (advance t) _ (Same-Stays t (advance t) (refl, refl, refl))
          (deliver_loop-Stays fuel (advance t) (advance-IsSound t (kept h) took))))
      (λ h _ _.
        let q = take_entry-EntryAt index b h s in
        Stays-trans b t _ cursor (
          Stays-trans t (fence index x t) _ (fence-Stays index x t (kept h) (fits h) q took) (
            deliver_loop-Stays fuel (fence index x t)
              (fence-IsSound index x t (kept h) (fits h) q took))))
      (λ h _ _. Stays-trans b t _ cursor (hand_out-Stays index x t))
  where
    index : ℕ
    index = b.next_index_to_deliver

    x : Option TrackedAdmission
    x = (take_entry b.next_index_to_deliver b).0

    t : AckBuffer
    t = (take_entry b.next_index_to_deliver b).1

    cursor : Stays b (take_entry b.next_index_to_deliver b).1
    cursor = take_entry-Stays b.next_index_to_deliver b

    took : IsSound (take_entry b.next_index_to_deliver b).1
    took = take_entry-IsSound b.next_index_to_deliver b s

    kept :
        b.next_index_to_deliver < b.next_index_free
        → (take_entry b.next_index_to_deliver b).1.next_index_to_deliver
          < (take_entry b.next_index_to_deliver b).1.next_index_free
    kept h = ground (arith, take_entry-Cursor b.next_index_to_deliver b)

    fits :
        b.next_index_to_deliver < b.next_index_free
        → b.next_index_to_deliver < (take_entry b.next_index_to_deliver b).1.next_index_free
    fits h = ground (arith, take_entry-Cursor b.next_index_to_deliver b)

pub get_next_to_deliver-Stays : (b : AckBuffer) → IsSound b → Stays b (get_next_to_deliver b).1
get_next_to_deliver-Stays b s = elim (Bool-cases b.is_ready_to_deliver.v) [
  | inl e ↦ rw (get_next_to_deliver_ready b e) (deliver_loop-Stays _ b s)
  | inr e ↦ rw (get_next_to_deliver_asleep b e) (Same-Stays b b (refl, refl, refl))
]

retire_exhausted-Stays :
    (es : List TrackedAdmission) (b : AckBuffer) → Stays b (retire_exhausted es b)
unfolding retire_exhausted
retire_exhausted-Stays [] b = Same-Stays b b (refl, refl, refl)
retire_exhausted-Stays (e ∷ es) b =
    elim (Bool-cases (e.max == 0 || ltb e.sends e.max || is_retired e.seq b)) [
      | inl keep ↦ rw (keep, retire_exhausted) (retire_exhausted-Stays es b)
      | inr drop ↦
          let r = retire_locked (sub64 e.seq b.first_seq_num) e b in
          rw (drop, retire_exhausted)
            (Stays-trans b r _ (retire-Stays (sub64 e.seq b.first_seq_num) e b)
              (retire_exhausted-Stays es r))
    ]

-- The flags at the end of `ResetDelivery` are not read.
flags-Stays :
    (c : AckBuffer)
    → Stays c (
        if leb c.next_index_free c.next_index_to_deliver then delivery_over c else record c {
          is_ready_to_deliver = set_event c.is_ready_to_deliver;
          is_empty = clear_event c.is_empty;
        })
unfolding clear_event set_event
flags-Stays c = elim (Bool-cases (leb c.next_index_free c.next_index_to_deliver)) [
  | inl e ↦ rw e (Same-Stays c _ (refl, refl, refl))
  | inr e ↦ rw e (Same-Stays c _ (refl, refl, refl))
]

pub reset_delivery-Stays : (b : AckBuffer) → IsSound b → Stays b (reset_delivery b)
unfolding reset_delivery
reset_delivery-Stays b s =
    let r = record b { next_index_to_deliver = 0; deliver_cursor = first_cell b.receipts } in
    let x = retire_exhausted b.receipts r in
    let y = release_retired_head_locked x in
    Stays-trans b y _
      (Stays-trans b r _ (Same-Stays b r (refl, refl, refl)) (
        Stays-trans r x _ (retire_exhausted-Stays b.receipts r) (
          release_retired_head-Stays {a = false} x
            (retire_exhausted-IsSound b.receipts r 0 s.tracked.chain (record {
              valid = ground (arith, s.valid.fits);
              tracked = record { chain = s.tracked.chain };
            })).valid)))
      (flags-Stays y)

pub update_capacity-Stays : (n : ℕ) (b : AckBuffer) → IsSound b → Stays b (update_capacity n b)
unfolding update_capacity signal_locked update_availability shrink_backing_locked
update_capacity-Stays n b s =
    Same-Stays b _ (ground arith, ground arith, pending-update_capacity n b s.valid)

pub others-Stays :
    (done : Bool) (b : AckBuffer)
    → Stays b (close b) × Stays b (begin_drain b) × Stays b (drain_round done b).1
unfolding close begin_drain drain_round release_all_locked signal_locked sample_wake
others-Stays done b =
    (Same-Stays b _ (ground arith), Same-Stays b _ (ground arith), Same-Stays b _ (ground arith))
