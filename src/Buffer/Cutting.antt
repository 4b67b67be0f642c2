-- ===== src/Buffer/Cutting.antt =====
-- Delivery and `ResetDelivery` only cut.
use go_uspclient.Base.{
  ℕ, zero, suc, ◌<◌, refl, false, Option, none, some, List, [], ◌∷◌, if◌then◌else◌, ◌||◌, ltb, leb,
  ◌==◌, arith, sub64, word, inl, inr, Bool-cases,
}
use go_uspclient.Event.{set_event, clear_event}
use go_uspclient.Buffer.State.{TrackedAdmission, AckBuffer, is_retired, signal_locked}
use go_uspclient.Buffer.Retire.{release_retired_head_locked, retire_locked, free_slot_bytes}
use go_uspclient.Buffer.Deliver.{
  take_entry, hand_out, fence, deliver_loop, get_next_to_deliver, retire_exhausted, reset_delivery,
  first_cell, advance, delivery_over,
}
use go_uspclient.Buffer.Valid.Retiring.{IsSound, retire-IsValid, retire-IsTracked}
use go_uspclient.Buffer.Valid.Taking.{
  EntryAt, take_entry-Cursor, take_entry-IsSound, take_entry-EntryAt, advance-IsSound,
  fence-IsSound,
}
use go_uspclient.Buffer.Valid.Delivering.{
  retire_exhausted-IsSound, deliver_loop_cases, get_next_to_deliver_ready,
  get_next_to_deliver_asleep,
}
use go_uspclient.Buffer.Cut.{
  Cut, same-Cut, Cut-trans, retire-pending, retire-Cut, release_retired_head-Cut,
}

take_entry-Cut :
    (index : ℕ) (b : AckBuffer) → b.first_seq_num < word → Cut 0 b (take_entry index b).1
take_entry-Cut index b w = rw (take_entry-Cursor index b) (same-Cut b _ w refl refl)

hand_out-Cut :
    (index : ℕ) (e : Option TrackedAdmission) (b : AckBuffer)
    → b.first_seq_num < word
    → Cut 0 b (hand_out index e b).1
unfolding hand_out
hand_out-Cut index e b w = same-Cut b _ w (ground arith) (ground arith)

-- The retired slot is inside the window, so the next invariant holds before the head is released.
fence-Cut :
    (index : ℕ) (e : Option TrackedAdmission) (b : AckBuffer)
    → b.next_index_to_deliver < b.next_index_free
    → index < b.next_index_free
    → EntryAt index e b
    → IsSound b
    → Cut 0 b (fence index e b)
unfolding fence
fence-Cut index none b d h q s = same-Cut b b s.valid.first refl refl
fence-Cut index (some e) b d h q s =
    let r = retire_locked index e b in
    Cut-trans b (advance r) _
      (Cut-trans b r (advance r) (retire-Cut index e b s.valid.first) (
        same-Cut r (advance r) (omega (arith, (retire-pending index e b).0, s.valid.first)) refl
          refl))
      (release_retired_head-Cut (advance r)
        (advance-IsSound r (unfold retire_locked free_slot_bytes signal_locked in ground arith)
          (record {
            valid = retire-IsValid index e b s.valid h q;
            tracked = retire-IsTracked index e b s.tracked;
          })).valid)

deliver_loop-Cut : (fuel : ℕ) (b : AckBuffer) → IsSound b → Cut 0 b (deliver_loop fuel b).1
unfolding deliver_loop
deliver_loop-Cut zero b s = same-Cut b b s.valid.first refl refl
deliver_loop-Cut (suc fuel) b s =
    deliver_loop_cases fuel b (λ r. Cut 0 b r.1) (λ _. same-Cut b _ s.valid.first refl refl)
      (λ h _. Cut-trans b t _ cut (
        Cut-trans t (advance t) _ (same-Cut t (advance t) took.valid.first refl refl)
          (deliver_loop-Cut fuel (advance t) (advance-IsSound t (kept h) took))))
      (λ h _ _.
        let q = take_entry-EntryAt index b h s in
        Cut-trans b t _ cut (
          Cut-trans t (fence index x t) _ (fence-Cut index x t (kept h) (fits h) q took) (
            deliver_loop-Cut fuel (fence index x t)
              (fence-IsSound index x t (kept h) (fits h) q took))))
      (λ h _ _. Cut-trans b t _ cut (hand_out-Cut index x t took.valid.first))
  where
    index : ℕ
    index = b.next_index_to_deliver

    x : Option TrackedAdmission
    x = (take_entry b.next_index_to_deliver b).0

    t : AckBuffer
    t = (take_entry b.next_index_to_deliver b).1

    cut : Cut 0 b (take_entry b.next_index_to_deliver b).1
    cut = take_entry-Cut b.next_index_to_deliver b s.valid.first

    took : IsSound (take_entry b.next_index_to_deliver b).1
    took = take_entry-IsSound b.next_index_to_deliver b s

    kept :
        b.next_index_to_deliver < b.next_index_free
        → (take_entry b.next_index_to_deliver b).1.next_index_to_deliver
          < (take_entry b.next_index_to_deliver b).1.next_index_free
    kept h = ground (arith, take_entry-Cursor b.next_index_to_deliver b)

    fits :
        b.next_index_to_deliver < b.next_index_free
        → b.next_index_to_deliver < (take_entry b.next_index_to_deliver b).1.next_index_free
    fits h = ground (arith, take_entry-Cursor b.next_index_to_deliver b)

pub get_next_to_deliver-Cut : (b : AckBuffer) → IsSound b → Cut 0 b (get_next_to_deliver b).1
get_next_to_deliver-Cut b s = elim (Bool-cases b.is_ready_to_deliver.v) [
  | inl e ↦ rw (get_next_to_deliver_ready b e) (deliver_loop-Cut _ b s)
  | inr e ↦ rw (get_next_to_deliver_asleep b e) (same-Cut b b s.valid.first refl refl)
]

retire_exhausted-Cut :
    (es : List TrackedAdmission) (b : AckBuffer)
    → b.first_seq_num < word
    → Cut 0 b (retire_exhausted es b)
unfolding retire_exhausted
retire_exhausted-Cut [] b w = same-Cut b b w refl refl
retire_exhausted-Cut (e ∷ es) b w =
    elim (Bool-cases (e.max == 0 || ltb e.sends e.max || is_retired e.seq b)) [
      | inl keep ↦ rw (keep, retire_exhausted) (retire_exhausted-Cut es b w)
      | inr drop ↦
          let r = retire_locked (sub64 e.seq b.first_seq_num) e b in
          rw (drop, retire_exhausted)
            (Cut-trans b r _ (retire-Cut (sub64 e.seq b.first_seq_num) e b w) (
              retire_exhausted-Cut es r
                (omega (arith, (retire-pending (sub64 e.seq b.first_seq_num) e b).0, w))))
    ]

-- The flags at the end of `ResetDelivery` are not part of the window.
flagged-Cut :
    (b c : AckBuffer)
    → Cut 0 b c
    → Cut 0 b (
        if leb c.next_index_free c.next_index_to_deliver then delivery_over c else record c {
          is_ready_to_deliver = set_event c.is_ready_to_deliver;
          is_empty = clear_event c.is_empty;
        })
unfolding clear_event set_event
flagged-Cut b c h = elim (Bool-cases (leb c.next_index_free c.next_index_to_deliver)) [
  | inl e ↦
      rw e (record {
        gone = h.gone;
        least = h.least;
        within = h.within;
        first = h.first;
        left = h.left;
      })
  | inr e ↦
      rw e (record {
        gone = h.gone;
        least = h.least;
        within = h.within;
        first = h.first;
        left = h.left;
      })
]

pub reset_delivery-Cut : (b : AckBuffer) → IsSound b → Cut 0 b (reset_delivery b)
unfolding reset_delivery
reset_delivery-Cut b s =
    let r = record b { next_index_to_deliver = 0; deliver_cursor = first_cell b.receipts } in
    let x = retire_exhausted b.receipts r in
    flagged-Cut b (release_retired_head_locked x) (
      Cut-trans b r _ (same-Cut b r s.valid.first refl refl) (
        Cut-trans r x _ (retire_exhausted-Cut b.receipts r s.valid.first) (
          release_retired_head-Cut {a = false} x
            (retire_exhausted-IsSound b.receipts r 0 s.tracked.chain (record {
              valid = ground (arith, s.valid.fits);
              tracked = record { chain = s.tracked.chain };
            })).valid)))
