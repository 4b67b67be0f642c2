-- ===== src/Buffer/Delivery.antt =====
-- What `GetNextToDeliver` hands out, that its loop ends, and the transmission limits.
use go_uspclient.Base.{
  ℕ, zero, suc, ◌+◌, ◌-◌, ◌≤◌, ◌<◌, ◌≡◌, ◌≢◌, refl, ap, Bool, true, false, Option, none, some,
  arith, sub64, ltb, if◌then◌else◌, Bool-cases, inl, inr,
}
use go_uspclient.Event.{set_event, clear_event}
use go_uspclient.Buffer.State.{AckBuffer, TrackedAdmission, signal_locked}
use go_uspclient.Buffer.Window.{slot_of_Numbered}
use go_uspclient.Buffer.Retire.{
  remove_prefix_locked, retire_locked, free_slot_bytes, release_retired_head_locked,
  drop_receipts_locked, update_availability, adjust_delivery,
}
use go_uspclient.Buffer.Deliver.{
  take_entry, advance, delivery_over, hand_out, fence, deliver_loop, get_next_to_deliver,
  limit_reached,
}
use go_uspclient.Buffer.Valid.{IsValid, Framed-IsValid}
use go_uspclient.Buffer.Valid.Removing.{move_slots-Moved, free-remove_prefix}
use go_uspclient.Buffer.Valid.Acking.{release_retired_head_cases, drop_receipts-Tracked}
use go_uspclient.Buffer.Valid.Retiring.{IsSound, retire-IsValid, retire-IsTracked}
use go_uspclient.Buffer.Valid.Taking.{
  take_entry-Cursor, take_entry-IsSound, take_entry-EntryAt, EntryAt, advance-IsSound,
  fence-IsSound,
}
use go_uspclient.Buffer.Valid.Delivering.{
  deliver_loop_cases, get_next_to_deliver_ready, get_next_to_deliver_asleep,
}

-- The slots that are still to be delivered.
abbrev undelivered : AckBuffer → ℕ
undelivered b = b.next_index_free - b.next_index_to_deliver

deliver-remove_prefix :
    (k : ℕ) (b : AckBuffer)
    → (remove_prefix_locked k b).next_index_to_deliver
      ≡ (if ltb (k + 1) b.next_index_to_deliver then sub64 b.next_index_to_deliver (k + 1) else 0)
unfolding remove_prefix_locked update_availability adjust_delivery signal_locked
deliver-remove_prefix k b = ground (arith, move_slots-Moved k b)

undelivered-remove_prefix :
    (k : ℕ) (b : AckBuffer)
    → IsValid b
    → k < b.next_index_free
    → undelivered (remove_prefix_locked k b) ≤ undelivered b
undelivered-remove_prefix k b v h =
    ground
      (arith, v.delivered, v.small, v.fits, free-remove_prefix k b v h, deliver-remove_prefix k b)

undelivered-drop_receipts :
    (first k : ℕ) (confirms : Bool) (b : AckBuffer)
    → undelivered (drop_receipts_locked first k confirms b) ≡ undelivered b
undelivered-drop_receipts first k confirms b =
    ap (λ (x : AckBuffer). undelivered x) (drop_receipts-Tracked first k confirms b)

undelivered-release_head :
    (b : AckBuffer) → IsValid b → undelivered (release_retired_head_locked b) ≤ undelivered b
undelivered-release_head b v =
    release_retired_head_cases (λ x. undelivered x ≤ undelivered b) b (omega arith)
      λ k ring _ h.
        rw
          (undelivered-drop_receipts b.first_seq_num k false
            (remove_prefix_locked k (record b { released_retired = ring })))
          (undelivered-remove_prefix k (record b { released_retired = ring })
            (Framed-IsValid b _ refl v) h)

deliver-retire :
    (index : ℕ) (e : TrackedAdmission) (b : AckBuffer)
    → ((retire_locked index e b).next_index_to_deliver ≡ b.next_index_to_deliver)
      × ((retire_locked index e b).next_index_free ≡ b.next_index_free)
unfolding retire_locked free_slot_bytes signal_locked
deliver-retire index e b = ground arith

-- The fence brings the loop closer to its end.
undelivered-fence :
    (index : ℕ) (e : Option TrackedAdmission) (b : AckBuffer)
    → IsSound b
    → limit_reached e ≡ true
    → b.next_index_to_deliver < b.next_index_free
    → index < b.next_index_free
    → EntryAt index e b
    → undelivered (fence index e b) < undelivered b
unfolding fence
undelivered-fence index none b s l d h q = absurd (cc)
undelivered-fence index (some e) b s l d h q = omega (
  arith,
  deliver-retire index e b,
  s.valid.small,
  s.valid.fits,
  undelivered-release_head (advance (retire_locked index e b)) retired.valid,
)
  where
    retired : IsSound (advance (retire_locked index e b))
    retired =
        advance-IsSound (retire_locked index e b) (omega (arith, deliver-retire index e b))
          (record {
            valid = retire-IsValid index e b s.valid h q;
            tracked = retire-IsTracked index e b s.tracked;
          })

-- Everything has been delivered, and the flags say so.
abbrev pub IsDone : AckBuffer → Type 0
IsDone b =
    (b.next_index_to_deliver ≡ b.next_index_free)
    × (b.is_ready_to_deliver.v ≡ false)
    × (b.is_empty.v ≡ true)

-- A slot that is handed out holds a message.
hand_out-ne-none :
    (index : ℕ) (e : Option TrackedAdmission) (b : AckBuffer)
    → IsSound b
    → index < b.next_index_free
    → (hand_out index e b).0 ≢ none
unfolding hand_out
hand_out-ne-none index e b s h =
    let (m, q, _) =
      slot_of_Numbered b.first_seq_num b.next_index_free index b.buff s.valid.first s.valid.numbered
        h s.valid.fits in
    rw q (λ p. cc)

-- With fuel above the number of slots still to be delivered the loop never runs out: when it hands
-- nothing out, nothing is left.
deliver_loop_ends :
    (fuel : ℕ) (b : AckBuffer)
    → IsSound b
    → undelivered b < fuel
    → (deliver_loop fuel b).0 ≡ none
    → IsDone (deliver_loop fuel b).1
deliver_loop_ends zero b s h = absurd (omega arith)
deliver_loop_ends (suc fuel) b s h =
    deliver_loop_cases fuel b (λ r. r.0 ≡ none → IsDone r.1) (λ g _. over g)
      (λ g _.
        deliver_loop_ends fuel _ (advance-IsSound _ (kept g) took)
          (omega (arith, same, s.valid.small, s.valid.fits)))
      (λ g _ l.
        deliver_loop_ends fuel _
          (fence-IsSound b.next_index_to_deliver _ taken (kept g) (fits g)
            (take_entry-EntryAt _ b g s) took)
          (omega (
            arith,
            same,
            undelivered-fence b.next_index_to_deliver (take_entry b.next_index_to_deliver b).0 taken
                took l (kept g) (fits g) (take_entry-EntryAt _ b g s),
          )))
      (λ g _ _ e. absurd (hand_out-ne-none b.next_index_to_deliver _ taken took (fits g) e))
  where
    taken : AckBuffer
    taken = (take_entry b.next_index_to_deliver b).1

    took : IsSound taken
    took = take_entry-IsSound b.next_index_to_deliver b s

    same :
        (taken.next_index_to_deliver ≡ b.next_index_to_deliver)
        × (taken.next_index_free ≡ b.next_index_free)
    same = ground (arith, take_entry-Cursor b.next_index_to_deliver b)

    kept :
        b.next_index_to_deliver < b.next_index_free
        → taken.next_index_to_deliver < taken.next_index_free
    kept g = omega (arith, same)

    fits :
        b.next_index_to_deliver < b.next_index_free
        → b.next_index_to_deliver < taken.next_index_free
    fits g = omega (arith, same)

    over : b.next_index_free ≤ b.next_index_to_deliver → IsDone (delivery_over b)
    over g = unfold set_event clear_event in ground (arith, s.valid.delivered)

-- `GetNextToDeliver` on a sound buffer ends, and when it returns nil nothing is left to deliver:
-- the delivery index is at the end, `isReadyToDeliver` is clear and `isEmpty` is set.
pub get_next_to_deliver-IsDone :
    (b : AckBuffer)
    → IsSound b
    → (get_next_to_deliver b).0 ≡ none
    → IsDone (get_next_to_deliver b).1
get_next_to_deliver-IsDone b s = elim (Bool-cases b.is_ready_to_deliver.v) [
  | inl e ↦ rw (get_next_to_deliver_ready b e) (deliver_loop_ends _ b s (omega arith))
  | inr e ↦
      rw (get_next_to_deliver_asleep b e)
        λ _. (ground (arith, s.valid.ready, s.valid.delivered), e, ground (arith, s.valid.empty))
]
