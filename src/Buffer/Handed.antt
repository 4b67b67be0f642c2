-- ===== src/Buffer/Handed.antt =====
-- What `GetNextToDeliver` hands out.
use go_uspclient.Base.{
  ℕ, zero, suc, ◌<◌, ◌≡◌, ◌⊎◌, true, false, Option, none, some, arith, add64, get_or, Bool-cases,
  inl, inr,
}
use go_uspclient.Protocol.Messages.{DataMessage}
use go_uspclient.Buffer.State.{AckBuffer, TrackedAdmission, is_retired}
use go_uspclient.Buffer.Window.{slot_of_Numbered}
use go_uspclient.Buffer.Deliver.{take_entry, hand_out, deliver_loop, get_next_to_deliver}
use go_uspclient.Buffer.Valid.Retiring.{IsSound}
use go_uspclient.Buffer.Valid.Taking.{
  take_entry-Cursor, take_entry-IsSound, take_entry-EntryAt, advance-IsSound, fence-IsSound,
}
use go_uspclient.Buffer.Valid.Delivering.{
  deliver_loop_cases, get_next_to_deliver_ready, get_next_to_deliver_asleep,
}

-- `m` is the message of the slot in front of the delivery index of `b`, perhaps with the ACK flag
-- set on a copy; it has the slot's number, and the slot is not retired.
abbrev pub Handed : DataMessage → AckBuffer → Type 0
Handed m b =
    (i : ℕ) × (x : DataMessage) × (suc i ≡ b.next_index_to_deliver)
    × (get_or b.buff i none ≡ some x)
    × ((m ≡ x) ⊎ (m ≡ record x { ack_requested = true }))
    × (x.seq_num ≡ add64 b.first_seq_num i)
    × (is_retired (add64 b.first_seq_num i) b ≡ false)

hand_out-Framed :
    (index : ℕ) (e : Option TrackedAdmission) (b : AckBuffer)
    → let b' = (hand_out index e b).1 in
      (b'.buff ≡ b.buff)
      × (b'.first_seq_num ≡ b.first_seq_num)
      × (b'.retired ≡ b.retired)
      × (b'.next_index_to_deliver ≡ add64 b.next_index_to_deliver 1)
unfolding hand_out
hand_out-Framed index none b = ground arith
hand_out-Framed index (some e) b = ground arith

hand_out-Handed :
    (index : ℕ) (e : Option TrackedAdmission) (b : AckBuffer) (m : DataMessage)
    → IsSound b
    → index ≡ b.next_index_to_deliver
    → index < b.next_index_free
    → is_retired (add64 b.first_seq_num index) b ≡ false
    → (hand_out index e b).0 ≡ some m
    → Handed m (hand_out index e b).1
hand_out-Handed index e b m s d h live q =
    let (x, slot, number) =
      slot_of_Numbered b.first_seq_num b.next_index_free index b.buff s.valid.first s.valid.numbered
        h s.valid.fits in
    let f = hand_out-Framed index e b in
    (
      index,
      x,
      omega (arith, f.3, s.valid.small, s.valid.fits),
      rw f.0 slot,
      unfold hand_out in ground arith,
      rw f.1 number,
      rw (f.1, f.2) live,
    )

deliver_loop-Handed :
    (fuel : ℕ) (b : AckBuffer) (m : DataMessage)
    → IsSound b
    → (deliver_loop fuel b).0 ≡ some m
    → Handed m (deliver_loop fuel b).1
unfolding deliver_loop
deliver_loop-Handed zero b m s = λ e. absurd (cc)
deliver_loop-Handed (suc fuel) b m s =
    deliver_loop_cases fuel b (λ r. r.0 ≡ some m → Handed m r.1) (λ _ e. absurd (cc))
      (λ g _. deliver_loop-Handed fuel _ m (advance-IsSound _ (kept g) took))
      (λ g _ l. deliver_loop-Handed fuel _ m (
        fence-IsSound b.next_index_to_deliver _ taken (kept g) (fits g) (take_entry-EntryAt _ b g s)
          took))
      (λ g live _ q.
        hand_out-Handed b.next_index_to_deliver _ taken m took (omega (arith, same)) (fits g)
          (rw same.2 live) q)
  where
    taken : AckBuffer
    taken = (take_entry b.next_index_to_deliver b).1

    took : IsSound taken
    took = take_entry-IsSound b.next_index_to_deliver b s

    same :
        (taken.next_index_to_deliver ≡ b.next_index_to_deliver)
        × (taken.next_index_free ≡ b.next_index_free)
        × (taken.first_seq_num ≡ b.first_seq_num)
    same = ground (arith, take_entry-Cursor b.next_index_to_deliver b)

    kept :
        b.next_index_to_deliver < b.next_index_free
        → taken.next_index_to_deliver < taken.next_index_free
    kept g = omega (arith, same)

    fits :
        b.next_index_to_deliver < b.next_index_free
        → b.next_index_to_deliver < taken.next_index_free
    fits g = omega (arith, same)

-- A message that `GetNextToDeliver` hands out is that of the slot in front of the new delivery
-- index, with the slot's number, and the slot is not retired; only the ACK flag may differ from the
-- stored message.
pub get_next_to_deliver-Handed :
    (b : AckBuffer) (m : DataMessage)
    → IsSound b
    → (get_next_to_deliver b).0 ≡ some m
    → Handed m (get_next_to_deliver b).1
get_next_to_deliver-Handed b m s = elim (Bool-cases b.is_ready_to_deliver.v) [
  | inl e ↦ rw (get_next_to_deliver_ready b e) (deliver_loop-Handed _ b m s)
  | inr e ↦ rw (get_next_to_deliver_asleep b e) λ q. absurd (cc)
]
