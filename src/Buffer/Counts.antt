-- ===== src/Buffer/Counts.antt =====
-- What counts the sends of a tracked message, and what leaves the count alone.
use go_uspclient.Base.{
  ℕ, ◌+◌, ◌%◌, ◌^◌, ◌≤◌, ◌≡◌, ap, ◌∙◌, Bool, true, false, Option, none, some, List, [], ◌∷◌, ◌++◌,
  arith, leb, sub64, ◌==◌, ◌⊎◌, inl, inr, Bool-cases, Option-cases,
}
use go_uspclient.Buffer.State.{TrackedAdmission, AckBuffer, signal_locked}
use go_uspclient.Buffer.Valid.Taking.{take_entry-Cursor}
use go_uspclient.Buffer.Deliver.{
  ack, ack_check, ack_prefix, find_entry, count_send, count_if_limited, limit_reached, take_entry,
  hand_out, fence,
}
use go_uspclient.Buffer.Valid.Acking.{release_retired_head_cases, ack_accepts, ack_refuses}
use go_uspclient.Buffer.Retire.{
  drop_entries, drop_receipts_locked, remove_prefix_locked, move_slots, shift_slots,
  free_prefix_bytes, shrink_backing_locked, update_availability, adjust_delivery, retire_locked,
  free_slot_bytes, release_retired_head_locked, ack_receipts_locked,
}

-- Every tracked message with a limit has been handed out at most that often.
abbrev pub WithinLimits : List TrackedAdmission → Type 0
WithinLimits [] = Unit
WithinLimits (e ∷ es) = ((e.max ≡ 0) ⊎ (e.sends ≤ e.max)) × WithinLimits es

pub append-WithinLimits :
    (es : List TrackedAdmission) (e : TrackedAdmission)
    → e.sends ≡ 0
    → WithinLimits es
    → WithinLimits (es ++ e ∷ [])
append-WithinLimits [] e z w = (inr (omega arith), tt)
append-WithinLimits (x ∷ es) e z w = (w.0, append-WithinLimits es e z w.1)

drop_entries-WithinLimits :
    (first index : ℕ) (ack : Bool) (es : List TrackedAdmission) (gone : Bool) (b : AckBuffer)
    → WithinLimits es
    → WithinLimits (drop_entries first index ack es gone b).1.receipts
unfolding drop_entries
drop_entries-WithinLimits first index ack [] gone b w = tt
drop_entries-WithinLimits first index ack (e ∷ es) gone b w =
    elim (Bool-cases (leb (sub64 e.seq first) index)) [
      | inl q ↦ rw (q, drop_entries) (drop_entries-WithinLimits first index ack es _ _ w.1)
      | inr q ↦ rw (q, drop_entries) w
    ]

drop_receipts-WithinLimits :
    (first index : ℕ) (ack : Bool) (b : AckBuffer)
    → WithinLimits b.receipts
    → WithinLimits (drop_receipts_locked first index ack b).receipts
unfolding drop_receipts_locked
drop_receipts-WithinLimits first index ack b w =
    ground (arith, drop_entries-WithinLimits first index ack b.receipts false b w)

free_prefix_bytes-receipts : (k : ℕ) (b : AckBuffer) → (free_prefix_bytes k b).receipts ≡ b.receipts
unfolding free_prefix_bytes
free_prefix_bytes-receipts k b = ground arith

remove_prefix-receipts : (k : ℕ) (b : AckBuffer) → (remove_prefix_locked k b).receipts ≡ b.receipts
unfolding remove_prefix_locked move_slots shift_slots shrink_backing_locked update_availability
    adjust_delivery signal_locked
remove_prefix-receipts k b = ground (arith, free_prefix_bytes-receipts k b)

pub release_retired_head-WithinLimits :
    (b : AckBuffer)
    → WithinLimits b.receipts
    → WithinLimits (release_retired_head_locked b).receipts
release_retired_head-WithinLimits b w =
    release_retired_head_cases (λ b'. WithinLimits b'.receipts) b w
      λ k ring _ _.
        drop_receipts-WithinLimits _ k false _
          (rw (remove_prefix-receipts k (record b { released_retired = ring })) w)

pub ack-WithinLimits :
    (seq : ℕ) (b : AckBuffer) → WithinLimits b.receipts → WithinLimits (ack seq b).1.receipts
unfolding ack_prefix ack_receipts_locked
ack-WithinLimits seq b w = elim (Option-cases (ack_check seq b)) [
  | inl e ↦ rw (ack_accepts seq b e) (
      release_retired_head-WithinLimits _ (
        drop_receipts-WithinLimits _ _ true _
          (rw (remove_prefix-receipts (sub64 seq b.first_seq_num) b) w)))
  | inr (r, e) ↦ rw (ack_refuses seq b r e) w
]

pub retire_locked-receipts :
    (index : ℕ) (e : TrackedAdmission) (b : AckBuffer)
    → (retire_locked index e b).receipts ≡ b.receipts
unfolding retire_locked free_slot_bytes signal_locked
retire_locked-receipts index e b = ground arith

-- One more send of the entry that the cursor found, below its limit.
count_send-WithinLimits :
    (c : ℕ) (es : List TrackedAdmission) (e : TrackedAdmission)
    → find_entry (some c) es ≡ some e
    → limit_reached (some e) ≡ false
    → WithinLimits es
    → WithinLimits (count_send c es)
unfolding find_entry count_send
count_send-WithinLimits c [] e f l w = tt
count_send-WithinLimits c (x ∷ es) e f l w = elim (Bool-cases (x.state == c)) [
  | inl q ↦ rw (q, count_send) (below x (rw (found q) l), w.1)
  | inr q ↦ rw (q, count_send) (w.0, count_send-WithinLimits c es e (ground (arith, q, f)) l w.1)
]
  where
    found : x.state == c ≡ true → x ≡ e
    found q = ground (arith, q, f)

    below :
        (y : TrackedAdmission)
        → limit_reached (some y) ≡ false
        → (y.max ≡ 0) ⊎ ((y.sends + 1) % 2 ^ 32 ≤ y.max)
    below y h = ground arith

pub find_entry_state :
    (c : ℕ) (es : List TrackedAdmission) (e : TrackedAdmission)
    → find_entry (some c) es ≡ some e
    → e.state ≡ c
unfolding find_entry
find_entry_state c [] e f = absurd (cc)
find_entry_state c (x ∷ es) e f = ground (arith, find_entry_state c es e)

find_entry_self :
    (o : Option ℕ) (es : List TrackedAdmission) (e : TrackedAdmission)
    → find_entry o es ≡ some e
    → find_entry (some e.state) es ≡ some e
unfolding find_entry
find_entry_self none es e f = absurd (cc)
find_entry_self (some c) es e f = ap (λ d. find_entry (some d) es) (find_entry_state c es e f) ∙ f

-- What `take_entry` finds is the first entry of its cell.
abbrev pub IsFound : Option TrackedAdmission → List TrackedAdmission → Type 0
IsFound none es = Unit
IsFound (some e) es = find_entry (some e.state) es ≡ some e

pub take_entry-IsFound : (index : ℕ) (b : AckBuffer) → IsFound (take_entry index b).0 b.receipts
unfolding take_entry
take_entry-IsFound index b = elim (Option-cases (find_entry b.deliver_cursor b.receipts)) [
  | inl e ↦ rw (e, take_entry) tt
  | inr (x, e) ↦ elim (Bool-cases (sub64 x.seq b.first_seq_num == index)) [
    | inl at_index ↦
        rw (e, take_entry) (rw at_index (find_entry_self b.deliver_cursor b.receipts x e))
    | inr elsewhere ↦ rw (e, take_entry) (rw elsewhere tt)
  ]
]

pub take_entry-receipts : (index : ℕ) (b : AckBuffer) → (take_entry index b).1.receipts ≡ b.receipts
take_entry-receipts index b = ap (λ (x : AckBuffer). x.receipts) (take_entry-Cursor index b)

pub hand_out-receipts :
    (index : ℕ) (e : Option TrackedAdmission) (b : AckBuffer)
    → (hand_out index e b).1.receipts ≡ (count_if_limited e b).receipts
unfolding hand_out
hand_out-receipts index e b = ground arith

pub count-WithinLimits :
    (e : Option TrackedAdmission) (b : AckBuffer)
    → IsFound e b.receipts
    → limit_reached e ≡ false
    → WithinLimits b.receipts
    → WithinLimits (count_if_limited e b).receipts
count-WithinLimits none b f l w = w
count-WithinLimits (some e) b f l w = elim (Bool-cases (e.max == 0)) [
  | inl q ↦ rw q w
  | inr q ↦ rw q (count_send-WithinLimits e.state b.receipts e f l w)
]

pub fence-WithinLimits :
    (index : ℕ) (e : Option TrackedAdmission) (b : AckBuffer)
    → WithinLimits b.receipts
    → WithinLimits (fence index e b).receipts
unfolding fence
fence-WithinLimits index none b w = w
fence-WithinLimits index (some e) b w =
    release_retired_head-WithinLimits _ (rw (retire_locked-receipts index e b) w)
