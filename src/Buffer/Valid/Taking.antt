-- ===== src/Buffer/Valid/Taking.antt =====
-- The parts of a round of `GetNextToDeliver` keep the invariant.
use go_uspclient.Base.{
  ℕ, ◌≤◌, ◌<◌, ◌≡◌, refl, leb, Option, none, some, arith, add64, sub64, word, Bool-cases, inl, inr,
  Option-cases, ◌==◌,
}
use go_uspclient.Event.{set_event, clear_event}
use go_uspclient.Buffer.State.{AckBuffer, TrackedAdmission, signal_locked}
use go_uspclient.Buffer.Retire.{retire_locked, free_slot_bytes}
use go_uspclient.Buffer.Deliver.{
  find_entry, take_entry, count_if_limited, advance, delivery_over, hand_out, fence,
}
use go_uspclient.Buffer.Chain.{find_entry-fits, count_send-Chain}
use go_uspclient.Buffer.Valid.{Framed-IsValid}
use go_uspclient.Buffer.Valid.Retiring.{
  IsSound, retire-IsValid, retire-IsTracked, release_retired_head-IsSound,
}

-- The cursor's entry is that of slot `index`, or there is none.
abbrev pub EntryAt : ℕ → Option TrackedAdmission → AckBuffer → Type 0
EntryAt index none b = Unit
EntryAt index (some e) b = e.seq ≡ add64 b.first_seq_num index

pub take_entry-Cursor :
    (index : ℕ) (b : AckBuffer)
    → (take_entry index b).1 ≡ record b { deliver_cursor = (take_entry index b).1.deliver_cursor }
unfolding take_entry
take_entry-Cursor index b = ground arith

pub take_entry-IsSound : (index : ℕ) (b : AckBuffer) → IsSound b → IsSound (take_entry index b).1
take_entry-IsSound index b s = rw (take_entry-Cursor index b) (record {
  valid = Framed-IsValid b _ refl s.valid;
  tracked = record { chain = s.tracked.chain };
})

entry_seq :
    (index : ℕ) (x : TrackedAdmission) (b : AckBuffer)
    → sub64 x.seq b.first_seq_num ≡ index
    → x.seq < word
    → IsSound b
    → x.seq ≡ add64 b.first_seq_num index
entry_seq index x b e h s = omega (arith, s.valid.first)

pub take_entry-EntryAt :
    (index : ℕ) (b : AckBuffer)
    → index < b.next_index_free
    → IsSound b
    → EntryAt index (take_entry index b).0 (take_entry index b).1
unfolding take_entry
take_entry-EntryAt index b h s = elim (Option-cases (find_entry b.deliver_cursor b.receipts)) [
  | inl e ↦ rw (e, take_entry) tt
  | inr (x, e) ↦ elim (Bool-cases (sub64 x.seq b.first_seq_num == index)) [
    | inl at_index ↦
        rw (e, take_entry)
          (rw at_index (
            entry_seq index x b (ground arith)
              (find_entry-fits _ _ _ b.deliver_cursor b.receipts x s.tracked.chain e) s))
    | inr elsewhere ↦ rw (e, take_entry) (rw elsewhere tt)
  ]
]

pub advance-IsSound :
    (b : AckBuffer) → b.next_index_to_deliver < b.next_index_free → IsSound b → IsSound (advance b)
advance-IsSound b h s = record {
  valid = ground arith;
  tracked = record { chain = s.tracked.chain };
}

pub fence-IsSound :
    (index : ℕ) (e : Option TrackedAdmission) (b : AckBuffer)
    → b.next_index_to_deliver < b.next_index_free
    → index < b.next_index_free
    → EntryAt index e b
    → IsSound b
    → IsSound (fence index e b)
unfolding fence
fence-IsSound index none b d h q s = s
fence-IsSound index (some e) b d h q s = release_retired_head-IsSound _ (
    advance-IsSound (retire_locked index e b)
      (unfold retire_locked free_slot_bytes signal_locked in ground arith)
      (record {
        valid = retire-IsValid index e b s.valid h q;
        tracked = retire-IsTracked index e b s.tracked;
      }))

pub delivery_over-IsSound :
    (b : AckBuffer)
    → b.next_index_free ≤ b.next_index_to_deliver
    → IsSound b
    → IsSound (delivery_over b)
unfolding clear_event set_event
delivery_over-IsSound b h s = record {
  valid = ground arith;
  tracked = record { chain = s.tracked.chain };
}

count_if_limited-IsSound :
    (e : Option TrackedAdmission) (b : AckBuffer) → IsSound b → IsSound (count_if_limited e b)
count_if_limited-IsSound none b s = s
count_if_limited-IsSound (some e) b s = elim (Bool-cases (e.max == 0)) [
  | inl z ↦ rw z s
  | inr p ↦ rw p (record {
    valid = Framed-IsValid b _ refl s.valid;
    tracked = record {
      chain =
          count_send-Chain b.first_seq_num b.next_index_free 0 e.state b.receipts s.tracked.chain;
    };
  })
]

count_if_limited-indexes :
    (e : Option TrackedAdmission) (b : AckBuffer)
    → ((count_if_limited e b).next_index_to_deliver ≡ b.next_index_to_deliver)
      × ((count_if_limited e b).next_index_free ≡ b.next_index_free)
count_if_limited-indexes none b = (refl, refl)
count_if_limited-indexes (some e) b = ground arith

pub hand_out-IsSound :
    (index : ℕ) (e : Option TrackedAdmission) (b : AckBuffer)
    → b.next_index_to_deliver < b.next_index_free
    → IsSound b
    → IsSound (hand_out index e b).1
unfolding hand_out
hand_out-IsSound index e b h s =
    elim (Bool-cases (
      leb (advance (count_if_limited e b)).next_index_free
        (advance (count_if_limited e b)).next_index_to_deliver)) [
          | inl z ↦ rw (z, hand_out) (delivery_over-IsSound _ (ground arith) counted)
          | inr p ↦ rw (p, hand_out) counted
        ]
  where
    counted : IsSound (advance (count_if_limited e b))
    counted =
        advance-IsSound (count_if_limited e b) (omega (arith, count_if_limited-indexes e b))
          (count_if_limited-IsSound e b s)
