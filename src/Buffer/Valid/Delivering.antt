-- ===== src/Buffer/Valid/Delivering.antt =====
-- Delivery, its reset and the other operations keep the invariant.
use go_uspclient.Base.{
  ℕ, zero, suc, ◌+◌, ◌-◌, ◌≤◌, ◌<◌, ◌≡◌, Bool, true, false, ltb, leb, Option, none, arith, add64,
  sub64, List, [], ◌∷◌, Bool-cases, inl, inr, ◌||◌, ◌==◌, if◌then◌else◌,
}
use go_uspclient.Event.{set_event, clear_event}
use go_uspclient.Protocol.Messages.{DataMessage}
use go_uspclient.Buffer.State.{AckBuffer, TrackedAdmission, is_retired, signal_locked}
use go_uspclient.Buffer.Retire.{retire_locked, free_slot_bytes}
use go_uspclient.Buffer.Deliver.{
  first_cell, take_entry, advance, delivery_over, hand_out, fence, deliver_loop,
  get_next_to_deliver, retire_exhausted, reset_delivery, limit_reached,
}
use go_uspclient.Buffer.Chain.{Chain}
use go_uspclient.Buffer.Valid.Retiring.{
  IsSoundIf, IsSound, retire-IsValid, retire-IsTracked, release_retired_head-IsSound,
}
use go_uspclient.Buffer.Valid.Taking.{
  take_entry-Cursor, take_entry-IsSound, take_entry-EntryAt, advance-IsSound, fence-IsSound,
  delivery_over-IsSound, hand_out-IsSound,
}

module _ (fuel : ℕ) (b : AckBuffer) where
  abbrev taken : Option TrackedAdmission × AckBuffer
  taken = take_entry b.next_index_to_deliver b

  -- The four ways in which a round of the delivery loop goes.
  pub deliver_loop_cases {ℓ} :
      (P : Option DataMessage × AckBuffer → Type ℓ)
      → (b.next_index_free ≤ b.next_index_to_deliver → P (none, delivery_over b))
      → (b.next_index_to_deliver < b.next_index_free
          → is_retired (add64 b.first_seq_num b.next_index_to_deliver) taken.1 ≡ true
          → P (deliver_loop fuel (advance taken.1)))
      → (b.next_index_to_deliver < b.next_index_free
          → is_retired (add64 b.first_seq_num b.next_index_to_deliver) taken.1 ≡ false
          → limit_reached taken.0 ≡ true
          → P (deliver_loop fuel (fence b.next_index_to_deliver taken.0 taken.1)))
      → (b.next_index_to_deliver < b.next_index_free
          → is_retired (add64 b.first_seq_num b.next_index_to_deliver) taken.1 ≡ false
          → limit_reached taken.0 ≡ false
          → P (hand_out b.next_index_to_deliver taken.0 taken.1))
      → P (deliver_loop (suc fuel) b)
  unfolding deliver_loop
  deliver_loop_cases P over skip fenced hand =
      elim (Bool-cases (ltb b.next_index_to_deliver b.next_index_free)) [
        | inr e ↦ rw (e, deliver_loop) (over (ground arith))
        | inl e ↦
            elim (Bool-cases (is_retired (add64 b.first_seq_num b.next_index_to_deliver) taken.1)) [
              | inl r ↦ rw (e, r, deliver_loop) (skip (ground arith) r)
              | inr r ↦ elim (Bool-cases (limit_reached taken.0)) [
                | inl l ↦ rw (e, r, l, deliver_loop) (fenced (ground arith) r l)
                | inr l ↦ rw (e, r, l, deliver_loop) (hand (ground arith) r l)
              ]
            ]
      ]

-- The delivery loop keeps the invariant, whatever it skips, retires or hands out.
pub deliver_loop-IsSound : (fuel : ℕ) (b : AckBuffer) → IsSound b → IsSound (deliver_loop fuel b).1
unfolding deliver_loop
deliver_loop-IsSound zero b s = s
deliver_loop-IsSound (suc fuel) b s =
    deliver_loop_cases fuel b (λ r. IsSound r.1) (λ h. delivery_over-IsSound b h s)
      (λ h _. deliver_loop-IsSound fuel _ (advance-IsSound _ (kept h) took))
      (λ h _ _. deliver_loop-IsSound fuel _ (
        fence-IsSound b.next_index_to_deliver _ (take_entry b.next_index_to_deliver b).1 (kept h)
          (fits h) (take_entry-EntryAt _ b h s) took))
      (λ h _ _. hand_out-IsSound _ _ _ (kept h) took)
  where
    took : IsSound (take_entry b.next_index_to_deliver b).1
    took = take_entry-IsSound b.next_index_to_deliver b s

    kept :
        b.next_index_to_deliver < b.next_index_free
        → (take_entry b.next_index_to_deliver b).1.next_index_to_deliver
          < (take_entry b.next_index_to_deliver b).1.next_index_free
    kept h = ground (arith, take_entry-Cursor b.next_index_to_deliver b)

    fits :
        b.next_index_to_deliver < b.next_index_free
        → b.next_index_to_deliver < (take_entry b.next_index_to_deliver b).1.next_index_free
    fits h = ground (arith, take_entry-Cursor b.next_index_to_deliver b)

pub get_next_to_deliver_ready :
    (b : AckBuffer)
    → b.is_ready_to_deliver.v ≡ true
    → get_next_to_deliver b ≡ deliver_loop (b.next_index_free - b.next_index_to_deliver + 1) b
unfolding get_next_to_deliver
get_next_to_deliver_ready b h = ground arith

pub get_next_to_deliver_asleep :
    (b : AckBuffer) → b.is_ready_to_deliver.v ≡ false → get_next_to_deliver b ≡ (none, b)
unfolding get_next_to_deliver
get_next_to_deliver_asleep b h = ground arith

-- Delivery keeps the window and its receipts consistent.
pub get_next_to_deliver-IsSound : (b : AckBuffer) → IsSound b → IsSound (get_next_to_deliver b).1
get_next_to_deliver-IsSound b s = elim (Bool-cases b.is_ready_to_deliver.v) [
  | inl e ↦ rw (get_next_to_deliver_ready b e) (deliver_loop-IsSound _ b s)
  | inr e ↦ rw (get_next_to_deliver_asleep b e) s
]

pub retire-indexes :
    (index : ℕ) (e : TrackedAdmission) (b : AckBuffer)
    → ((retire_locked index e b).first_seq_num ≡ b.first_seq_num)
      × ((retire_locked index e b).next_index_free ≡ b.next_index_free)
unfolding retire_locked free_slot_bytes signal_locked
retire-indexes index e b = ground arith

-- Each round retires slots of the window only.
pub retire_exhausted-IsSound :
    {a : Bool} (es : List TrackedAdmission) (b : AckBuffer) (lo : ℕ)
    → Chain b.first_seq_num b.next_index_free lo es
    → IsSoundIf a b
    → IsSoundIf a (retire_exhausted es b)
unfolding retire_exhausted
retire_exhausted-IsSound [] b lo c s = s
retire_exhausted-IsSound (e ∷ es) b lo c s =
    elim (Bool-cases (e.max == 0 || ltb e.sends e.max || is_retired e.seq b)) [
      | inl keep ↦
          rw (keep, retire_exhausted)
            (retire_exhausted-IsSound es b (suc (sub64 e.seq b.first_seq_num)) c.3 s)
      | inr drop ↦
          rw (drop, retire_exhausted)
            (retire_exhausted-IsSound es (retire_locked (sub64 e.seq b.first_seq_num) e b)
              (suc (sub64 e.seq b.first_seq_num))
              (rw
                (
                  (retire-indexes (sub64 e.seq b.first_seq_num) e b).0,
                  (retire-indexes (sub64 e.seq b.first_seq_num) e b).1,
                )
                c.3)
              (record {
                valid = retire-IsValid _ e b s.valid c.2 (omega (arith, c.0, s.valid.first));
                tracked = retire-IsTracked _ e b s.tracked;
              }))
    ]

-- The end of `ResetDelivery` brings the flags up to date.
awaken :
    (b : AckBuffer)
    → IsSoundIf false b
    → IsSound (
        if leb b.next_index_free b.next_index_to_deliver then delivery_over b else record b {
          is_ready_to_deliver = set_event b.is_ready_to_deliver;
          is_empty = clear_event b.is_empty;
        })
unfolding set_event clear_event
awaken b s = elim (Bool-cases (leb b.next_index_free b.next_index_to_deliver)) [
  | inl e ↦ rw e (record {
    valid = ground (arith, s.valid.fits);
    tracked = record { chain = s.tracked.chain };
  })
  | inr e ↦ rw e (record {
    valid = ground (arith, s.valid.fits);
    tracked = record { chain = s.tracked.chain };
  })
]

pub reset_delivery-IsSound : (b : AckBuffer) → IsSound b → IsSound (reset_delivery b)
unfolding reset_delivery
reset_delivery-IsSound b s = awaken _ (
    release_retired_head-IsSound _ (
      retire_exhausted-IsSound b.receipts
        (record b { next_index_to_deliver = 0; deliver_cursor = first_cell b.receipts }) 0
        s.tracked.chain
        (record {
          valid = ground (arith, s.valid.fits);
          tracked = record { chain = s.tracked.chain };
        })))
