-- ===== src/Buffer/Valid/Retiring.antt =====
-- Retirement of a slot and removal of retired slots keep the window and the chain of receipts.
use go_uspclient.Base.{
  ℕ, ◌<◌, ◌≡◌, refl, Bool, true, false, some, arith, length-set, add64, List, ◌∷◌, set, ◌==◌,
  if◌then◌else◌,
}
use go_uspclient.Protocol.Messages.{with_seq_num}
use go_uspclient.Buffer.State.{
  AckBuffer, TrackedAdmission, pending, signal_locked, store_cell, is_retired, retired,
}
use go_uspclient.Buffer.Window.{set-Numbered, take-set}
use go_uspclient.Buffer.Retire.{
  drop_entries, drop_receipts_locked, remove_prefix_locked, release_retired_head_locked,
  free_slot_bytes, retire_locked, update_availability, adjust_delivery,
}
use go_uspclient.Buffer.Chain.{Chain, IsTracked, drop_entries-Chain}
use go_uspclient.Buffer.Valid.{IsValidIf, Framed, Framed-IsValid}
use go_uspclient.Buffer.Valid.Removing.{free-remove_prefix, first-remove_prefix, move_slots-Moved}
use go_uspclient.Buffer.Valid.Acking.{
  release_retired_head-IsValid, release_retired_head_cases, Tracked, drop_receipts-Tracked,
}

receipts-remove_prefix : (k : ℕ) (b : AckBuffer) → (remove_prefix_locked k b).receipts ≡ b.receipts
unfolding remove_prefix_locked update_availability adjust_delivery signal_locked
receipts-remove_prefix k b = ground (arith, move_slots-Moved k b)

receipts-drop_receipts :
    (first k : ℕ) (confirms : Bool) (b : AckBuffer)
    → (drop_receipts_locked first k confirms b).receipts
      ≡ (drop_entries first k confirms b.receipts false b).1.receipts
unfolding drop_receipts_locked
receipts-drop_receipts first k confirms b = ground arith

Tracked-Chain :
    (b b' : AckBuffer)
    → Tracked b b'
    → Chain b.first_seq_num b.next_index_free 0 b'.receipts
    → IsTracked b'
Tracked-Chain b b' f c = rw f (record { chain = c })

-- After a prefix and its receipts are gone the rest of the chain lies in the new window.
pub drop_receipts-IsTracked :
    {a : Bool} (k : ℕ) (confirms : Bool) (b : AckBuffer)
    → IsValidIf a b
    → IsTracked b
    → k < b.next_index_free
    → IsTracked (drop_receipts_locked b.first_seq_num k confirms (remove_prefix_locked k b))
drop_receipts-IsTracked k confirms b v t h =
    Tracked-Chain (remove_prefix_locked k b) _ (drop_receipts-Tracked _ k confirms _) (
      rw (receipts-drop_receipts, receipts-remove_prefix k b)
        (drop_entries-Chain b.first_seq_num b.next_index_free k
          (remove_prefix_locked k b).next_index_free (remove_prefix_locked k b).first_seq_num 0
          confirms b.receipts false _ v.first (omega (arith, v.fits, v.small))
          (free-remove_prefix k b v h) (first-remove_prefix k b v h) t.chain))

-- The buffer with slot `index` replaced by its placeholder, before its bytes are given back.
abbrev with_placeholder : ℕ → TrackedAdmission → List ℕ → AckBuffer → AckBuffer
with_placeholder index e ss b = record (store_cell e.state retired b) {
  buff = set b.buff index (some (with_seq_num e.seq));
  retired = ss;
}

placeholder-IsValid :
    {a : Bool} (index : ℕ) (e : TrackedAdmission) (ss : List ℕ) (b : AckBuffer)
    → IsValidIf a b
    → index < b.next_index_free
    → e.seq ≡ add64 b.first_seq_num index
    → IsValidIf a (with_placeholder index e ss b)
placeholder-IsValid index e ss b v h q = record {
  fits = omega (arith, v.fits, length-set b.buff index (some (with_seq_num e.seq)));
  small = omega (arith, v.small, length-set b.buff index (some (with_seq_num e.seq)));
  delivered = v.delivered;
  capacity = omega (arith, v.capacity, length-set b.buff index (some (with_seq_num e.seq)));
  room = v.room;
  first = v.first;
  next = v.next;
  numbered =
      rw (take-set b.buff b.next_index_free index _ h)
        (set-Numbered b.first_seq_num index (pending b) _ v.first v.numbered q);
  every = v.every;
  ready = v.ready;
  empty = v.empty;
}

-- What follows the placeholder: bytes, flag and wake channel.
abbrev rest_of_retire : ℕ → TrackedAdmission → AckBuffer → AckBuffer
rest_of_retire index e b =
    let b₂ = free_slot_bytes index e.seq b in
    signal_locked (if b₂.last_flagged_seq == e.seq then record b₂ { last_flagged_seq = 0 } else b₂)

rest_of_retire-Framed :
    (index : ℕ) (e : TrackedAdmission) (b : AckBuffer) → Framed b (rest_of_retire index e b)
unfolding free_slot_bytes signal_locked
rest_of_retire-Framed index e b = ground arith

pub retire-IsValid :
    {a : Bool} (index : ℕ) (e : TrackedAdmission) (b : AckBuffer)
    → IsValidIf a b
    → index < b.next_index_free
    → e.seq ≡ add64 b.first_seq_num index
    → IsValidIf a (retire_locked index e b)
unfolding retire_locked
retire-IsValid index e b v h q =
    let ss : List ℕ = if is_retired e.seq b then b.retired else e.seq ∷ b.retired in
    Framed-IsValid (with_placeholder index e ss b) _ (rest_of_retire-Framed index e _)
      (placeholder-IsValid index e ss b v h q)

pub retire-IsTracked :
    (index : ℕ) (e : TrackedAdmission) (b : AckBuffer)
    → IsTracked b
    → IsTracked (retire_locked index e b)
unfolding retire_locked free_slot_bytes signal_locked
retire-IsTracked index e b t = record { chain = ground (arith, t.chain) }

-- Both parts of the invariant.
pub record IsSoundIf (awake : Bool) (b : AckBuffer) : Type 0 where
  pub valid : IsValidIf awake b
  pub tracked : IsTracked b

abbrev pub IsSound : AckBuffer → Type 0
IsSound = IsSoundIf true

pub release_retired_head-IsSound :
    {a : Bool} (b : AckBuffer) → IsSoundIf a b → IsSoundIf a (release_retired_head_locked b)
release_retired_head-IsSound b s = record {
  valid = release_retired_head-IsValid b s.valid;
  tracked = release_retired_head_cases IsTracked b s.tracked λ k ring _ h.
      drop_receipts-IsTracked k false (record b { released_retired = ring })
        (Framed-IsValid b _ refl s.valid) (record { chain = s.tracked.chain }) h;
}
