-- ===== src/Buffer/Valid/Removing.antt =====
-- Removal of a prefix keeps the invariant, and drops exactly the removed slots.
use go_uspclient.Base.{
  ℕ, suc, ◌+◌, ◌<◌, ◌≡◌, ap, Bool, leb, arith, add64, List, Bool-cases, inl, inr, drop,
}
use go_uspclient.Event.{set_event, clear_event}
use go_uspclient.Buffer.State.{AckBuffer, pending, signal_locked}
use go_uspclient.Buffer.Retire.{
  free_prefix_bytes, shift_slots, shrink_backing_locked, move_slots, update_availability,
  adjust_delivery, remove_prefix_locked,
}
use go_uspclient.Buffer.Valid.{IsValidIf, Framed-IsValid}
use go_uspclient.Buffer.Valid.Slots.{
  IsWindow, IsValid-IsWindow, free-shift, pending-shift, shift-IsWindow, pending-shrink,
  shrink-IsWindow,
}

-- Accounting leaves the slots alone.
abbrev pub Charged : AckBuffer → AckBuffer → Type 0
Charged b b' = b' ≡ record b {
  sizes = b'.sizes;
  bytes = b'.bytes;
  escape_bytes = b'.escape_bytes;
  shared = b'.shared;
}

pub free_prefix_bytes-Charged : (k : ℕ) (b : AckBuffer) → Charged b (free_prefix_bytes k b)
unfolding free_prefix_bytes
free_prefix_bytes-Charged k b = ground arith

pub Charged-IsValid : {a : Bool} (b b' : AckBuffer) → Charged b b' → IsValidIf a b → IsValidIf a b'
Charged-IsValid b b' c v = Framed-IsValid b b' (ground arith) v

-- What the first half of the removal leaves alone.
abbrev pub Moved : AckBuffer → AckBuffer → Type 0
Moved b b' = b' ≡ record b {
  sizes = b'.sizes;
  bytes = b'.bytes;
  escape_bytes = b'.escape_bytes;
  shared = b'.shared;
  first_seq_num = b'.first_seq_num;
  buff = b'.buff;
  next_index_free = b'.next_index_free;
}

pub move_slots-Moved : (k : ℕ) (b : AckBuffer) → Moved b (move_slots k b)
unfolding move_slots shift_slots shrink_backing_locked
move_slots-Moved k b = ground (arith, free_prefix_bytes-Charged k b)

module _ {a : Bool} (k : ℕ) (b : AckBuffer) (v : IsValidIf a b) (h : k < b.next_index_free) where
  abbrev charged : AckBuffer
  charged = free_prefix_bytes k b

  charged-IsWindow : IsWindow charged
  charged-IsWindow = IsValid-IsWindow (Charged-IsValid b _ (free_prefix_bytes-Charged k b) v)

  charged-lt : k < charged.next_index_free
  charged-lt =
      omega (arith, h, ap (λ (x : AckBuffer). x.next_index_free) (free_prefix_bytes-Charged k b))

  moved-IsWindow : IsWindow (move_slots k b)
  unfolding move_slots
  moved-IsWindow =
      elim (Bool-cases
        (leb (shift_slots k charged).next_index_free (shift_slots k charged).current_capacity)) [
          | inl e ↦
              rw (e, move_slots)
                (shrink-IsWindow _ (shift-IsWindow k charged charged-IsWindow charged-lt))
          | inr e ↦ rw (e, move_slots) (shift-IsWindow k charged charged-IsWindow charged-lt)
        ]

  pub pending-moved : pending (move_slots k b) ≡ drop (suc k) (pending b)
  unfolding move_slots
  pending-moved = ground (
    arith,
    pending-shrink (shift_slots k charged)
        ((shift-IsWindow k charged charged-IsWindow charged-lt).fits),
    pending-shift k charged charged-IsWindow charged-lt,
    free_prefix_bytes-Charged k b,
  )

  free-moved : (move_slots k b).next_index_free + suc k ≡ b.next_index_free
  unfolding move_slots shrink_backing_locked
  free-moved =
      ground
        (arith, free-shift k charged charged-IsWindow charged-lt, free_prefix_bytes-Charged k b)

  first-moved : (move_slots k b).first_seq_num ≡ add64 b.first_seq_num (suc k)
  unfolding move_slots shift_slots shrink_backing_locked
  first-moved = ground (arith, free_prefix_bytes-Charged k b)

-- The second half sets the events by the new indexes.
settled-IsValid :
    {a : Bool} (k : ℕ) (b c : AckBuffer) (ss : List ℕ)
    → IsValidIf a b
    → IsWindow c
    → c.next_index_free + suc k ≡ b.next_index_free
    → c.next_index_to_deliver ≡ b.next_index_to_deliver
    → c.is_ready_to_deliver.v ≡ b.is_ready_to_deliver.v
    → c.is_empty.v ≡ b.is_empty.v
    → IsValidIf a
        (record (adjust_delivery k (signal_locked (update_availability c))) { retired = ss })
unfolding update_availability signal_locked adjust_delivery set_event clear_event
settled-IsValid k b c ss v w e d r m = record {
  fits = ground (arith, w.fits);
  small = ground (arith, w.small);
  delivered = ground arith;
  capacity = ground (arith, w.capacity);
  room = ground arith;
  first = ground (arith, w.first);
  next = ground (arith, w.next);
  numbered = ground (arith, w.numbered);
  every = ground (arith, w.every);
  ready = ground arith;
  empty = ground arith;
}

module _ {a : Bool} (k : ℕ) (b : AckBuffer) (v : IsValidIf a b) (h : k < b.next_index_free) where
  pub remove_prefix-IsValid : IsValidIf a (remove_prefix_locked k b)
  unfolding remove_prefix_locked
  remove_prefix-IsValid =
      settled-IsValid k b (move_slots k b) _ v (moved-IsWindow k b v h) (free-moved k b v h)
        (ap (λ (x : AckBuffer). x.next_index_to_deliver) (move_slots-Moved k b))
        (ap (λ (x : AckBuffer). x.is_ready_to_deliver.v) (move_slots-Moved k b))
        (ap (λ (x : AckBuffer). x.is_empty.v) (move_slots-Moved k b))

  pub free-remove_prefix : (remove_prefix_locked k b).next_index_free + suc k ≡ b.next_index_free
  unfolding remove_prefix_locked update_availability signal_locked adjust_delivery
  free-remove_prefix = ground (arith, free-moved k b v h)

  pub pending-remove_prefix : pending (remove_prefix_locked k b) ≡ drop (suc k) (pending b)
  unfolding remove_prefix_locked update_availability signal_locked adjust_delivery
  pending-remove_prefix = ground (arith, pending-moved k b v h)

  pub first-remove_prefix : (remove_prefix_locked k b).first_seq_num ≡ add64 b.first_seq_num (suc k)
  unfolding remove_prefix_locked update_availability signal_locked adjust_delivery
  first-remove_prefix = ground (arith, first-moved k b v h)
