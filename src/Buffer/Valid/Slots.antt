-- ===== src/Buffer/Valid/Slots.antt =====
-- The slots alone: `shiftSlots` and `shrinkBackingLocked` keep their part of the invariant.
use go_uspclient.Base.{
  ℕ, suc, ◌+◌, ◌^◌, ◌≤◌, ◌<◌, ◌≡◌, ◌∙◌, Bool, Option, none, arith, length, add64, word, max,
  length-take, length-copy, length-fill, length-replicate, drop, replicate,
}
use go_uspclient.Protocol.Messages.{DataMessage}
use go_uspclient.Buffer.State.{AckBuffer, pending, initial_capacity}
use go_uspclient.Buffer.Window.{Numbered, drop-Numbered, take-shift, take-resize}
use go_uspclient.Buffer.Retire.{shift_slots, shrink_backing_locked}
use go_uspclient.Buffer.Valid.{IsValidIf}

-- The part of the invariant that the slots alone decide.
pub record IsWindow (b : AckBuffer) : Type 0 where
  pub fits : b.next_index_free ≤ length b.buff
  pub small : length b.buff < 2 ^ 63
  pub capacity : b.current_capacity ≤ length b.buff
  pub first : b.first_seq_num < word
  pub next : b.next_seq_num ≡ add64 b.first_seq_num b.next_index_free
  pub numbered : Numbered b.first_seq_num (pending b)
  pub every : 0 < b.ack_every

pub IsValid-IsWindow : {a : Bool} {b : AckBuffer} → IsValidIf a b → IsWindow b
IsValid-IsWindow v = record {
  fits = v.fits;
  small = v.small;
  capacity = v.capacity;
  first = v.first;
  next = v.next;
  numbered = v.numbered;
  every = v.every;
}

module _ (k : ℕ) (b : AckBuffer) (w : IsWindow b) (h : k < b.next_index_free) where
  pub free-shift : (shift_slots k b).next_index_free + suc k ≡ b.next_index_free
  unfolding shift_slots
  free-shift = omega (arith, w.fits, w.small)

  pub pending-shift : pending (shift_slots k b) ≡ drop (suc k) (pending b)
  unfolding shift_slots
  pending-shift =
      let e : k + 1 ≡ suc k = omega arith in
      rw e (take-shift b.buff (suc k) b.next_index_free _ none w.fits free-shift)

  length-shift : length (shift_slots k b).buff ≡ length b.buff
  unfolding shift_slots
  length-shift = length-fill _ _ b.next_index_free none ∙ length-copy b.buff _

  shift-Numbered : Numbered (shift_slots k b).first_seq_num (pending (shift_slots k b))
  unfolding shift_slots
  shift-Numbered = rw pending-shift (
      drop-Numbered b.first_seq_num (suc k) _ (pending b) w.first w.numbered
        (omega (arith, length-take b.next_index_free b.buff, w.fits)) (omega arith))

  next-shift :
      (shift_slots k b).next_seq_num
      ≡ add64 (shift_slots k b).first_seq_num (shift_slots k b).next_index_free
  unfolding shift_slots
  next-shift = omega (arith, w.next, w.fits, w.small, w.first)

  pub shift-IsWindow : IsWindow (shift_slots k b)
  unfolding shift_slots
  shift-IsWindow = record {
    fits = omega (arith, length-shift, free-shift, w.fits);
    small = omega (arith, length-shift, w.small);
    capacity = omega (arith, length-shift, w.capacity);
    first = omega arith;
    next = next-shift;
    numbered = shift-Numbered;
    every = w.every;
  }

-- A smaller backing array holds the same slots.
pub pending-shrink :
    (b : AckBuffer)
    → b.next_index_free ≤ length b.buff
    → pending (shrink_backing_locked b) ≡ pending b
unfolding shrink_backing_locked
pending-shrink b h = ground (
  arith,
  take-resize b.buff b.next_index_free
      (max (max b.current_capacity b.next_index_free) initial_capacity) none h (omega arith),
)

pub shrink-IsWindow : (b : AckBuffer) → IsWindow b → IsWindow (shrink_backing_locked b)
unfolding shrink_backing_locked
shrink-IsWindow b w = ground (
  arith,
  pending-shrink b w.fits,
  length-copy
      (replicate (max (max b.current_capacity b.next_index_free) initial_capacity)
        (let n : Option DataMessage = none in n))
      (pending b),
  length-replicate (max (max b.current_capacity b.next_index_free) initial_capacity)
      (let n : Option DataMessage = none in n),
)
