-- ===== src/Buffer/Valid/Controlling.antt =====
-- `Close`, the start of a drain, its rounds and `UpdateCapacity` keep the invariant.
use go_uspclient.Base.{
  ℕ, ◌^◌, ◌<◌, ◌≡◌, ap, Bool, ltb, ◌==◌, Option, none, arith, length, length-copy, length-replicate,
  copy, replicate, max, if◌then◌else◌, Bool-cases, inl, inr,
}
use go_uspclient.Event.{set_event, clear_event}
use go_uspclient.Protocol.Messages.{DataMessage}
use go_uspclient.Buffer.State.{AckBuffer, pending, signal_locked, sample_wake}
use go_uspclient.Buffer.Window.{take-grow}
use go_uspclient.Buffer.Retire.{shrink_backing_locked, update_availability}
use go_uspclient.Buffer.Control.{
  release_all_locked, close, begin_drain, drain_round, update_capacity,
}
use go_uspclient.Buffer.Valid.{IsValid, Framed, Framed-IsValid}
use go_uspclient.Buffer.Valid.Slots.{IsWindow, shrink-IsWindow, pending-shrink}
use go_uspclient.Buffer.Valid.Retiring.{IsSound}

pub Framed-IsSound :
    (b b' : AckBuffer) → Framed b b' → b'.receipts ≡ b.receipts → IsSound b → IsSound b'
Framed-IsSound b b' f r s = record {
  valid = Framed-IsValid b b' f s.valid;
  tracked = record {
    chain =
        rw
          (
            r,
            ap (λ (x : AckBuffer). x.first_seq_num) f,
            ap (λ (x : AckBuffer). x.next_index_free) f,
          )
          s.tracked.chain;
  };
}

pub close-IsSound : (b : AckBuffer) → IsSound b → IsSound (close b)
unfolding close release_all_locked signal_locked
close-IsSound b s = Framed-IsSound b _ (ground arith) (ground arith) s

pub begin_drain-IsSound : (b : AckBuffer) → IsSound b → IsSound (begin_drain b)
unfolding begin_drain signal_locked
begin_drain-IsSound b s = Framed-IsSound b _ (ground arith) (ground arith) s

pub drain_round-IsSound : (done : Bool) (b : AckBuffer) → IsSound b → IsSound (drain_round done b).1
unfolding drain_round sample_wake
drain_round-IsSound done b s = Framed-IsSound b _ (ground arith) (ground arith) s

-- The window that `UpdateCapacity` hands to `shrinkBackingLocked`.
abbrev grown : ℕ → AckBuffer → AckBuffer
grown capacity b = record b {
  buff = if ltb (length b.buff) capacity then copy (replicate capacity none) b.buff else b.buff;
  current_capacity = capacity;
}

pending-grown : (capacity : ℕ) (b : AckBuffer) → IsValid b → pending (grown capacity b) ≡ pending b
pending-grown capacity b v =
    ground (arith, v.fits, take-grow b.buff b.next_index_free capacity none v.fits)

length-grown :
    (capacity : ℕ) (b : AckBuffer) → length (grown capacity b).buff ≡ max (length b.buff) capacity
length-grown capacity b = ground (
  arith,
  length-copy (replicate capacity (let n : Option DataMessage = none in n)) b.buff,
  length-replicate capacity (let n : Option DataMessage = none in n),
)

grown-IsWindow :
    (capacity : ℕ) (b : AckBuffer) → capacity < 2 ^ 63 → IsValid b → IsWindow (grown capacity b)
grown-IsWindow capacity b h v = record {
  fits = omega (arith, length-grown capacity b, v.fits);
  small = omega (arith, length-grown capacity b, v.small);
  capacity = omega (arith, length-grown capacity b);
  first = v.first;
  next = v.next;
  numbered = rw (pending-grown capacity b v) v.numbered;
  every = v.every;
}

shrink-fields :
    (b : AckBuffer) → shrink_backing_locked b ≡ record b { buff = (shrink_backing_locked b).buff }
unfolding shrink_backing_locked
shrink-fields b = ground arith

-- What resizing leaves alone.
record Resized (b c : AckBuffer) : Type 0 where
  free : c.next_index_free ≡ b.next_index_free
  first : c.first_seq_num ≡ b.first_seq_num
  deliver : c.next_index_to_deliver ≡ b.next_index_to_deliver
  ready : c.is_ready_to_deliver.v ≡ b.is_ready_to_deliver.v
  empty : c.is_empty.v ≡ b.is_empty.v
  receipts : c.receipts ≡ b.receipts

-- The end of `UpdateCapacity` on the resized buffer `c`.
Resized-IsSound :
    (b c : AckBuffer) (every : ℕ)
    → IsSound b
    → IsWindow c
    → Resized b c
    → 0 < every
    → IsSound (record (signal_locked (update_availability c)) { ack_every = every })
unfolding signal_locked update_availability set_event clear_event
Resized-IsSound b c every s w f e = record {
  valid = ground (arith, w.fits, s.valid.fits);
  tracked = record { chain = rw (f.receipts, f.free, f.first) (ground (arith, s.tracked.chain)) };
}

-- A change of the window keeps the invariant: the retained messages stay, also those that the new
-- window has no room for.
pub update_capacity-IsSound :
    (capacity : ℕ) (b : AckBuffer)
    → capacity < 2 ^ 63
    → IsSound b
    → IsSound (update_capacity capacity b)
unfolding update_capacity
update_capacity-IsSound capacity b h s = elim (Bool-cases (capacity == b.current_capacity)) [
  | inl same ↦ rw (same, update_capacity) s
  | inr other ↦
      rw (other, update_capacity)
        (Resized-IsSound b (shrink_backing_locked (grown capacity b)) _ s
          (shrink-IsWindow _ (grown-IsWindow capacity b h s.valid))
          (unfold shrink_backing_locked in ground arith) (ground arith))
]

pub pending-update_capacity :
    (capacity : ℕ) (b : AckBuffer) → IsValid b → pending (update_capacity capacity b) ≡ pending b
unfolding update_capacity signal_locked update_availability
pending-update_capacity capacity b v = ground (
  arith,
  pending-shrink (grown capacity b) (omega (arith, length-grown capacity b, v.fits)),
  pending-grown capacity b v,
)
