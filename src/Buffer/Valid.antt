-- ===== src/Buffer/Valid.antt =====
-- The representation invariant of `AckBuffer`.
pub mod Admitting
pub mod Slots
pub mod Removing
pub mod Acking
pub mod Retiring
pub mod Taking
pub mod Delivering
pub mod Controlling
use go_uspclient.Base.{
  ℕ, ◌+◌, ◌^◌, ◌≤◌, ◌<◌, ◌≡◌, refl, Bool, true, not, ltb, Option, arith, length, add64, word,
}
use go_uspclient.Event.{new_event, set_event}
use go_uspclient.Budget.State.{ByteBudget}
use go_uspclient.Buffer.State.{AckBuffer, pending, fresh_buffer}
use go_uspclient.Buffer.Window.{Numbered}

-- While `awake` is false the flags may lag behind the indexes: `ResetDelivery` is in its loop.
pub record IsValidIf (awake : Bool) (b : AckBuffer) : Type 0 where
  pub fits : b.next_index_free ≤ length b.buff
  pub small : length b.buff < 2 ^ 63
  pub delivered : b.next_index_to_deliver ≤ b.next_index_free
  pub capacity : b.current_capacity ≤ length b.buff
  pub room : b.is_available.v ≡ ltb b.next_index_free b.current_capacity
  pub first : b.first_seq_num < word
  pub next : b.next_seq_num ≡ add64 b.first_seq_num b.next_index_free
  pub numbered : Numbered b.first_seq_num (pending b)
  pub every : 0 < b.ack_every
  -- A slot that waits for delivery is never hidden from the sender.
  pub ready :
      awake ≡ true → b.next_index_to_deliver < b.next_index_free → b.is_ready_to_deliver.v ≡ true
  pub empty : b.is_empty.v ≡ not b.is_ready_to_deliver.v

abbrev pub IsValid : AckBuffer → Type 0
IsValid = IsValidIf true

pub fresh_buffer-IsValid :
    (max_bytes : ℕ) (shared : Option ByteBudget) (group : Option ℕ)
    → IsValid (fresh_buffer max_bytes shared group)
unfolding fresh_buffer new_event set_event
fresh_buffer-IsValid max_bytes shared group = ground arith

-- The fields that the invariant does not read may change.
abbrev pub Framed : AckBuffer → AckBuffer → Type 0
Framed b b' = b' ≡ record b {
  receipts = b'.receipts;
  deliver_cursor = b'.deliver_cursor;
  cells = b'.cells;
  retired = b'.retired;
  released_retired = b'.released_retired;
  is_closed = b'.is_closed;
  is_running = b'.is_running;
  accounting = b'.accounting;
  max_bytes = b'.max_bytes;
  shared = b'.shared;
  group = b'.group;
  registered = b'.registered;
  escape_seq = b'.escape_seq;
  escape_bytes = b'.escape_bytes;
  sizes = b'.sizes;
  bytes = b'.bytes;
  last_flagged_seq = b'.last_flagged_seq;
  bytes_since_flag = b'.bytes_since_flag;
  wake = b'.wake;
  next_wake = b'.next_wake;
  closed_wakes = b'.closed_wakes;
}

pub Framed-IsValid : {a : Bool} (b b' : AckBuffer) → Framed b b' → IsValidIf a b → IsValidIf a b'
Framed-IsValid b b' f v = rw f (record {
  fits = v.fits;
  small = v.small;
  delivered = v.delivered;
  capacity = v.capacity;
  room = v.room;
  first = v.first;
  next = v.next;
  numbered = v.numbered;
  every = v.every;
  ready = v.ready;
  empty = v.empty;
})
