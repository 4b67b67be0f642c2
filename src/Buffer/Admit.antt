-- ===== src/Buffer/Admit.antt =====
-- ack_buffer.go: `tryAddLocked` and the loop of `Add` around it.
use go_uspclient.Base.{
  ℕ, ◌/◌, ◌%◌, Bool, true, false, not, ◌&&◌, ◌||◌, [], ◌∷◌, ◌++◌, Option, none, some, ltb, leb,
  ◌==◌, if◌then◌else◌, set, add64, mul64,
}
use go_uspclient.Event.{set_event, clear_event}
use go_uspclient.Protocol.Messages.{DataMessage}
use go_uspclient.Budget.Reserve.{reserve_for, cancel}
use go_uspclient.Buffer.State.{retained, AckBuffer, is_present, store_cell}

abbrev pub pressure_step_divisor : ℕ
pressure_step_divisor = 16

-- What the byte limits say: wait (with the pool's waiter, if it gave one), or admit.
pub data Gate : Type 0 where
  wait : Option ℕ → Gate
  admit : Bool → ℕ → Gate

abbrev pub held_flagged : AckBuffer → Bool
held_flagged b = not (b.last_flagged_seq == 0) && leb b.first_seq_num b.last_flagged_seq

-- The `if b.shared != nil` of the gate, with `forced` and `pressureStep` so far.
unfoldable pub shared_gate : ℕ → Option ℕ → Bool → ℕ → AckBuffer → Gate × AckBuffer
shared_gate size waiter forced step b = elim b.shared [
  | none ↦ (admit forced step, b)
  | some bb ↦
      let (r, bb') = reserve_for size (not (held_flagged b)) b.group waiter bb in
      let escapes = r.overshot && is_present b.group in
      let pool_step = bb'.total / pressure_step_divisor in
      if not r.admitted then (wait r.waiter, record b { shared = some bb' }) else (
        admit (forced || r.overshot) (
            if not (bb'.total == 0)
              && leb bb'.total (mul64 2 r.used)
              && (step == 0 || ltb pool_step step)
            then pool_step
            else step),
        record b {
          shared = some bb';
          escape_seq = if escapes then b.next_seq_num else b.escape_seq;
          escape_bytes = if escapes then size else b.escape_bytes;
        },
      )
]

-- The `if b.accounting` of `tryAddWithReceiptLocked`.
unfoldable pub byte_gate : ℕ → Option ℕ → AckBuffer → Gate × AckBuffer
byte_gate size waiter b =
    let over = not (b.max_bytes == 0) && ltb b.max_bytes (add64 b.bytes size) in
    let half = not (b.max_bytes == 0) && leb b.max_bytes (mul64 2 (add64 b.bytes size)) in
    if not b.accounting
    then (admit false 0, b)
    else if over && held_flagged b
    then (wait none, record b { shared = cancel waiter b.shared })
    else shared_gate size waiter over (if half then b.max_bytes / pressure_step_divisor else 0) b

abbrev pub must_flag : DataMessage → ℕ → Bool → ℕ → AckBuffer → Bool
must_flag e size forced step b =
    e.ack_requested
    || b.next_seq_num % b.ack_every == 0
    || forced
    || (not (step == 0) && leb step (add64 b.bytes_since_flag size))

-- The message as it is stored.
abbrev pub stamped : DataMessage → ℕ → Bool → ℕ → AckBuffer → DataMessage
stamped e size forced step b = record e {
  seq_num = b.next_seq_num;
  ack_requested = must_flag e size forced step b;
}

abbrev or_else : Option ℕ → ℕ → Option ℕ
or_else none c = some c
or_else (some d) c = some d

-- The `if receipt != nil`: a new entry at the tail.
unfoldable pub track : Option ℕ → ℕ → ℕ → AckBuffer → AckBuffer
track none seq max_transmissions b = b
track (some c) seq max_transmissions b = record (store_cell c retained b) {
  receipts = b.receipts ++ record { seq = seq; state = c; max = max_transmissions; sends = 0 } ∷ [];
  deliver_cursor = or_else b.deliver_cursor c;
}

-- All that `tryAddWithReceiptLocked` does once the gate has admitted the message.
unfoldable pub append : DataMessage → ℕ → Bool → ℕ → Option ℕ → ℕ → AckBuffer → AckBuffer
unfolding set_event clear_event
append e size forced step receipt max_transmissions b =
    let e' = stamped e size forced step b in
    let b₁ = track receipt b.next_seq_num max_transmissions b in
    let free = add64 b.next_index_free 1 in
    record b₁ {
      next_seq_num = add64 b.next_seq_num 1;
      last_flagged_seq = if e'.ack_requested then b.next_seq_num else b.last_flagged_seq;
      bytes_since_flag =
          if e'.ack_requested
          then 0
          else if b.accounting
          then add64 b.bytes_since_flag size
          else b.bytes_since_flag;
      buff = set b.buff b.next_index_free (some e');
      next_index_free = free;
      sizes = if b.accounting then b.sizes ++ size ∷ [] else b.sizes;
      bytes = if b.accounting then add64 b.bytes size else b.bytes;
      is_available =
          if leb b.current_capacity free then clear_event b.is_available else b.is_available;
      is_ready_to_deliver = set_event b.is_ready_to_deliver;
      is_empty = clear_event b.is_empty;
    }

-- The outcome of an attempt: whether it admitted, and the waiter to keep.
unfoldable pub try_add :
    DataMessage → ℕ → Option ℕ → Option ℕ → ℕ → AckBuffer → (Bool × Option ℕ) × AckBuffer
try_add e size waiter receipt max_transmissions b =
    let (gate, b') = byte_gate size waiter b in
    if not b.is_available.v
    then ((false, none), record b { shared = cancel waiter b.shared })
    else elim gate [
      | wait w ↦ ((false, w), b')
      | admit forced step ↦ ((true, none), append e size forced step receipt max_transmissions b')
    ]
