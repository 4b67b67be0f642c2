-- ===== src/Buffer/Control.antt =====
-- ack_buffer.go: `Close`, the start and the rounds of `drain`, `GetUnAcked`, `UpdateCapacity`; and
-- `releaseReceiptTracking` of receipt.go.
use go_uspclient.Base.{
  ℕ, zero, suc, ◌+◌, ◌-◌, ◌*◌, ◌/◌, ◌%◌, ◌^◌, Bool, true, false, ◌&&◌, ◌||◌, List, [], ◌∷◌, Option,
  none, some, ltb, ◌==◌, if◌then◌else◌, length, get_or, replicate, copy, add64,
}
use go_uspclient.Protocol.Messages.{DataMessage}
use go_uspclient.Budget.State.{unregister}
use go_uspclient.Budget.Reserve.{release_for}
use go_uspclient.Buffer.State.{AckBuffer, signal_locked, sample_wake, pending, is_retired}
use go_uspclient.Buffer.Retire.{shrink_backing_locked, update_availability}

abbrev pub release_receipt_tracking : AckBuffer → AckBuffer
release_receipt_tracking b = record b { receipts = []; deliver_cursor = none }

unfoldable pub release_all_locked : AckBuffer → AckBuffer
release_all_locked b = if b.bytes == 0 then b else record b {
  shared = release_for b.bytes b.escape_bytes b.group b.shared;
  escape_bytes = 0;
  bytes = 0;
}

unfoldable pub close : AckBuffer → AckBuffer
close b =
    let b₁ = release_all_locked (record b { is_running = false; is_closed = true }) in
    signal_locked (
      if b₁.registered
      then record b₁ { shared = unregister b₁.group b₁.shared; registered = false }
      else b₁)

-- `BeginDrain` of client.go, and the first lines of `drain`.
unfoldable pub begin_drain : AckBuffer → AckBuffer
begin_drain b = signal_locked (record b { is_running = false })

pub data DrainCause : Type 0 where
  client_closed context_done : DrainCause

pub record DrainError : Type 0 where
  pub unacked : ℕ
  pub first_seq : ℕ
  pub last_seq : ℕ
  pub cause : DrainCause

-- The two loops of `liveSeqBoundsLocked`, on the indexes `first` and `last`.
unfoldable pub first_live : ℕ → ℕ → AckBuffer → ℕ
first_live zero i b = i
first_live (suc n) i b =
    let rest = first_live n (i + 1) b in if is_retired (add64 b.first_seq_num i) b then rest else i

unfoldable pub last_live : ℕ → ℕ → AckBuffer → ℕ
last_live zero i b = i
last_live (suc n) i b =
    let rest = last_live n (i - 1) b in if is_retired (add64 b.first_seq_num i) b then rest else i

abbrev pub seq_or_zero : Option DataMessage → ℕ
seq_or_zero none = 0
seq_or_zero (some m) = m.seq_num

unfoldable pub live_seq_bounds : AckBuffer → ℕ × ℕ
live_seq_bounds b =
    let last = b.next_index_free - 1 in
    let i = if length b.retired == 0 then 0 else first_live last 0 b in
    let j = if length b.retired == 0 then last else last_live (last - i) last b in
    (seq_or_zero (get_or b.buff i none), seq_or_zero (get_or b.buff j none))

pub data DrainStep : Type 0 where
  drained : DrainStep
  failed : DrainError → DrainStep
  -- the wake channel to wait on, beside the context
  waits : ℕ → DrainStep

-- One round of the loop of `drain`, under the lock; `done` says that `ctx.Err()` is not nil.
unfoldable pub drain_round : Bool → AckBuffer → DrainStep × AckBuffer
drain_round done b =
    let (lo, hi) = live_seq_bounds b in
    let (c, b') = sample_wake b in
    if b.next_index_free == 0
    then (drained, b)
    else if b.is_closed || done
    then (
      failed (record {
        unacked = b.next_index_free - length b.retired;
        first_seq = lo;
        last_seq = hi;
        cause = if b.is_closed then client_closed else context_done;
      }),
      b,
    )
    else (waits c, b')

-- The slots from index `i` on that are not retired.
unfoldable pub live_slots : ℕ → List (Option DataMessage) → AckBuffer → List (Option DataMessage)
live_slots i [] b = []
live_slots i (m ∷ ms) b =
    if is_retired (add64 b.first_seq_num i) b
    then live_slots (i + 1) ms b
    else m ∷ live_slots (i + 1) ms b

unfoldable pub get_un_acked : AckBuffer → List (Option DataMessage)
get_un_acked b = if length b.retired == 0 then pending b else live_slots 0 (pending b) b

-- `float64(n)` for a `uint64`: 53 significant bits, ties to even. `float_unit` doubles the weight
-- of the last bit until the number fits.
unfoldable pub float_unit : ℕ → ℕ → ℕ → ℕ
float_unit zero n u = u
float_unit (suc fuel) n u = float_unit fuel n (if ltb n (2 ^ 53 * u) then u else 2 * u)

unfoldable pub to_float : ℕ → ℕ
to_float n =
    let u = float_unit 11 n 1 in
    let q = n / u in
    let r = n % u in (if ltb u (2 * r) || (2 * r == u && q % 2 == 1) then q + 1 else q) * u

unfoldable pub update_capacity : ℕ → AckBuffer → AckBuffer
update_capacity capacity b =
    let grown =
      if ltb (length b.buff) capacity then copy (replicate capacity none) b.buff else b.buff in
    let b₁ = shrink_backing_locked (record b { buff = grown; current_capacity = capacity }) in
    let every = to_float capacity / 2 in
    if capacity == b.current_capacity then b else record (signal_locked (update_availability b₁)) {
      ack_every = if every == 0 then 1 else every;
    }
