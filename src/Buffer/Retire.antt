-- ===== src/Buffer/Retire.antt =====
-- ack_buffer.go and receipt.go: removal of a prefix of the buffer, retirement of single slots, and
-- the receipt entries that go with them.
use go_uspclient.Base.{
  ℕ, zero, suc, ◌+◌, ◌-◌, Bool, true, false, not, ◌&&◌, ◌||◌, List, [], ◌∷◌, Option, none, some,
  ltb, leb, ◌==◌, if◌then◌else◌, length, get_or, set, take, drop, replicate, copy, slice, fill, sum,
  add64, sub64, max, ◌%◌, ◌^◌,
}
use go_uspclient.Event.{set_event, clear_event}
use go_uspclient.Protocol.Messages.{with_seq_num}
use go_uspclient.Budget.Reserve.{release_for}
use go_uspclient.Buffer.State.{
  ReceiptFrameState, retained, acknowledged, retired, TrackedAdmission, ReleasedRetiredRing,
  new_ring, ring_add, AckBuffer, initial_capacity, signal_locked, is_retired, store_cell,
}

-- `state.CompareAndSwap(ReceiptRetained, ReceiptAcknowledged)`
abbrev pub confirm : ReceiptFrameState → ReceiptFrameState
confirm retained = acknowledged
confirm s = s

abbrev pub names : Option ℕ → ℕ → Bool
names none c = false
names (some d) c = d == c

-- The loop of `dropReceiptsLocked`, with its `cursorRemoved`.
unfoldable pub drop_entries :
    ℕ → ℕ → Bool → List TrackedAdmission → Bool → AckBuffer → Bool × AckBuffer
drop_entries first index ack [] gone b = (gone, record b { receipts = [] })
drop_entries first index ack (e ∷ es) gone b =
    let rest =
      drop_entries first index ack es (gone || names b.deliver_cursor e.state)
        (if ack then store_cell e.state (confirm (b.cells e.state)) b else b) in
    if leb (sub64 e.seq first) index then rest else (gone, record b { receipts = e ∷ es })

abbrev head_entry : List TrackedAdmission → Option ℕ
head_entry [] = none
head_entry (e ∷ es) = some e.state

unfoldable pub drop_receipts_locked : ℕ → ℕ → Bool → AckBuffer → AckBuffer
drop_receipts_locked first index ack b =
    let (gone, b') = drop_entries first index ack b.receipts false b in
    if gone then record b' { deliver_cursor = head_entry b'.receipts } else b'

unfoldable pub ack_receipts_locked : ℕ → ℕ → AckBuffer → AckBuffer
ack_receipts_locked first index b = drop_receipts_locked first index true b

unfoldable pub shrink_backing_locked : AckBuffer → AckBuffer
shrink_backing_locked b =
    let target = max (max b.current_capacity b.next_index_free) initial_capacity in
    if ltb target (length b.buff)
    then record b { buff = copy (replicate target none) (take b.next_index_free b.buff) }
    else b

-- `b.escapeBytes`, if the escape message is among the removed slots.
abbrev freed_escape : ℕ → AckBuffer → ℕ
freed_escape index b =
    if not (b.escape_bytes == 0) && leb (sub64 b.escape_seq b.first_seq_num) index
    then b.escape_bytes
    else 0

-- The bytes of the removed slots, at most what the buffer still holds.
abbrev freed_bytes : ℕ → AckBuffer → ℕ
freed_bytes index b =
    let freed = sum (take (index + 1) b.sizes) % 2 ^ 64 in
    if ltb b.bytes freed then b.bytes else freed

-- The `if b.accounting` of `removePrefixLocked`.
unfoldable pub free_prefix_bytes : ℕ → AckBuffer → AckBuffer
free_prefix_bytes index b =
    if b.accounting
    then record b {
      sizes = drop (index + 1) b.sizes;
      bytes = sub64 b.bytes (freed_bytes index b);
      escape_bytes = if freed_escape index b == 0 then b.escape_bytes else 0;
      shared = release_for (freed_bytes index b) (freed_escape index b) b.group b.shared;
    }
    else b

-- The slots move to the front, the vacated ones are cleared, and `firstSeqNum` goes on.
unfoldable pub shift_slots : ℕ → AckBuffer → AckBuffer
shift_slots index b =
    let old_free = b.next_index_free in
    let free = sub64 (sub64 old_free index) 1 in
    record b {
      first_seq_num = add64 (add64 b.first_seq_num index) 1;
      buff = fill (copy b.buff (slice b.buff (index + 1) old_free)) free old_free none;
      next_index_free = free;
    }

unfoldable pub update_availability : AckBuffer → AckBuffer
unfolding set_event clear_event
update_availability b = record b {
  is_available =
      if ltb b.next_index_free b.current_capacity
      then set_event b.is_available
      else clear_event b.is_available;
}

unfoldable pub adjust_delivery : ℕ → AckBuffer → AckBuffer
unfolding set_event clear_event
adjust_delivery index b =
    let next =
      if ltb (index + 1) b.next_index_to_deliver
      then sub64 b.next_index_to_deliver (index + 1)
      else 0 in
    record b {
      next_index_to_deliver = next;
      is_ready_to_deliver =
          if leb b.next_index_free next
          then clear_event b.is_ready_to_deliver
          else b.is_ready_to_deliver;
      is_empty = if leb b.next_index_free next then set_event b.is_empty else b.is_empty;
    }

-- `for seq := range b.retired`: the keys of the removed slots go.
unfoldable pub purge_retired : ℕ → ℕ → List ℕ → List ℕ
purge_retired first index [] = []
purge_retired first index (s ∷ ss) =
    if leb (sub64 s first) index
    then purge_retired first index ss
    else s ∷ purge_retired first index ss

-- The first half of `removePrefixLocked`: bytes, slots and the backing array.
unfoldable pub move_slots : ℕ → AckBuffer → AckBuffer
move_slots index b =
    let b₁ = shift_slots index (free_prefix_bytes index b) in
    if leb b₁.next_index_free b₁.current_capacity then shrink_backing_locked b₁ else b₁

unfoldable pub remove_prefix_locked : ℕ → AckBuffer → AckBuffer
remove_prefix_locked index b =
    let b' = adjust_delivery index (signal_locked (update_availability (move_slots index b))) in
    record b' { retired = purge_retired b.first_seq_num index b'.retired }

-- The run of retired slots that starts at slot `i`, with `n` slots left.
unfoldable pub retired_run : ℕ → ℕ → AckBuffer → ℕ
retired_run zero i b = 0
retired_run (suc n) i b =
    let rest = retired_run n (i + 1) b in
    if is_retired (add64 b.first_seq_num i) b then suc rest else 0

-- `releasedRetired.add` for the `n` numbers from `seq` on.
unfoldable pub ring_add_run : ℕ → ℕ → ReleasedRetiredRing → ReleasedRetiredRing
ring_add_run zero seq r = r
ring_add_run (suc n) seq r = ring_add_run n (add64 seq 1) (ring_add seq r)

abbrev or_new_ring : Option ReleasedRetiredRing → ReleasedRetiredRing
or_new_ring none = new_ring
or_new_ring (some r) = r

unfoldable pub release_retired_head_locked : AckBuffer → AckBuffer
release_retired_head_locked b =
    let n = retired_run b.next_index_free 0 b in
    if length b.retired == 0 || n == 0
    then b
    else drop_receipts_locked b.first_seq_num (n - 1) false (
        remove_prefix_locked (n - 1) (record b {
          released_retired = some (ring_add_run n b.first_seq_num (or_new_ring b.released_retired));
        }))

-- The `if b.accounting` of `retireLocked`.
unfoldable pub free_slot_bytes : ℕ → ℕ → AckBuffer → AckBuffer
free_slot_bytes index seq b =
    let size = get_or b.sizes index 0 in
    let freed = if ltb b.bytes size then b.bytes else size in
    let escape = if not (b.escape_bytes == 0) && b.escape_seq == seq then b.escape_bytes else 0 in
    if b.accounting && ltb index (length b.sizes)
    then record b {
      sizes = set b.sizes index 0;
      bytes = sub64 b.bytes freed;
      escape_bytes = if escape == 0 then b.escape_bytes else 0;
      shared = release_for freed escape b.group b.shared;
    }
    else b

unfoldable pub retire_locked : ℕ → TrackedAdmission → AckBuffer → AckBuffer
retire_locked index e b =
    let b₁ = record (store_cell e.state retired b) {
      buff = set b.buff index (some (with_seq_num e.seq));
      retired = if is_retired e.seq b then b.retired else e.seq ∷ b.retired;
    } in
    let b₂ = free_slot_bytes index e.seq b₁ in
    signal_locked (if b₂.last_flagged_seq == e.seq then record b₂ { last_flagged_seq = 0 } else b₂)
