-- ===== src/Buffer/Deliver.antt =====
-- ack_buffer.go: `Ack`, `GetNextToDeliver` and `ResetDelivery`.
use go_uspclient.Base.{
  ℕ, zero, suc, ◌+◌, ◌-◌, ◌%◌, ◌^◌, Bool, true, false, not, ◌&&◌, ◌||◌, List, [], ◌∷◌, Option, none,
  some, ltb, leb, ◌==◌, if◌then◌else◌, length, get_or, add64, sub64, max_word,
}
use go_uspclient.Event.{set_event, clear_event}
use go_uspclient.Protocol.Messages.{DataMessage}
use go_uspclient.Buffer.State.{
  TrackedAdmission, ReleasedRetiredRing, ring_has, AckBuffer, is_retired,
}
use go_uspclient.Buffer.Retire.{
  remove_prefix_locked, ack_receipts_locked, release_retired_head_locked, retire_locked,
}

pub data AckError : Type 0 where
  -- "unexpected acked sequence number"
  unexpected : ℕ → AckError
  not_in_buffer : ℕ → AckError
  -- the number, its index, the next number to deliver and its index
  not_yet_delivered : ℕ → ℕ → ℕ → ℕ → AckError

abbrev ring_remembers : ℕ → Option ReleasedRetiredRing → Bool
ring_remembers seq none = false
ring_remembers seq (some r) = ring_has seq r

abbrev seq_or_zero : Option DataMessage → ℕ
seq_or_zero none = 0
seq_or_zero (some m) = m.seq_num

abbrev pub seq_at : AckBuffer → ℕ → ℕ
seq_at b i = seq_or_zero (get_or b.buff i none)

-- What `Ack` answers before it removes anything: `none` is the release of the prefix, `some none` a
-- harmless late ACK.
unfoldable pub ack_check : ℕ → AckBuffer → Option (Option AckError)
ack_check seq b =
    let index = sub64 seq b.first_seq_num in
    if leb b.next_index_free index && ring_remembers seq b.released_retired
    then some none
    else if ltb seq b.first_seq_num
        && leb (sub64 (length b.buff) (sub64 max_word b.first_seq_num)) seq
    then some (some (unexpected seq))
    else if leb b.next_seq_num seq && not (seq == max_word) && not (b.next_seq_num == 0)
    then some (some (unexpected seq))
    else if leb (length b.buff) index || leb b.next_index_free index
    then some (some (not_in_buffer seq))
    else if leb b.next_index_to_deliver index && not (b.next_index_to_deliver == 0 && index == 0)
    then some (
        some
          (not_yet_delivered seq index (seq_at b b.next_index_to_deliver) b.next_index_to_deliver))
    else none

-- The accepted part of `Ack`.
unfoldable pub ack_prefix : ℕ → AckBuffer → AckBuffer
ack_prefix index b =
    release_retired_head_locked
      (ack_receipts_locked b.first_seq_num index (remove_prefix_locked index b))

unfoldable pub ack : ℕ → AckBuffer → Option AckError × AckBuffer
ack seq b = elim (ack_check seq b) [
  | none ↦ (none, ack_prefix (sub64 seq b.first_seq_num) b)
  | some refusal ↦ (refusal, b)
]

unfoldable pub find_entry : Option ℕ → List TrackedAdmission → Option TrackedAdmission
find_entry none es = none
find_entry (some c) [] = none
find_entry (some c) (e ∷ es) = if e.state == c then some e else find_entry (some c) es

abbrev pub first_cell : List TrackedAdmission → Option ℕ
first_cell [] = none
first_cell (e ∷ es) = some e.state

-- The cell of the entry behind the one of cell `c`: `c.next`.
unfoldable pub next_entry : ℕ → List TrackedAdmission → Option ℕ
next_entry c [] = none
next_entry c (e ∷ es) = if e.state == c then first_cell es else next_entry c es

-- `entry.sends++`
unfoldable pub count_send : ℕ → List TrackedAdmission → List TrackedAdmission
count_send c [] = []
count_send c (e ∷ es) =
    if e.state == c then record e { sends = (e.sends + 1) % 2 ^ 32 } ∷ es else e ∷ count_send c es

-- The tracked entry of slot `index`, if the cursor stands at it; the cursor then goes on.
unfoldable pub take_entry : ℕ → AckBuffer → Option TrackedAdmission × AckBuffer
take_entry index b = elim (find_entry b.deliver_cursor b.receipts) [
  | none ↦ (none, b)
  | some e ↦
      if sub64 e.seq b.first_seq_num == index
      then (some e, record b { deliver_cursor = next_entry e.state b.receipts })
      else (none, b)
]

-- Whether each of the `n` slots from `i` on is retired.
unfoldable pub all_retired : ℕ → ℕ → AckBuffer → Bool
all_retired zero i b = true
all_retired (suc n) i b = is_retired (add64 b.first_seq_num i) b && all_retired n (i + 1) b

unfoldable pub only_retired_after_locked : ℕ → AckBuffer → Bool
only_retired_after_locked index b =
    if length b.retired == 0
    then add64 index 1 == b.next_index_free
    else all_retired (b.next_index_free - (index + 1)) (index + 1) b

abbrev pub limit_reached : Option TrackedAdmission → Bool
limit_reached none = false
limit_reached (some e) = not (e.max == 0) && leb e.max e.sends

abbrev pub count_if_limited : Option TrackedAdmission → AckBuffer → AckBuffer
count_if_limited none b = b
count_if_limited (some e) b =
    if e.max == 0 then b else record b { receipts = count_send e.state b.receipts }

abbrev pub advance : AckBuffer → AckBuffer
advance b = record b { next_index_to_deliver = add64 b.next_index_to_deliver 1 }

abbrev pub delivery_over : AckBuffer → AckBuffer
unfolding set_event clear_event
delivery_over b = record b {
  is_ready_to_deliver = clear_event b.is_ready_to_deliver;
  is_empty = set_event b.is_empty;
}

abbrev pub flagged : Bool → Option DataMessage → Option DataMessage
flagged ask none = none
flagged ask (some m) = some (if ask then record m { ack_requested = true } else m)

-- The end of a round that hands slot `index` out: while draining, the last one asks for an ACK on a
-- copy.
unfoldable pub hand_out : ℕ → Option TrackedAdmission → AckBuffer → Option DataMessage × AckBuffer
unfolding set_event clear_event
hand_out index e b =
    let b₁ = advance (count_if_limited e b) in
    (
      flagged (not b.is_running && only_retired_after_locked index b) (get_or b.buff index none),
      if leb b₁.next_index_free b₁.next_index_to_deliver then delivery_over b₁ else b₁,
    )

-- The pre-send fence: the slot at the delivery index is retired instead of handed out.
unfoldable pub fence : ℕ → Option TrackedAdmission → AckBuffer → AckBuffer
fence index none b = b
fence index (some e) b = release_retired_head_locked (advance (retire_locked index e b))

-- The loop of `GetNextToDeliver`. Each round that goes on lowers the number of slots behind the
-- delivery index, so that number, plus one, is fuel enough.
unfoldable pub deliver_loop : ℕ → AckBuffer → Option DataMessage × AckBuffer
unfolding set_event clear_event
deliver_loop zero b = (none, b)
deliver_loop (suc fuel) b =
    let index = b.next_index_to_deliver in
    let (e, b₁) = take_entry index b in
    let skipped = deliver_loop fuel (advance b₁) in
    let fenced = deliver_loop fuel (fence index e b₁) in
    if not (ltb index b.next_index_free)
    then (none, delivery_over b)
    else if is_retired (add64 b.first_seq_num index) b₁
    then skipped
    else if limit_reached e
    then fenced
    else hand_out index e b₁

-- `GetNextToDeliver` after its wait for `isReadyToDeliver`; `none` is the nil message.
unfoldable pub get_next_to_deliver : AckBuffer → Option DataMessage × AckBuffer
get_next_to_deliver b =
    if not b.is_ready_to_deliver.v
    then (none, b)
    else deliver_loop (b.next_index_free - b.next_index_to_deliver + 1) b

-- The loop of `ResetDelivery` over the chain as it stood when the loop began.
unfoldable pub retire_exhausted : List TrackedAdmission → AckBuffer → AckBuffer
retire_exhausted [] b = b
retire_exhausted (e ∷ es) b = retire_exhausted es (
    if e.max == 0 || ltb e.sends e.max || is_retired e.seq b
    then b
    else retire_locked (sub64 e.seq b.first_seq_num) e b)

unfoldable pub reset_delivery : AckBuffer → AckBuffer
unfolding set_event clear_event
reset_delivery b =
    let b₁ = release_retired_head_locked (
      retire_exhausted b.receipts
        (record b { next_index_to_deliver = 0; deliver_cursor = first_cell b.receipts })) in
    if leb b₁.next_index_free b₁.next_index_to_deliver then delivery_over b₁ else record b₁ {
      is_ready_to_deliver = set_event b₁.is_ready_to_deliver;
      is_empty = clear_event b₁.is_empty;
    }
