-- ===== src/Buffer/State.antt =====
-- The state of `AckBuffer`, its constructor, and the ring of locally released sequence numbers.
-- `shared` is the budget that the pointer leads to, as it is when an operation starts or ends.
-- `receipts` is the chain from `receiptHead` to `receiptTail`; a `*receiptState` is the number of a
-- cell of `cells`, and the cursor names its entry by that cell. The keys of the map `retired` are a
-- list. A wake channel is a number below `next_wake`.
use go_uspclient.Base.{
  ℕ, suc, ◌+◌, ◌%◌, Bool, true, false, not, ◌||◌, List, [], ◌∷◌, Option, none, some, String, ltb,
  ◌==◌, if◌then◌else◌, set, replicate, take, contains,
}
use go_uspclient.Event.{Event, new_event, set_event}
use go_uspclient.Protocol.Messages.{DataMessage}
use go_uspclient.Budget.State.{ByteBudget, ungrouped, missing_group, registered, register}

pub data ReceiptFrameState : Type 0 where
  invalid retained acknowledged closed_unconfirmed retired : ReceiptFrameState

pub record TrackedAdmission : Type 0 where
  pub seq : ℕ
  pub state : ℕ
  pub max : ℕ
  pub sends : ℕ

abbrev pub released_retired_memory : ℕ
released_retired_memory = 64

pub record ReleasedRetiredRing : Type 0 where
  pub seqs : List ℕ
  pub n : ℕ
  pub next : ℕ

abbrev pub new_ring : ReleasedRetiredRing
new_ring = record { seqs = replicate released_retired_memory 0; n = 0; next = 0 }

unfoldable pub ring_add : ℕ → ReleasedRetiredRing → ReleasedRetiredRing
ring_add seq r = record {
  seqs = set r.seqs r.next seq;
  n = if ltb r.n released_retired_memory then r.n + 1 else r.n;
  next = (r.next + 1) % released_retired_memory;
}

-- The loop looks at `r.seqs[0:r.n]`.
unfoldable pub ring_has : ℕ → ReleasedRetiredRing → Bool
ring_has seq r = contains (take r.n r.seqs) seq

pub record AckBuffer : Type 0 where
  pub receipts : List TrackedAdmission
  pub deliver_cursor : Option ℕ
  pub cells : ℕ → ReceiptFrameState
  pub retired : List ℕ
  pub released_retired : Option ReleasedRetiredRing
  pub is_closed : Bool
  pub is_running : Bool
  pub is_available : Event
  pub buff : List (Option DataMessage)
  pub next_index_free : ℕ
  pub first_seq_num : ℕ
  pub next_seq_num : ℕ
  pub ack_every : ℕ
  pub next_index_to_deliver : ℕ
  pub is_ready_to_deliver : Event
  pub is_empty : Event
  pub current_capacity : ℕ
  pub accounting : Bool
  pub max_bytes : ℕ
  pub shared : Option ByteBudget
  pub group : Option ℕ
  pub registered : Bool
  pub escape_seq : ℕ
  pub escape_bytes : ℕ
  pub sizes : List ℕ
  pub bytes : ℕ
  pub last_flagged_seq : ℕ
  pub bytes_since_flag : ℕ
  pub wake : Option ℕ
  pub next_wake : ℕ
  pub closed_wakes : List ℕ

abbrev pub initial_capacity : ℕ
initial_capacity = 1

pub record AckBufferOptions : Type 0 where
  pub max_bytes : ℕ
  pub shared_budget : Option ByteBudget
  pub budget_group : String

abbrev pub is_present {ℓ} : {A : Type ℓ} → Option A → Bool
is_present none = false
is_present (some a) = true

unfoldable pub fresh_buffer : ℕ → Option ByteBudget → Option ℕ → AckBuffer
unfolding new_event set_event
fresh_buffer max_bytes shared group = record {
  receipts = [];
  deliver_cursor = none;
  cells = λ c. invalid;
  retired = [];
  released_retired = none;
  is_closed = false;
  is_running = true;
  is_available = set_event new_event;
  buff = replicate initial_capacity none;
  next_index_free = 0;
  first_seq_num = 1;
  next_seq_num = 1;
  ack_every = initial_capacity;
  next_index_to_deliver = 0;
  is_ready_to_deliver = new_event;
  is_empty = set_event new_event;
  current_capacity = initial_capacity;
  accounting = not (max_bytes == 0) || is_present shared;
  max_bytes = max_bytes;
  shared = shared;
  group = group;
  registered = is_present group;
  escape_seq = 0;
  escape_bytes = 0;
  sizes = [];
  bytes = 0;
  last_flagged_seq = 0;
  bytes_since_flag = 0;
  wake = none;
  next_wake = 0;
  closed_wakes = [];
}

-- `none` is the error of `register`.
unfoldable pub new_ack_buffer : AckBufferOptions → Option AckBuffer
new_ack_buffer o =
    let (r, shared) = register o.budget_group o.shared_budget in
    elim r [
      | missing_group ↦ none
      | ungrouped ↦ some (fresh_buffer o.max_bytes shared none)
      | registered g ↦ some (fresh_buffer o.max_bytes shared (some g))
    ]

-- `signalLocked`: the wake channel is closed and dropped.
unfoldable pub signal_locked : AckBuffer → AckBuffer
signal_locked b = elim b.wake [
  | none ↦ b
  | some c ↦ record b { wake = none; closed_wakes = c ∷ b.closed_wakes }
]

-- `if b.wake == nil { b.wake = make(…) }`, and the channel that the caller then waits on.
unfoldable pub sample_wake : AckBuffer → ℕ × AckBuffer
sample_wake b = elim b.wake [
  | some c ↦ (c, b)
  | none ↦ (b.next_wake, record b { wake = some b.next_wake; next_wake = suc b.next_wake })
]

-- The slots in use, oldest first.
abbrev pub pending : AckBuffer → List (Option DataMessage)
pending b = take b.next_index_free b.buff

abbrev pub is_retired : ℕ → AckBuffer → Bool
is_retired seq b = contains b.retired seq

-- A store into a receipt's cell.
abbrev pub store_cell : ℕ → ReceiptFrameState → AckBuffer → AckBuffer
store_cell c v b = record b { cells = λ j. if j == c then v else b.cells j }
