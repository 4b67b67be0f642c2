-- ===== src/Buffer/Log.antt =====
-- The window of `AckBuffer` seen as a log: every message ever taken in, in order, and how many of
-- them from the front are released. Operations answer: whether `Add` took the message, whether
-- `Ack` returned no error.
use go_uspclient.Base.{
  ℕ, ◌+◌, ◌%◌, ◌≤◌, ◌<◌, ◌≡◌, ◌⊎◌, Bool, true, false, not, ◌&&◌, Option, none, some, List, [], ◌∷◌,
  ◌++◌, word, length, drop,
}
use go_uspclient.Protocol.Messages.{DataMessage}
use go_uspclient.Buffer.State.{AckBuffer, pending}
use go_uspclient.Buffer.Admit.{try_add}
use go_uspclient.Buffer.Deliver.{AckError, ack}
use go_uspclient.Buffer.Run.{Op, adds, acks, delivers, resets, step}
use go_uspclient.Buffer.Cut.{Worn}

pub record Log : Type 0 where
  pub entries : List (Option DataMessage)
  pub released : ℕ

abbrev pub empty_log : Log
empty_log = record { entries = []; released = 0 }

-- The number that the entry at position `i` goes by.
abbrev pub number : ℕ → ℕ
number i = (1 + i) % word

abbrev has_no_error : Option AckError → Bool
has_no_error none = true
has_no_error (some e) = false

abbrev pub answer : Op → AckBuffer → Bool
answer (adds e size waiter receipt limit) b = (try_add e size waiter receipt limit b).0.0
answer (acks seq) b = has_no_error (ack seq b).0
answer o b = true

abbrev pub answers : List Op → AckBuffer → List Bool
answers [] b = []
answers (o ∷ os) b = answer o b ∷ answers os (step o b)

-- The message enters at the end, numbered by its position, its ACK flag kept or added.
abbrev pub Appended : DataMessage → Log → Log → Type 0
Appended e l l' =
    (asks : Bool) × ((e.ack_requested && not asks) ≡ false)
    × (l' ≡ record l {
      entries =
          l.entries
          ++ some (record e { seq_num = number (length l.entries); ack_requested = asks }) ∷ [];
    })

abbrev pub Released : Log → Log → Type 0
Released l l' =
    (l'.entries ≡ l.entries) × (l.released ≤ l'.released) × (l'.released ≤ length l.entries)

-- Everything up to an entry of that number, a `uint64`, is released.
abbrev pub ReleasedThrough : ℕ → Log → Log → Type 0
ReleasedThrough seq l l' =
    Released l l' × ((i : ℕ) × (l.released ≤ i) × (i < l'.released) × (seq % word ≡ number i))

-- What an operation may do to the log, given its answer.
abbrev pub LogStep : Op → Bool → Log → Log → Type 0
LogStep (adds e size waiter receipt limit) true l l' = Appended e l l'
LogStep (acks seq) true l l' = (l' ≡ l) ⊎ ReleasedThrough seq l l'
LogStep delivers _ l l' = Released l l'
LogStep resets _ l l' = Released l l'
LogStep _ _ l l' = l' ≡ l

abbrev pub LogRun : List Op → List Bool → Log → Log → Type 0
LogRun [] rs l l' = l' ≡ l
LogRun (o ∷ os) [] l l' = ⊥
LogRun (o ∷ os) (r ∷ rs) l l' = (m : Log) × LogStep o r l m × LogRun os rs m l'

-- The window holds the entries not released, some replaced by placeholders.
pub record Shows (l : Log) (b : AckBuffer) : Type 0 where
  pub within : l.released ≤ length l.entries
  pub first : b.first_seq_num ≡ number l.released
  pub slots : Worn (drop l.released l.entries) (pending b)
