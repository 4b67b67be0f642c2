-- ===== src/Buffer/Chain.antt =====
-- The chain of tracked admissions: in the order of their slots, all in the window.
use go_uspclient.Base.{
  ℕ, suc, ◌+◌, ◌≤◌, ◌<◌, ◌≡◌, Bool, List, [], ◌∷◌, ◌++◌, Option, none, some, arith, add64, sub64,
  word, leb, ◌||◌, if◌then◌else◌, Bool-cases, inl, inr,
}
use go_uspclient.Buffer.State.{TrackedAdmission, AckBuffer, store_cell}
use go_uspclient.Buffer.Retire.{names, confirm, drop_entries}
use go_uspclient.Buffer.Deliver.{find_entry, count_send}

-- Each entry's slot lies in the window of `free` slots from `first` on, at `lo` or behind it, and
-- before the slots of the entries that follow.
abbrev pub Chain : ℕ → ℕ → ℕ → List TrackedAdmission → Type 0
Chain first free lo [] = Unit
Chain first free lo (e ∷ es) =
    (e.seq < word)
    × (lo ≤ sub64 e.seq first)
    × (sub64 e.seq first < free)
    × Chain first free (suc (sub64 e.seq first)) es

pub record IsTracked (b : AckBuffer) : Type 0 where
  pub chain : Chain b.first_seq_num b.next_index_free 0 b.receipts

-- A new entry for the next slot.
pub append-Chain :
    (first free lo : ℕ) (es : List TrackedAdmission) (e : TrackedAdmission)
    → first < word
    → free < word
    → lo ≤ free
    → e.seq ≡ add64 first free
    → Chain first free lo es
    → Chain first (suc free) lo (es ++ e ∷ [])
append-Chain first free lo [] e h f l q c =
    let o : sub64 e.seq first ≡ free = omega arith in (omega arith, omega arith, omega arith, tt)
append-Chain first free lo (x ∷ es) e h f l q c = (
  c.0,
  c.1,
  omega (arith, c.2),
  append-Chain first free (suc (sub64 x.seq first)) es e h f c.2 q c.3,
)

pub grow-Chain :
    (first free more lo : ℕ) (es : List TrackedAdmission)
    → free ≤ more
    → Chain first free lo es
    → Chain first more lo es
grow-Chain first free more lo [] h c = tt
grow-Chain first free more lo (x ∷ es) h c =
    (c.0, c.1, omega (arith, c.2), grow-Chain first free more (suc (sub64 x.seq first)) es h c.3)

-- The entries behind `k` removed slots, seen from the new first slot.
pub shift-Chain :
    (first free k rest first' lo lo' : ℕ) (es : List TrackedAdmission)
    → first < word
    → free < word
    → rest + k ≡ free
    → first' ≡ add64 first k
    → k ≤ lo
    → lo' + k ≤ lo
    → Chain first free lo es
    → Chain first' rest lo' es
shift-Chain first free k rest first' lo lo' [] h f r q l m c = tt
shift-Chain first free k rest first' lo lo' (x ∷ es) h f r q l m c =
    let o : sub64 x.seq first' + k ≡ sub64 x.seq first = omega (arith, c.0, c.1, c.2) in
    (
      c.0,
      omega (arith, c.1),
      omega (arith, c.2),
      shift-Chain first free k rest first' (suc (sub64 x.seq first)) _ es h f r q
          (omega (arith, c.1)) (omega (arith, c.1)) c.3,
    )

-- What `dropReceiptsLocked` leaves of a chain, seen from the window behind the removed slots.
pub drop_entries-Chain :
    (first free k rest first' lo : ℕ) (confirms : Bool) (es : List TrackedAdmission) (gone : Bool)
    (b : AckBuffer)
    → first < word
    → free < word
    → rest + suc k ≡ free
    → first' ≡ add64 first (suc k)
    → Chain first free lo es
    → Chain first' rest 0 (drop_entries first k confirms es gone b).1.receipts
unfolding drop_entries
drop_entries-Chain first free k rest first' lo confirms [] gone b h f r q c = tt
drop_entries-Chain first free k rest first' lo confirms (e ∷ es) gone b h f r q c =
    elim (Bool-cases (leb (sub64 e.seq first) k)) [
      | inl le ↦
          rw (le, drop_entries)
            (drop_entries-Chain first free k rest first' (suc (sub64 e.seq first)) confirms es
              (gone || names b.deliver_cursor e.state)
              (if confirms then store_cell e.state (confirm (b.cells e.state)) b else b) h f r q
              c.3)
      | inr gt ↦
          rw (gt, drop_entries)
            (shift-Chain first free (suc k) rest first' (suc k) 0 (e ∷ es) h f r q (omega arith)
              (omega arith) (c.0, ground arith, c.2, c.3))
    ]

pub find_entry-fits :
    (first free lo : ℕ) (c : Option ℕ) (es : List TrackedAdmission) (e : TrackedAdmission)
    → Chain first free lo es
    → find_entry c es ≡ some e
    → e.seq < word
unfolding find_entry
find_entry-fits first free lo none es e h q = cc
find_entry-fits first free lo (some c) [] e h q = cc
find_entry-fits first free lo (some c) (x ∷ es) e h q =
    ground (arith, find_entry-fits first free (suc (sub64 x.seq first)) (some c) es e h.3)

pub count_send-Chain :
    (first free lo c : ℕ) (es : List TrackedAdmission)
    → Chain first free lo es
    → Chain first free lo (count_send c es)
unfolding count_send
count_send-Chain first free lo c [] h = tt
count_send-Chain first free lo c (x ∷ es) h =
    ground (arith, count_send-Chain first free (suc (sub64 x.seq first)) c es h.3)
