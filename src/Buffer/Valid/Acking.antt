-- ===== src/Buffer/Valid/Acking.antt =====
-- `Ack` and the removal of retired slots keep the invariant.
use go_uspclient.Base.{
  ℕ, zero, suc, ◌+◌, ◌-◌, ◌≤◌, ◌<◌, ◌≡◌, refl, Bool, true, false, Option, none, some, arith, length,
  sub64, word, List, [], ◌∷◌, Bool-cases, ◌⊎◌, max_word, inl, inr, Option-cases, ◌||◌, ◌==◌,
  if◌then◌else◌,
}
use go_uspclient.Buffer.State.{ReleasedRetiredRing, AckBuffer, TrackedAdmission, store_cell}
use go_uspclient.Buffer.Retire.{
  names, confirm, drop_entries, drop_receipts_locked, ack_receipts_locked, remove_prefix_locked,
  retired_run, release_retired_head_locked,
}
use go_uspclient.Buffer.Deliver.{AckError, ack_check, ack_prefix, ack}
use go_uspclient.Buffer.Valid.{IsValidIf, IsValid, Framed-IsValid}
use go_uspclient.Buffer.Valid.Removing.{remove_prefix-IsValid}

-- Receipt tracking leaves the slots alone.
abbrev pub Tracked : AckBuffer → AckBuffer → Type 0
Tracked b b' =
    b' ≡ record b { receipts = b'.receipts; deliver_cursor = b'.deliver_cursor; cells = b'.cells }

pub Tracked-IsValid : {a : Bool} (b b' : AckBuffer) → Tracked b b' → IsValidIf a b → IsValidIf a b'
Tracked-IsValid b b' c v = Framed-IsValid b b' (ground arith) v

drop_entries-Tracked :
    (first index : ℕ) (confirms : Bool) (es : List TrackedAdmission) (gone : Bool) (b : AckBuffer)
    → Tracked b (drop_entries first index confirms es gone b).1
unfolding drop_entries
drop_entries-Tracked first index confirms [] gone b = refl
drop_entries-Tracked first index confirms (e ∷ es) gone b = ground (
  arith,
  drop_entries-Tracked first index confirms es (gone || names b.deliver_cursor e.state)
      (if confirms then store_cell e.state (confirm (b.cells e.state)) b else b),
)

pub drop_receipts-Tracked :
    (first index : ℕ) (confirms : Bool) (b : AckBuffer)
    → Tracked b (drop_receipts_locked first index confirms b)
unfolding drop_receipts_locked
drop_receipts-Tracked first index confirms b =
    ground (arith, drop_entries-Tracked first index confirms b.receipts false b)

pub retired_run-le : (n i : ℕ) (b : AckBuffer) → retired_run n i b ≤ n
unfolding retired_run
retired_run-le zero i b = omega arith
retired_run-le (suc n) i b = ground (arith, retired_run-le n (i + 1) b)

-- The rule for a property of what `releaseRetiredHeadLocked` leaves.
pub release_retired_head_cases {ℓ} :
    (P : AckBuffer → Type ℓ) (b : AckBuffer)
    → P b
    → ((k : ℕ) (ring : Option ReleasedRetiredRing)
        → suc k ≡ retired_run b.next_index_free 0 b
        → k < b.next_index_free
        → P (
            drop_receipts_locked b.first_seq_num k false
              (remove_prefix_locked k (record b { released_retired = ring }))))
    → P (release_retired_head_locked b)
unfolding release_retired_head_locked
release_retired_head_cases P b same removed =
    elim (Bool-cases (length b.retired == 0 || retired_run b.next_index_free 0 b == 0)) [
      | inl e ↦ rw (e, release_retired_head_locked) same
      | inr e ↦
          rw (e, release_retired_head_locked)
            (removed _ _ (ground (arith, retired_run-le b.next_index_free 0 b))
              (ground (arith, retired_run-le b.next_index_free 0 b)))
    ]

pub release_retired_head-IsValid :
    {a : Bool} (b : AckBuffer) → IsValidIf a b → IsValidIf a (release_retired_head_locked b)
release_retired_head-IsValid b v = release_retired_head_cases (IsValidIf _) b v λ k ring _ h.
    Tracked-IsValid _ _ (drop_receipts-Tracked _ _ false _)
      (remove_prefix-IsValid k _ (Framed-IsValid b _ refl v) h)

module _ (seq : ℕ) (b : AckBuffer) where
  pub ack_check-lt : ack_check seq b ≡ none → sub64 seq b.first_seq_num < b.next_index_free
  unfolding ack_check
  ack_check-lt h = ground arith

  pub ack_accepts :
      ack_check seq b ≡ none → ack seq b ≡ (none, ack_prefix (sub64 seq b.first_seq_num) b)
  unfolding ack
  ack_accepts h = ground arith

  pub ack_refuses : (r : Option AckError) → ack_check seq b ≡ some r → ack seq b ≡ (r, b)
  unfolding ack
  ack_refuses r h = ground arith

  ack_prefix-IsValid :
      IsValid b
      → sub64 seq b.first_seq_num < b.next_index_free
      → IsValid (ack_prefix (sub64 seq b.first_seq_num) b)
  unfolding ack_prefix ack_receipts_locked
  ack_prefix-IsValid v h =
      release_retired_head-IsValid _
        (Tracked-IsValid _ _ (drop_receipts-Tracked _ _ true _) (remove_prefix-IsValid _ b v h))

  -- An ACK keeps the invariant, whether it is accepted, late or refused.
  pub ack-IsValid : IsValid b → IsValid (ack seq b).1
  ack-IsValid v = elim (Option-cases (ack_check seq b)) [
    | inl e ↦ rw (ack_accepts e) (ack_prefix-IsValid v (ack_check-lt e))
    | inr (r, e) ↦ rw (ack_refuses r e) v
  ]

  -- What the acceptance of a number means, while the window does not reach the end of the 64-bit
  -- range.
  abbrev pub Ackable : Type 0
  Ackable =
      (b.first_seq_num ≤ seq)
      × (seq < b.first_seq_num + b.next_index_free)
      × ((seq < b.first_seq_num + b.next_index_to_deliver)
          ⊎ ((b.next_index_to_deliver ≡ 0) × (seq ≡ b.first_seq_num)))

  module _ (v : IsValid b) (s : seq < word) (n : b.first_seq_num + length b.buff < max_word) where
    pub ack_check-Ackable : ack_check seq b ≡ none → Ackable
    unfolding ack_check
    ack_check-Ackable h = ground arith

    pub Ackable-ack_check : Ackable → ack_check seq b ≡ none
    unfolding ack_check
    Ackable-ack_check h =
        let e : sub64 seq b.first_seq_num ≡ seq - b.first_seq_num = omega arith in
        rw e (ground (arith, v.fits, v.next))
