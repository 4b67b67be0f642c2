-- ===== src/Buffer/Guarantee.antt =====
-- The guarantee in front of `tryAddLocked`: who waits for bytes has asked for an ACK.
use mathlib.Core.Path.{subst}
use go_uspclient.Base.{
  ℕ, zero, suc, ◌+◌, ◌-◌, ◌<◌, ◌≤◌, List, [], ◌∷◌, ◌++◌, length, take, get_or, word, ◌≡◌, ◌⊎◌, refl,
  ap, ◌∙◌, sym, Bool, true, false, not, ◌&&◌, Option, none, some, arith, inl, inr, Bool-cases,
  Option-cases, if◌then◌else◌, ltb, leb, add64, mul64, ◌/◌, ◌==◌,
}
use go_uspclient.Protocol.Messages.{DataMessage}
use go_uspclient.Budget.State.{ByteBudget}
use go_uspclient.Budget.Reserve.{reserve_for, reserve_legacy, reserve_fair, reserve_now}
use go_uspclient.Buffer.State.{AckBuffer, pending, fresh_buffer}
use go_uspclient.Buffer.Window.{slot_of_Numbered}
use go_uspclient.Buffer.Valid.{IsValid}
use go_uspclient.Buffer.Valid.Retiring.{IsSound}
use go_uspclient.Buffer.Run.{Op, run, AllFit}
use go_uspclient.Buffer.Asking.{Asks, AllAsk}
use go_uspclient.Buffer.Flagged.{IsFlagged, run-fresh-IsFlagged}
use go_uspclient.Buffer.Admit.{
  Gate, wait, admit, held_flagged, pressure_step_divisor, byte_gate, shared_gate, append, stamped,
  try_add,
}
use go_uspclient.Buffer.Valid.Admitting.{Gated, Gated-IsValid, pending-append, try_add_cases}

-- A forced reservation is admitted, whatever the state of the pool.
reserve_for-forced :
    (n : ℕ) (g waiter : Option ℕ) (bb : ByteBudget)
    → (reserve_for n true g waiter bb).0.admitted ≡ true
unfolding reserve_for reserve_legacy reserve_fair reserve_now
reserve_for-forced n g none bb = ground arith
reserve_for-forced n g (some w) bb = ground arith

abbrev is_wait : Gate → Bool
is_wait (wait w) = true
is_wait (admit forced step) = false

abbrev is_forced : Gate → Bool
is_forced (wait w) = false
is_forced (admit forced step) = forced

-- Without an ACK asked for, the pool admits, and what the own limit has forced stays forced.
shared_gate-admits :
    (size : ℕ) (waiter : Option ℕ) (forced : Bool) (step : ℕ) (b : AckBuffer)
    → held_flagged b ≡ false
    → let g = (shared_gate size waiter forced step b).0 in
      (is_wait g ≡ false) × ((forced ≡ false) ⊎ (is_forced g ≡ true))
unfolding shared_gate
shared_gate-admits size waiter forced step b h = elim (Option-cases b.shared) [
  | inl e ↦ ground (arith, e)
  | inr (bb, e) ↦ ground (arith, e, h, reserve_for-forced size b.group waiter bb)
]

-- The buffer's own limit does not leave room for `size` bytes.
abbrev pub is_over : ℕ → AckBuffer → Bool
is_over size b = b.accounting && not (b.max_bytes == 0) && ltb b.max_bytes (add64 b.bytes size)

-- The arguments that `byte_gate` gives the pool's gate.
abbrev over : ℕ → AckBuffer → Bool
over size b = not (b.max_bytes == 0) && ltb b.max_bytes (add64 b.bytes size)

abbrev first_step : ℕ → AckBuffer → ℕ
first_step size b =
    let half = not (b.max_bytes == 0) && leb b.max_bytes (mul64 2 (add64 b.bytes size)) in
    if half then b.max_bytes / pressure_step_divisor else 0

byte_gate_eq :
    (size : ℕ) (waiter : Option ℕ) (b : AckBuffer)
    → b.accounting ≡ true
    → held_flagged b ≡ false
    → byte_gate size waiter b ≡ shared_gate size waiter (over size b) (first_step size b) b
unfolding byte_gate
byte_gate_eq size waiter b a h = ground (arith, a, h)

byte_gate-admits :
    (size : ℕ) (waiter : Option ℕ) (b : AckBuffer)
    → held_flagged b ≡ false
    → let g = (byte_gate size waiter b).0 in
      (is_wait g ≡ false) × ((is_over size b ≡ false) ⊎ (is_forced g ≡ true))
unfolding byte_gate
byte_gate-admits size waiter b h = elim (Bool-cases b.accounting) [
  | inr a ↦ ground (arith, a)
  | inl a ↦
      let s = shared_gate-admits size waiter (over size b) (first_step size b) b h in
      rw (byte_gate_eq size waiter b a h)
        (s.0, elim s.1 [ inl o ↦ inl (ground (arith, o)) | inr f ↦ inr f ])
]

-- The buffer keeps a message that asks for an ACK, in slot `i`, under the slot's number.
abbrev pub HoldsAsker : AckBuffer → Type 0
HoldsAsker b =
    (i : ℕ) × (m : DataMessage) × (i < b.next_index_free)
    × (get_or b.buff i none ≡ some m)
    × (m.seq_num ≡ add64 b.first_seq_num i)
    × (m.ack_requested ≡ true)

-- `b'` has one message more, which asks for an ACK.
abbrev pub EndsAsking : AckBuffer → AckBuffer → Type 0
EndsAsking b b' =
    (m : DataMessage) × (pending b' ≡ pending b ++ some m ∷ [])
    × (m.seq_num ≡ b.next_seq_num)
    × (m.ack_requested ≡ true)

AllAsk-get :
    (last n i : ℕ) (xs : List (Option DataMessage)) (m : DataMessage)
    → AllAsk last (take n xs)
    → i < n
    → get_or xs i none ≡ some m
    → Asks last (some m)
AllAsk-get last zero i xs m h l e = absurd (omega arith)
AllAsk-get last (suc n) i [] m h l e = absurd (cc)
AllAsk-get last (suc n) zero (x ∷ xs) m h l e = subst (λ y. Asks last y) e h.0
AllAsk-get last (suc n) (suc i) (x ∷ xs) m h l e = AllAsk-get last n i xs m h.1 (omega arith) e

-- What the test of the gate means.
held_asker : (b : AckBuffer) → IsSound b → IsFlagged b → held_flagged b ≡ true → HoldsAsker b
held_asker b s f h =
    let i = b.last_flagged_seq - b.first_seq_num in
    let l : (0 < b.last_flagged_seq) × (b.first_seq_num ≤ b.last_flagged_seq) = ground arith in
    let lt : i < b.next_index_free =
      omega (arith, l, f.past, s.valid.next, s.valid.first, s.valid.fits, s.valid.small) in
    let (m, slot, number) =
      slot_of_Numbered b.first_seq_num b.next_index_free i b.buff s.valid.first s.valid.numbered lt
        s.valid.fits in
    let n : m.seq_num ≡ b.last_flagged_seq =
      omega (arith, number, l, f.past, s.valid.next, s.valid.first) in
    (
      i,
      m,
      lt,
      slot,
      number,
      elim (AllAsk-get b.last_flagged_seq b.next_index_free i b.buff m f.slots lt slot) [
        | inl z ↦ absurd (omega (arith, l))
        | inr (inl d) ↦ absurd (d n)
        | inr (inr a) ↦ a
      ],
    )

append-EndsAsking :
    (e : DataMessage) (size step : ℕ) (receipt : Option ℕ) (limit : ℕ) (b : AckBuffer)
    → IsValid b
    → b.is_available.v ≡ true
    → EndsAsking b (append e size true step receipt limit b)
append-EndsAsking e size step receipt limit b v a =
    let lt : b.next_index_free < b.current_capacity = ground (arith, v.room, a) in
    (
      stamped e size true step b,
      pending-append e size true step receipt limit b v (omega (arith, v.capacity)),
      refl,
      ground arith,
    )

-- An attempt on a sound buffer in which the test of the gate fails.
try_add_unheld :
    (e : DataMessage) (size : ℕ) (waiter receipt : Option ℕ) (limit : ℕ) (b : AckBuffer)
    → IsValid b
    → b.is_available.v ≡ true
    → held_flagged b ≡ false
    → let (r, b') = try_add e size waiter receipt limit b in
      (r.0 ≡ true) × ((is_over size b ≡ false) ⊎ EndsAsking b b')
try_add_unheld e size waiter receipt limit b v a h =
    try_add_cases e size waiter receipt limit b
      (λ r. (r.0.0 ≡ true) × ((is_over size b ≡ false) ⊎ EndsAsking b r.1))
      (λ n. absurd (ground (arith, a, n)))
      (λ w b' _ g _. absurd (
        ground (
          arith,
          ap (λ (r : Gate × AckBuffer). is_wait r.0) g,
          (byte_gate-admits size waiter b h).0,
        )))
      (λ forced step b' _ g f. (
        refl,
        asks forced step b' (ap (λ (r : Gate × AckBuffer). is_forced r.0) g)
            (byte_gate-admits size waiter b h).1 f,
      ))
  where
    asks :
        (forced : Bool) (step : ℕ) (b' : AckBuffer)
        → is_forced (byte_gate size waiter b).0 ≡ forced
        → (is_over size b ≡ false) ⊎ (is_forced (byte_gate size waiter b).0 ≡ true)
        → Gated b b'
        → (is_over size b ≡ false) ⊎ EndsAsking b (append e size forced step receipt limit b')
    asks forced step b' p (inl o) g = inl o
    asks forced step b' p (inr f) g =
        let t : forced ≡ true = sym p ∙ f in
        let same : (b'.next_seq_num ≡ b.next_seq_num) × (pending b' ≡ pending b) = ground arith in
        let (m, grown, number, asked) =
          append-EndsAsking e size step receipt limit b' (Gated-IsValid b b' g v)
            (ap (λ (x : AckBuffer). x.is_available.v) g ∙ a) in
        inr (rw t (m, grown ∙ ap (λ xs. xs ++ some m ∷ []) same.1, number ∙ same.0, asked))

-- The guarantee of `tryAddLocked`: an `Add` waits for bytes only while the buffer keeps a message that
-- asks for an ACK. After any operations on a new buffer, fewer than 2 ^ 64 - 2 and with windows that
-- are slice lengths, an attempt with room in the window finds such a message in one of the slots in
-- use, or takes its message in, whatever the limits are; and if the buffer's own limit is then
-- exceeded, the message, numbered `nextSeqNum`, is the last slot and asks for an ACK.
pub try_add_guarantee :
    (os : List Op) (max_bytes : ℕ) (shared : Option ByteBudget) (group : Option ℕ) (e : DataMessage)
    (size : ℕ) (waiter receipt : Option ℕ) (limit : ℕ)
    → AllFit os
    → length os + 2 < word
    → (run os (fresh_buffer max_bytes shared group)).is_available.v ≡ true
    → let b = run os (fresh_buffer max_bytes shared group) in
      let (r, b') = try_add e size waiter receipt limit b in
      HoldsAsker b ⊎ ((r.0 ≡ true) × ((is_over size b ≡ false) ⊎ EndsAsking b b'))
try_add_guarantee os max_bytes shared group e size waiter receipt limit f w a =
    let b : AckBuffer = run os (fresh_buffer max_bytes shared group) in
    let (s, h) = run-fresh-IsFlagged os max_bytes shared group f w in
    elim (Bool-cases (held_flagged b)) [
      | inl t ↦ inl (held_asker b s h t)
      | inr t ↦ inr (try_add_unheld e size waiter receipt limit b s.valid a t)
    ]
