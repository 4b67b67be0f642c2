-- ===== src/Buffer/Valid/Admitting.antt =====
-- `tryAddLocked` keeps the invariant.
use go_uspclient.Base.{
  ℕ, suc, ◌<◌, ◌≡◌, refl, ap, Bool, true, false, Option, none, some, arith, length, add64, [], ◌∷◌,
  ◌++◌, length-set, ◌∙◌, length-take, take-set_end, Bool-cases, inl, inr,
}
use go_uspclient.Event.{set_event, clear_event}
use go_uspclient.Protocol.Messages.{DataMessage}
use go_uspclient.Budget.Reserve.{cancel}
use go_uspclient.Buffer.State.{AckBuffer, pending}
use go_uspclient.Buffer.Window.{Numbered, append-Numbered}
use go_uspclient.Buffer.Admit.{
  Gate, wait, admit, append, track, stamped, byte_gate, shared_gate, try_add,
}
use go_uspclient.Buffer.Valid.{IsValid, Framed-IsValid}

module _ (e : DataMessage) (size : ℕ) (forced : Bool) (step : ℕ) (receipt : Option ℕ) (limit : ℕ)
    (b : AckBuffer) where
  -- The admitted message stands behind the others, under the next number.
  pub pending-append :
      IsValid b
      → b.next_index_free < length b.buff
      → pending (append e size forced step receipt limit b)
        ≡ pending b ++ some (stamped e size forced step b) ∷ []
  unfolding append
  pending-append v h =
      let f : add64 b.next_index_free 1 ≡ suc b.next_index_free = omega (arith, v.fits, v.small) in
      rw f (take-set_end b.buff b.next_index_free _ h)

  pending-append-Numbered :
      IsValid b
      → b.next_index_free < length b.buff
      → Numbered b.first_seq_num (pending (append e size forced step receipt limit b))
  pending-append-Numbered v h = rw (pending-append v h) (
      append-Numbered b.first_seq_num (pending b) (stamped e size forced step b) v.first v.numbered
        (omega (arith, v.next, v.fits, length-take b.next_index_free b.buff)))

  pub append-IsValid :
      IsValid b → b.is_available.v ≡ true → IsValid (append e size forced step receipt limit b)
  unfolding append track set_event clear_event
  append-IsValid v h =
      let lt : b.next_index_free < b.current_capacity = ground (arith, v.room, h) in
      ground (
        arith,
        length-set b.buff b.next_index_free (some (stamped e size forced step b)),
        pending-append-Numbered v (omega (arith, v.capacity)),
      )

-- The byte limits touch the budget and the escape record only.
abbrev pub Gated : AckBuffer → AckBuffer → Type 0
Gated b b' =
    b' ≡ record b { shared = b'.shared; escape_seq = b'.escape_seq; escape_bytes = b'.escape_bytes }

shared_gate-Gated :
    (size : ℕ) (waiter : Option ℕ) (forced : Bool) (step : ℕ) (b : AckBuffer)
    → Gated b (shared_gate size waiter forced step b).1
unfolding shared_gate
shared_gate-Gated size waiter forced step b = ground arith

pub byte_gate-Gated :
    (size : ℕ) (waiter : Option ℕ) (b : AckBuffer) → Gated b (byte_gate size waiter b).1
unfolding byte_gate
byte_gate-Gated size waiter b = grind (arith, shared_gate-Gated)

pub Gated-IsValid : (b b' : AckBuffer) → Gated b b' → IsValid b → IsValid b'
Gated-IsValid b b' g v = Framed-IsValid b b' (ground arith) v

module _ (e : DataMessage) (size : ℕ) (waiter receipt : Option ℕ) (limit : ℕ) (b : AckBuffer) where
  pub try_add_closed :
      b.is_available.v ≡ false
      → try_add e size waiter receipt limit b
        ≡ ((false, none), record b { shared = cancel waiter b.shared })
  unfolding try_add
  try_add_closed h = ground arith

  -- With room in the window the gate decides.
  try_add-wait :
      (w : Option ℕ) (b' : AckBuffer)
      → b.is_available.v ≡ true
      → byte_gate size waiter b ≡ (wait w, b')
      → try_add e size waiter receipt limit b ≡ ((false, w), b')
  unfolding try_add
  try_add-wait w b' h g = ground arith

  try_add_admit :
      (forced : Bool) (step : ℕ) (b' : AckBuffer)
      → b.is_available.v ≡ true
      → byte_gate size waiter b ≡ (admit forced step, b')
      → try_add e size waiter receipt limit b
        ≡ ((true, none), append e size forced step receipt limit b')
  unfolding try_add
  try_add_admit forced step b' h g = ground arith

  -- The three outcomes of an attempt.
  pub try_add_cases {ℓ} :
      (P : (Bool × Option ℕ) × AckBuffer → Type ℓ)
      → (b.is_available.v ≡ false → P ((false, none), record b { shared = cancel waiter b.shared }))
      → ((w : Option ℕ) (b' : AckBuffer)
          → b.is_available.v ≡ true
          → byte_gate size waiter b ≡ (wait w, b')
          → Gated b b'
          → P ((false, w), b'))
      → ((forced : Bool) (step : ℕ) (b' : AckBuffer)
          → b.is_available.v ≡ true
          → byte_gate size waiter b ≡ (admit forced step, b')
          → Gated b b'
          → P ((true, none), append e size forced step receipt limit b'))
      → P (try_add e size waiter receipt limit b)
  try_add_cases P full blocked admitted = elim (Bool-cases b.is_available.v) [
    | inr h ↦ rw (try_add_closed h) (full h)
    | inl h ↦ go h (byte_gate size waiter b) refl (byte_gate-Gated size waiter b)
  ]
    where
      go :
          b.is_available.v ≡ true
          → (r : Gate × AckBuffer) → byte_gate size waiter b ≡ r
          → Gated b (byte_gate size waiter b).1
          → P (try_add e size waiter receipt limit b)
      go h (wait w, b') g f =
          rw (try_add-wait w b' h g) (blocked w b' h g (let f' = f in rw g at f'))
      go h (admit forced step, b') g f =
          rw (try_add_admit forced step b' h g) (admitted forced step b' h g (rw g at f))

  -- An attempt to admit keeps the invariant, whether it admits, waits for room or waits for bytes.
  pub try_add-IsValid : IsValid b → IsValid (try_add e size waiter receipt limit b).1
  try_add-IsValid v =
      try_add_cases (λ r. IsValid r.1) (λ h. Gated-IsValid b _ refl v)
        (λ w b' h g f. Gated-IsValid b b' f v)
        (λ forced step b' h g f.
          append-IsValid e size forced step receipt limit b' (Gated-IsValid b b' f v)
            (ap (λ (x : AckBuffer). x.is_available.v) f ∙ h))
