-- ===== src/Buffer/Admission.antt =====
-- What an attempt of `Add` does to the window.
use go_uspclient.Base.{
  ℕ, ◌%◌, ◌<◌, ◌≡◌, ◌⊎◌, refl, Bool, true, false, [], ◌∷◌, ◌++◌, Option, some, arith, add64, ◌||◌,
  not, ◌&&◌, ◌==◌, inl, inr,
}
use go_uspclient.Protocol.Messages.{DataMessage}
use go_uspclient.Budget.State.{ByteBudget}
use go_uspclient.Buffer.State.{AckBuffer, pending}
use go_uspclient.Buffer.Admit.{must_flag, append, try_add}
use go_uspclient.Buffer.Valid.{IsValid}
use go_uspclient.Buffer.Valid.Admitting.{Gated-IsValid, try_add_cases, pending-append}

-- The window took the message in: at its end, under the next number, and with the ACK flag where
-- the message or its place in the cadence asks for it.
abbrev pub TookIn : DataMessage → AckBuffer → AckBuffer → Type 0
TookIn e b b' =
    (b.next_index_free < b.current_capacity)
    × (b'.next_seq_num ≡ add64 b.next_seq_num 1)
    × ((asks : Bool) × (((e.ack_requested || b.next_seq_num % b.ack_every == 0) && not asks)
          ≡ false)
        × (pending b'
            ≡ pending b ++ some (record e { seq_num = b.next_seq_num; ack_requested = asks }) ∷ []))

module _ (e : DataMessage) (size : ℕ) (receipt : Option ℕ) (limit : ℕ) (b : AckBuffer) where
  append-TookIn :
      (forced : Bool) (step : ℕ) (s : Option ByteBudget) (at bytes : ℕ)
      → IsValid b
      → b.is_available.v ≡ true
      → TookIn e b (
          append e size forced step receipt limit
            (record b { shared = s; escape_seq = at; escape_bytes = bytes }))
  append-TookIn forced step s at bytes v h =
      let lt : b.next_index_free < b.current_capacity = ground (arith, v.room, h) in
      (
        lt,
        unfold append in refl,
        (
          must_flag e size forced step b,
          ground arith,
          pending-append e size forced step receipt limit _ (Gated-IsValid b _ refl v)
              (omega (arith, lt, v.capacity)),
        ),
      )

  -- An attempt either takes the message in, while the window has room, or leaves the window and the
  -- numbering as they are.
  pub try_add-TookIn :
      (waiter : Option ℕ)
      → IsValid b
      → let (r, b') = try_add e size waiter receipt limit b in
        ((r.0 ≡ true) × TookIn e b b')
        ⊎ ((r.0 ≡ false) × (pending b' ≡ pending b) × (b'.next_seq_num ≡ b.next_seq_num))
  try_add-TookIn waiter v =
      try_add_cases e size waiter receipt limit b
        (λ r.
          ((r.0.0 ≡ true) × TookIn e b r.1)
          ⊎ ((r.0.0 ≡ false) × (pending r.1 ≡ pending b) × (r.1.next_seq_num ≡ b.next_seq_num)))
        (λ _. inr (refl, refl, refl)) (λ w b' _ _ g. inr (refl, rw g refl, rw g refl))
        (λ forced step b' h _ g. inl (refl, rw g (append-TookIn forced step _ _ _ v h)))
