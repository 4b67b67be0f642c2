-- ===== src/Buffer/Refining.antt =====
-- `AckBuffer` implements the append-only log of Buffer/Log.antt.
use go_uspclient.Base.{
  ℕ, zero, suc, ◌+◌, ◌-◌, ◌≤◌, ◌≡◌, refl, ap, ◌∙◌, Bool, true, false, Option, none, some, List, [],
  ◌∷◌, ◌++◌, arith, sub64, length, length-take, length-drop, length-append, drop, inl, inr,
  Option-cases,
}
use go_uspclient.Protocol.Messages.{DataMessage}
use go_uspclient.Budget.State.{ByteBudget}
use go_uspclient.Event.{new_event, set_event}
use go_uspclient.Buffer.State.{AckBuffer, pending, fresh_buffer, signal_locked, sample_wake}
use go_uspclient.Buffer.Admit.{try_add}
use go_uspclient.Buffer.Deliver.{AckError, ack, ack_check}
use go_uspclient.Buffer.Control.{
  close, release_all_locked, begin_drain, drain_round, update_capacity,
}
use go_uspclient.Buffer.Retire.{shrink_backing_locked, update_availability}
use go_uspclient.Buffer.Valid.Retiring.{IsSound}
use go_uspclient.Buffer.Valid.Acking.{ack_accepts, ack_refuses}
use go_uspclient.Buffer.Valid.Controlling.{pending-update_capacity}
use go_uspclient.Buffer.Admission.{TookIn, try_add-TookIn}
use go_uspclient.Buffer.Run.{
  Op, adds, acks, delivers, resets, resizes, drains, polls_drain, closes, step, run, AllFit, Fits,
  step-IsSound, try_add-IsSound, fresh_buffer-IsSound,
}
use go_uspclient.Buffer.Cut.{
  Worn, Worn-refl, Worn-trans, Worn-drop, length-Worn, drop-drop, Cut, ack-Cut,
}
use go_uspclient.Buffer.Cutting.{get_next_to_deliver-Cut, reset_delivery-Cut}
use go_uspclient.Buffer.Log.{
  Log, empty_log, number, answer, answers, Appended, Released, LogStep, LogRun, Shows,
}

Worn-append : (xs ys zs : List (Option DataMessage)) → Worn xs ys → Worn (xs ++ zs) (ys ++ zs)
Worn-append [] [] zs h = Worn-refl zs
Worn-append [] (y ∷ ys) zs h = absurd h
Worn-append (x ∷ xs) [] zs h = absurd h
Worn-append (x ∷ xs) (y ∷ ys) zs h = (h.0, Worn-append xs ys zs h.1)

drop-append :
    (n : ℕ) (xs ys : List (Option DataMessage))
    → n ≤ length xs
    → drop n (xs ++ ys) ≡ drop n xs ++ ys
drop-append zero xs ys h = refl
drop-append (suc n) [] ys h = absurd (omega (arith, h))
drop-append (suc n) (x ∷ xs) ys h = drop-append n xs ys (omega (arith, h))

length-pending : (b : AckBuffer) → IsSound b → length (pending b) ≡ b.next_index_free
length-pending b v = omega (arith, v.valid.fits, length-take b.next_index_free b.buff)

-- How many entries are not released.
length-Shows :
    (l : Log) (b : AckBuffer) → Shows l b → length (pending b) ≡ length l.entries - l.released
length-Shows l b s = length-Worn _ _ s.slots ∙ length-drop l.released l.entries

next-Shows :
    (l : Log) (b : AckBuffer) → IsSound b → Shows l b → b.next_seq_num ≡ number (length l.entries)
next-Shows l b v s =
    omega (arith, v.valid.next, s.first, s.within, length-Shows l b s, length-pending b v)

-- Only the window and its number are read.
same-Shows :
    (l : Log) (b b' : AckBuffer)
    → b'.first_seq_num ≡ b.first_seq_num
    → pending b' ≡ pending b
    → Shows l b
    → Shows l b'
same-Shows l b b' f p s = record { within = s.within; first = f ∙ s.first; slots = rw p s.slots }

abbrev releasing : ℕ → Log → Log
releasing n l = record l { released = l.released + n }

Cut-Shows :
    {n : ℕ} (l : Log) (b b' : AckBuffer)
    → Shows l b
    → (c : Cut n b b') → Released l (releasing c.gone l) × Shows (releasing c.gone l) b'
Cut-Shows l b b' s c =
    let within : l.released + c.gone ≤ length l.entries =
      omega (arith, c.within, length-Shows l b s, s.within) in
    (
      (refl, omega arith, within),
      record {
        within = within;
        first = omega (arith, c.first, s.first);
        slots = rw (← (drop-drop l.released c.gone l.entries)) (
            Worn-trans _ (drop c.gone (pending b)) (pending b') (Worn-drop c.gone _ _ s.slots)
              c.left);
      },
    )

module _ (e : DataMessage) (l : Log) (b b' : AckBuffer) where
  -- The message goes under the number of its position.
  TookIn-Shows :
      IsSound b
      → IsSound b'
      → Shows l b
      → TookIn e b b'
      → (l' : Log) × Appended e l l' × Shows l' b'
  TookIn-Shows v v' s (lt, next, (asks, asked, p)) =
      let n = next-Shows l b v s in
      let x = some (record e { seq_num = number (length l.entries); ack_requested = asks }) in
      let p' : pending b' ≡ pending b ++ x ∷ [] = rw n at p in
      let grown : length (pending b') ≡ suc (length (pending b)) =
        ap length p' ∙ length-append (pending b) (x ∷ []) ∙ omega arith in
      let longer : length (l.entries ++ x ∷ []) ≡ suc (length l.entries) =
        length-append l.entries (x ∷ []) ∙ omega arith in
      (
        record l { entries = l.entries ++ x ∷ [] },
        (asks, ground (arith, asked), refl),
        record {
          within = omega (arith, s.within, longer);
          first = omega (
            arith,
            s.first,
            v.valid.first,
            v'.valid.first,
            v.valid.next,
            v'.valid.next,
            next,
            grown,
            length-pending b v,
            length-pending b' v',
            v.valid.fits,
            v.valid.small,
          );
          slots =
              rw (p', drop-append l.released l.entries (x ∷ []) s.within)
                (Worn-append (drop l.released l.entries) (pending b) (x ∷ []) s.slots);
        },
      )

-- The state and the answer of the log's step that matches the buffer's.
abbrev Matches : Op → Log → AckBuffer → Type 0
Matches o l b = (l' : Log) × LogStep o (answer o b) l l' × Shows l' (step o b)

-- Operations that touch neither the window nor its number.
kept-fields :
    (b : AckBuffer) (capacity : ℕ) (done : Bool)
    → (((close b).first_seq_num ≡ b.first_seq_num) × (pending (close b) ≡ pending b))
      × (((begin_drain b).first_seq_num ≡ b.first_seq_num) × (pending (begin_drain b) ≡ pending b))
      × (((drain_round done b).1.first_seq_num ≡ b.first_seq_num)
          × (pending (drain_round done b).1 ≡ pending b))
      × ((update_capacity capacity b).first_seq_num ≡ b.first_seq_num)
unfolding close begin_drain drain_round release_all_locked signal_locked sample_wake update_capacity
    update_availability shrink_backing_locked
kept-fields b capacity done = ground arith

module _ (l : Log) (b : AckBuffer) (v : IsSound b) (s : Shows l b) where
  adds-Matches :
      (e : DataMessage) (size : ℕ) (waiter receipt : Option ℕ) (limit : ℕ)
      → Matches (adds e size waiter receipt limit) l b
  unfolding step
  adds-Matches e size waiter receipt limit =
      elim (try_add-TookIn e size receipt limit b waiter v.valid) [
        | inl (a, t) ↦
            let (l', p, q) =
              TookIn-Shows e l b _ v (try_add-IsSound e size waiter receipt limit b v) s t in
            (l', rw a p, q)
        | inr (a, p, n) ↦
            let v' = try_add-IsSound e size waiter receipt limit b v in
            let f : (try_add e size waiter receipt limit b).1.first_seq_num ≡ b.first_seq_num =
              omega (
                arith,
                v.valid.first,
                v'.valid.first,
                v.valid.next,
                v'.valid.next,
                n,
                ap length p,
                length-pending b v,
                length-pending _ v',
                v.valid.fits,
                v.valid.small,
              ) in
            (l, rw a refl, same-Shows l b _ f p s)
      ]

  -- An accepted number names an entry that was not released.
  acks-Matches : (seq : ℕ) → Matches (acks seq) l b
  unfolding step
  acks-Matches seq = elim (Option-cases (ack_check seq b)) [
    | inl e ↦
        let c = ack-Cut seq b v e in
        let a : answer (acks seq) b ≡ true = rw (ack_accepts seq b e) refl in
        let (r, q) = Cut-Shows l b _ s c in
        (
          releasing c.gone l,
          rw a (
              inr (
                r,
                (
                  l.released + sub64 seq b.first_seq_num,
                  omega arith,
                  omega (arith, c.least),
                  omega (arith, s.first, v.valid.first),
                ),
              )),
          q,
        )
    | inr (r, e) ↦ (
      l,
      unaccepted r e,
      same-Shows l b (ack seq b).1 (rw (ack_refuses seq b r e) refl)
          (rw (ack_refuses seq b r e) refl) s,
    )
  ]
    where
      unaccepted :
          (r : Option AckError)
          → ack_check seq b ≡ some r
          → LogStep (acks seq) (answer (acks seq) b) l l
      unaccepted none e = rw (ack_refuses seq b none e) (inl refl)
      unaccepted (some r) e = rw (ack_refuses seq b (some r) e) refl

  cuts-Matches : (b' : AckBuffer) → Cut 0 b b' → (l' : Log) × Released l l' × Shows l' b'
  cuts-Matches b' c = let (r, q) = Cut-Shows l b b' s c in (releasing c.gone l, r, q)

  keeps-Matches :
      (b' : AckBuffer)
      → (b'.first_seq_num ≡ b.first_seq_num) × (pending b' ≡ pending b)
      → (l' : Log) × (l' ≡ l) × Shows l' b'
  keeps-Matches b' (f, p) = (l, refl, same-Shows l b b' f p s)

  step-Matches : (o : Op) → Fits o → Matches o l b
  unfolding step
  step-Matches (adds e size waiter receipt limit) f = adds-Matches e size waiter receipt limit
  step-Matches (acks seq) f = acks-Matches seq
  step-Matches delivers f = cuts-Matches _ (get_next_to_deliver-Cut b v)
  step-Matches resets f = cuts-Matches _ (reset_delivery-Cut b v)
  step-Matches (resizes capacity) f =
      keeps-Matches _ ((kept-fields b capacity false).3, pending-update_capacity capacity b v.valid)
  step-Matches drains f = keeps-Matches _ (kept-fields b 0 false).1
  step-Matches (polls_drain done) f = keeps-Matches _ (kept-fields b 0 done).2
  step-Matches closes f = keeps-Matches _ (kept-fields b 0 false).0

run-Shows :
    (os : List Op) (l : Log) (b : AckBuffer)
    → AllFit os
    → IsSound b
    → Shows l b
    → (l' : Log) × LogRun os (answers os b) l l' × Shows l' (run os b)
unfolding run
run-Shows [] l b f v s = (l, refl, s)
run-Shows (o ∷ os) l b f v s =
    let (m, p, q) = step-Matches l b v s o f.0 in
    let (l', ps, q') = run-Shows os m (step o b) f.1 (step-IsSound o b f.0 v) q in
    (l', (m, p, ps), q')

fresh_buffer-Shows :
    (max_bytes : ℕ) (shared : Option ByteBudget) (group : Option ℕ)
    → Shows empty_log (fresh_buffer max_bytes shared group)
unfolding fresh_buffer new_event set_event
fresh_buffer-Shows max_bytes shared group = record {
  within = omega arith;
  first = refl;
  slots = tt;
}

-- The buffer implements an append-only log. For every sequence of operations on a new buffer, whose
-- windows are slice lengths, and the answers they give, some run of the log answers the same: `Add`
-- returns true exactly when it appends its message, numbered by its place in the log (modulo 2 ^ 64)
-- and with its ACK flag kept or added; `Ack` returns an error only when nothing is released, and
-- otherwise releases nothing or every entry up to one of the number it is given, which was not
-- released before; delivery and `ResetDelivery` release entries or none; and no other operation
-- changes the log. At the end the window holds exactly the entries not released, in order, each as
-- it was taken in or replaced by a placeholder, and `firstSeqNum` is the number of the first.
pub run-fresh-Shows :
    (os : List Op) (max_bytes : ℕ) (shared : Option ByteBudget) (group : Option ℕ)
    → AllFit os
    → let b = fresh_buffer max_bytes shared group in
      (l : Log) × LogRun os (answers os b) empty_log l × Shows l (run os b)
run-fresh-Shows os max_bytes shared group f =
    run-Shows os empty_log _ f (fresh_buffer-IsSound max_bytes shared group)
      (fresh_buffer-Shows max_bytes shared group)
