-- ===== src/Buffer/Acks.antt =====
-- What `Ack` accepts and what it removes.
use go_uspclient.Base.{
  ℕ, suc, ◌+◌, ◌≤◌, ◌<◌, ◌≡◌, ◌⊎◌, refl, ap, ◌∙◌, sym, ◌↔◌, true, Option, none, some, arith, length,
  [], add64, sub64, word, max_word, drop, leb, take, contains, Option-cases, inl, inr,
}
use go_uspclient.Buffer.State.{ReleasedRetiredRing, ring_has, AckBuffer, pending, signal_locked}
use go_uspclient.Buffer.Retire.{
  remove_prefix_locked, ack_receipts_locked, purge_retired, drop_receipts_locked,
  release_retired_head_locked, update_availability, adjust_delivery,
}
use go_uspclient.Buffer.Deliver.{AckError, unexpected, ack_check, ack_prefix, ack}
use go_uspclient.Buffer.Valid.{IsValid}
use go_uspclient.Buffer.Valid.Removing.{
  move_slots-Moved, pending-remove_prefix, first-remove_prefix,
}
use go_uspclient.Buffer.Valid.Acking.{
  Tracked, drop_receipts-Tracked, Ackable, ack_check-Ackable, Ackable-ack_check, ack_accepts,
  ack_refuses, ack_check-lt,
}

-- Exactly which numbers `Ack` accepts as the end of a prefix, in a valid buffer whose window does
-- not reach the end of the 64-bit range: those of slots that have been handed out, and, when
-- nothing has been since a reset, that of the first slot.
pub ack_check-iff-Ackable :
    (seq : ℕ) (b : AckBuffer)
    → IsValid b
    → seq < word
    → b.first_seq_num + length b.buff < max_word
    → (ack_check seq b ≡ none) ↔ Ackable seq b
ack_check-iff-Ackable seq b v s n = (ack_check-Ackable seq b v s n, Ackable-ack_check seq b v s n)

retired-remove_prefix :
    (k : ℕ) (b : AckBuffer) → b.retired ≡ [] → (remove_prefix_locked k b).retired ≡ []
unfolding remove_prefix_locked purge_retired update_availability adjust_delivery signal_locked
retired-remove_prefix k b h = ground (arith, move_slots-Moved k b)

no_retired_head : (b : AckBuffer) → b.retired ≡ [] → release_retired_head_locked b ≡ b
unfolding release_retired_head_locked
no_retired_head b h = ground arith

-- With no retired slot in the buffer the accepted part only adds the receipts.
ack_prefix-Tracked :
    (k : ℕ) (b : AckBuffer) → b.retired ≡ [] → Tracked (remove_prefix_locked k b) (ack_prefix k b)
unfolding ack_prefix ack_receipts_locked
ack_prefix-Tracked k b h =
    rw
      (no_retired_head (drop_receipts_locked b.first_seq_num k true (remove_prefix_locked k b))
        gone)
      (drop_receipts-Tracked _ k true _)
  where
    gone : (drop_receipts_locked b.first_seq_num k true (remove_prefix_locked k b)).retired ≡ []
    gone =
        ap (λ (x : AckBuffer). x.retired)
          (drop_receipts-Tracked b.first_seq_num k true (remove_prefix_locked k b))
        ∙ retired-remove_prefix k b h

next-remove_prefix :
    (k : ℕ) (b : AckBuffer) → (remove_prefix_locked k b).next_seq_num ≡ b.next_seq_num
unfolding remove_prefix_locked update_availability adjust_delivery signal_locked
next-remove_prefix k b = ground (arith, move_slots-Moved k b)

-- The accepted part in terms of the slots.
ack_prefix_removes :
    (k : ℕ) (b : AckBuffer)
    → IsValid b
    → k < b.next_index_free
    → b.retired ≡ []
    → (pending (ack_prefix k b) ≡ drop (suc k) (pending b))
      × ((ack_prefix k b).first_seq_num ≡ add64 b.first_seq_num (suc k))
      × ((ack_prefix k b).next_seq_num ≡ b.next_seq_num)
ack_prefix_removes k b v h r =
    rw (ack_prefix-Tracked k b r)
      (pending-remove_prefix k b v h, first-remove_prefix k b v h, next-remove_prefix k b)

-- In a valid buffer with no retired slot, an accepted ACK answers with no error, removes exactly
-- the slots up to and with its number, and makes the next number the first one.
pub ack_removes :
    (seq : ℕ) (b : AckBuffer)
    → IsValid b
    → seq < word
    → b.retired ≡ []
    → ack_check seq b ≡ none
    → let (e, b') = ack seq b in
      (e ≡ none)
      × (pending b' ≡ drop (suc (sub64 seq b.first_seq_num)) (pending b))
      × (b'.first_seq_num ≡ add64 seq 1)
      × (b'.next_seq_num ≡ b.next_seq_num)
ack_removes seq b v s r h =
    let p = ack_prefix_removes (sub64 seq b.first_seq_num) b v (ack_check-lt seq b h) r in
    rw (ack_accepts seq b h) (refl, p.0, omega (arith, p.1, v.first), p.2)

-- `seq` is one of the numbers kept of slots that were retired and removed.
abbrev pub Remembers : Option ReleasedRetiredRing → ℕ → Type 0
Remembers none seq = ⊥
Remembers (some r) seq = contains (take r.n r.seqs) seq ≡ true

-- An ACK for a slot that was retired and removed before, outside the window.
abbrev pub Late : ℕ → AckBuffer → Type 0
Late seq b =
    Remembers b.released_retired seq
    × ((seq < b.first_seq_num) ⊎ (b.first_seq_num + b.next_index_free ≤ seq))

module _ (seq : ℕ) (b : AckBuffer) (v : IsValid b) (s : seq < word)
    (n : b.first_seq_num + length b.buff < max_word) where
  outside_iff :
      (leb b.next_index_free (sub64 seq b.first_seq_num) ≡ true)
      ↔ ((seq < b.first_seq_num) ⊎ (b.first_seq_num + b.next_index_free ≤ seq))
  outside_iff = ground (arith, v.fits, v.first)

  Late-iff : (ack_check seq b ≡ some none) ↔ Late seq b
  unfolding ack_check ring_has
  Late-iff = elim (Option-cases b.released_retired) [
    | inl e ↦ rw e (ground arith)
    | inr (r, e) ↦ rw e (ground (arith, outside_iff))
  ]

  -- In a valid buffer whose window does not reach the end of the 64-bit range, a number that is not
  -- that of a delivered slot, nor, when nothing has been delivered since a reset, that of the first
  -- slot, changes nothing; `Ack` then returns no error exactly for the late ACK of a slot that was
  -- retired and removed, outside the window.
  pub ack_refused : ¬ Ackable seq b → ((ack seq b).1 ≡ b) × (((ack seq b).0 ≡ none) ↔ Late seq b)
  ack_refused h = elim (Option-cases (ack_check seq b)) [
    | inl e ↦ absurd (h (ack_check-Ackable seq b v s n e))
    | inr (r, e) ↦
        rw (ack_refuses seq b r e)
          (refl, ((λ q. Late-iff.0 (e ∙ ap some q)), λ l. some_injective (sym e ∙ Late-iff.1 l)))
  ]
    where
      some_injective :
          {x y : Option AckError} → ◌≡◌ {A = Option (Option AckError)} (some x) (some y) → x ≡ y
      some_injective q = cc

-- Where the window of a valid buffer has passed the end of the 64-bit range, and does not end
-- exactly there, `Ack` refuses the number of every slot in front of the last number of the range as
-- unexpected, also when the slot has been delivered; the buffer keeps it.
pub ack_refuses_across_wrap :
    (seq : ℕ) (b : AckBuffer)
    → IsValid b
    → word < b.first_seq_num + b.next_index_free
    → b.first_seq_num ≤ seq
    → seq < max_word
    → (sub64 seq b.first_seq_num < b.next_index_free) × (ack seq b ≡ (some (unexpected seq), b))
unfolding ack ack_check
ack_refuses_across_wrap seq b v w l m =
    (omega (arith, v.first), ground (arith, v.next, v.fits, v.small))
