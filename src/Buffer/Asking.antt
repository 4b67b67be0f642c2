-- ===== src/Buffer/Asking.antt =====
-- The slot that `lastFlaggedSeq` names asks for an ACK: what the operations do to it.
use go_uspclient.Base.{
  ℕ, zero, suc, ◌<◌, ◌≡◌, ◌≢◌, ◌⊎◌, refl, sym, ◌∙◌, Bool, true, false, List, [], ◌∷◌, Option, none,
  some, arith, take, set, drop, sub64, inl, inr, Option-cases,
}
use go_uspclient.Protocol.Messages.{DataMessage, with_seq_num}
use go_uspclient.Buffer.State.{AckBuffer, TrackedAdmission, pending, signal_locked}
use go_uspclient.Buffer.Retire.{
  remove_prefix_locked, ack_receipts_locked, drop_receipts_locked, release_retired_head_locked,
  retire_locked, free_slot_bytes, update_availability, adjust_delivery,
}
use go_uspclient.Buffer.Deliver.{ack, ack_check, ack_prefix}
use go_uspclient.Buffer.Valid.{IsValidIf, Framed-IsValid}
use go_uspclient.Buffer.Valid.Removing.{
  move_slots-Moved, pending-remove_prefix, remove_prefix-IsValid,
}
use go_uspclient.Buffer.Valid.Acking.{
  Tracked-IsValid, drop_receipts-Tracked, release_retired_head_cases, ack_accepts, ack_refuses,
  ack_check-lt,
}
use go_uspclient.Buffer.Valid.Retiring.{IsSound}

-- A slot with the number `last`, unless that is 0, asks for an ACK.
abbrev pub Asks : ℕ → Option DataMessage → Type 0
Asks last none = Unit
Asks last (some m) = (last ≡ 0) ⊎ (m.seq_num ≢ last) ⊎ (m.ack_requested ≡ true)

abbrev pub AllAsk : ℕ → List (Option DataMessage) → Type 0
AllAsk last [] = Unit
AllAsk last (x ∷ xs) = Asks last x × AllAsk last xs

drop-AllAsk :
    (last n : ℕ) (xs : List (Option DataMessage)) → AllAsk last xs → AllAsk last (drop n xs)
drop-AllAsk last zero xs h = h
drop-AllAsk last (suc n) [] h = tt
drop-AllAsk last (suc n) (x ∷ xs) h = drop-AllAsk last n xs h.1

set-AllAsk :
    (last n i : ℕ) (x : Option DataMessage) (xs : List (Option DataMessage))
    → Asks last x
    → AllAsk last (take n xs)
    → AllAsk last (take n (set xs i x))
set-AllAsk last zero i x xs a h = tt
set-AllAsk last (suc n) i x [] a h = tt
set-AllAsk last (suc n) zero x (y ∷ xs) a h = (a, h.1)
set-AllAsk last (suc n) (suc i) x (y ∷ xs) a h = (h.0, set-AllAsk last n i x xs a h.1)

unset-AllAsk : (xs : List (Option DataMessage)) → AllAsk 0 xs
unset-AllAsk [] = tt
unset-AllAsk (none ∷ xs) = (tt, unset-AllAsk xs)
unset-AllAsk (some m ∷ xs) = (inl refl, unset-AllAsk xs)

-- No number is given, `lastFlaggedSeq` stays or is reset, and the slot that it names goes on asking.
pub record Stays (b b' : AckBuffer) : Type 0 where
  pub next : b'.next_seq_num ≡ b.next_seq_num
  pub last : (b'.last_flagged_seq ≡ b.last_flagged_seq) ⊎ (b'.last_flagged_seq ≡ 0)
  pub slots : AllAsk b.last_flagged_seq (pending b) → AllAsk b'.last_flagged_seq (pending b')

pub Stays-trans : (a b c : AckBuffer) → Stays a b → Stays b c → Stays a c
Stays-trans a b c f g = record {
  next = g.next ∙ f.next;
  last = ground (arith, f.last, g.last);
  slots = λ h. g.slots (f.slots h);
}

-- The fields that are read are the same.
abbrev pub Same : AckBuffer → AckBuffer → Type 0
Same b b' =
    (b'.next_seq_num ≡ b.next_seq_num)
    × (b'.last_flagged_seq ≡ b.last_flagged_seq)
    × (pending b' ≡ pending b)

pub Same-Stays : (b b' : AckBuffer) → Same b b' → Stays b b'
Same-Stays b b' s = record { next = s.0; last = inl s.1; slots = λ h. rw (s.1, s.2) h }

fields-remove_prefix :
    (k : ℕ) (b : AckBuffer)
    → ((remove_prefix_locked k b).next_seq_num ≡ b.next_seq_num)
      × ((remove_prefix_locked k b).last_flagged_seq ≡ b.last_flagged_seq)
unfolding remove_prefix_locked update_availability adjust_delivery signal_locked
fields-remove_prefix k b = ground (arith, move_slots-Moved k b)

remove_prefix-Stays :
    {a : Bool} (k : ℕ) (b : AckBuffer)
    → IsValidIf a b
    → k < b.next_index_free
    → Stays b (remove_prefix_locked k b)
remove_prefix-Stays k b v h =
    let f = fields-remove_prefix k b in
    record {
      next = f.0;
      last = inl f.1;
      slots = λ a. rw (f.1, pending-remove_prefix k b v h) (drop-AllAsk _ (suc k) (pending b) a);
    }

tracked-Stays :
    (first k : ℕ) (confirms : Bool) (b : AckBuffer)
    → Stays b (drop_receipts_locked first k confirms b)
tracked-Stays first k confirms b =
    Same-Stays b _ (ground (arith, drop_receipts-Tracked first k confirms b))

pub release_retired_head-Stays :
    {a : Bool} (b : AckBuffer) → IsValidIf a b → Stays b (release_retired_head_locked b)
release_retired_head-Stays b v =
    release_retired_head_cases (Stays b) b (Same-Stays b b (refl, refl, refl)) λ k ring _ h.
      let r = record b { released_retired = ring } in
      Stays-trans b r _ (Same-Stays b r (refl, refl, refl)) (
        Stays-trans r (remove_prefix_locked k r) _
          (remove_prefix-Stays k r (Framed-IsValid b r refl v) h)
          (tracked-Stays b.first_seq_num k false (remove_prefix_locked k r)))

pub ack-Stays : (seq : ℕ) (b : AckBuffer) → IsSound b → Stays b (ack seq b).1
unfolding ack_prefix ack_receipts_locked
ack-Stays seq b s = elim (Option-cases (ack_check seq b)) [
  | inr (r, e) ↦ rw (ack_refuses seq b r e) (Same-Stays b b (refl, refl, refl))
  | inl e ↦
      let k = sub64 seq b.first_seq_num in
      let h = ack_check-lt seq b e in
      let p = remove_prefix_locked k b in
      let d = drop_receipts_locked b.first_seq_num k true p in
      rw (ack_accepts seq b e) (
        Stays-trans b p _ (remove_prefix-Stays k b s.valid h) (
          Stays-trans p d _ (tracked-Stays b.first_seq_num k true p) (
            release_retired_head-Stays {a = true} d (
              Tracked-IsValid p d (drop_receipts-Tracked _ k true p)
                (remove_prefix-IsValid k b s.valid h)))))
]

-- `retireLocked` on the fields that are read.
retire_fields :
    (index : ℕ) (e : TrackedAdmission) (b : AckBuffer)
    → let b' = retire_locked index e b in
      (b'.next_seq_num ≡ b.next_seq_num)
      × (((b.last_flagged_seq ≢ e.seq) × (b'.last_flagged_seq ≡ b.last_flagged_seq))
          ⊎ (b'.last_flagged_seq ≡ 0))
      × (pending b' ≡ take b.next_index_free (set b.buff index (some (with_seq_num e.seq))))
unfolding retire_locked free_slot_bytes signal_locked
retire_fields index e b = ground arith

pub retire-Stays :
    (index : ℕ) (e : TrackedAdmission) (b : AckBuffer) → Stays b (retire_locked index e b)
retire-Stays index e b = go (retire_fields index e b)
  where
    go :
        let b' = retire_locked index e b in
        (b'.next_seq_num ≡ b.next_seq_num)
          × (((b.last_flagged_seq ≢ e.seq) × (b'.last_flagged_seq ≡ b.last_flagged_seq))
              ⊎ (b'.last_flagged_seq ≡ 0))
          × (pending b' ≡ take b.next_index_free (set b.buff index (some (with_seq_num e.seq))))
        → Stays b b'
    go (n, inl (d, l), p) = record {
      next = n;
      last = inl l;
      slots = λ h.
          rw (l, p)
            (set-AllAsk b.last_flagged_seq b.next_index_free index _ b.buff
              (inr (inl (λ q. d (sym q)))) h);
    }
    go (n, inr l, p) = record { next = n; last = inr l; slots = λ h. rw l (unset-AllAsk _) }
