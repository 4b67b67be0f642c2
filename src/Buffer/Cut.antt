-- ===== src/Buffer/Cut.antt =====
-- What removes or empties slots: a buffer whose slots are those behind a prefix of the former ones,
-- some of them replaced by placeholders.
use go_uspclient.Base.{
  ℕ, zero, suc, ◌+◌, ◌≤◌, ◌<◌, ◌≡◌, ◌⊎◌, refl, ap, ◌∙◌, Bool, true, false, Option, none, some, List,
  [], ◌∷◌, arith, add64, word, length, length-take, length-drop, drop_all, take, drop, set, inl,
  inr, sub64,
}
use go_uspclient.Protocol.Messages.{DataMessage, with_seq_num}
use go_uspclient.Buffer.State.{TrackedAdmission, AckBuffer, pending, signal_locked}
use go_uspclient.Buffer.Retire.{
  remove_prefix_locked, drop_receipts_locked, ack_receipts_locked, release_retired_head_locked,
  retire_locked, free_slot_bytes,
}
use go_uspclient.Buffer.Deliver.{ack, ack_check, ack_prefix}
use go_uspclient.Buffer.Valid.{IsValidIf, Framed-IsValid}
use go_uspclient.Buffer.Valid.Removing.{
  remove_prefix-IsValid, pending-remove_prefix, first-remove_prefix,
}
use go_uspclient.Buffer.Valid.Retiring.{IsSound}
use go_uspclient.Buffer.Valid.Acking.{
  Tracked-IsValid, drop_receipts-Tracked, release_retired_head_cases, ack_accepts, ack_check-lt,
}

abbrev pub IsPlaceholder : Option DataMessage → Type 0
IsPlaceholder m = (n : ℕ) × (m ≡ some (with_seq_num n))

-- Slot for slot the same, or a placeholder.
abbrev pub Worn : List (Option DataMessage) → List (Option DataMessage) → Type 0
Worn [] [] = Unit
Worn [] (y ∷ ys) = ⊥
Worn (x ∷ xs) [] = ⊥
Worn (x ∷ xs) (y ∷ ys) = ((y ≡ x) ⊎ IsPlaceholder y) × Worn xs ys

pub Worn-refl : (xs : List (Option DataMessage)) → Worn xs xs
Worn-refl [] = tt
Worn-refl (x ∷ xs) = (inl refl, Worn-refl xs)

pub Worn-trans : (xs ys zs : List (Option DataMessage)) → Worn xs ys → Worn ys zs → Worn xs zs
Worn-trans [] [] zs h k = k
Worn-trans [] (y ∷ ys) zs h k = absurd h
Worn-trans (x ∷ xs) [] zs h k = absurd h
Worn-trans (x ∷ xs) (y ∷ ys) [] h k = absurd k
Worn-trans (x ∷ xs) (y ∷ ys) (z ∷ zs) h k = (one h.0 k.0, Worn-trans xs ys zs h.1 k.1)
  where
    one : (y ≡ x) ⊎ IsPlaceholder y → (z ≡ y) ⊎ IsPlaceholder z → (z ≡ x) ⊎ IsPlaceholder z
    one p (inr q) = inr q
    one (inl p) (inl q) = inl (q ∙ p)
    one (inr (n, p)) (inl q) = inr (n, q ∙ p)

pub Worn-drop :
    (k : ℕ) (xs ys : List (Option DataMessage)) → Worn xs ys → Worn (drop k xs) (drop k ys)
Worn-drop zero xs ys h = h
Worn-drop (suc k) [] [] h = tt
Worn-drop (suc k) [] (y ∷ ys) h = absurd h
Worn-drop (suc k) (x ∷ xs) [] h = absurd h
Worn-drop (suc k) (x ∷ xs) (y ∷ ys) h = Worn-drop k xs ys h.1

pub length-Worn : (xs ys : List (Option DataMessage)) → Worn xs ys → length ys ≡ length xs
length-Worn [] [] h = refl
length-Worn [] (y ∷ ys) h = absurd h
length-Worn (x ∷ xs) [] h = absurd h
length-Worn (x ∷ xs) (y ∷ ys) h = ap suc (length-Worn xs ys h.1)

-- A placeholder written anywhere.
take-set-Worn :
    (xs : List (Option DataMessage)) (n i m : ℕ)
    → Worn (take n xs) (take n (set xs i (some (with_seq_num m))))
take-set-Worn xs zero i m = tt
take-set-Worn [] (suc n) i m = tt
take-set-Worn (x ∷ xs) (suc n) zero m = (inr (m, refl), Worn-refl (take n xs))
take-set-Worn (x ∷ xs) (suc n) (suc i) m = (inl refl, take-set-Worn xs n i m)

pub drop-drop : (j k : ℕ) (xs : List (Option DataMessage)) → drop k (drop j xs) ≡ drop (j + k) xs
drop-drop zero k xs = let e : 0 + k ≡ k = omega arith in rw e refl
drop-drop (suc j) k [] =
    let e : suc j + k ≡ suc (j + k) = omega arith in rw e (drop_all k [] (omega arith))
drop-drop (suc j) k (x ∷ xs) =
    let e : suc j + k ≡ suc (j + k) = omega arith in rw e (drop-drop j k xs)

-- `b'` is `b` without its first slots, at least so many, and with more placeholders.
pub record Cut (at_least : ℕ) (b b' : AckBuffer) : Type 0 where
  pub gone : ℕ
  pub least : at_least ≤ gone
  pub within : gone ≤ length (pending b)
  pub first : b'.first_seq_num ≡ add64 b.first_seq_num gone
  pub left : Worn (drop gone (pending b)) (pending b')

pub same-Cut :
    (b b' : AckBuffer)
    → b.first_seq_num < word
    → b'.first_seq_num ≡ b.first_seq_num
    → pending b' ≡ pending b
    → Cut 0 b b'
same-Cut b b' w f p = record {
  gone = 0;
  least = omega arith;
  within = omega arith;
  first = omega (arith, f, w);
  left = rw p (Worn-refl (pending b));
}

pub Cut-trans : {n m : ℕ} (a b c : AckBuffer) → Cut n a b → Cut m b c → Cut n a c
Cut-trans a b c h k = record {
  gone = h.gone + k.gone;
  least = omega (arith, h.least);
  within =
      omega (arith, h.within, k.within, length-Worn _ _ h.left, length-drop h.gone (pending a));
  first = omega (arith, h.first, k.first);
  left = rw (← (drop-drop h.gone k.gone (pending a))) (
      Worn-trans (drop k.gone (drop h.gone (pending a))) (drop k.gone (pending b)) (pending c)
        (Worn-drop k.gone _ _ h.left) k.left);
}

remove_prefix-Cut :
    {a : Bool} (k : ℕ) (b : AckBuffer)
    → IsValidIf a b
    → k < b.next_index_free
    → Cut (suc k) b (remove_prefix_locked k b)
remove_prefix-Cut k b v h = record {
  gone = suc k;
  least = omega arith;
  within = omega (arith, h, v.fits, length-take b.next_index_free b.buff);
  first = first-remove_prefix k b v h;
  left = rw (pending-remove_prefix k b v h) (Worn-refl (drop (suc k) (pending b)));
}

drop_receipts-Cut :
    {n : ℕ} (first k : ℕ) (confirms : Bool) (b b' : AckBuffer)
    → Cut n b b'
    → Cut n b (drop_receipts_locked first k confirms b')
drop_receipts-Cut first k confirms b b' c =
    rw (drop_receipts-Tracked first k confirms b')
      (record { gone = c.gone; least = c.least; within = c.within; first = c.first; left = c.left })

pub release_retired_head-Cut :
    {a : Bool} (b : AckBuffer) → IsValidIf a b → Cut 0 b (release_retired_head_locked b)
release_retired_head-Cut b v =
    release_retired_head_cases (Cut 0 b) b (same-Cut b b v.first refl refl) λ k ring _ h.
      drop_receipts-Cut _ k false b _ (
        Cut-trans b (record b { released_retired = ring }) _ (same-Cut b _ v.first refl refl)
          (remove_prefix-Cut k (record b { released_retired = ring }) (Framed-IsValid b _ refl v)
            h))

-- An accepted acknowledgement removes every slot up to the one it names.
pub ack-Cut :
    (seq : ℕ) (b : AckBuffer)
    → IsSound b
    → ack_check seq b ≡ none
    → Cut (suc (sub64 seq b.first_seq_num)) b (ack seq b).1
unfolding ack_prefix ack_receipts_locked
ack-Cut seq b s e =
    let k = sub64 seq b.first_seq_num in
    let lt = ack_check-lt seq b e in
    let gone = drop_receipts_locked b.first_seq_num k true (remove_prefix_locked k b) in
    rw (ack_accepts seq b e) (
      Cut-trans b gone _
        (drop_receipts-Cut b.first_seq_num k true b _ (remove_prefix-Cut k b s.valid lt))
        (release_retired_head-Cut gone (
          Tracked-IsValid _ _ (drop_receipts-Tracked _ k true _)
            (remove_prefix-IsValid k b s.valid lt))))

pub retire-pending :
    (index : ℕ) (e : TrackedAdmission) (b : AckBuffer)
    → ((retire_locked index e b).first_seq_num ≡ b.first_seq_num)
      × (pending (retire_locked index e b)
          ≡ take b.next_index_free (set b.buff index (some (with_seq_num e.seq))))
unfolding retire_locked free_slot_bytes signal_locked
retire-pending index e b = ground arith

pub retire-Cut :
    (index : ℕ) (e : TrackedAdmission) (b : AckBuffer)
    → b.first_seq_num < word
    → Cut 0 b (retire_locked index e b)
retire-Cut index e b w =
    let p = retire-pending index e b in
    record {
      gone = 0;
      least = omega arith;
      within = omega arith;
      first = omega (arith, p.0, w);
      left = rw p.1 (take-set-Worn b.buff b.next_index_free index e.seq);
    }
