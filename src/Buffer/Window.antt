-- ===== src/Buffer/Window.antt =====
-- The window of unacknowledged slots: consecutive numbers, and what moving the slots does to it.
use go_uspclient.Base.{
  ℕ, zero, suc, ◌+◌, ◌≤◌, ◌<◌, ◌≡◌, refl, ap, List, [], ◌∷◌, ◌++◌, Option, none, some, arith,
  length, take, drop, set, copy, fill, slice, replicate, length-take, length-drop, get_or,
  take-copy, length-replicate, take-fill, slice-eq-drop-take, add64, word,
}
use go_uspclient.Protocol.Messages.{DataMessage}

-- Each slot holds a message, and the numbers go up by one from `s`, modulo 2 ^ 64.
abbrev pub Numbered : ℕ → List (Option DataMessage) → Type 0
Numbered s [] = Unit
Numbered s (none ∷ ms) = ⊥
Numbered s (some m ∷ ms) = (m.seq_num ≡ s) × Numbered (add64 s 1) ms

pub append-Numbered :
    (s : ℕ) (ms : List (Option DataMessage)) (m : DataMessage)
    → s < word
    → Numbered s ms
    → m.seq_num ≡ add64 s (length ms)
    → Numbered s (ms ++ some m ∷ [])
append-Numbered s [] m h n e = (omega arith, tt)
append-Numbered s (none ∷ ms) m h n e = absurd n
append-Numbered s (some x ∷ ms) m h n e =
    (n.0, append-Numbered (add64 s 1) ms m (omega arith) n.1 (omega arith))

pub drop-Numbered :
    (s n t : ℕ) (ms : List (Option DataMessage))
    → s < word
    → Numbered s ms
    → n ≤ length ms
    → t ≡ add64 s n
    → Numbered t (drop n ms)
drop-Numbered s zero t ms h num le e = let e' : s ≡ t = omega arith in rw e' at num
drop-Numbered s (suc n) t [] h num le e = tt
drop-Numbered s (suc n) t (none ∷ ms) h num le e = absurd num
drop-Numbered s (suc n) t (some x ∷ ms) h num le e =
    drop-Numbered (add64 s 1) n t ms (omega arith) num.1 (omega arith) (omega arith)

pub set-Numbered :
    (s i : ℕ) (ms : List (Option DataMessage)) (m : DataMessage)
    → s < word
    → Numbered s ms
    → m.seq_num ≡ add64 s i
    → Numbered s (set ms i (some m))
set-Numbered s i [] m h num e = tt
set-Numbered s i (none ∷ ms) m h num e = absurd num
set-Numbered s zero (some x ∷ ms) m h num e = (omega arith, num.1)
set-Numbered s (suc i) (some x ∷ ms) m h num e =
    (num.0, set-Numbered (add64 s 1) i ms m (omega arith) num.1 (omega arith))

module _ {ℓ} {A : Type ℓ} where
  pub take-set : (xs : List A) (n i : ℕ) (v : A) → i < n → take n (set xs i v) ≡ set (take n xs) i v
  take-set xs zero i v h = absurd (omega arith)
  take-set [] (suc n) i v h = refl
  take-set (x ∷ xs) (suc n) zero v h = refl
  take-set (x ∷ xs) (suc n) (suc i) v h = ap (◌∷◌ x) (take-set xs n i v (omega arith))

  -- The slots in use after the first `k` of `free` have been removed.
  pub take-shift :
      (xs : List A) (k free rest : ℕ) (a : A)
      → free ≤ length xs
      → rest + k ≡ free
      → take rest (fill (copy xs (slice xs k free)) rest free a) ≡ drop k (take free xs)
  take-shift xs k free rest a h e =
      rw (take-fill (copy xs (slice xs k free)) rest free a, slice-eq-drop-take xs k free)
        (take-copy xs (drop k (take free xs)) rest
          (omega (arith, length-drop k (take free xs), length-take free xs)) (omega arith))

  -- The slots in use after the backing array has been replaced.
  pub take-resize :
      (xs : List A) (free target : ℕ) (a : A)
      → free ≤ length xs
      → free ≤ target
      → take free (copy (replicate target a) (take free xs)) ≡ take free xs
  take-resize xs free target a h g =
      take-copy (replicate target a) (take free xs) free (omega (arith, length-take free xs))
        (omega (arith, length-replicate target a))

  pub take-grow :
      (xs : List A) (free target : ℕ) (a : A)
      → free ≤ length xs
      → length xs ≤ target
      → take free (copy (replicate target a) xs) ≡ take free xs
  take-grow xs zero target a h g = refl
  take-grow [] (suc free) target a h g = absurd (omega arith)
  take-grow (x ∷ xs) (suc free) zero a h g = absurd (omega arith)
  take-grow (x ∷ xs) (suc free) (suc target) a h g =
      ap (◌∷◌ x) (take-grow xs free target a (omega arith) (omega arith))

-- A slot in use holds a message, and the message has the slot's number.
pub slot_of_Numbered :
    (s n i : ℕ) (xs : List (Option DataMessage))
    → s < word
    → Numbered s (take n xs)
    → i < n
    → n ≤ length xs
    → (m : DataMessage) × (get_or xs i none ≡ some m) × (m.seq_num ≡ add64 s i)
slot_of_Numbered s zero i xs h num lt le = absurd (omega arith)
slot_of_Numbered s (suc n) i [] h num lt le = absurd (omega arith)
slot_of_Numbered s (suc n) i (none ∷ xs) h num lt le = absurd num
slot_of_Numbered s (suc n) zero (some m ∷ xs) h num lt le = (m, refl, omega (arith, num.0))
slot_of_Numbered s (suc n) (suc i) (some x ∷ xs) h num lt le =
    let (m, e, q) =
      slot_of_Numbered (add64 s 1) n i xs (omega arith) num.1 (omega arith) (omega arith) in
    (m, e, omega (arith, q))
