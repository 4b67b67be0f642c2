-- ===== src/Base/Lists.antt =====
-- Lists measured and indexed by native numbers, and Go's slice operations on them.
use Prim.Native.Nat.{ℕ, zero, suc, ◌+◌, ◌-◌, ◌<◌, ◌≤◌, min}
use mathlib.Core.Path.{◌≡◌, refl, ap}
use mathlib.Core.List.{List, [], ◌∷◌, ◌++◌}
use mathlib.Core.Bool.{Bool, true, false}
use mathlib.Core.Option.{Option, none, some}
use native.Mathlib.Omega.{arith}
use go_uspclient.Base.Tests.{◌==◌, if◌then◌else◌}

module _ {ℓ} {A : Type ℓ} where
  abbrev pub length : List A → ℕ
  length [] = 0
  length (x ∷ xs) = suc (length xs)

  abbrev pub get_elem? : List A → ℕ → Option A
  get_elem? [] i = none
  get_elem? (x ∷ xs) zero = some x
  get_elem? (x ∷ xs) (suc i) = get_elem? xs i

  abbrev pub get_or : List A → ℕ → A → A
  get_or [] i d = d
  get_or (x ∷ xs) zero d = x
  get_or (x ∷ xs) (suc i) d = get_or xs i d

  -- A write out of bounds changes nothing.
  abbrev pub set : List A → ℕ → A → List A
  set [] i v = []
  set (x ∷ xs) zero v = v ∷ xs
  set (x ∷ xs) (suc i) v = x ∷ set xs i v

  abbrev pub take : ℕ → List A → List A
  take zero xs = []
  take (suc n) [] = []
  take (suc n) (x ∷ xs) = x ∷ take n xs

  abbrev pub drop : ℕ → List A → List A
  drop zero xs = xs
  drop (suc n) [] = []
  drop (suc n) (x ∷ xs) = drop n xs

  abbrev pub replicate : ℕ → A → List A
  replicate zero a = []
  replicate (suc n) a = a ∷ replicate n a

  -- `copy(dst, src)`
  abbrev pub copy : List A → List A → List A
  copy [] src = []
  copy (d ∷ ds) [] = d ∷ ds
  copy (d ∷ ds) (s ∷ ss) = s ∷ copy ds ss

  -- `s[i:j]`
  abbrev pub slice : List A → ℕ → ℕ → List A
  slice xs i j = take (j - i) (drop i xs)

  -- `s[i:j]` overwritten with `a`; with the zero value this is `clear(s[i:j])`.
  abbrev pub fill : List A → ℕ → ℕ → A → List A
  fill [] i j a = []
  fill (x ∷ xs) i zero a = x ∷ xs
  fill (x ∷ xs) zero (suc j) a = a ∷ fill xs zero j a
  fill (x ∷ xs) (suc i) (suc j) a = x ∷ fill xs i j a

  pub length-append : (xs ys : List A) → length (xs ++ ys) ≡ length xs + length ys
  length-append [] ys = omega arith
  length-append (x ∷ xs) ys = omega (arith, length-append xs ys)

  pub length-set : (xs : List A) (i : ℕ) (v : A) → length (set xs i v) ≡ length xs
  length-set [] i v = refl
  length-set (x ∷ xs) zero v = refl
  length-set (x ∷ xs) (suc i) v = ap suc (length-set xs i v)

  pub length-take : (n : ℕ) (xs : List A) → length (take n xs) ≡ min n (length xs)
  length-take zero xs = omega arith
  length-take (suc n) [] = omega arith
  length-take (suc n) (x ∷ xs) = omega (arith, length-take n xs)

  pub length-drop : (n : ℕ) (xs : List A) → length (drop n xs) ≡ length xs - n
  length-drop zero xs = omega arith
  length-drop (suc n) [] = omega arith
  length-drop (suc n) (x ∷ xs) = omega (arith, length-drop n xs)

  pub length-replicate : (n : ℕ) (a : A) → length (replicate n a) ≡ n
  length-replicate zero a = refl
  length-replicate (suc n) a = ap suc (length-replicate n a)

  pub length-copy : (dst src : List A) → length (copy dst src) ≡ length dst
  length-copy [] src = refl
  length-copy (d ∷ ds) [] = refl
  length-copy (d ∷ ds) (s ∷ ss) = ap suc (length-copy ds ss)

  pub length-fill : (xs : List A) (i j : ℕ) (a : A) → length (fill xs i j a) ≡ length xs
  length-fill [] i j a = refl
  length-fill (x ∷ xs) i zero a = refl
  length-fill (x ∷ xs) zero (suc j) a = ap suc (length-fill xs zero j a)
  length-fill (x ∷ xs) (suc i) (suc j) a = ap suc (length-fill xs i j a)

  pub take-copy :
      (dst src : List A) (n : ℕ) → length src ≡ n → n ≤ length dst → take n (copy dst src) ≡ src
  take-copy dst [] zero e h = refl
  take-copy dst (s ∷ ss) zero e h = absurd (omega arith)
  take-copy dst [] (suc n) e h = absurd (omega arith)
  take-copy [] (s ∷ ss) (suc n) e h = absurd (omega arith)
  take-copy (d ∷ ds) (s ∷ ss) (suc n) e h =
      ap (◌∷◌ s) (take-copy ds ss n (omega arith) (omega arith))

  pub take-fill : (xs : List A) (i j : ℕ) (a : A) → take i (fill xs i j a) ≡ take i xs
  take-fill [] i j a = refl
  take-fill (x ∷ xs) zero zero a = refl
  take-fill (x ∷ xs) (suc i) zero a = refl
  take-fill (x ∷ xs) zero (suc j) a = refl
  take-fill (x ∷ xs) (suc i) (suc j) a = ap (◌∷◌ x) (take-fill xs i j a)

  take-nil : (n : ℕ) → take n (let e : List A = [] in e) ≡ []
  take-nil zero = refl
  take-nil (suc n) = refl

  drop-nil : (n : ℕ) → drop n (let e : List A = [] in e) ≡ []
  drop-nil zero = refl
  drop-nil (suc n) = refl

  -- `s[i:j]` is `s[:j]` without its first `i` elements.
  pub slice-eq-drop-take : (xs : List A) (i j : ℕ) → slice xs i j ≡ drop i (take j xs)
  slice-eq-drop-take xs zero j = let e : j - 0 ≡ j = omega arith in rw e refl
  slice-eq-drop-take [] (suc i) j = rw (take-nil (j - suc i), take-nil j) refl
  slice-eq-drop-take (x ∷ xs) (suc i) zero = let e : 0 - suc i ≡ 0 = omega arith in rw e refl
  slice-eq-drop-take (x ∷ xs) (suc i) (suc j) =
      let e : suc j - suc i ≡ j - i = omega arith in rw e (slice-eq-drop-take xs i j)

  pub take-take_self : (n : ℕ) (xs : List A) → take n (take n xs) ≡ take n xs
  take-take_self zero xs = refl
  take-take_self (suc n) [] = refl
  take-take_self (suc n) (x ∷ xs) = ap (◌∷◌ x) (take-take_self n xs)

  pub take_all : (n : ℕ) (xs : List A) → length xs ≤ n → take n xs ≡ xs
  take_all zero [] h = refl
  take_all zero (x ∷ xs) h = absurd (omega arith)
  take_all (suc n) [] h = refl
  take_all (suc n) (x ∷ xs) h = ap (◌∷◌ x) (take_all n xs (omega arith))

  pub drop_all : (n : ℕ) (xs : List A) → length xs ≤ n → drop n xs ≡ []
  drop_all zero [] h = refl
  drop_all zero (x ∷ xs) h = absurd (omega arith)
  drop_all (suc n) [] h = refl
  drop_all (suc n) (x ∷ xs) h = drop_all n xs (omega arith)

  pub take-append : (n : ℕ) (xs ys : List A) → n ≤ length xs → take n (xs ++ ys) ≡ take n xs
  take-append zero xs ys h = refl
  take-append (suc n) [] ys h = absurd (omega arith)
  take-append (suc n) (x ∷ xs) ys h = ap (◌∷◌ x) (take-append n xs ys (omega arith))

  pub take-set_end :
      (xs : List A) (n : ℕ) (v : A)
      → n < length xs
      → take (suc n) (set xs n v) ≡ take n xs ++ v ∷ []
  take-set_end [] n v h = absurd (omega arith)
  take-set_end (x ∷ xs) zero v h = refl
  take-set_end (x ∷ xs) (suc n) v h = ap (◌∷◌ x) (take-set_end xs n v (omega arith))

  pub get_or-set : (xs : List A) (i : ℕ) (v d : A) → i < length xs → get_or (set xs i v) i d ≡ v
  get_or-set [] i v d h = absurd (omega arith)
  get_or-set (x ∷ xs) zero v d h = refl
  get_or-set (x ∷ xs) (suc i) v d h = get_or-set xs i v d (omega arith)

  pub get_or-past : (xs : List A) (i : ℕ) (d : A) → length xs ≤ i → get_or xs i d ≡ d
  get_or-past [] i d h = refl
  get_or-past (x ∷ xs) zero d h = absurd (omega arith)
  get_or-past (x ∷ xs) (suc i) d h = get_or-past xs i d (omega arith)

  pub set-set : (xs : List A) (i : ℕ) (u v : A) → set (set xs i u) i v ≡ set xs i v
  set-set [] i u v = refl
  set-set (x ∷ xs) zero u v = refl
  set-set (x ∷ xs) (suc i) u v = ap (◌∷◌ x) (set-set xs i u v)

  pub set-get_or : (xs : List A) (i : ℕ) (d : A) → set xs i (get_or xs i d) ≡ xs
  set-get_or [] i d = refl
  set-get_or (x ∷ xs) zero d = refl
  set-get_or (x ∷ xs) (suc i) d = ap (◌∷◌ x) (set-get_or xs i d)

unfoldable pub sum : List ℕ → ℕ
sum [] = 0
sum (x ∷ xs) = x + sum xs

unfoldable pub contains : List ℕ → ℕ → Bool
contains [] a = false
contains (x ∷ xs) a = if x == a then true else contains xs a

unfoldable pub delete : List ℕ → ℕ → List ℕ
delete [] a = []
delete (x ∷ xs) a = if x == a then delete xs a else x ∷ delete xs a
