-- ===== src/Client/Counting.antt =====
-- Sums of weights over a list in which one element changes.
use go_uspclient.Base.{
  ℕ, zero, suc, ◌+◌, ◌≤◌, ◌≡◌, Bool, true, false, List, [], ◌∷◌, ◌++◌, some, arith, get_elem?, set,
}
use go_uspclient.Client.System.{total}

abbrev pub bit : Bool → ℕ
bit true = 1
bit false = 0

module _ {ℓ} {A : Type ℓ} (w : A → ℕ) where
  pub total-append : (xs ys : List A) → total w (xs ++ ys) ≡ total w xs + total w ys
  unfolding total
  total-append [] ys = omega arith
  total-append (x ∷ xs) ys = omega (arith, total-append xs ys)

  pub total-set :
      (xs : List A) (i : ℕ) (x y : A)
      → get_elem? xs i ≡ some x
      → total w (set xs i y) + w x ≡ total w xs + w y
  unfolding total
  total-set [] i x y e = absurd (cc)
  total-set (z ∷ xs) zero x y e = ground (arith, e)
  total-set (z ∷ xs) (suc i) x y e = omega (arith, total-set xs i x y e)

  pub weight-le : (xs : List A) (i : ℕ) (x : A) → get_elem? xs i ≡ some x → w x ≤ total w xs
  unfolding total
  weight-le [] i x e = absurd (cc)
  weight-le (z ∷ xs) zero x e = ground (arith, e)
  weight-le (z ∷ xs) (suc i) x e = omega (arith, weight-le xs i x e)
