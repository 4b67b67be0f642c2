-- ===== src/Buffer/Listing.antt =====
-- Positions in a list of slots.
use go_uspclient.Base.{
  ℕ, zero, suc, ◌-◌, ◌<◌, ◌≡◌, refl, ap, true, Option, none, List, [], ◌∷◌, ◌++◌, arith, length,
  length-append, get_or, take, drop, ◌==◌,
}
use go_uspclient.Protocol.Messages.{DataMessage}

abbrev pub first_of : List (Option DataMessage) → Option DataMessage
first_of xs = get_or xs 0 none

abbrev pub last_of : List (Option DataMessage) → Option DataMessage
last_of xs = get_or xs (length xs - 1) none

pub take-snoc :
    (xs : List (Option DataMessage)) (n : ℕ)
    → n < length xs
    → take (suc n) xs ≡ take n xs ++ get_or xs n none ∷ []
take-snoc [] n h = absurd (omega (arith, h))
take-snoc (x ∷ xs) zero h = refl
take-snoc (x ∷ xs) (suc n) h = ap (◌∷◌ x) (take-snoc xs n (omega (arith, h)))

pub drop-cons :
    (xs : List (Option DataMessage)) (n : ℕ)
    → n < length xs
    → drop n xs ≡ get_or xs n none ∷ drop (suc n) xs
drop-cons [] n h = absurd (omega (arith, h))
drop-cons (x ∷ xs) zero h = refl
drop-cons (x ∷ xs) (suc n) h = drop-cons xs n (omega (arith, h))

pub get_or-take :
    (xs : List (Option DataMessage)) (n i : ℕ)
    → i < n
    → get_or (take n xs) i none ≡ get_or xs i none
get_or-take xs zero i h = absurd (omega (arith, h))
get_or-take [] (suc n) i h = refl
get_or-take (x ∷ xs) (suc n) zero h = refl
get_or-take (x ∷ xs) (suc n) (suc i) h = get_or-take xs n i (omega (arith, h))

get_or-snoc :
    (xs : List (Option DataMessage)) (x : Option DataMessage)
    → get_or (xs ++ x ∷ []) (length xs) none ≡ x
get_or-snoc [] x = refl
get_or-snoc (y ∷ ys) x = get_or-snoc ys x

pub last_of-snoc :
    (xs : List (Option DataMessage)) (x : Option DataMessage) → last_of (xs ++ x ∷ []) ≡ x
last_of-snoc xs x =
    let e : length (xs ++ x ∷ []) - 1 ≡ length xs = omega (arith, length-append xs (x ∷ [])) in
    rw e (get_or-snoc xs x)

pub is_empty_list : (xs : List ℕ) → (length xs == 0) ≡ true → xs ≡ []
is_empty_list [] h = refl
is_empty_list (x ∷ xs) h = absurd (ground (arith, h))
