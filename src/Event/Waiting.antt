-- ===== src/Event/Waiting.antt =====
-- That `WaitFor` takes its own waiter from the list, and no other one.
use mathlib.Core.List.{append-nil, append_assoc}
use go_uspclient.Base.{
  ℕ, zero, suc, ◌+◌, ◌-◌, ◌<◌, ◌≡◌, refl, ap, ◌∙◌, false, List, [], ◌∷◌, ◌++◌, some, arith, length,
  get_or, set, take, ◌==◌, if◌then◌else◌, Bool-cases, inl, inr,
}
use go_uspclient.Event.{Event, wait_for_begin, find_waiter, remove_waiter, wait_for_end, set_event}

-- How often `x` stands in a list.
abbrev pub count : ℕ → List ℕ → ℕ
count x [] = 0
count x (y ∷ ys) = (if y == x then 1 else 0) + count x ys

-- How often `x` stands in the list of `y` alone.
abbrev once : ℕ → ℕ → ℕ
once x y = if y == x then 1 else 0

count-append : (x : ℕ) (xs ys : List ℕ) → count x (xs ++ ys) ≡ count x xs + count x ys
count-append x [] ys = omega arith
count-append x (y ∷ xs) ys = omega (arith, count-append x xs ys)

-- A write in range takes the old element out and puts the new one in.
count-set :
    (x : ℕ) (s : List ℕ) (i v : ℕ)
    → i < length s
    → count x (set s i v) + once x (get_or s i 0) ≡ count x s + once x v
count-set x [] i v h = absurd (omega arith)
count-set x (y ∷ s) zero v h = omega arith
count-set x (y ∷ s) (suc i) v h = omega (arith, count-set x s i v (omega arith))

-- All but the last element.
count-take :
    (x y : ℕ) (s : List ℕ)
    → count x (take (length s) (y ∷ s)) + once x (get_or (y ∷ s) (length s) 0) ≡ count x (y ∷ s)
count-take x y [] = omega arith
count-take x y (z ∷ s) = omega (arith, count-take x z s)

length-set_at : (s : List ℕ) (i v : ℕ) → length (set s i v) ≡ length s
length-set_at [] i v = refl
length-set_at (y ∷ s) zero v = refl
length-set_at (y ∷ s) (suc i) v = ap suc (length-set_at s i v)

-- The last element stays, when it is what is written.
get_or-set_last :
    (y : ℕ) (s : List ℕ) (i : ℕ)
    → get_or (set (y ∷ s) i (get_or (y ∷ s) (length s) 0)) (length s) 0
      ≡ get_or (y ∷ s) (length s) 0
get_or-set_last y [] zero = refl
get_or-set_last y [] (suc i) = refl
get_or-set_last y (z ∷ s) zero = refl
get_or-set_last y (z ∷ s) (suc i) = get_or-set_last z s i

-- `take` behind a write, in the form of `removeWaiter`.
count-take_all :
    (x : ℕ) (t : List ℕ) (n : ℕ)
    → length t ≡ suc n
    → count x (take n t) + once x (get_or t n 0) ≡ count x t
count-take_all x [] n h = absurd (omega arith)
count-take_all x (y ∷ t) n h = let e : n ≡ length t = omega arith in rw e (count-take x y t)

count-remove_waiter :
    (x : ℕ) (s : List ℕ) (i : ℕ)
    → i < length s
    → count x (remove_waiter s i) + once x (get_or s i 0) ≡ count x s
unfolding remove_waiter
count-remove_waiter x [] i h = absurd (omega arith)
count-remove_waiter x (y ∷ s) i h =
    let v : ℕ = get_or (y ∷ s) (length s) 0 in
    let t : List ℕ = set (y ∷ s) i v in
    let a = count-set x (y ∷ s) i v h in
    let b = count-take_all x t (length s) (length-set_at (y ∷ s) i v) in
    let c = ap (once x) (get_or-set_last y s i) in
    let n : length (y ∷ s) - 1 ≡ length s = omega arith in rw n (omega (arith, a, b, c))

find_waiter-append :
    (xs : List ℕ) (w : ℕ) (ys : List ℕ)
    → (i : ℕ) × (find_waiter (xs ++ w ∷ ys) w ≡ some i)
      × (i < length (xs ++ w ∷ ys))
      × (get_or (xs ++ w ∷ ys) i 0 ≡ w)
unfolding find_waiter
find_waiter-append [] w ys = (0, ground arith, omega arith, refl)
find_waiter-append (x ∷ xs) w ys = elim (Bool-cases (x == w)) [
  | inl e ↦ (0, ground (arith, e), omega arith, ground (arith, e))
  | inr e ↦
      let (i, f, l, g) = find_waiter-append xs w ys in
      (suc i, rw (e, find_waiter) (rw (f, find_waiter) refl), omega (arith, l), g)
]

wait_for_end_eq :
    (w i : ℕ) (e : Event)
    → find_waiter e.waiters w ≡ some i
    → wait_for_end w e ≡ record e { waiters = remove_waiter e.waiters i }
unfolding wait_for_end
wait_for_end_eq w i e h = rw (h, wait_for_end) refl

-- Other calls of `WaitFor` that come later.
unfoldable pub joins : List ℕ → Event → Event
joins [] e = e
joins (w ∷ ws) e = joins ws (wait_for_begin w e).1

joins_eq :
    (ws : List ℕ) (e : Event) → e.v ≡ false → joins ws e ≡ record e { waiters = e.waiters ++ ws }
unfolding joins
joins_eq [] e h = rw (append-nil e.waiters) refl
joins_eq (w ∷ ws) e h =
    let begun : (wait_for_begin w e).1 ≡ record e { waiters = e.waiters ++ w ∷ [] } =
      unfold wait_for_begin in ground (arith, h) in
    rw begun (
      joins_eq ws (record e { waiters = e.waiters ++ w ∷ [] }) h
      ∙ rw (append_assoc e.waiters (w ∷ []) ws) refl)

-- A call of `WaitFor` on an event that is not set, beside any waiters before it and any that come
-- after it: when it times out, the other waiters are in the list as often as they were, and it is
-- not; the event is otherwise the same. When `Set` wakes it, it leaves the event as `Set` did.
pub wait_for_end-begin :
    (x w : ℕ) (others : List ℕ) (e : Event)
    → e.v ≡ false
    → let joined = joins others (wait_for_begin w e).1 in
      (count x (wait_for_end w joined).waiters ≡ count x (e.waiters ++ others))
      × ((wait_for_end w joined).v ≡ false)
      × ((wait_for_end w joined).sent ≡ e.sent)
      × (wait_for_end w (set_event joined) ≡ set_event joined)
wait_for_end-begin x w others e h =
    let (i, f, l, g) = find_waiter-append e.waiters w others in
    let begun : (wait_for_begin w e).1 ≡ record e { waiters = e.waiters ++ w ∷ [] } =
      unfold wait_for_begin in ground (arith, h) in
    let joined : joins others (wait_for_begin w e).1
        ≡ record e { waiters = e.waiters ++ w ∷ others } =
      rw begun (
        joins_eq others (record e { waiters = e.waiters ++ w ∷ [] }) h
        ∙ rw (append_assoc e.waiters (w ∷ []) others) refl) in
    let left = count-remove_waiter x (e.waiters ++ w ∷ others) i l in
    rw joined (
      rw (wait_for_end_eq w i (record e { waiters = e.waiters ++ w ∷ others }) f) (
        omega (
          arith,
          left,
          ap (once x) g,
          count-append x e.waiters (w ∷ others),
          count-append x e.waiters others,
        ),
        h,
        refl,
        unfold set_event wait_for_end find_waiter in refl,
      ))
