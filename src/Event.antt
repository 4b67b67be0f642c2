-- ===== src/Event.antt =====
-- event.go: a flag that a waiter can wait on with a timeout.
pub mod Waiting
mod Tests
use go_uspclient.Base.{
  ℕ, suc, ◌-◌, Bool, true, false, not, List, [], ◌∷◌, ◌++◌, Option, none, some, ◌==◌, if◌then◌else◌,
  length, get_or, set, take,
}

-- `v`, and the channels of the `WaitFor` calls that are blocked. A channel is a number; `sent`
-- lists the channels that `Set` has sent to and closed, newest last.
pub record Event : Type 0 where
  pub v : Bool
  pub waiters : List ℕ
  pub sent : List ℕ

unfoldable pub new_event : Event
new_event = record { v = false; waiters = []; sent = [] }

-- `Set`: the loop over the waiters sends to each and closes it, in order.
unfoldable pub set_event : Event → Event
set_event e = record { v = true; waiters = []; sent = e.sent ++ e.waiters }

unfoldable pub clear_event : Event → Event
clear_event e = if e.v then record e { v = false } else e

abbrev pub is_set : Event → Bool
is_set e = e.v

-- `Wait`, on the states that it finds at first and behind each wake-up; `none`: it still waits.
unfoldable pub wait : List Event → Option Event
wait [] = none
wait (e ∷ es) = let rest = wait es in if not e.v then rest else some e

-- The part of `WaitFor` before its `select`: `true` without waiting, or a new waiter on `w`.
unfoldable pub wait_for_begin : ℕ → Event → Bool × Event
wait_for_begin w e = if e.v then (true, e) else (false, record e { waiters = e.waiters ++ w ∷ [] })

-- `for i, t := range e.waiters { if t == w … }`: the position of the first match.
unfoldable pub find_waiter : List ℕ → ℕ → Option ℕ
find_waiter [] w = none
find_waiter (t ∷ ts) w =
    if t == w then some 0 else elim (find_waiter ts w) [ none ↦ none | some i ↦ some (suc i) ]

-- `removeWaiter`: the last waiter takes the place of the one at `i`.
unfoldable pub remove_waiter : List ℕ → ℕ → List ℕ
remove_waiter s i = take (length s - 1) (set s i (get_or s (length s - 1) 0))

-- The deferred part of `WaitFor`, whichever case its `select` took.
unfoldable pub wait_for_end : ℕ → Event → Event
wait_for_end w e = elim (find_waiter e.waiters w) [
  | none ↦ e
  | some i ↦ record e { waiters = remove_waiter e.waiters i }
]
