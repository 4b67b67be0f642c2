-- ===== src/Buffer/Wakeups.antt =====
-- The wake channel of `AckBuffer`: what a change of the buffer does to it.
use mathlib.Core.List.{append-nil, append_assoc}
use go_uspclient.Base.{
  ℕ, ◌≡◌, ◌⊎◌, refl, sym, ap, ◌∙◌, Bool, true, false, none, some, List, [], ◌∷◌, ◌++◌, arith, inl,
  inr, contains, Option-cases,
}
use go_uspclient.Buffer.State.{TrackedAdmission, AckBuffer, signal_locked}
use go_uspclient.Buffer.Retire.{
  drop_receipts_locked, remove_prefix_locked, move_slots, shift_slots, free_prefix_bytes,
  shrink_backing_locked, update_availability, adjust_delivery, retire_locked, free_slot_bytes,
  release_retired_head_locked,
}
use go_uspclient.Buffer.Valid.Acking.{release_retired_head_cases, drop_receipts-Tracked}

-- Whether channel `c` is closed: whoever waits on it goes on.
abbrev pub IsHeard : ℕ → AckBuffer → Type 0
IsHeard c b = contains b.closed_wakes c ≡ true

-- Nothing that a waiter waits for happened: the numbers and the bytes of the window have only been
-- added to, no slot was retired, and a window that was full is full.
pub record Still (b b' : AckBuffer) : Type 0 where
  pub wake : (c : ℕ) → b.wake ≡ some c → b'.wake ≡ some c
  pub closed_wakes : b'.closed_wakes ≡ b.closed_wakes
  pub first : b'.first_seq_num ≡ b.first_seq_num
  pub retired : b'.retired ≡ b.retired
  pub running : b'.is_running ≡ b.is_running
  pub closed : b'.is_closed ≡ b.is_closed
  pub capacity : b'.current_capacity ≡ b.current_capacity
  pub full : b.is_available.v ≡ false → b'.is_available.v ≡ false
  pub sizes : (zs : List ℕ) × (b'.sizes ≡ b.sizes ++ zs)

-- The fields that `Still` does not read may change.
abbrev pub Calm : AckBuffer → AckBuffer → Type 0
Calm b b' = b' ≡ record b {
  receipts = b'.receipts;
  deliver_cursor = b'.deliver_cursor;
  cells = b'.cells;
  released_retired = b'.released_retired;
  buff = b'.buff;
  next_index_to_deliver = b'.next_index_to_deliver;
  is_ready_to_deliver = b'.is_ready_to_deliver;
  is_empty = b'.is_empty;
  shared = b'.shared;
  escape_seq = b'.escape_seq;
  escape_bytes = b'.escape_bytes;
}

pub Calm-Still : (b b' : AckBuffer) → Calm b b' → Still b b'
Calm-Still b b' f = rw f (record {
  wake = λ c h. h;
  closed_wakes = refl;
  first = refl;
  retired = refl;
  running = refl;
  closed = refl;
  capacity = refl;
  full = λ h. h;
  sizes = ([], sym (append-nil b.sizes));
})

pub Still-trans : (a b c : AckBuffer) → Still a b → Still b c → Still a c
Still-trans a b c h k = record {
  wake = λ i e. k.wake i (h.wake i e);
  closed_wakes = k.closed_wakes ∙ h.closed_wakes;
  first = k.first ∙ h.first;
  retired = k.retired ∙ h.retired;
  running = k.running ∙ h.running;
  closed = k.closed ∙ h.closed;
  capacity = k.capacity ∙ h.capacity;
  full = λ e. k.full (h.full e);
  sizes =
      let (ys, p) = h.sizes in
      let (zs, q) = k.sizes in (ys ++ zs, q ∙ ap (λ xs. xs ++ zs) p ∙ append_assoc a.sizes ys zs);
}

-- Closed channels stay closed, and either nothing that a waiter waits for happened or the channel
-- that waiters were given is closed.
pub record Moves (b b' : AckBuffer) : Type 0 where
  pub kept : (c : ℕ) → IsHeard c b → IsHeard c b'
  pub still_or_rung : Still b b' ⊎ ((c : ℕ) → b.wake ≡ some c → IsHeard c b')

pub Still-Moves : (b b' : AckBuffer) → Still b b' → Moves b b'
Still-Moves b b' s = record { kept = λ c h. rw s.closed_wakes h; still_or_rung = inl s }

pub Calm-Moves : (b b' : AckBuffer) → Calm b b' → Moves b b'
Calm-Moves b b' f = Still-Moves b b' (Calm-Still b b' f)

pub Moves-trans : (a b c : AckBuffer) → Moves a b → Moves b c → Moves a c
Moves-trans a b c h k = record {
  kept = λ i e. k.kept i (h.kept i e);
  still_or_rung = go h.still_or_rung k.still_or_rung;
}
  where
    go :
        Still a b ⊎ ((i : ℕ) → a.wake ≡ some i → IsHeard i b)
        → Still b c ⊎ ((i : ℕ) → b.wake ≡ some i → IsHeard i c)
        → Still a c ⊎ ((i : ℕ) → a.wake ≡ some i → IsHeard i c)
    go (inr r) _ = inr (λ i e. k.kept i (r i e))
    go (inl s) (inl t) = inl (Still-trans a b c s t)
    go (inl s) (inr r) = inr (λ i e. r i (s.wake i e))

-- The closed channels after `signalLocked`.
abbrev rung : AckBuffer → List ℕ
rung b = elim b.wake [ none ↦ b.closed_wakes | some c ↦ c ∷ b.closed_wakes ]

pub rung-Moves : (b b' : AckBuffer) → b'.closed_wakes ≡ rung b → Moves b b'
unfolding contains
rung-Moves b b' e = record {
  kept = λ c h.
      rw e (elim (Option-cases b.wake) [ inl n ↦ rw n h | inr (d, s) ↦ rw s (ground (arith, h)) ]);
  still_or_rung = inr λ c h. rw (e, h) (ground arith);
}

pub drop_receipts-Moves :
    (first index : ℕ) (a : Bool) (b : AckBuffer) → Moves b (drop_receipts_locked first index a b)
drop_receipts-Moves first index a b =
    rw (drop_receipts-Tracked first index a b) (Calm-Moves b _ refl)

pub remove_prefix-Moves : (k : ℕ) (b : AckBuffer) → Moves b (remove_prefix_locked k b)
unfolding remove_prefix_locked move_slots shift_slots shrink_backing_locked update_availability
    adjust_delivery signal_locked free_prefix_bytes
remove_prefix-Moves k b = rung-Moves b _ (ground arith)

pub retire_locked-Moves :
    (index : ℕ) (e : TrackedAdmission) (b : AckBuffer) → Moves b (retire_locked index e b)
unfolding retire_locked free_slot_bytes signal_locked
retire_locked-Moves index e b = rung-Moves b _ (ground arith)

pub release_retired_head-Moves : (b : AckBuffer) → Moves b (release_retired_head_locked b)
release_retired_head-Moves b =
    release_retired_head_cases (Moves b) b (Calm-Moves b b refl) λ k ring _ _.
      let r = record b { released_retired = ring } in
      Moves-trans b (remove_prefix_locked k r) _
        (Moves-trans b r _ (Calm-Moves b r refl) (remove_prefix-Moves k r))
        (drop_receipts-Moves _ k false (remove_prefix_locked k r))
