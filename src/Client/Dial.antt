-- ===== src/Client/Dial.antt =====
-- client.go: the dial of `connectBeforeWorkers` with its retries. The answers
-- of the network and of the context are parameters.
use text.Mathlib.Text.{◌==◌}
use go_uspclient.Base.{
  ℕ, zero, suc, ◌+◌, ◌-◌, ◌<◌, ◌≤◌, ◌≡◌, ◌⊎◌, Bool, true, false, String, if◌then◌else◌, arith, inl,
  inr, Bool-cases, ltb,
}

-- What one round of the loop meets: `ctx.Err()` is not nil, the dial succeeds, the context ends the
-- wait before the next round.
pub record Attempt : Type 0 where
  pub cancelled : Bool
  pub connects : Bool
  pub interrupted : Bool

pub data DialResult : Type 0 where
  -- in this round
  connected failed : ℕ → DialResult
  context_done : DialResult

unfoldable pub max_retries : String → ℕ
max_retries proxy_url = if proxy_url == "" then 1 else 3

-- Round `i`, with `left` more rounds behind it.
unfoldable pub dial_from : (ℕ → Attempt) → ℕ → ℕ → DialResult
dial_from answers zero i =
    if (answers i).cancelled
    then context_done
    else if (answers i).connects
    then connected i
    else failed i
dial_from answers (suc left) i =
    let rest = dial_from answers left (suc i) in
    if (answers i).cancelled
    then context_done
    else if (answers i).connects
    then connected i
    else if (answers i).interrupted
    then context_done
    else rest

unfoldable pub dial : (ℕ → Attempt) → String → DialResult
dial answers proxy_url = dial_from answers (max_retries proxy_url - 1) 0

-- How the rounds from `i` on end, when `left` more stand behind it.
abbrev pub Outcome : (ℕ → Attempt) → ℕ → ℕ → DialResult → Type 0
Outcome answers left i (connected k) =
    (i ≤ k)
    × (k ≤ i + left)
    × ((answers k).connects ≡ true)
    × ((j : ℕ) → i ≤ j → j < k → (answers j).connects ≡ false)
Outcome answers left i (failed k) =
    (k ≡ i + left) × ((j : ℕ) → i ≤ j → j ≤ k → (answers j).connects ≡ false)
Outcome answers left i context_done =
    (k : ℕ) × (i ≤ k)
    × (k ≤ i + left)
    × (((answers k).cancelled ≡ true) ⊎ ((answers k).interrupted ≡ true))

module _ (answers : ℕ → Attempt) where
  dial_here : (left i : ℕ) → (answers i).connects ≡ true → Outcome answers left i (connected i)
  dial_here left i c = (omega arith, omega arith, c, λ j p q. absurd (omega (arith, p, q)))

  no_other :
      (i k : ℕ)
      → (answers i).connects ≡ false
      → ((j : ℕ) → suc i ≤ j → j < k → (answers j).connects ≡ false)
      → (j : ℕ) → i ≤ j
      → j < k
      → (answers j).connects ≡ false
  no_other i k e f j p q = elim (Bool-cases (ltb i j)) [
    | inl h ↦ f j (ground (arith, h)) q
    | inr h ↦ let r : i ≡ j = ground (arith, h, p) in rw (← r) e
  ]

  dial_later :
      (left i : ℕ) (r : DialResult)
      → (answers i).connects ≡ false
      → Outcome answers left (suc i) r
      → Outcome answers (suc left) i r
  dial_later left i (connected k) e (lo, hi, c, f) =
      (omega (arith, lo), omega (arith, hi), c, no_other i k e f)
  dial_later left i (failed k) e (q, f) = (
    omega (arith, q),
    λ j p h. no_other i (suc k) e (λ j' p' h'. f j' p' (omega (arith, h'))) j p (omega (arith, h)),
  )
  dial_later left i context_done e (k, lo, hi, c) = (k, omega (arith, lo), omega (arith, hi), c)

  pub dial_from-Outcome : (left i : ℕ) → Outcome answers left i (dial_from answers left i)
  unfolding dial_from
  dial_from-Outcome zero i = elim (Bool-cases (answers i).cancelled) [
    | inl e ↦ rw (e, dial_from) (i, omega arith, omega arith, inl e)
    | inr e ↦ elim (Bool-cases (answers i).connects) [
      | inl c ↦ rw (e, c, dial_from) (dial_here zero i c)
      | inr c ↦
          rw (e, c, dial_from)
            (omega arith, λ j p q. let r : i ≡ j = omega (arith, p, q) in rw (← r) c)
    ]
  ]
  dial_from-Outcome (suc left) i = elim (Bool-cases (answers i).cancelled) [
    | inl e ↦ rw (e, dial_from) (i, omega arith, omega arith, inl e)
    | inr e ↦ elim (Bool-cases (answers i).connects) [
      | inl c ↦ rw (e, c, dial_from) (dial_here (suc left) i c)
      | inr c ↦ elim (Bool-cases (answers i).interrupted) [
        | inl n ↦ rw (e, c, n, dial_from) (i, omega arith, omega arith, inr n)
        | inr n ↦
            rw (e, c, n, dial_from)
              (dial_later left i (dial_from answers left (suc i)) c
                (dial_from-Outcome left (suc i)))
      ]
    ]
  ]

  -- The dial ends, within the rounds that `max_retries` allows, in one of three ways: connected in the
  -- first round that succeeds; failed in the last round, where none does; or given up because the
  -- context was done before a round or in the wait behind it.
  pub dial-Outcome :
      (proxy_url : String) → Outcome answers (max_retries proxy_url - 1) 0 (dial answers proxy_url)
  unfolding dial
  dial-Outcome proxy_url = dial_from-Outcome (max_retries proxy_url - 1) 0
