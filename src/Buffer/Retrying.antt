-- ===== src/Buffer/Retrying.antt =====
-- The calls that wait on the wake channel: `Add` and `Drain`.
use go_uspclient.Base.{
  ℕ, ◌≡◌, ◌⊎◌, sym, ap, ◌∙◌, Bool, true, false, Option, none, some, List, arith, inl, inr,
  Bool-cases,
}
use go_uspclient.Protocol.Messages.{DataMessage}
use go_uspclient.Buffer.State.{AckBuffer, sample_wake}
use go_uspclient.Buffer.Admit.{try_add}
use go_uspclient.Buffer.Blocking.{
  AddStep, added, refused, waits_for, add_round, after_attempt, add_round_running,
  add_round_stopped,
}
use go_uspclient.Buffer.Control.{drain_round, DrainStep, drained, failed, waits}
use go_uspclient.Buffer.Valid.Admitting.{try_add_closed}
use go_uspclient.Buffer.Run.{Op, run}
use go_uspclient.Buffer.Wakeups.{IsHeard, Still, Still-trans}
use go_uspclient.Buffer.Waking.{run-wakes, try_add-Still, sample_wake-Still}

sample_wake-wake : (b : AckBuffer) → (sample_wake b).1.wake ≡ some (sample_wake b).0
unfolding sample_wake
sample_wake-wake b = ground arith

sample_wake_again : (b : AckBuffer) (c : ℕ) → b.wake ≡ some c → (sample_wake b).0 ≡ c
unfolding sample_wake
sample_wake_again b c h = ground (arith, h)

abbrev channel : AddStep → ℕ
channel added = 0
channel (refused r) = 0
channel (waits_for c w) = c

abbrev is_wait : AddStep → Bool
is_wait added = false
is_wait (refused r) = false
is_wait (waits_for c w) = true

-- What an attempt leaves when the call goes to wait.
record Asleep (c : ℕ) (b b' : AckBuffer) : Type 0 where
  running : b'.is_running ≡ true
  wake : b'.wake ≡ some c
  still : Still b b'

after_attempt-Asleep :
    (r : (Bool × Option ℕ) × AckBuffer) (b b' : AckBuffer) (c : ℕ) (w : Option ℕ)
    → b.is_running ≡ true
    → Still b r.1
    → after_attempt r ≡ (waits_for c w, b')
    → Asleep c b b'
after_attempt-Asleep ((true, x), y) b b' c w i s h =
    absurd (ground (arith, ap (λ (r : AddStep × AckBuffer). is_wait r.0) h))
after_attempt-Asleep ((false, x), y) b b' c w i s h =
    let p = ap (λ (r : AddStep × AckBuffer). r.1) h in
    let t : Still b b' = rw (← p) (Still-trans b y _ s (sample_wake-Still y)) in
    record {
      running = t.running ∙ i;
      wake =
          ap (λ (x : AckBuffer). x.wake) (sym p)
          ∙ sample_wake-wake y
          ∙ ap (λ (r : AddStep × AckBuffer). some (channel r.0)) h;
      still = t;
    }

module _ (e : DataMessage) (size : ℕ) (waiter receipt : Option ℕ) (limit : ℕ) where
  add_round-Asleep :
      (b b' : AckBuffer) (c : ℕ) (w : Option ℕ)
      → add_round e size waiter receipt limit b ≡ (waits_for c w, b')
      → Asleep c b b'
  add_round-Asleep b b' c w h = elim (Bool-cases b.is_running) [
    | inl i ↦
        after_attempt-Asleep (try_add e size waiter receipt limit b) b b' c w i
          (try_add-Still e size waiter receipt limit b)
          (sym (add_round_running e size waiter receipt limit b i) ∙ h)
    | inr i ↦ absurd (
        ground (
          arith,
          ap (λ (r : AddStep × AckBuffer). is_wait r.0)
              (sym (add_round_stopped e size waiter receipt limit b i) ∙ h),
        ))
  ]

  -- A round on a full window waits on the channel that is there.
  add_round_full :
      (b : AckBuffer) (c : ℕ)
      → b.is_running ≡ true
      → b.is_available.v ≡ false
      → b.wake ≡ some c
      → (add_round e size waiter receipt limit b).0 ≡ waits_for c none
  add_round_full b c i a k =
      rw
        (
          add_round_running e size waiter receipt limit b i,
          try_add_closed e size waiter receipt limit b a,
        )
        (ap (λ n. waits_for n none) (sample_wake_again _ c k))

  -- An `Add` that waits never sleeps through its chance. After the round in which it was given
  -- channel `c`, whatever operations follow: either the channel is closed, so the call tries again;
  -- or nothing it waits for happened (no message left the window or was retired, no byte was
  -- freed, and the window's size, `isRunning` and `isClosed` are as they were), and if the window
  -- was full when it went to wait, then it would wait on the same channel again.
  pub add_round-wakes :
      (b b' : AckBuffer) (c : ℕ) (w : Option ℕ) (os : List Op)
      → add_round e size waiter receipt limit b ≡ (waits_for c w, b')
      → IsHeard c (run os b')
        ⊎ (Still b' (run os b')
            × ((b'.is_available.v ≡ true)
                ⊎ ((add_round e size waiter receipt limit (run os b')).0 ≡ waits_for c none)))
  add_round-wakes b b' c w os h =
      let a = add_round-Asleep b b' c w h in
      elim (run-wakes os b' c a.wake) [
        | inr r ↦ inl r
        | inl s ↦ inr (
          s,
          elim (Bool-cases b'.is_available.v) [
            | inl v ↦ inl v
            | inr v ↦
                inr (
                  add_round_full (run os b') c (s.running ∙ a.running) (s.full v) (s.wake c a.wake))
          ],
        )
      ]

abbrev wake_channel : DrainStep → Option ℕ
wake_channel drained = none
wake_channel (failed e) = none
wake_channel (waits c) = some c

drain_round-wake :
    (done : Bool) (b : AckBuffer) (c : ℕ)
    → wake_channel (drain_round done b).0 ≡ some c
    → (drain_round done b).1.wake ≡ some c
unfolding drain_round
drain_round-wake done b c h = ground (arith, h, sample_wake-wake b)

-- A `Drain` that waits never sleeps through its chance: after the round in which it was given
-- channel `c`, whatever operations follow, either the channel is closed, or no message left the
-- window or was retired, and the buffer was not closed.
pub drain_round-wakes :
    (done : Bool) (b b' : AckBuffer) (c : ℕ) (os : List Op)
    → drain_round done b ≡ (waits c, b')
    → IsHeard c (run os b') ⊎ Still b' (run os b')
drain_round-wakes done b b' c os h =
    let w = drain_round-wake done b c (ap (λ (r : DrainStep × AckBuffer). wake_channel r.0) h) in
    let k = ap (λ (r : DrainStep × AckBuffer). r.1.wake) (sym h) ∙ w in
    elim (run-wakes os b' c k) [ inl s ↦ inr s | inr r ↦ inl r ]
