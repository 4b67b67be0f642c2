-- ===== src/Client/Closing.antt =====
-- That nothing outlives `Close`.
use go_uspclient.Base.{
  ℕ, ◌+◌, ◌*◌, ◌≤◌, ◌≡◌, ◌⊎◌, refl, ap, ◌∙◌, Bool, true, false, List, [], ◌∷◌, ◌++◌, Option, none,
  some, arith, get_elem?, set, inl, inr,
}
use go_uspclient.Protocol.Messages.{ControlMessage}
use go_uspclient.Client.State.{Client, set_receipt_lifetime}
use go_uspclient.Client.Threads.{
  Thread, marking, cancelling, sealing, stopping, locking, joining, collecting, releasing, shutting,
  returned, shrinking, rewinding, connecting, dialing, checking, starting, spawning, handing,
  publishing, unlocking, failing, waiting, finished, closes, reconnects, Answer, fails, reads,
  goes_on, answered, advance,
}
use go_uspclient.Client.Workers.{is_alive}
use go_uspclient.Client.System.{total, System, alive, recruits, enlist}
use go_uspclient.Client.Counting.{bit, total-append, total-set, weight-le}
use go_uspclient.Client.Turns.{holds, process_control_message-Quietly}
use go_uspclient.Client.Exclusion.{IsExclusive}

-- Whether the thread runs `Close`.
abbrev pub closers : Thread → ℕ
closers marking = 1
closers cancelling = 1
closers sealing = 1
closers (stopping closes) = 1
closers (locking closes) = 1
closers (joining closes) = 1
closers collecting = 1
closers (releasing ms) = 1
closers (shutting ms) = 1
closers (returned ms) = 1
closers t = 0

-- Whether it runs `Close` and has joined the workers.
abbrev pub through : Thread → ℕ
through collecting = 1
through (releasing ms) = 1
through (shutting ms) = 1
through (returned ms) = 1
through t = 0

-- Whether it has passed the last test of `isClosing` before the workers start.
abbrev pub armed : Thread → ℕ
armed starting = 1
armed spawning = 1
armed t = 0

-- No worker runs, no connection is held, and nobody is about to make one.
pub record IsShut (s : System) : Type 0 where
  pub closing : s.client.is_closing ≡ true
  pub no_worker : alive s ≡ 0
  pub no_conn : s.client.conn ≡ false
  pub unarmed : total armed s.threads ≡ 0

pub record IsOrderly (s : System) : Type 0 where
  pub sealed : (s.client.is_closing ≡ true) ⊎ (total closers s.threads ≡ 0)
  pub shut : IsShut s ⊎ (total through s.threads ≡ 0)

-- A thread's step comes through `disconnect` only by joining the workers under the lock, and once
-- `isClosing` is set it does not arm itself.
abbrev pub Orderly : ℕ → Thread → Client → Option (Thread × Client × Bool) → Type 0
Orderly n t c none = Unit
Orderly n t c (some (t', c', b)) =
    (closers t' ≤ closers t)
    × ((through t' ≤ through t)
        ⊎ ((closers t ≡ 1)
            × (n ≡ 0)
            × (c'.conn ≡ false)
            × (c'.is_locked ≡ false)
            × (total is_alive (recruits t) ≡ 0)))
    × (bit c.is_closing + armed t' ≤ 1 + armed t)
    × (bit c'.conn ≤ bit c.conn + armed t)
    × (total is_alive (recruits t) ≤ 3 * armed t)
    × (c'.is_closing ≡ c.is_closing)

answered-Orderly :
    (msg : ControlMessage) (n : ℕ) (c : Client) → Orderly n dialing c (some (answered msg c))
unfolding answered total
answered-Orderly msg n c = ground (arith, process_control_message-Quietly msg c)

dialing-Orderly : (a : Answer) (n : ℕ) (c : Client) → Orderly n dialing c (advance a n dialing c)
unfolding advance total
dialing-Orderly fails n c = ground arith
dialing-Orderly (reads msg) n c = answered-Orderly msg n c
dialing-Orderly goes_on n c = tt

waiting-Orderly : (a : Answer) (n : ℕ) (c : Client) → Orderly n waiting c (advance a n waiting c)
unfolding advance total
waiting-Orderly fails n c = ground arith
waiting-Orderly (reads msg) n c = tt
waiting-Orderly goes_on n c = ground arith

module _ (a : Answer) (n : ℕ) (c : Client) where
  pub advance-Orderly : (t : Thread) → Orderly n t c (advance a n t c)
  unfolding advance set_receipt_lifetime total
  advance-Orderly marking = ground arith
  advance-Orderly cancelling = ground arith
  advance-Orderly sealing = ground arith
  advance-Orderly (stopping closes) = ground arith
  advance-Orderly (stopping reconnects) = ground arith
  advance-Orderly (locking closes) = ground arith
  advance-Orderly (locking reconnects) = ground arith
  advance-Orderly (joining closes) = ground arith
  advance-Orderly (joining reconnects) = ground arith
  advance-Orderly collecting = ground arith
  advance-Orderly (releasing ms) = ground arith
  advance-Orderly (shutting ms) = ground arith
  advance-Orderly (returned ms) = ground arith
  advance-Orderly shrinking = ground arith
  advance-Orderly rewinding = ground arith
  advance-Orderly connecting = ground arith
  advance-Orderly dialing = dialing-Orderly a n c
  advance-Orderly checking = ground arith
  advance-Orderly starting = ground arith
  advance-Orderly spawning = ground arith
  advance-Orderly handing = ground arith
  advance-Orderly publishing = ground arith
  advance-Orderly unlocking = ground arith
  advance-Orderly failing = ground arith
  advance-Orderly waiting = waiting-Orderly a n c
  advance-Orderly finished = ground arith

-- A weight that a new reconnect goroutine does not have.
module _ (w : Thread → ℕ) (z : w (stopping reconnects) ≡ 0) where
  total-enlist : (b : Bool) → total w (enlist b) ≡ 0
  unfolding total
  total-enlist true = omega (arith, z)
  total-enlist false = refl

  pub total-spawn : (ts : List Thread) (b : Bool) → total w (ts ++ enlist b) ≡ total w ts
  total-spawn ts b = omega (arith, total-append w ts (enlist b), total-enlist b)

  total-turn :
      (ts : List Thread) (i : ℕ) (t t' : Thread) (b : Bool)
      → get_elem? ts i ≡ some t
      → total w (set ts i t' ++ enlist b) + w t ≡ total w ts + w t'
  total-turn ts i t t' b e = omega (arith, total-spawn (set ts i t') b, total-set w ts i t t' e)

armed-le-holds : (t : Thread) → armed t ≤ holds t
armed-le-holds starting = omega arith
armed-le-holds t = omega arith

total-armed-le-holds : (ts : List Thread) → total armed ts ≤ total holds ts
unfolding total
total-armed-le-holds [] = omega arith
total-armed-le-holds (t ∷ ts) = omega (arith, armed-le-holds t, total-armed-le-holds ts)

-- The state after a thread's step.
abbrev turned : ℕ → Thread → Thread → Client → Bool → System → System
turned i t t' c b s = record {
  client = c;
  threads = set s.threads i t' ++ enlist b;
  workers = s.workers ++ recruits t;
}

module _ (i : ℕ) (t t' : Thread) (s : System) (c : Client) (b : Bool)
    (e : get_elem? s.threads i ≡ some t) (o : Orderly (alive s) t s.client (some (t', c, b))) where
  -- Once shut, a step leaves it so.
  turn-IsShut : IsShut s → IsShut (turned i t t' c b s)
  turn-IsShut h =
      let idle : armed t ≡ 0 = omega (arith, weight-le armed s.threads i t e, h.unarmed) in
      record {
        closing = o.5 ∙ h.closing;
        no_worker =
            omega (arith, total-append is_alive s.workers (recruits t), h.no_worker, o.4, idle);
        no_conn = ground (arith, o.3, h.no_conn, idle);
        unarmed =
            ground
              (arith, total-turn armed refl s.threads i t t' b e, h.unarmed, idle, o.2, h.closing);
      }

  -- The step by which `Close` comes through `disconnect` shuts.
  join-IsShut :
      IsExclusive (turned i t t' c b s)
      → s.client.is_closing ≡ true
      → alive s ≡ 0
      → c.conn ≡ false
      → c.is_locked ≡ false
      → total is_alive (recruits t) ≡ 0
      → IsShut (turned i t t' c b s)
  join-IsShut x cl al co lo re = record {
    closing = o.5 ∙ cl;
    no_worker = omega (arith, total-append is_alive s.workers (recruits t));
    no_conn = co;
    unarmed = omega (arith, total-armed-le-holds (turned i t t' c b s).threads, x.lock, ap bit lo);
  }

  pub turn-IsOrderly :
      IsExclusive (turned i t t' c b s) → IsOrderly s → IsOrderly (turned i t t' c b s)
  turn-IsOrderly x y = record { sealed = still y.sealed; shut = kept y.shut }
    where
      still :
          (s.client.is_closing ≡ true) ⊎ (total closers s.threads ≡ 0)
          → (c.is_closing ≡ true) ⊎ (total closers (turned i t t' c b s).threads ≡ 0)
      still (inl q) = inl (o.5 ∙ q)
      still (inr q) = inr (omega (arith, q, o.0, total-turn closers refl s.threads i t t' b e))

      comes_through :
          (s.client.is_closing ≡ true) ⊎ (total closers s.threads ≡ 0)
          → total through s.threads ≡ 0
          → (through t' ≤ through t)
            ⊎ ((closers t ≡ 1)
                × (alive s ≡ 0)
                × (c.conn ≡ false)
                × (c.is_locked ≡ false)
                × (total is_alive (recruits t) ≡ 0))
          → IsShut (turned i t t' c b s) ⊎ (total through (turned i t t' c b s).threads ≡ 0)
      comes_through q z (inl l) =
          inr (omega (arith, z, l, total-turn through refl s.threads i t t' b e))
      comes_through (inl q) z (inr r) = inl (join-IsShut x q r.1 r.2 r.3 r.4)
      comes_through (inr q) z (inr r) =
          absurd (omega (arith, q, r.0, weight-le closers s.threads i t e))

      kept :
          IsShut s ⊎ (total through s.threads ≡ 0)
          → IsShut (turned i t t' c b s) ⊎ (total through (turned i t t' c b s).threads ≡ 0)
      kept (inl h) = inl (turn-IsShut h)
      kept (inr z) = comes_through y.sealed z o.1
