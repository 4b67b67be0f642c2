-- ===== src/Client/Shutdown.antt =====
-- That nothing outlives `Close`, over schedules.
use go_uspclient.Base.{
  ℕ, ◌≤◌, ◌≡◌, ◌⊎◌, refl, ◌∙◌, Bool, true, List, [], ◌∷◌, ◌++◌, Option, none, some, arith,
  get_elem?, inl, inr,
}
use go_uspclient.Protocol.Messages.{DataMessage}
use go_uspclient.Buffer.State.{AckBuffer}
use go_uspclient.Client.State.{Client, new_client}
use go_uspclient.Client.Control.{reconnect}
use go_uspclient.Client.Receipts.{admission_receipt_owner}
use go_uspclient.Client.Threads.{Thread, marking, returned, Answer}
use go_uspclient.Client.Workers.{
  Worker, Phase, starts, loops, busy, throttled, exited, Report, proceed, is_alive,
}
use go_uspclient.Client.System.{
  total, System, alive, enlist, Move, advances, proceeds, asks_reconnect, asks_close, asks_drain,
  ships, times_out, drains, binds, with_buffer, after_thread, after_worker, step_thread,
  step_worker, move, moves, new_system,
}
use go_uspclient.Client.Counting.{total-append, total-set, weight-le}
use go_uspclient.Client.Turns.{Quietly, AfterWork, proceed-AfterWork, reconnect-Quietly}
use go_uspclient.Client.Exclusion.{IsExclusive, move-IsExclusive, new_system-IsExclusive}
use go_uspclient.Client.Closing.{
  closers, through, armed, IsShut, IsOrderly, Orderly, advance-Orderly, total-spawn, turn-IsOrderly,
}

after_thread-IsOrderly :
    (i : ℕ) (t : Thread) (r : Option (Thread × Client × Bool)) (s : System)
    → get_elem? s.threads i ≡ some t
    → Orderly (alive s) t s.client r
    → IsExclusive (after_thread i t r s)
    → IsOrderly s
    → IsOrderly (after_thread i t r s)
after_thread-IsOrderly i t none s e o x y = y
after_thread-IsOrderly i t (some (t', c, b)) s e o x y = turn-IsOrderly i t t' s c b e o x y

step_thread-IsOrderly :
    (i : ℕ) (a : Answer) (o : Option Thread) (s : System)
    → get_elem? s.threads i ≡ o
    → IsExclusive (step_thread i a o s)
    → IsOrderly s
    → IsOrderly (step_thread i a o s)
unfolding step_thread
step_thread-IsOrderly i a none s e x y = y
step_thread-IsOrderly i a (some t) s e x y =
    after_thread-IsOrderly i t _ s e (advance-Orderly a (alive s) s.client t) x y

-- A state in which at most as many workers run, beside perhaps one more reconnect goroutine.
spawn-IsOrderly :
    (s : System) (c : Client) (ws : List Worker) (b : Bool)
    → Quietly s.client c b
    → total is_alive ws ≤ alive s
    → IsOrderly s
    → IsOrderly (record { client = c; threads = s.threads ++ enlist b; workers = ws })
spawn-IsOrderly s c ws b q l y = record { sealed = still y.sealed; shut = kept y.shut }
  where
    next : System
    next = record { client = c; threads = s.threads ++ enlist b; workers = ws }

    still :
        (s.client.is_closing ≡ true) ⊎ (total closers s.threads ≡ 0)
        → (c.is_closing ≡ true) ⊎ (total closers next.threads ≡ 0)
    still (inl h) = inl (q.1 ∙ h)
    still (inr h) = inr (total-spawn closers refl s.threads b ∙ h)

    kept : IsShut s ⊎ (total through s.threads ≡ 0) → IsShut next ⊎ (total through next.threads ≡ 0)
    kept (inl h) = inl (record {
      closing = q.1 ∙ h.closing;
      no_worker = omega (arith, l, h.no_worker);
      no_conn = q.3 ∙ h.no_conn;
      unarmed = total-spawn armed refl s.threads b ∙ h.unarmed;
    })
    kept (inr h) = inr (total-spawn through refl s.threads b ∙ h)

-- A worker that takes a step has not returned.
abbrev phase_alive : Phase → ℕ
phase_alive exited = 0
phase_alive p = 1

abbrev NotRevived : Phase → Option (Worker × Client × Bool) → Type 0
NotRevived p none = Unit
NotRevived p (some (w, c, b)) = is_alive w ≤ phase_alive p

phase_alive-le : (w : Worker) → is_alive w ≤ 1
phase_alive-le w = ground arith

any-NotRevived : (o : Option (Worker × Client × Bool)) → NotRevived busy o
any-NotRevived none = tt
any-NotRevived (some (w, c, b)) = phase_alive-le w

proceed-NotRevived :
    (r : Report) (p : Phase) (w : Worker) (c : Client) → NotRevived p (proceed r p w c)
unfolding proceed
proceed-NotRevived r starts w c = any-NotRevived (proceed r starts w c)
proceed-NotRevived r loops w c = any-NotRevived (proceed r loops w c)
proceed-NotRevived r busy w c = any-NotRevived (proceed r busy w c)
proceed-NotRevived r (throttled n) w c = any-NotRevived (proceed r (throttled n) w c)
proceed-NotRevived r exited w c = tt

after_worker-IsOrderly :
    (i : ℕ) (w : Worker) (r : Option (Worker × Client × Bool)) (s : System)
    → get_elem? s.workers i ≡ some w
    → AfterWork s.client r
    → NotRevived w.phase r
    → IsOrderly s
    → IsOrderly (after_worker i r s)
after_worker-IsOrderly i w none s e a n y = y
after_worker-IsOrderly i w (some (w', c, b)) s e a n y =
    spawn-IsOrderly s c _ b a
      (omega (arith, n, total-set is_alive s.workers i w w' e, phase_alive-worker w)) y
  where
    phase_alive-worker : (x : Worker) → phase_alive x.phase ≡ is_alive x
    phase_alive-worker x = ground arith

step_worker-IsOrderly :
    (i : ℕ) (r : Report) (o : Option Worker) (s : System)
    → get_elem? s.workers i ≡ o
    → IsOrderly s
    → IsOrderly (step_worker i r o s)
unfolding step_worker
step_worker-IsOrderly i r none s e y = y
step_worker-IsOrderly i r (some w) s e y =
    after_worker-IsOrderly i w _ s e (proceed-AfterWork r w.phase w s.client)
      (proceed-NotRevived r w.phase w s.client) y

-- A step that changes the buffer only.
buffer-IsOrderly : (b : AckBuffer) (s : System) → IsOrderly s → IsOrderly (with_buffer b s)
buffer-IsOrderly b s y = record { sealed = y.sealed; shut = kept y.shut }
  where
    kept :
        IsShut s ⊎ (total through s.threads ≡ 0)
        → IsShut (with_buffer b s) ⊎ (total through s.threads ≡ 0)
    kept (inl h) = inl (record {
      closing = h.closing;
      no_worker = h.no_worker;
      no_conn = h.no_conn;
      unarmed = h.unarmed;
    })
    kept (inr h) = inr h

close-IsOrderly : (s : System) → IsOrderly s → IsOrderly (move asks_close s)
unfolding move
close-IsOrderly s y = record { sealed = inl refl; shut = kept y.shut }
  where
    kept :
        IsShut s ⊎ (total through s.threads ≡ 0)
        → IsShut (move asks_close s) ⊎ (total through (s.threads ++ marking ∷ []) ≡ 0)
    kept (inl h) = inl (record {
      closing = refl;
      no_worker = h.no_worker;
      no_conn = h.no_conn;
      unarmed =
          unfold total in omega (arith, total-append armed s.threads (marking ∷ []), h.unarmed);
    })
    kept (inr h) =
        inr (unfold total in omega (arith, total-append through s.threads (marking ∷ []), h))

move-IsOrderly :
    (m : Move) (s : System) → IsExclusive (move m s) → IsOrderly s → IsOrderly (move m s)
unfolding move
move-IsOrderly (advances i a) s x y = step_thread-IsOrderly i a _ s refl x y
move-IsOrderly (proceeds i r) s x y = step_worker-IsOrderly i r _ s refl y
move-IsOrderly asks_reconnect s x y =
    spawn-IsOrderly s (reconnect s.client).1 s.workers (reconnect s.client).0
      (reconnect-Quietly s.client) (omega arith) y
move-IsOrderly asks_close s x y = close-IsOrderly s y
move-IsOrderly asks_drain s x y = buffer-IsOrderly _ s y
move-IsOrderly (ships e waiter receipt limit) s x y = buffer-IsOrderly _ s y
move-IsOrderly (times_out waiter) s x y = buffer-IsOrderly _ s y
move-IsOrderly (drains done) s x y = buffer-IsOrderly _ s y
move-IsOrderly binds s x y =
    unfold admission_receipt_owner in
    record {
      sealed = y.sealed;
      shut = elim y.shut [
        | inl h ↦ inl (record {
          closing = h.closing;
          no_worker = h.no_worker;
          no_conn = h.no_conn;
          unarmed = h.unarmed;
        })
        | inr z ↦ inr z
      ];
    }

moves-IsOrderly :
    (ms : List Move) (s : System) → IsExclusive s → IsOrderly s → IsOrderly (moves ms s)
unfolding moves
moves-IsOrderly [] s x y = y
moves-IsOrderly (m ∷ ms) s x y =
    let x' = move-IsExclusive m s x in moves-IsOrderly ms (move m s) x' (move-IsOrderly m s x' y)

new_system-IsOrderly : (b : AckBuffer) → IsOrderly (new_system b)
unfolding new_system new_client total
new_system-IsOrderly b = record { sealed = inr refl; shut = inr refl }

-- In every schedule: once a call of `Close` has returned, `isClosing` is set, no worker runs,
-- `conn` is nil, and no goroutine is past the last test of `isClosing` that stands before the start
-- of workers; so no reconnection outlives `Close`.
pub returned-IsShut :
    (ms : List Move) (b : AckBuffer) (i : ℕ) (messages : List (Option DataMessage))
    → get_elem? (moves ms (new_system b)).threads i ≡ some (returned messages)
    → IsShut (moves ms (new_system b))
returned-IsShut ms b i messages e =
    only
      (moves-IsOrderly ms (new_system b) (new_system-IsExclusive b) (new_system-IsOrderly b)).shut
  where
    s : System
    s = moves ms (new_system b)

    only : IsShut s ⊎ (total through s.threads ≡ 0) → IsShut s
    only (inl h) = h
    only (inr z) = absurd (omega (arith, z, weight-le through s.threads i (returned messages) e))
