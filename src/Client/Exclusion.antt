-- ===== src/Client/Exclusion.antt =====
-- One goroutine holds `connMutex`, and one owns the reconnection.
use go_uspclient.Base.{
  ℕ, ◌≤◌, ◌≡◌, refl, ap, Bool, true, false, List, [], ◌∷◌, ◌++◌, Option, none, some, arith,
  get_elem?, set, ◌↔◌,
}
use go_uspclient.Buffer.State.{AckBuffer}
use go_uspclient.Client.State.{Client, new_client}
use go_uspclient.Client.Control.{reconnect}
use go_uspclient.Client.Receipts.{admission_receipt_owner}
use go_uspclient.Client.Threads.{Thread, marking, Answer}
use go_uspclient.Client.Workers.{Worker, Report}
use go_uspclient.Client.System.{
  total, System, alive, enlist, Move, advances, proceeds, asks_reconnect, asks_close, asks_drain,
  ships, times_out, drains, binds, after_thread, after_worker, step_thread, step_worker, move,
  moves, new_system,
}
use go_uspclient.Client.Counting.{bit, total-append, total-set, weight-le}
use go_uspclient.Client.Turns.{
  holds, owns, AfterTurn, advance-AfterTurn, Quietly, AfterWork, proceed-AfterWork,
  reconnect-Quietly,
}

-- As many threads hold the lock as it says, and as many own the reconnection as its flag says.
pub record IsExclusive (s : System) : Type 0 where
  pub lock : total holds s.threads ≡ bit s.client.is_locked
  pub flag : total owns s.threads ≡ bit s.client.is_reconnecting

enlist-holds : (b : Bool) → total holds (enlist b) ≡ 0
unfolding total
enlist-holds true = refl
enlist-holds false = refl

enlist-owns : (b : Bool) → total owns (enlist b) ≡ bit b
unfolding total
enlist-owns true = refl
enlist-owns false = refl

-- Threads that join change neither count but by a reconnect goroutine.
spawn-IsExclusive :
    (s : System) (c : Client) (ws : List Worker) (b : Bool)
    → Quietly s.client c b
    → IsExclusive s
    → IsExclusive (record { client = c; threads = s.threads ++ enlist b; workers = ws })
spawn-IsExclusive s c ws b q x = record {
  lock = omega (arith, total-append holds s.threads (enlist b), enlist-holds b, x.lock, ap bit q.0);
  flag = omega (arith, total-append owns s.threads (enlist b), enlist-owns b, x.flag, q.4);
}

-- A thread's step moves its weights with the lock and the flag.
thread-IsExclusive :
    (i : ℕ) (t t' : Thread) (s : System) (c : Client) (ws : List Worker) (b : Bool)
    → get_elem? s.threads i ≡ some t
    → AfterTurn t s.client (some (t', c, b))
    → IsExclusive s
    → IsExclusive (record { client = c; threads = set s.threads i t' ++ enlist b; workers = ws })
thread-IsExclusive i t t' s c ws b e a x = record {
  lock = omega (
    arith,
    total-append holds (set s.threads i t') (enlist b),
    enlist-holds b,
    total-set holds s.threads i t t' e,
    x.lock,
    a.0,
  );
  flag = omega (
    arith,
    total-append owns (set s.threads i t') (enlist b),
    enlist-owns b,
    total-set owns s.threads i t t' e,
    x.flag,
    a.1,
  );
}

after_thread-IsExclusive :
    (i : ℕ) (t : Thread) (r : Option (Thread × Client × Bool)) (s : System)
    → get_elem? s.threads i ≡ some t
    → AfterTurn t s.client r
    → IsExclusive s
    → IsExclusive (after_thread i t r s)
after_thread-IsExclusive i t none s e a x = x
after_thread-IsExclusive i t (some (t', c, b)) s e a x = thread-IsExclusive i t t' s c _ b e a x

step_thread-IsExclusive :
    (i : ℕ) (a : Answer) (o : Option Thread) (s : System)
    → get_elem? s.threads i ≡ o
    → IsExclusive s
    → IsExclusive (step_thread i a o s)
unfolding step_thread
step_thread-IsExclusive i a none s e x = x
step_thread-IsExclusive i a (some t) s e x =
    after_thread-IsExclusive i t _ s e
      (advance-AfterTurn a (alive s) s.client t
        (omega (arith, weight-le holds s.threads i t e, x.lock))
        (omega (arith, weight-le owns s.threads i t e, x.flag)))
      x

after_worker-IsExclusive :
    (i : ℕ) (r : Option (Worker × Client × Bool)) (s : System)
    → AfterWork s.client r
    → IsExclusive s
    → IsExclusive (after_worker i r s)
after_worker-IsExclusive i none s a x = x
after_worker-IsExclusive i (some (w, c, b)) s a x = spawn-IsExclusive s c _ b a x

step_worker-IsExclusive :
    (i : ℕ) (r : Report) (o : Option Worker) (s : System)
    → IsExclusive s
    → IsExclusive (step_worker i r o s)
unfolding step_worker
step_worker-IsExclusive i r none s x = x
step_worker-IsExclusive i r (some w) s x =
    after_worker-IsExclusive i _ s (proceed-AfterWork r w.phase w s.client) x

pub move-IsExclusive : (m : Move) (s : System) → IsExclusive s → IsExclusive (move m s)
unfolding move
move-IsExclusive (advances i a) s x = step_thread-IsExclusive i a _ s refl x
move-IsExclusive (proceeds i r) s x = step_worker-IsExclusive i r _ s x
move-IsExclusive asks_reconnect s x =
    spawn-IsExclusive s (reconnect s.client).1 s.workers (reconnect s.client).0
      (reconnect-Quietly s.client) x
move-IsExclusive asks_close s x = record {
  lock = unfold total in omega (arith, total-append holds s.threads (marking ∷ []), x.lock);
  flag = unfold total in omega (arith, total-append owns s.threads (marking ∷ []), x.flag);
}
move-IsExclusive asks_drain s x = record { lock = x.lock; flag = x.flag }
move-IsExclusive (ships e waiter receipt limit) s x = record { lock = x.lock; flag = x.flag }
move-IsExclusive (times_out waiter) s x = record { lock = x.lock; flag = x.flag }
move-IsExclusive (drains done) s x = record { lock = x.lock; flag = x.flag }
move-IsExclusive binds s x =
    unfold admission_receipt_owner in record { lock = x.lock; flag = x.flag }

pub moves-IsExclusive : (ms : List Move) (s : System) → IsExclusive s → IsExclusive (moves ms s)
unfolding moves
moves-IsExclusive [] s x = x
moves-IsExclusive (m ∷ ms) s x = moves-IsExclusive ms (move m s) (move-IsExclusive m s x)

pub new_system-IsExclusive : (b : AckBuffer) → IsExclusive (new_system b)
unfolding new_system new_client total
new_system-IsExclusive b = record { lock = refl; flag = refl }

-- In every schedule of a connected client's goroutines, its callers and the network, at most one
-- thread is between `connMutex.Lock()` and its unlock, and at most one goroutine owns the
-- reconnection, and then `isReconnecting` says so.
pub moves-exclusive :
    (ms : List Move) (b : AckBuffer)
    → let s = moves ms (new_system b) in
      (total holds s.threads ≤ 1)
      × (total owns s.threads ≤ 1)
      × ((total owns s.threads ≡ 1) ↔ (s.client.is_reconnecting ≡ true))
moves-exclusive ms b =
    let x = moves-IsExclusive ms (new_system b) (new_system-IsExclusive b) in
    (
      ground (arith, x.lock),
      ground (arith, x.flag),
      ((λ e. ground (arith, x.flag)), λ e. ground (arith, x.flag)),
    )
