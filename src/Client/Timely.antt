-- ===== src/Client/Timely.antt =====
-- Before and after a call of `Close` returns.
use go_uspclient.Base.{
  ℕ, zero, suc, ◌≡◌, refl, Bool, true, false, List, [], ◌∷◌, ◌++◌, Option, none, some, get_elem?,
  set,
}
use go_uspclient.Buffer.State.{AckBuffer}
use go_uspclient.Client.State.{Client}
use go_uspclient.Client.Threads.{Thread, Answer}
use go_uspclient.Client.Workers.{Worker, Report}
use go_uspclient.Client.System.{
  System, alive, enlist, Move, advances, proceeds, asks_reconnect, asks_close, asks_drain, ships,
  times_out, drains, binds, after_thread, after_worker, step_thread, step_worker, move, moves,
  new_system,
}
use go_uspclient.Client.Keeping.{AllFitMoves}
use go_uspclient.Client.Threading.{move_keeps}
use go_uspclient.Client.Ending.{Due, Due-kept, DueAfter, advance-DueAfter}

abbrev AllDue : List Thread → Client → Type 0
AllDue [] c = Unit
AllDue (t ∷ ts) c = Due t c × AllDue ts c

AllDue-map :
    (ts : List Thread) (c c' : Client)
    → ((t : Thread) → Due t c → Due t c')
    → AllDue ts c
    → AllDue ts c'
AllDue-map [] c c' k h = tt
AllDue-map (t ∷ ts) c c' k h = (k t h.0, AllDue-map ts c c' k h.1)

module _ (c : Client) where
  AllDue-append : (ts us : List Thread) → AllDue ts c → AllDue us c → AllDue (ts ++ us) c
  AllDue-append [] us h k = k
  AllDue-append (t ∷ ts) us h k = (h.0, AllDue-append ts us h.1 k)

  AllDue-enlist : (ts : List Thread) (b : Bool) → AllDue ts c → AllDue (ts ++ enlist b) c
  AllDue-enlist ts true h = AllDue-append ts _ h (tt, tt)
  AllDue-enlist ts false h = AllDue-append ts _ h tt

  AllDue-set :
      (ts : List Thread) (i : ℕ) (t : Thread) → AllDue ts c → Due t c → AllDue (set ts i t) c
  AllDue-set [] i t h d = tt
  AllDue-set (u ∷ ts) zero t h d = (d, h.1)
  AllDue-set (u ∷ ts) (suc i) t h d = (h.0, AllDue-set ts i t h.1 d)

  pub AllDue-get :
      (ts : List Thread) (i : ℕ) (t : Thread) → get_elem? ts i ≡ some t → AllDue ts c → Due t c
  AllDue-get [] i t e h = absurd (cc)
  AllDue-get (u ∷ ts) zero t e h = (let q : u ≡ t = cc e in rw (← q) h.0)
  AllDue-get (u ∷ ts) (suc i) t e h = AllDue-get ts i t e h.1

-- Every thread has done what it should have by now.
abbrev OnTime : System → Type 0
OnTime s = AllDue s.threads s.client

after_thread-OnTime :
    (i : ℕ) (t : Thread) (r : Option (Thread × Client × Bool)) (s : System)
    → DueAfter r
    → AllDue s.threads (after_thread i t r s).client
    → OnTime (after_thread i t r s)
after_thread-OnTime i t none s d h = h
after_thread-OnTime i t (some (t', c, b)) s d h =
    AllDue-enlist c _ b (AllDue-set c s.threads i t' h d)

step_thread-OnTime :
    (i : ℕ) (a : Answer) (o : Option Thread) (s : System)
    → get_elem? s.threads i ≡ o
    → OnTime s
    → AllDue s.threads (step_thread i a o s).client
    → OnTime (step_thread i a o s)
unfolding step_thread
step_thread-OnTime i a none s e h k = k
step_thread-OnTime i a (some t) s e h k =
    after_thread-OnTime i t _ s
      (advance-DueAfter a (alive s) s.client t (AllDue-get s.client s.threads i t e h)) k

after_worker-OnTime :
    (i : ℕ) (r : Option (Worker × Client × Bool)) (s : System)
    → AllDue s.threads (after_worker i r s).client
    → OnTime (after_worker i r s)
after_worker-OnTime i none s h = h
after_worker-OnTime i (some (w, c, b)) s h = AllDue-enlist c s.threads b h

step_worker-OnTime :
    (i : ℕ) (r : Report) (o : Option Worker) (s : System)
    → AllDue s.threads (step_worker i r o s).client
    → OnTime (step_worker i r o s)
unfolding step_worker
step_worker-OnTime i r none s h = h
step_worker-OnTime i r (some w) s h = after_worker-OnTime i _ s h

-- The threads of the next state, given that those of this one are on time in it.
turn-OnTime :
    (m : Move) (s : System) → OnTime s → AllDue s.threads (move m s).client → OnTime (move m s)
unfolding move
turn-OnTime (advances i a) s h k = step_thread-OnTime i a _ s refl h k
turn-OnTime (proceeds i r) s h k = step_worker-OnTime i r _ s k
turn-OnTime asks_reconnect s h k = AllDue-enlist _ s.threads _ k
turn-OnTime asks_close s h k = AllDue-append _ s.threads _ k (tt, tt)
turn-OnTime asks_drain s h k = k
turn-OnTime (ships e waiter receipt limit) s h k = k
turn-OnTime (times_out waiter) s h k = k
turn-OnTime (drains done) s h k = k
turn-OnTime binds s h k = k

pub moves-OnTime : (ms : List Move) (s : System) → AllFitMoves ms → OnTime s → OnTime (moves ms s)
unfolding moves
moves-OnTime [] s f h = h
moves-OnTime (m ∷ ms) s f h =
    let k = AllDue-map s.threads s.client _ (λ t. move_keeps (Due-kept t) m s f.0) h in
    moves-OnTime ms (move m s) f.1 (turn-OnTime m s h k)

pub new_system-OnTime : (b : AckBuffer) → OnTime (new_system b)
unfolding new_system
new_system-OnTime b = tt
