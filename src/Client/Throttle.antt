-- ===== src/Client/Throttle.antt =====
-- The bound on the sender's wait.
use go_uspclient.Base.{
  ℕ, zero, suc, ◌*◌, ◌^◌, ◌≤◌, ◌<◌, ◌≡◌, Bool, true, false, ◌==◌, List, [], ◌∷◌, ◌++◌, Option, none,
  some, arith, get_elem?, set, if◌then◌else◌,
}
use go_uspclient.Protocol.Messages.{DataMessage}
use go_uspclient.Buffer.State.{AckBuffer}
use go_uspclient.Buffer.Deliver.{get_next_to_deliver}
use go_uspclient.Client.State.{Client}
use go_uspclient.Client.Threads.{Thread, Answer}
use go_uspclient.Client.Workers.{
  Worker, Kind, listener, sender, keep_alive, Phase, starts, loops, busy, throttled, exited, Report,
  on, breaks, takes, garbles, fires, gives, max_backoff, cap_backoff, break_off, listen, transmit,
  transmitted, send, ping, serve, wake_up, proceed,
}
use go_uspclient.Client.System.{
  System, Move, advances, proceeds, asks_reconnect, asks_close, asks_drain, ships, times_out,
  drains, binds, recruits, after_thread, after_worker, step_thread, step_worker, move, moves,
  new_system,
}

-- A wait is of a day at most.
abbrev IsCapped : Phase → Type 0
IsCapped (throttled n) = n ≤ max_backoff
IsCapped p = Unit

abbrev CappedAfter : Option (Worker × Client × Bool) → Type 0
CappedAfter none = Unit
CappedAfter (some (w, c, b)) = IsCapped w.phase

cap_backoff-le : (n : ℕ) → cap_backoff n ≤ max_backoff
unfolding cap_backoff
cap_backoff-le n = ground arith

if_CappedAfter :
    (t : Bool) (x y : Option (Worker × Client × Bool))
    → CappedAfter x
    → CappedAfter y
    → CappedAfter (if t then x else y)
if_CappedAfter true x y h k = h
if_CappedAfter false x y h k = k

break_off-CappedAfter : (w : Worker) (c : Client) → CappedAfter (some (break_off w c))
unfolding break_off
break_off-CappedAfter w c = tt

transmitted-CappedAfter :
    (r : Report) (m : Option DataMessage) (w : Worker) (c : Client)
    → CappedAfter (transmitted r m w c)
unfolding transmitted
transmitted-CappedAfter on none w c = tt
transmitted-CappedAfter breaks none w c = tt
transmitted-CappedAfter takes none w c = tt
transmitted-CappedAfter garbles none w c = tt
transmitted-CappedAfter fires none w c = tt
transmitted-CappedAfter (gives msg) none w c = tt
transmitted-CappedAfter on (some m) w c = tt
transmitted-CappedAfter breaks (some m) w c = break_off-CappedAfter w c
transmitted-CappedAfter takes (some m) w c = if_CappedAfter c.is_socket_open _ _ tt tt
transmitted-CappedAfter garbles (some m) w c = tt
transmitted-CappedAfter fires (some m) w c = tt
transmitted-CappedAfter (gives msg) (some m) w c = tt

listen-CappedAfter : (r : Report) (w : Worker) (c : Client) → CappedAfter (listen r w c)
unfolding listen
listen-CappedAfter on w c = tt
listen-CappedAfter breaks w c = break_off-CappedAfter w c
listen-CappedAfter takes w c = tt
listen-CappedAfter garbles w c = tt
listen-CappedAfter fires w c = tt
listen-CappedAfter (gives msg) w c = tt

ping-CappedAfter : (r : Report) (w : Worker) (c : Client) → CappedAfter (ping r w c)
unfolding ping
ping-CappedAfter on w c = tt
ping-CappedAfter breaks w c = break_off-CappedAfter w c
ping-CappedAfter takes w c = if_CappedAfter c.is_socket_open _ _ tt tt
ping-CappedAfter garbles w c = tt
ping-CappedAfter fires w c = tt
ping-CappedAfter (gives msg) w c = tt

send-CappedAfter : (r : Report) (w : Worker) (c : Client) → CappedAfter (send r w c)
unfolding send transmit
send-CappedAfter r w c =
    if_CappedAfter (c.backoff_time == 0) _ _
      (transmitted-CappedAfter r (get_next_to_deliver c.buffer).0 w
        (record c { buffer = (get_next_to_deliver c.buffer).1 }))
      (cap_backoff-le c.backoff_time)

serve-CappedAfter : (r : Report) (k : Kind) (w : Worker) (c : Client) → CappedAfter (serve r k w c)
unfolding serve
serve-CappedAfter r listener w c = listen-CappedAfter r w c
serve-CappedAfter r sender w c = send-CappedAfter r w c
serve-CappedAfter r keep_alive w c = ping-CappedAfter r w c

wake_up-CappedAfter : (r : Report) (w : Worker) (c : Client) → CappedAfter (wake_up r w c)
unfolding wake_up
wake_up-CappedAfter on w c = tt
wake_up-CappedAfter breaks w c = if_CappedAfter c.is_cancelled _ _ tt tt
wake_up-CappedAfter takes w c = tt
wake_up-CappedAfter garbles w c = tt
wake_up-CappedAfter fires w c = tt
wake_up-CappedAfter (gives msg) w c = tt

proceed-CappedAfter :
    (r : Report) (p : Phase) (w : Worker) (c : Client) → CappedAfter (proceed r p w c)
unfolding proceed
proceed-CappedAfter r starts w c = if_CappedAfter c.is_start.v _ _ tt tt
proceed-CappedAfter r loops w c = if_CappedAfter c.is_stop.v _ _ tt tt
proceed-CappedAfter r busy w c = serve-CappedAfter r w.kind w c
proceed-CappedAfter r (throttled n) w c = wake_up-CappedAfter r w c
proceed-CappedAfter r exited w c = tt

abbrev AllCapped : List Worker → Type 0
AllCapped [] = Unit
AllCapped (w ∷ ws) = IsCapped w.phase × AllCapped ws

AllCapped-append : (ws vs : List Worker) → AllCapped ws → AllCapped vs → AllCapped (ws ++ vs)
AllCapped-append [] vs h k = k
AllCapped-append (w ∷ ws) vs h k = (h.0, AllCapped-append ws vs h.1 k)

AllCapped-set :
    (ws : List Worker) (i : ℕ) (w : Worker)
    → AllCapped ws
    → IsCapped w.phase
    → AllCapped (set ws i w)
AllCapped-set [] i w h k = tt
AllCapped-set (v ∷ ws) zero w h k = (k, h.1)
AllCapped-set (v ∷ ws) (suc i) w h k = (h.0, AllCapped-set ws i w h.1 k)

AllCapped-get :
    (ws : List Worker) (i : ℕ) (w : Worker)
    → get_elem? ws i ≡ some w
    → AllCapped ws
    → IsCapped w.phase
AllCapped-get [] i w e h = absurd (cc)
AllCapped-get (v ∷ ws) zero w e h = let q : v ≡ w = cc e in rw (← q) h.0
AllCapped-get (v ∷ ws) (suc i) w e h = AllCapped-get ws i w e h.1

recruits-AllCapped : (t : Thread) → AllCapped (recruits t)
recruits-AllCapped t = ground arith

after_thread-AllCapped :
    (i : ℕ) (t : Thread) (r : Option (Thread × Client × Bool)) (s : System)
    → AllCapped s.workers
    → AllCapped (after_thread i t r s).workers
after_thread-AllCapped i t none s h = h
after_thread-AllCapped i t (some (t', c, b)) s h =
    AllCapped-append s.workers (recruits t) h (recruits-AllCapped t)

step_thread-AllCapped :
    (i : ℕ) (a : Answer) (o : Option Thread) (s : System)
    → AllCapped s.workers
    → AllCapped (step_thread i a o s).workers
unfolding step_thread
step_thread-AllCapped i a none s h = h
step_thread-AllCapped i a (some t) s h = after_thread-AllCapped i t _ s h

after_worker-AllCapped :
    (i : ℕ) (r : Option (Worker × Client × Bool)) (s : System)
    → CappedAfter r
    → AllCapped s.workers
    → AllCapped (after_worker i r s).workers
after_worker-AllCapped i none s k h = h
after_worker-AllCapped i (some (w, c, b)) s k h = AllCapped-set s.workers i w h k

step_worker-AllCapped :
    (i : ℕ) (r : Report) (o : Option Worker) (s : System)
    → AllCapped s.workers
    → AllCapped (step_worker i r o s).workers
unfolding step_worker
step_worker-AllCapped i r none s h = h
step_worker-AllCapped i r (some w) s h =
    after_worker-AllCapped i _ s (proceed-CappedAfter r w.phase w s.client) h

move-AllCapped : (m : Move) (s : System) → AllCapped s.workers → AllCapped (move m s).workers
unfolding move
move-AllCapped (advances i a) s h = step_thread-AllCapped i a _ s h
move-AllCapped (proceeds i r) s h = step_worker-AllCapped i r _ s h
move-AllCapped asks_reconnect s h = h
move-AllCapped asks_close s h = h
move-AllCapped asks_drain s h = h
move-AllCapped (ships e waiter receipt limit) s h = h
move-AllCapped (times_out waiter) s h = h
move-AllCapped (drains done) s h = h
move-AllCapped binds s h = h

moves-AllCapped :
    (ms : List Move) (s : System) → AllCapped s.workers → AllCapped (moves ms s).workers
unfolding moves
moves-AllCapped [] s h = h
moves-AllCapped (m ∷ ms) s h = moves-AllCapped ms (move m s) (move-AllCapped m s h)

new_system-AllCapped : (b : AckBuffer) → AllCapped (new_system b).workers
unfolding new_system
new_system-AllCapped b = (tt, (tt, (tt, tt)))

capped_throttle : (p : Phase) (n : ℕ) → p ≡ throttled n → IsCapped p → n ≤ max_backoff
capped_throttle starts n e h = absurd (cc e)
capped_throttle loops n e h = absurd (cc e)
capped_throttle busy n e h = absurd (cc e)
capped_throttle (throttled m) n e h = let q : m ≡ n = cc e in rw (← q) h
capped_throttle exited n e h = absurd (cc e)

-- In every schedule of a connected client, whatever throttle the proxy sends, a worker that waits
-- for it waits for a day at most, which in nanoseconds fits a signed 64-bit number.
pub throttled_bound :
    (ms : List Move) (b : AckBuffer) (i n : ℕ) (w : Worker)
    → get_elem? (moves ms (new_system b)).workers i ≡ some w
    → w.phase ≡ throttled n
    → (n ≤ 24 * 3600) × (n * 10 ^ 9 < 2 ^ 63)
throttled_bound ms b i n w e p =
    let h = AllCapped-get _ i w e (moves-AllCapped ms (new_system b) (new_system-AllCapped b)) in
    let k = capped_throttle w.phase n p h in (omega (arith, k), omega (arith, k))
