-- ===== src/Client/Hang.antt =====
-- A `Close` that runs between the last test of `isClosing` in `connectBeforeWorkers` and its
-- `isStop.Clear()`.
use go_uspclient.Base.{
  ℕ, zero, suc, ◌≤◌, ◌≡◌, ◌⊎◌, refl, ap, ◌∙◌, Bool, true, false, List, [], ◌∷◌, ◌++◌, Option, none,
  some, arith, get_elem?, set, inl, inr,
}
use go_uspclient.Event.{Event}
use go_uspclient.Buffer.State.{AckBuffer, sample_wake, signal_locked}
use go_uspclient.Buffer.Control.{begin_drain, drain_round}
use go_uspclient.Buffer.Blocking.{size_of, add_timeout, add_round_stopped, cancel_waiter}
use go_uspclient.Client.State.{Client}
use go_uspclient.Client.Control.{reconnect}
use go_uspclient.Client.Receipts.{admission_receipt_owner}
use go_uspclient.Client.Threads.{Thread, joining, finished, closes, Answer, advance}
use go_uspclient.Client.Workers.{Worker, Report, is_alive}
use go_uspclient.Client.System.{
  System, alive, Move, advances, proceeds, asks_reconnect, asks_close, asks_drain, ships, times_out,
  drains, binds, with_buffer, after_worker, step_thread, step_worker, move, moves,
}
use go_uspclient.Client.Counting.{weight-le}
use go_uspclient.Client.Looping.{
  IsHung, Looping, HungAfter, StillLooping, NoFrame, proceed-HungAfter, proceed_looping,
}

-- `Close` joins the workers, and no other thread can take a step.
abbrev pub Parked : List Thread → Type 0
Parked [] = Unit
Parked (t ∷ ts) = ((t ≡ finished) ⊎ (t ≡ joining closes)) × Parked ts

pub record IsStuck (j : ℕ) (s : System) : Type 0 where
  pub hung : IsHung s.client
  pub parked : Parked s.threads
  pub looping : (w : Worker) × (get_elem? s.workers j ≡ some w) × Looping w

Parked-get :
    (ts : List Thread) (i : ℕ) (t : Thread)
    → Parked ts
    → get_elem? ts i ≡ some t
    → (t ≡ finished) ⊎ (t ≡ joining closes)
Parked-get [] i t p e = absurd (cc)
Parked-get (x ∷ ts) zero t p e = let q : x ≡ t = cc in rw (← q) p.0
Parked-get (x ∷ ts) (suc i) t p e = Parked-get ts i t p.1 e

get_elem?-set :
    (ws : List Worker) (i j : ℕ) (w w' x : Worker)
    → get_elem? ws i ≡ some w
    → get_elem? ws j ≡ some x
    → (get_elem? (set ws i w') j ≡ some x) ⊎ ((i ≡ j) × (get_elem? (set ws i w') j ≡ some w'))
get_elem?-set [] i j w w' x e f = absurd (cc)
get_elem?-set (y ∷ ws) zero zero w w' x e f = inr (refl, refl)
get_elem?-set (y ∷ ws) zero (suc j) w w' x e f = inl f
get_elem?-set (y ∷ ws) (suc i) zero w w' x e f = inl f
get_elem?-set (y ∷ ws) (suc i) (suc j) w w' x e f = elim (get_elem?-set ws i j w w' x e f) [
  | inl h ↦ inl h
  | inr h ↦ inr (ap suc h.0, h.1)
]

blocked :
    (a : Answer) (n : ℕ) (t : Thread) (c : Client)
    → (t ≡ finished) ⊎ (t ≡ joining closes)
    → 1 ≤ n
    → advance a n t c ≡ none
unfolding advance
blocked a n t c (inl e) h = rw e refl
blocked a n t c (inr e) h = rw e (ground arith)

alive_pos : (j : ℕ) (s : System) → IsStuck j s → 1 ≤ alive s
alive_pos j s h =
    let (w, at, l) = h.looping in
    omega (arith, weight-le is_alive s.workers j w at, looping_alive w l)
  where
    looping_alive : (w : Worker) → Looping w → 1 ≤ is_alive w
    looping_alive w l = ground arith

step_thread-stuck :
    (j i : ℕ) (a : Answer) (o : Option Thread) (s : System)
    → get_elem? s.threads i ≡ o
    → IsStuck j s
    → step_thread i a o s ≡ s
unfolding step_thread
step_thread-stuck j i a none s e h = refl
step_thread-stuck j i a (some t) s e h =
    rw (blocked a (alive s) t s.client (Parked-get s.threads i t h.parked e) (alive_pos j s h)) refl

-- Stuck, with the same threads.
abbrev Held : ℕ → System → System → Type 0
Held j s s' = IsStuck j s' × (s'.threads ≡ s.threads)

append-nil_threads : (ts : List Thread) → ts ++ [] ≡ ts
append-nil_threads [] = refl
append-nil_threads (t ∷ ts) = ap (◌∷◌ t) (append-nil_threads ts)

worker_after :
    (j i : ℕ) (w w' x : Worker) (ws : List Worker)
    → get_elem? ws i ≡ some w
    → (Looping w → Looping w')
    → get_elem? ws j ≡ some x
    → Looping x
    → (y : Worker) × (get_elem? (set ws i w') j ≡ some y) × Looping y
worker_after j i w w' x ws e still f l = elim (get_elem?-set ws i j w w' x e f) [
  | inl h ↦ (x, h, l)
  | inr (q, h) ↦ (w', h, still (same_looping (ground (arith, e, f, q))))
]
  where
    same_looping : x ≡ w → Looping w
    same_looping q = rw (← q) l

worker-Held :
    (j i : ℕ) (w w' : Worker) (c : Client) (b : Bool) (s : System)
    → get_elem? s.workers i ≡ some w
    → IsHung c × (b ≡ false)
    → (Looping w → Looping w')
    → IsStuck j s
    → Held j s (after_worker i (some (w', c, b)) s)
worker-Held j i w w' c true s e h still k = absurd (cc h.1)
worker-Held j i w w' c false s e h still k = (
  record {
    hung = h.0;
    parked = rw (append-nil_threads s.threads) k.parked;
    looping = worker_after j i w w' k.looping.0 s.workers e still k.looping.1 k.looping.2;
  },
  append-nil_threads s.threads,
)

after_worker-Held :
    (j i : ℕ) (w : Worker) (r : Option (Worker × Client × Bool)) (s : System)
    → get_elem? s.workers i ≡ some w
    → HungAfter r
    → (Looping w → StillLooping r)
    → IsStuck j s
    → Held j s (after_worker i r s)
after_worker-Held j i w none s e h still k = (k, refl)
after_worker-Held j i w (some (w', c, b)) s e h still k = worker-Held j i w w' c b s e h still k

step_worker-Held :
    (j i : ℕ) (r : Report) (o : Option Worker) (s : System)
    → get_elem? s.workers i ≡ o
    → NoFrame r
    → IsStuck j s
    → Held j s (step_worker i r o s)
unfolding step_worker
step_worker-Held j i r none s e n k = (k, refl)
step_worker-Held j i r (some w) s e n k =
    after_worker-Held j i w _ s e (proceed-HungAfter r w.phase w s.client n k.hung)
      (λ l. proceed_looping r w.phase w s.client k.hung l.0 l.1) k

buffer-Held :
    (j : ℕ) (b : AckBuffer) (s : System)
    → b.is_running ≡ false
    → b.is_ready_to_deliver.v ≡ false
    → IsStuck j s
    → Held j s (with_buffer b s)
buffer-Held j b s r d h = (
  record {
    hung = record {
      closing = h.hung.closing;
      not_stopped = h.hung.not_stopped;
      cut = h.hung.cut;
      unthrottled = h.hung.unthrottled;
      sealed = r;
      idle = d;
    };
    parked = h.parked;
    looping = h.looping;
  },
  refl,
)

get_next_hung :
    (b : AckBuffer) (done : Bool)
    → ((drain_round done b).1.is_running ≡ b.is_running)
      × ((drain_round done b).1.is_ready_to_deliver ≡ b.is_ready_to_deliver)
unfolding drain_round sample_wake
get_next_hung b done = ground arith

begin_drain_hung :
    (b : AckBuffer)
    → ((begin_drain b).is_running ≡ false)
      × ((begin_drain b).is_ready_to_deliver ≡ b.is_ready_to_deliver)
unfolding begin_drain signal_locked
begin_drain_hung b = ground arith

reconnect_hung : (c : Client) → c.is_closing ≡ true → reconnect c ≡ (false, c)
unfolding reconnect
reconnect_hung c h = ground arith

-- Another call of `Close` would set `isStop` again, and a message that the reader of the closed socket
-- still holds may be a `bo`, on which the sender leaves its loop.
abbrev pub IsUndisturbed : Move → Type 0
IsUndisturbed asks_close = ⊥
IsUndisturbed (proceeds i r) = NoFrame r
IsUndisturbed m = Unit

abbrev pub AllUndisturbed : List Move → Type 0
AllUndisturbed [] = Unit
AllUndisturbed (m ∷ ms) = IsUndisturbed m × AllUndisturbed ms

move-Held : (j : ℕ) (m : Move) (s : System) → IsUndisturbed m → IsStuck j s → Held j s (move m s)
unfolding move
move-Held j (advances i a) s n k =
    rw (step_thread-stuck j i a (get_elem? s.threads i) s refl k) (k, refl)
move-Held j (proceeds i r) s n k = step_worker-Held j i r _ s refl n k
move-Held j asks_reconnect s n k = rw (reconnect_hung s.client k.hung.closing) (
  record {
    hung = k.hung;
    parked = rw (append-nil_threads s.threads) k.parked;
    looping = k.looping;
  },
  append-nil_threads s.threads,
)
move-Held j asks_close s n k = absurd n
move-Held j asks_drain s n k =
    let h = begin_drain_hung s.client.buffer in
    buffer-Held j _ s h.0 (ap (λ (e : Event). e.v) h.1 ∙ k.hung.idle) k
move-Held j (ships e waiter receipt limit) s n k =
    let q =
      add_round_stopped e (size_of e s.client.buffer) waiter receipt limit s.client.buffer
        k.hung.sealed in
    rw q (buffer-Held j (cancel_waiter waiter s.client.buffer) s k.hung.sealed k.hung.idle k)
move-Held j (times_out waiter) s n k =
    unfold add_timeout in
    buffer-Held j (cancel_waiter waiter s.client.buffer) s k.hung.sealed k.hung.idle k
move-Held j (drains done) s n k =
    let h = get_next_hung s.client.buffer done in
    buffer-Held j _ s (h.0 ∙ k.hung.sealed) (ap (λ (e : Event). e.v) h.1 ∙ k.hung.idle) k
move-Held j binds s n k =
    unfold admission_receipt_owner in
    (
      record {
        hung = record {
          closing = k.hung.closing;
          not_stopped = k.hung.not_stopped;
          cut = k.hung.cut;
          unthrottled = k.hung.unthrottled;
          sealed = k.hung.sealed;
          idle = k.hung.idle;
        };
        parked = k.parked;
        looping = k.looping;
      },
      refl,
    )

moves-Held :
    (j : ℕ) (ms : List Move) (s : System) → AllUndisturbed ms → IsStuck j s → Held j s (moves ms s)
unfolding moves
moves-Held j [] s n k = (k, refl)
moves-Held j (m ∷ ms) s n k =
    let h = move-Held j m s n.0 k in let r = moves-Held j ms (move m s) n.1 h.0 in (r.0, r.1 ∙ h.1)

-- `IsStuck j`: the client is closing, its buffer and its socket are closed, `isStop` is clear,
-- `backoffTime` is 0 and nothing is ready to be delivered; every thread has finished or is a `Close`
-- that waits for the workers; and worker `j` is a sender in its loop. From such a state on no later
-- steps of the client's goroutines, its callers and the network move any thread, as long as `Close`
-- is not called again and no read gives a message that the closed socket's reader still held: a
-- `Close` that waits does not return.
pub close_hangs :
    (j : ℕ) (ms : List Move) (s : System)
    → AllUndisturbed ms
    → IsStuck j s
    → (moves ms s).threads ≡ s.threads
close_hangs j ms s n k = (moves-Held j ms s n k).1
