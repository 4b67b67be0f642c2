-- ===== src/Client/Threading.antt =====
-- What schedules keep.
use go_uspclient.Base.{ℕ, ◌^◌, ◌<◌, refl, Bool, not, ◌==◌, List, [], ◌∷◌, Option, none, some, arith}
use go_uspclient.Protocol.Messages.{ControlMessage}
use go_uspclient.Buffer.Blocking.{size_of}
use go_uspclient.Client.State.{closing, closed, ClientError, Client}
use go_uspclient.Client.Control.{process_control_message}
use go_uspclient.Client.Threads.{
  Thread, marking, cancelling, sealing, stopping, locking, joining, collecting, releasing, shutting,
  returned, shrinking, rewinding, connecting, dialing, checking, starting, spawning, handing,
  publishing, unlocking, failing, waiting, finished, closes, reconnects, Answer, fails, reads,
  goes_on, answered, advance, give_up,
}
use go_uspclient.Client.Workers.{Worker, Report}
use go_uspclient.Client.System.{
  System, alive, Move, advances, proceeds, asks_reconnect, asks_close, asks_drain, ships, times_out,
  drains, binds, after_thread, after_worker, step_thread, step_worker, move, moves,
}
use go_uspclient.Client.Keeping.{
  FitsAnswer, FitsReport, FitsMove, AllFitMoves, Keeps, PAfter, if_PAfter, reconnect-SameCore,
  process_control_message_keeps, proceed-PAfter,
}

module _ {P : Client → Type 0} (p : Keeps P) where
  answered-PAfter :
      (msg : ControlMessage) (c : Client)
      → msg.window_size < 2 ^ 63
      → P c
      → PAfter p (some (answered msg c))
  unfolding answered
  answered-PAfter msg c f s =
      after_answer (process_control_message msg c) (process_control_message_keeps p msg c f s)
    where
      after_answer :
          (r : Option ClientError × Client × Bool)
          → P r.1
          → PAfter p {A = Thread} (
              some
                (elim r.0 [ none ↦ (checking, r.1, r.2) | some e ↦ (failing, give_up e r.1, r.2) ]))
      after_answer (none, c', b) h = h
      after_answer (some e, c', b) h = p.rest c' _ (refl, refl, refl) h

  dialing-PAfter :
      (a : Answer) (n : ℕ) (c : Client) → FitsAnswer a → P c → PAfter p (advance a n dialing c)
  unfolding advance
  dialing-PAfter fails n c f s = p.rest c _ (refl, refl, refl) s
  dialing-PAfter (reads msg) n c f s = answered-PAfter msg c f s
  dialing-PAfter goes_on n c f s = tt

  waiting-PAfter : (a : Answer) (n : ℕ) (c : Client) → P c → PAfter p (advance a n waiting c)
  unfolding advance
  waiting-PAfter fails n c s = if_PAfter p c.is_cancelled _ _ (p.rest c _ (refl, refl, refl) s) tt
  waiting-PAfter (reads msg) n c s = tt
  waiting-PAfter goes_on n c s = s

  module _ (a : Answer) (n : ℕ) (c : Client) (f : FitsAnswer a) (s : P c) where
    advance-PAfter : (t : Thread) → PAfter p (advance a n t c)
    unfolding advance
    advance-PAfter marking = p.lifetime closing c s
    advance-PAfter cancelling = p.rest c _ (refl, refl, refl) s
    advance-PAfter sealing = p.seal c s
    advance-PAfter (stopping q) = p.rest c _ (refl, refl, refl) s
    advance-PAfter (locking q) = if_PAfter p c.is_locked _ _ tt (p.rest c _ (refl, refl, refl) s)
    advance-PAfter (joining closes) =
        if_PAfter p (not (n == 0)) _ _ tt (p.rest c _ (refl, refl, refl) s)
    advance-PAfter (joining reconnects) =
        if_PAfter p (not (n == 0)) _ _ tt (p.rest c _ (refl, refl, refl) s)
    advance-PAfter collecting = p.rest c _ (refl, refl, refl) s
    advance-PAfter (releasing ms) = p.detach c s
    advance-PAfter (shutting ms) = p.lifetime closed c s
    advance-PAfter (returned ms) = tt
    advance-PAfter shrinking = p.window 1 c (omega arith) s
    advance-PAfter rewinding = p.reset c s
    advance-PAfter connecting =
        if_PAfter p c.is_locked _ _ tt
          (if_PAfter p c.is_closing _ _ s (p.rest c _ (refl, refl, refl) s))
    advance-PAfter dialing = dialing-PAfter a n c f s
    advance-PAfter checking = if_PAfter p c.is_closing _ _ (p.rest c _ (refl, refl, refl) s) s
    advance-PAfter starting = p.rest c _ (refl, refl, refl) s
    advance-PAfter spawning = p.rest c _ (refl, refl, refl) s
    advance-PAfter handing = p.rest c _ (refl, refl, refl) s
    advance-PAfter publishing = p.rest c _ (refl, refl, refl) s
    advance-PAfter unlocking = p.rest c _ (refl, refl, refl) s
    advance-PAfter failing = if_PAfter p c.is_closing _ _ (p.rest c _ (refl, refl, refl) s) s
    advance-PAfter waiting = waiting-PAfter a n c s
    advance-PAfter finished = tt

  after_thread_keeps :
      (i : ℕ) (t : Thread) (r : Option (Thread × Client × Bool)) (s : System)
      → PAfter p r
      → P s.client
      → P (after_thread i t r s).client
  after_thread_keeps i t none s a h = h
  after_thread_keeps i t (some (t', c, b)) s a h = a

  step_thread_keeps :
      (i : ℕ) (a : Answer) (o : Option Thread) (s : System)
      → FitsAnswer a
      → P s.client
      → P (step_thread i a o s).client
  unfolding step_thread
  step_thread_keeps i a none s f h = h
  step_thread_keeps i a (some t) s f h =
      after_thread_keeps i t _ s (advance-PAfter a (alive s) s.client f h t) h

  after_worker_keeps :
      (i : ℕ) (r : Option (Worker × Client × Bool)) (s : System)
      → PAfter p r
      → P s.client
      → P (after_worker i r s).client
  after_worker_keeps i none s a h = h
  after_worker_keeps i (some (w, c, b)) s a h = a

  step_worker_keeps :
      (i : ℕ) (r : Report) (o : Option Worker) (s : System)
      → FitsReport r
      → P s.client
      → P (step_worker i r o s).client
  unfolding step_worker
  step_worker_keeps i r none s f h = h
  step_worker_keeps i r (some w) s f h =
      after_worker_keeps i _ s (proceed-PAfter p r w.phase w s.client f h) h

  pub move_keeps : (m : Move) (s : System) → FitsMove m → P s.client → P (move m s).client
  unfolding move
  move_keeps (advances i a) s f h = step_thread_keeps i a _ s f h
  move_keeps (proceeds i r) s f h = step_worker_keeps i r _ s f h
  move_keeps asks_reconnect s f h = p.rest s.client _ (reconnect-SameCore s.client) h
  move_keeps asks_close s f h = p.rest s.client _ (refl, refl, refl) h
  move_keeps asks_drain s f h = p.drain s.client h
  move_keeps (ships e waiter receipt limit) s f h =
      p.add e (size_of e s.client.buffer) waiter receipt limit s.client h
  move_keeps (times_out waiter) s f h = p.timeout waiter s.client h
  move_keeps (drains done) s f h = p.polls done s.client h
  move_keeps binds s f h = p.owner s.client h

  -- Whatever the operations keep, every schedule keeps.
  pub moves_keeps :
      (ms : List Move) (s : System) → AllFitMoves ms → P s.client → P (moves ms s).client
  unfolding moves
  moves_keeps [] s f h = h
  moves_keeps (m ∷ ms) s f h = moves_keeps ms (move m s) f.1 (move_keeps m s f.0 h)
