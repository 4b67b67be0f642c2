-- ===== src/Client/System.antt =====
-- A client with its goroutines, and schedules of their steps.
use go_uspclient.Base.{
  ℕ, ◌+◌, Bool, true, false, List, [], ◌∷◌, ◌++◌, Option, none, some, get_elem?, set,
}
use go_uspclient.Protocol.Messages.{DataMessage}
use go_uspclient.Buffer.State.{AckBuffer}
use go_uspclient.Buffer.Blocking.{size_of, add_round, add_timeout}
use go_uspclient.Buffer.Control.{begin_drain, drain_round}
use go_uspclient.Client.State.{Client, new_client}
use go_uspclient.Client.Receipts.{admission_receipt_owner}
use go_uspclient.Client.Control.{reconnect}
use go_uspclient.Client.Threads.{Thread, marking, stopping, spawning, reconnects, Answer, advance}
use go_uspclient.Client.Workers.{
  listener, sender, keep_alive, Worker, Report, is_alive, new_worker, proceed,
}

pub record System : Type 0 where
  pub client : Client
  pub threads : List Thread
  pub workers : List Worker

-- The weights of the elements, added up.
module _ {ℓ} {A : Type ℓ} (w : A → ℕ) where
  unfoldable pub total : List A → ℕ
  total [] = 0
  total (x ∷ xs) = w x + total xs

-- `wg`: the workers that have not returned.
abbrev pub alive : System → ℕ
alive s = total is_alive s.workers

abbrev pub recruits : Thread → List Worker
recruits spawning = new_worker listener ∷ new_worker sender ∷ new_worker keep_alive ∷ []
recruits t = []

-- A goroutine of `Reconnect`, if one was started.
abbrev pub enlist : Bool → List Thread
enlist true = stopping reconnects ∷ []
enlist false = []

pub data Move : Type 0 where
  -- the thread and the worker at this position take a step
  advances : ℕ → Answer → Move
  proceeds : ℕ → Report → Move
  -- a caller of `Reconnect`, of `Close`, of `BeginDrain`
  asks_reconnect asks_close asks_drain : Move
  -- a round of `Ship`: message, waiter, receipt cell, limit; and its timeout
  ships : DataMessage → Option ℕ → Option ℕ → ℕ → Move
  times_out : Option ℕ → Move
  -- a round of `Drain`
  drains : Bool → Move
  -- the end of `ShipWithReceipt`
  binds : Move

-- A step of the buffer alone.
abbrev pub with_buffer : AckBuffer → System → System
with_buffer b s = record s { client = record s.client { buffer = b } }

abbrev pub after_thread : ℕ → Thread → Option (Thread × Client × Bool) → System → System
after_thread i t none s = s
after_thread i t (some (t', c, spawned)) s = record {
  client = c;
  threads = set s.threads i t' ++ enlist spawned;
  workers = s.workers ++ recruits t;
}

abbrev pub after_worker : ℕ → Option (Worker × Client × Bool) → System → System
after_worker i none s = s
after_worker i (some (w, c, spawned)) s = record s {
  client = c;
  threads = s.threads ++ enlist spawned;
  workers = set s.workers i w;
}

unfoldable pub step_thread : ℕ → Answer → Option Thread → System → System
step_thread i a none s = s
step_thread i a (some t) s = after_thread i t (advance a (alive s) t s.client) s

unfoldable pub step_worker : ℕ → Report → Option Worker → System → System
step_worker i r none s = s
step_worker i r (some w) s = after_worker i (proceed r w.phase w s.client) s

-- A move that is not possible changes nothing.
unfoldable pub move : Move → System → System
unfolding step_thread step_worker
move (advances i a) s = step_thread i a (get_elem? s.threads i) s
move (proceeds i r) s = step_worker i r (get_elem? s.workers i) s
move asks_reconnect s =
    let (spawned, c) = reconnect s.client in
    record s { client = c; threads = s.threads ++ enlist spawned }
move asks_close s = record s {
  client = record s.client { is_closing = true };
  threads = s.threads ++ marking ∷ [];
}
move asks_drain s = with_buffer (begin_drain s.client.buffer) s
move (ships e waiter receipt limit) s =
    with_buffer (add_round e (size_of e s.client.buffer) waiter receipt limit s.client.buffer).1 s
move (times_out waiter) s = with_buffer (add_timeout waiter s.client.buffer).1 s
move (drains done) s = with_buffer (drain_round done s.client.buffer).1 s
move binds s = record s { client = admission_receipt_owner s.client }

unfoldable pub moves : List Move → System → System
moves [] s = s
moves (m ∷ ms) s = moves ms (move m s)

-- A connected client and its three workers.
unfoldable pub new_system : AckBuffer → System
new_system b = record { client = new_client b; threads = []; workers = recruits spawning }
