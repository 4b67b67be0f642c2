-- ===== src/Client/Sound.antt =====
-- The buffer of a client stays sound whatever its goroutines, its callers and the proxy do.
use go_uspclient.Base.{
  ℕ, refl, Bool, true, false, Bool-cases, inl, inr, List, [], Option, none, arith,
}
use go_uspclient.Protocol.Messages.{DataMessage}
use go_uspclient.Budget.State.{ByteBudget}
use go_uspclient.Buffer.State.{AckBuffer, fresh_buffer, sample_wake}
use go_uspclient.Buffer.Blocking.{
  add_round, add_timeout, after_attempt, add_round_running, add_round_stopped,
}
use go_uspclient.Buffer.Valid.{Framed-IsValid}
use go_uspclient.Buffer.Valid.Retiring.{IsSound}
use go_uspclient.Buffer.Valid.Delivering.{get_next_to_deliver-IsSound, reset_delivery-IsSound}
use go_uspclient.Buffer.Valid.Controlling.{
  Framed-IsSound, close-IsSound, begin_drain-IsSound, drain_round-IsSound, update_capacity-IsSound,
}
use go_uspclient.Buffer.Run.{ack-IsSound, try_add-IsSound, fresh_buffer-IsSound}
use go_uspclient.Client.State.{new_client, set_receipt_lifetime}
use go_uspclient.Client.Receipts.{admission_receipt_owner}
use go_uspclient.Client.Keeping.{AllFitMoves, Keeps}
use go_uspclient.Client.Threading.{moves_keeps}
use go_uspclient.Client.System.{Move, moves, new_system}

sample_wake-IsSound : (b : AckBuffer) → IsSound b → IsSound (sample_wake b).1
unfolding sample_wake
sample_wake-IsSound b s = Framed-IsSound b _ (ground arith) (ground arith) s

after_attempt-IsSound :
    (r : (Bool × Option ℕ) × AckBuffer) → IsSound r.1 → IsSound (after_attempt r).1
after_attempt-IsSound ((true, w), b) s = s
after_attempt-IsSound ((false, w), b) s = sample_wake-IsSound b s

add_round-IsSound :
    (e : DataMessage) (size : ℕ) (waiter receipt : Option ℕ) (limit : ℕ) (b : AckBuffer)
    → IsSound b
    → IsSound (add_round e size waiter receipt limit b).1
add_round-IsSound e size waiter receipt limit b s = elim (Bool-cases b.is_running) [
  | inl r ↦
      rw (add_round_running e size waiter receipt limit b r)
        (after_attempt-IsSound _ (try_add-IsSound e size waiter receipt limit b s))
  | inr r ↦ rw (add_round_stopped e size waiter receipt limit b r) (Framed-IsSound b _ refl refl s)
]

add_timeout-IsSound :
    (waiter : Option ℕ) (b : AckBuffer) → IsSound b → IsSound (add_timeout waiter b).1
unfolding add_timeout
add_timeout-IsSound waiter b s = Framed-IsSound b _ refl refl s

-- `releaseReceiptTracking` drops the chain.
untracked-IsSound :
    (b : AckBuffer) → IsSound b → IsSound (record b { receipts = []; deliver_cursor = none })
untracked-IsSound b s = record {
  valid = Framed-IsValid b _ refl s.valid;
  tracked = record { chain = tt };
}

IsSound-kept : Keeps (λ c. IsSound c.buffer)
IsSound-kept = record {
  rest = λ c c' e s. rw e.0 s;
  acks = λ n c s. ack-IsSound n c.buffer s;
  window = λ n c f s. update_capacity-IsSound n c.buffer f s;
  delivery = λ c s. get_next_to_deliver-IsSound c.buffer s;
  reset = λ c s. reset_delivery-IsSound c.buffer s;
  seal = λ c s. close-IsSound c.buffer s;
  detach = λ c s. untracked-IsSound c.buffer s;
  lifetime = λ l c s. unfold set_receipt_lifetime in s;
  owner = λ c s. unfold admission_receipt_owner in s;
  drain = λ c s. begin_drain-IsSound c.buffer s;
  polls = λ done c s. drain_round-IsSound done c.buffer s;
  timeout = λ w c s. add_timeout-IsSound w c.buffer s;
  add = λ e size waiter receipt limit c s. add_round-IsSound e size waiter receipt limit c.buffer s;
}

-- From a connected client with a new buffer on, in every schedule of its goroutines, its callers
-- and the proxy, whose windows are slice lengths, the buffer is sound.
pub moves-fresh-IsSound :
    (ms : List Move) (max_bytes : ℕ) (shared : Option ByteBudget) (group : Option ℕ)
    → AllFitMoves ms
    → IsSound (moves ms (new_system (fresh_buffer max_bytes shared group))).client.buffer
moves-fresh-IsSound ms max_bytes shared group f =
    moves_keeps IsSound-kept ms _ f
      (unfold new_system in unfold new_client in fresh_buffer-IsSound max_bytes shared group)
