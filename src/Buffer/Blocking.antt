-- ===== src/Buffer/Blocking.antt =====
-- ack_buffer.go: the loop of `addWithReceipt` around an attempt, and its timeout.
use go_uspclient.Base.{arith, ◌≡◌, ℕ, Bool, true, false, not, Option, if◌then◌else◌}
use go_uspclient.Protocol.Messages.{DataMessage}
use go_uspclient.Size.{estimate_message_size}
use go_uspclient.Budget.Reserve.{cancel}
use go_uspclient.Buffer.State.{AckBuffer, sample_wake}
use go_uspclient.Buffer.Admit.{try_add}

pub data AddError : Type 0 where
  buffer_full add_closed : AddError

-- How a round ends: it returns nil or an error, or waits on the buffer's channel and on the pool's
-- waiter, if there is one.
pub data AddStep : Type 0 where
  added : AddStep
  refused : AddError → AddStep
  waits_for : ℕ → Option ℕ → AddStep

-- The deferred `b.shared.cancel(waiter)`.
abbrev pub cancel_waiter : Option ℕ → AckBuffer → AckBuffer
cancel_waiter waiter b = record b { shared = cancel waiter b.shared }

-- The size that the budgets are charged.
unfoldable pub size_of : DataMessage → AckBuffer → ℕ
size_of e b = if b.accounting then estimate_message_size e else 0

-- After a failed attempt the wake channel is sampled under the same lock.
abbrev pub after_attempt : (Bool × Option ℕ) × AckBuffer → AddStep × AckBuffer
after_attempt ((ok, waiter), b) =
    let (c, b') = sample_wake b in if ok then (added, b) else (waits_for c waiter, b')

-- One round of the loop, from the lock to the unlock, with what is deferred if it returns.
unfoldable pub add_round :
    DataMessage → ℕ → Option ℕ → Option ℕ → ℕ → AckBuffer → AddStep × AckBuffer
add_round e size waiter receipt max_transmissions b =
    if not b.is_running
    then (refused add_closed, cancel_waiter waiter b)
    else after_attempt (try_add e size waiter receipt max_transmissions b)

-- `timeoutErr`
unfoldable pub timeout_err : AckBuffer → AddError
timeout_err b = if not b.is_running then add_closed else buffer_full

-- The deadline passed while the call waited.
unfoldable pub add_timeout : Option ℕ → AckBuffer → AddError × AckBuffer
add_timeout waiter b = (timeout_err b, cancel_waiter waiter b)

-- The accessors.
unfoldable pub buffered_bytes : AckBuffer → ℕ
buffered_bytes b = b.bytes

unfoldable pub get_current_capacity : AckBuffer → ℕ
get_current_capacity b = b.current_capacity

module _ (e : DataMessage) (size : ℕ) (waiter receipt : Option ℕ) (limit : ℕ) (b : AckBuffer) where
  pub add_round_running :
      b.is_running ≡ true
      → add_round e size waiter receipt limit b
        ≡ after_attempt (try_add e size waiter receipt limit b)
  unfolding add_round
  add_round_running h = ground arith

  pub add_round_stopped :
      b.is_running ≡ false
      → add_round e size waiter receipt limit b ≡ (refused add_closed, cancel_waiter waiter b)
  unfolding add_round
  add_round_stopped h = ground arith
