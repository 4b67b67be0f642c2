-- ===== src/Client/Final.antt =====
-- What a call of `Close` leaves behind at each of its steps.
use go_uspclient.Base.{
  ℕ, ◌≡◌, ◌⊎◌, refl, ap, ◌∙◌, [], Option, none, some, arith, inl, inr, if◌then◌else◌, ltb,
}
use go_uspclient.Protocol.Messages.{DataMessage}
use go_uspclient.Buffer.State.{AckBuffer, ReceiptFrameState}
use go_uspclient.Buffer.Blocking.{add_round, add_timeout, add_round_stopped, cancel_waiter}
use go_uspclient.Buffer.Stopped.{
  IsStopped, ack-IsStopped, update_capacity-IsStopped, get_next_to_deliver-IsStopped,
  reset_delivery-IsStopped, close_stops, begin_drain_stops, drain_round-IsStopped,
}
use go_uspclient.Buffer.Detached.{
  IsDetached, ack-IsDetached, update_capacity-IsDetached, get_next_to_deliver-IsDetached,
  reset_delivery-IsDetached, close-IsDetached, begin_drain-IsDetached, drain_round-IsDetached,
}
use go_uspclient.Client.State.{
  ReceiptLifetime, unknown, live, closing, closed, rank, Client, set_receipt_lifetime, store_owner,
}
use go_uspclient.Client.Receipts.{admission_receipt_owner}
use go_uspclient.Client.Keeping.{SameCore, with_core, Keeps}

add_round-IsStopped :
    (e : DataMessage) (size : ℕ) (waiter receipt : Option ℕ) (limit : ℕ) (b : AckBuffer)
    → IsStopped b
    → IsStopped (add_round e size waiter receipt limit b).1
add_round-IsStopped e size waiter receipt limit b h =
    rw (add_round_stopped e size waiter receipt limit b h) h

pub IsStopped-kept : Keeps (λ c. IsStopped c.buffer)
IsStopped-kept = record {
  rest = λ c c' e s. rw e.0 s;
  acks = λ n c s. ack-IsStopped n c.buffer s;
  window = λ n c f s. update_capacity-IsStopped n c.buffer s;
  delivery = λ c s. get_next_to_deliver-IsStopped c.buffer s;
  reset = λ c s. reset_delivery-IsStopped c.buffer s;
  seal = λ c s. close_stops c.buffer;
  detach = λ c s. s;
  lifetime = λ l c s. unfold set_receipt_lifetime in s;
  owner = λ c s. unfold admission_receipt_owner in s;
  drain = λ c s. begin_drain_stops c.buffer;
  polls = λ done c s. drain_round-IsStopped done c.buffer s;
  timeout = λ w c s. unfold add_timeout in s;
  add =
      λ e size waiter receipt limit c s. add_round-IsStopped e size waiter receipt limit c.buffer s;
}

-- The buffer is detached, its cells read `f`, and the lifetime is the last one.
pub record IsFinal (f : ℕ → ReceiptFrameState) (c : Client) : Type 0 where
  pub detached : IsDetached f c.buffer
  pub over : c.receipt_lifetime ≡ closed
  pub owner : (c.receipt_owner ≡ none) ⊎ (c.receipt_owner ≡ some closed)

module _ (f : ℕ → ReceiptFrameState) where
  cancelled-IsDetached :
      (w : Option ℕ) (b : AckBuffer) → IsDetached f b → IsDetached f (cancel_waiter w b)
  cancelled-IsDetached w b d = record {
    stopped = d.stopped;
    untracked = d.untracked;
    cells = d.cells;
  }

  add_round-IsDetached :
      (e : DataMessage) (size : ℕ) (waiter receipt : Option ℕ) (limit : ℕ) (b : AckBuffer)
      → IsDetached f b
      → IsDetached f (add_round e size waiter receipt limit b).1
  add_round-IsDetached e size waiter receipt limit b d =
      rw (add_round_stopped e size waiter receipt limit b d.stopped)
        (cancelled-IsDetached waiter b d)

  untracked-IsDetached :
      (b : AckBuffer)
      → IsDetached f b
      → IsDetached f (record b { receipts = []; deliver_cursor = none })
  untracked-IsDetached b d = record { stopped = d.stopped; untracked = refl; cells = d.cells }

  pub IsDetached-kept : Keeps (λ c. IsDetached f c.buffer)
  IsDetached-kept = record {
    rest = λ c c' e s. rw e.0 s;
    acks = λ n c s. ack-IsDetached f n c.buffer s;
    window = λ n c h s. update_capacity-IsDetached f n c.buffer s;
    delivery = λ c s. get_next_to_deliver-IsDetached f c.buffer s;
    reset = λ c s. reset_delivery-IsDetached f c.buffer s;
    seal = λ c s. close-IsDetached f c.buffer s;
    detach = λ c s. untracked-IsDetached c.buffer s;
    lifetime = λ l c s. unfold set_receipt_lifetime in s;
    owner = λ c s. unfold admission_receipt_owner in s;
    drain = λ c s. begin_drain-IsDetached f c.buffer s;
    polls = λ done c s. drain_round-IsDetached f done c.buffer s;
    timeout = λ w c s. unfold add_timeout in cancelled-IsDetached w c.buffer s;
    add = λ e size waiter receipt limit c s.
        add_round-IsDetached e size waiter receipt limit c.buffer s;
  }

abbrev pub later : ReceiptLifetime → ReceiptLifetime → ReceiptLifetime
later l l' = if ltb (rank l') (rank l) then l else l'

-- No lifetime comes after `closed`.
later_closed : (l : ReceiptLifetime) → later l closed ≡ closed
later_closed unknown = refl
later_closed live = refl
later_closed closing = refl
later_closed closed = refl

closed_later : (l : ReceiptLifetime) → later closed l ≡ closed
closed_later unknown = refl
closed_later live = refl
closed_later closing = refl
closed_later closed = refl

stored_owner :
    (o : Option ReceiptLifetime) (l : ReceiptLifetime)
    → l ≡ closed
    → (store_owner l o ≡ none) ⊎ (store_owner l o ≡ some closed)
stored_owner none l e = inl refl
stored_owner (some o) l e = inr (ap some e)

module _ (f : ℕ → ReceiptFrameState) where
  set_lifetime-IsFinal :
      (l : ReceiptLifetime) (c : Client)
      → IsDetached f c.buffer
      → later l c.receipt_lifetime ≡ closed
      → IsFinal f (set_receipt_lifetime l c)
  unfolding set_receipt_lifetime
  set_lifetime-IsFinal l c d e = record {
    detached = d;
    over = e;
    owner = stored_owner c.receipt_owner (later l c.receipt_lifetime) e;
  }

  same-IsFinal : (c c' : Client) → SameCore c c' → IsFinal f c → IsFinal f c'
  same-IsFinal c c' (b, l, o) h = record {
    detached = rw b h.detached;
    over = l ∙ h.over;
    owner = elim h.owner [ inl e ↦ inl (o ∙ e) | inr e ↦ inr (o ∙ e) ];
  }

  core-IsFinal :
      (b : AckBuffer) (c : Client) → IsDetached f b → IsFinal f c → IsFinal f (with_core b c)
  core-IsFinal b c d h = record { detached = d; over = h.over; owner = h.owner }

  owner-IsFinal : (c : Client) → IsFinal f c → IsFinal f (admission_receipt_owner c)
  unfolding admission_receipt_owner
  owner-IsFinal c h = record {
    detached = h.detached;
    over = h.over;
    owner = elim h.owner [
      | inl e ↦ inr (ground (arith, e, h.over))
      | inr e ↦ inr (ground (arith, e))
    ];
  }

  pub IsFinal-kept : Keeps (IsFinal f)
  IsFinal-kept =
      let d = IsDetached-kept f in
      record {
        rest = same-IsFinal;
        acks = λ n c h. core-IsFinal _ c (d.acks n c h.detached) h;
        window = λ n c q h. core-IsFinal _ c (d.window n c q h.detached) h;
        delivery = λ c h. core-IsFinal _ c (d.delivery c h.detached) h;
        reset = λ c h. core-IsFinal _ c (d.reset c h.detached) h;
        seal = λ c h. core-IsFinal _ c (d.seal c h.detached) h;
        detach = λ c h. core-IsFinal _ c (d.detach c h.detached) h;
        lifetime =
            λ l c h. set_lifetime-IsFinal l c h.detached (ap (later l) h.over ∙ later_closed l);
        owner = owner-IsFinal;
        drain = λ c h. core-IsFinal _ c (d.drain c h.detached) h;
        polls = λ done c h. core-IsFinal _ c (d.polls done c h.detached) h;
        timeout = λ w c h. core-IsFinal _ c (d.timeout w c h.detached) h;
        add = λ e size waiter receipt limit c h.
            core-IsFinal _ c (d.add e size waiter receipt limit c h.detached) h;
      }

  pub closed-IsFinal :
      (c : Client) → IsDetached f c.buffer → IsFinal f (set_receipt_lifetime closed c)
  closed-IsFinal c d = set_lifetime-IsFinal closed c d (closed_later c.receipt_lifetime)

-- What holds whichever the values of the cells are.
module _ {A : Type 0} where
  pub some_kept : {P : A → Client → Type 0} → ((x : A) → Keeps (P x)) → Keeps (λ c. (x : A) × P x c)
  some_kept k = record {
    rest = λ c c' e (x, h). (x, (k x).rest c c' e h);
    acks = λ n c (x, h). (x, (k x).acks n c h);
    window = λ n c q (x, h). (x, (k x).window n c q h);
    delivery = λ c (x, h). (x, (k x).delivery c h);
    reset = λ c (x, h). (x, (k x).reset c h);
    seal = λ c (x, h). (x, (k x).seal c h);
    detach = λ c (x, h). (x, (k x).detach c h);
    lifetime = λ l c (x, h). (x, (k x).lifetime l c h);
    owner = λ c (x, h). (x, (k x).owner c h);
    drain = λ c (x, h). (x, (k x).drain c h);
    polls = λ done c (x, h). (x, (k x).polls done c h);
    timeout = λ w c (x, h). (x, (k x).timeout w c h);
    add = λ e size waiter receipt limit c (x, h). (x, (k x).add e size waiter receipt limit c h);
  }
