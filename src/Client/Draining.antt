-- ===== src/Client/Draining.antt =====
-- That a drain is for good.
use go_uspclient.Base.{◌≡◌, refl, ap, ◌∙◌, Bool, List, [], ◌∷◌, none, ◌⊎◌, inl, inr}
use go_uspclient.Protocol.Messages.{DataMessage}
use go_uspclient.Buffer.State.{AckBuffer}
use go_uspclient.Buffer.Blocking.{added, refused, add_closed, size_of, add_round_stopped}
use go_uspclient.Buffer.Control.{begin_drain, drain_round}
use go_uspclient.Buffer.Run.{
  Op, adds, acks, delivers, resets, resizes, drains, polls_drain, closes, step, run,
}
use go_uspclient.Buffer.Waking.{try_add-Still}
use go_uspclient.Buffer.Stopped.{
  IsStopped, ack-IsStopped, get_next_to_deliver-IsStopped, reset_delivery-IsStopped,
  update_capacity-IsStopped, close_stops, begin_drain_stops, drain_round-IsStopped,
}
use go_uspclient.Client.Api.{
  Handle, in_sink, in_service, ship, client_begin_drain, drain_context, meanwhile,
}

step-IsStopped : (o : Op) (b : AckBuffer) → IsStopped b → IsStopped (step o b)
unfolding step
step-IsStopped (adds e size waiter receipt limit) b h =
    (try_add-Still e size waiter receipt limit b).running ∙ h
step-IsStopped (acks seq) b h = ack-IsStopped seq b h
step-IsStopped delivers b h = get_next_to_deliver-IsStopped b h
step-IsStopped resets b h = reset_delivery-IsStopped b h
step-IsStopped (resizes capacity) b h = update_capacity-IsStopped capacity b h
step-IsStopped drains b h = begin_drain_stops b
step-IsStopped (polls_drain done) b h = drain_round-IsStopped done b h
step-IsStopped closes b h = close_stops b

run-IsStopped : (os : List Op) (b : AckBuffer) → IsStopped b → IsStopped (run os b)
unfolding run
run-IsStopped [] b h = h
run-IsStopped (o ∷ os) b h = run-IsStopped os (step o b) (step-IsStopped o b h)

-- After `BeginDrain`, `Drain` or `DrainContext` of a client, whatever its buffer goes through
-- meanwhile, `Ship` of any message is refused as closed and never waits; in `TestSinkMode` it still
-- accepts.
pub ship-drained :
    (e : DataMessage) (os : List Op) (done : Bool) (h : Handle)
    → ((h ≡ in_sink)
        × ((ship e (meanwhile os (client_begin_drain h))).0 ≡ added)
        × ((ship e (meanwhile os (drain_context done h).1)).0 ≡ added))
      ⊎ (((ship e (meanwhile os (client_begin_drain h))).0 ≡ refused add_closed)
          × ((ship e (meanwhile os (drain_context done h).1)).0 ≡ refused add_closed))
unfolding ship client_begin_drain drain_context
ship-drained e os done in_sink = inl (refl, refl, refl)
ship-drained e os done (in_service c) =
    let b = run os (begin_drain c.buffer) in
    let b' = run os (drain_round done (begin_drain c.buffer)).1 in
    let s = run-IsStopped os _ (begin_drain_stops c.buffer) in
    let s' = run-IsStopped os _ (drain_round-IsStopped done _ (begin_drain_stops c.buffer)) in
    inr (
      ap (λ r. r.0) (add_round_stopped e (size_of e b) none none 0 b s),
      ap (λ r. r.0) (add_round_stopped e (size_of e b') none none 0 b' s'),
    )
