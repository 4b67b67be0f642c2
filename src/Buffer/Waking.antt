-- ===== src/Buffer/Waking.antt =====
-- No operation of `AckBuffer` lets a waiter's channel sleep through what it waits for.
use mathlib.Core.List.{append-nil}
use go_uspclient.Base.{
  ℕ, zero, suc, ◌≡◌, ◌⊎◌, refl, sym, ◌∙◌, Bool, true, ◌||◌, Option, none, some, List, [], ◌∷◌,
  arith, inl, inr, sub64, ltb, ◌==◌, Bool-cases, Option-cases,
}
use go_uspclient.Event.{set_event, clear_event}
use go_uspclient.Protocol.Messages.{DataMessage}
use go_uspclient.Buffer.State.{TrackedAdmission, AckBuffer, signal_locked, sample_wake, is_retired}
use go_uspclient.Buffer.Retire.{
  release_retired_head_locked, ack_receipts_locked, update_availability, retire_locked,
  shrink_backing_locked, drop_receipts_locked, remove_prefix_locked,
}
use go_uspclient.Buffer.Admit.{append, track, try_add}
use go_uspclient.Buffer.Deliver.{
  ack, ack_check, ack_prefix, take_entry, hand_out, fence, deliver_loop, get_next_to_deliver,
  retire_exhausted, reset_delivery, first_cell, advance,
}
use go_uspclient.Buffer.Control.{
  close, release_all_locked, begin_drain, drain_round, update_capacity,
}
use go_uspclient.Buffer.Valid.Acking.{ack_accepts, ack_refuses}
use go_uspclient.Buffer.Valid.Admitting.{try_add_cases}
use go_uspclient.Buffer.Valid.Taking.{take_entry-Cursor}
use go_uspclient.Buffer.Valid.Delivering.{
  deliver_loop_cases, get_next_to_deliver_ready, get_next_to_deliver_asleep,
}
use go_uspclient.Buffer.Run.{
  Op, adds, acks, delivers, resets, resizes, drains, polls_drain, closes, step, run,
}
use go_uspclient.Buffer.Wakeups.{
  IsHeard, Still, Moves, Calm-Still, Calm-Moves, Still-Moves, Still-trans, Moves-trans, rung-Moves,
  remove_prefix-Moves, drop_receipts-Moves, release_retired_head-Moves, retire_locked-Moves,
}

ack-Moves : (seq : ℕ) (b : AckBuffer) → Moves b (ack seq b).1
unfolding ack_prefix ack_receipts_locked
ack-Moves seq b = elim (Option-cases (ack_check seq b)) [
  | inl e ↦
      let k = sub64 seq b.first_seq_num in
      let removed = remove_prefix_locked k b in
      let dropped = drop_receipts_locked b.first_seq_num k true removed in
      rw (ack_accepts seq b e) (
        Moves-trans b dropped _
          (Moves-trans b removed dropped (remove_prefix-Moves k b)
            (drop_receipts-Moves b.first_seq_num k true removed))
          (release_retired_head-Moves dropped))
  | inr (r, e) ↦ rw (ack_refuses seq b r e) (Calm-Moves b b refl)
]

fence-Moves : (index : ℕ) (e : Option TrackedAdmission) (b : AckBuffer) → Moves b (fence index e b)
unfolding fence
fence-Moves index none b = Calm-Moves b b refl
fence-Moves index (some e) b =
    let r = retire_locked index e b in
    Moves-trans b (advance r) _
      (Moves-trans b r (advance r) (retire_locked-Moves index e b) (Calm-Moves r (advance r) refl))
      (release_retired_head-Moves (advance r))

hand_out-Moves :
    (index : ℕ) (e : Option TrackedAdmission) (b : AckBuffer) → Moves b (hand_out index e b).1
unfolding hand_out
hand_out-Moves index e b = Calm-Moves b _ (ground arith)

deliver_loop-Moves : (fuel : ℕ) (b : AckBuffer) → Moves b (deliver_loop fuel b).1
unfolding deliver_loop
deliver_loop-Moves zero b = Calm-Moves b b refl
deliver_loop-Moves (suc fuel) b =
    deliver_loop_cases fuel b (λ r. Moves b r.1) (λ _. Calm-Moves b _ refl)
      (λ _ _.
        Moves-trans b (advance t) _
          (Moves-trans b t (advance t) took (Calm-Moves t (advance t) refl))
          (deliver_loop-Moves fuel (advance t)))
      (λ _ _ _.
        let f = fence b.next_index_to_deliver (take_entry b.next_index_to_deliver b).0 t in
        Moves-trans b f _ (Moves-trans b t f took (fence-Moves b.next_index_to_deliver _ t))
          (deliver_loop-Moves fuel f))
      (λ _ _ _. Moves-trans b t _ took (hand_out-Moves b.next_index_to_deliver _ t))
  where
    t : AckBuffer
    t = (take_entry b.next_index_to_deliver b).1

    took : Moves b (take_entry b.next_index_to_deliver b).1
    took = rw (take_entry-Cursor b.next_index_to_deliver b) (Calm-Moves b _ refl)

get_next_to_deliver-Moves : (b : AckBuffer) → Moves b (get_next_to_deliver b).1
get_next_to_deliver-Moves b = elim (Bool-cases b.is_ready_to_deliver.v) [
  | inl e ↦ rw (get_next_to_deliver_ready b e) (deliver_loop-Moves _ b)
  | inr e ↦ rw (get_next_to_deliver_asleep b e) (Calm-Moves b b refl)
]

retire_exhausted-Moves :
    (es : List TrackedAdmission) (b : AckBuffer) → Moves b (retire_exhausted es b)
unfolding retire_exhausted
retire_exhausted-Moves [] b = Calm-Moves b b refl
retire_exhausted-Moves (e ∷ es) b =
    elim (Bool-cases (e.max == 0 || ltb e.sends e.max || is_retired e.seq b)) [
      | inl keep ↦ rw (keep, retire_exhausted) (retire_exhausted-Moves es b)
      | inr drop ↦
          let r = retire_locked (sub64 e.seq b.first_seq_num) e b in
          rw (drop, retire_exhausted)
            (Moves-trans b r _ (retire_locked-Moves (sub64 e.seq b.first_seq_num) e b)
              (retire_exhausted-Moves es r))
    ]

reset_delivery-Moves : (b : AckBuffer) → Moves b (reset_delivery b)
unfolding reset_delivery
reset_delivery-Moves b =
    let r = record b { next_index_to_deliver = 0; deliver_cursor = first_cell b.receipts } in
    let x = retire_exhausted b.receipts r in
    let y = release_retired_head_locked x in
    Moves-trans b y _
      (Moves-trans b x y
        (Moves-trans b r x (Calm-Moves b r refl) (retire_exhausted-Moves b.receipts r))
        (release_retired_head-Moves x))
      (Calm-Moves y _ (ground arith))

update_capacity-Moves : (n : ℕ) (b : AckBuffer) → Moves b (update_capacity n b)
unfolding update_capacity signal_locked update_availability shrink_backing_locked
update_capacity-Moves n b = elim (Bool-cases (n == b.current_capacity)) [
  | inl e ↦ rw e (Calm-Moves b b refl)
  | inr e ↦ rung-Moves b _ (ground (arith, e))
]

close-Moves : (b : AckBuffer) → Moves b (close b)
unfolding close release_all_locked signal_locked
close-Moves b = rung-Moves b _ (ground arith)

begin_drain-Moves : (b : AckBuffer) → Moves b (begin_drain b)
unfolding begin_drain signal_locked
begin_drain-Moves b = rung-Moves b _ (ground arith)

-- A new channel is made only where there is none.
pub sample_wake-Still : (b : AckBuffer) → Still b (sample_wake b).1
unfolding sample_wake
sample_wake-Still b = record {
  wake = λ c h. ground (arith, h);
  closed_wakes = ground arith;
  first = ground arith;
  retired = ground arith;
  running = ground arith;
  closed = ground arith;
  capacity = ground arith;
  full = λ h. ground (arith, h);
  sizes = ([], ground arith ∙ sym (append-nil b.sizes));
}

drain_round-Moves : (done : Bool) (b : AckBuffer) → Moves b (drain_round done b).1
unfolding drain_round
drain_round-Moves done b = elim (Bool-cases (b.next_index_free == 0)) [
  | inl e ↦ rw e (Calm-Moves b b refl)
  | inr e ↦ elim (Bool-cases (b.is_closed || done)) [
    | inl f ↦ rw (e, f) (Calm-Moves b b refl)
    | inr f ↦ rw (e, f) (Still-Moves b _ (sample_wake-Still b))
  ]
]

append-Still :
    (e : DataMessage) (size : ℕ) (forced : Bool) (step : ℕ) (receipt : Option ℕ) (limit : ℕ)
    (b : AckBuffer)
    → Still b (append e size forced step receipt limit b)
unfolding append track clear_event set_event
append-Still e size forced step receipt limit b = record {
  wake = λ c h. ground (arith, h);
  closed_wakes = ground arith;
  first = ground arith;
  retired = ground arith;
  running = ground arith;
  closed = ground arith;
  capacity = ground arith;
  full = λ h. ground (arith, h);
  sizes = elim (Bool-cases b.accounting) [
    | inl a ↦ (size ∷ [], ground (arith, a))
    | inr a ↦ ([], ground (arith, a) ∙ sym (append-nil b.sizes))
  ];
}

pub try_add-Still :
    (e : DataMessage) (size : ℕ) (waiter receipt : Option ℕ) (limit : ℕ) (b : AckBuffer)
    → Still b (try_add e size waiter receipt limit b).1
try_add-Still e size waiter receipt limit b =
    try_add_cases e size waiter receipt limit b (λ r. Still b r.1) (λ _. Calm-Still b _ refl)
      (λ w b' _ _ g. rw g (Calm-Still b _ refl))
      (λ forced step b' _ _ g.
        Still-trans b b' _ (rw g (Calm-Still b _ refl))
          (append-Still e size forced step receipt limit b'))

step-Moves : (o : Op) (b : AckBuffer) → Moves b (step o b)
unfolding step
step-Moves (adds e size waiter receipt limit) b =
    Still-Moves b _ (try_add-Still e size waiter receipt limit b)
step-Moves (acks seq) b = ack-Moves seq b
step-Moves delivers b = get_next_to_deliver-Moves b
step-Moves resets b = reset_delivery-Moves b
step-Moves (resizes capacity) b = update_capacity-Moves capacity b
step-Moves drains b = begin_drain-Moves b
step-Moves (polls_drain done) b = drain_round-Moves done b
step-Moves closes b = close-Moves b

run-Moves : (os : List Op) (b : AckBuffer) → Moves b (run os b)
unfolding run
run-Moves [] b = Calm-Moves b b refl
run-Moves (o ∷ os) b = Moves-trans b (step o b) _ (step-Moves o b) (run-Moves os (step o b))

pub run-wakes :
    (os : List Op) (b : AckBuffer) (c : ℕ)
    → b.wake ≡ some c
    → Still b (run os b) ⊎ IsHeard c (run os b)
run-wakes os b c w = elim (run-Moves os b).still_or_rung [ inl s ↦ inl s | inr r ↦ inr (r c w) ]
