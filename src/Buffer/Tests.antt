-- ===== src/Buffer/Tests.antt =====
-- The buffer on small inputs, and the theorems at them.
use go_uspclient.Base.{
  false, true, ℕ, ◌-◌, ◌<◌, ◌≡◌, refl, none, some, List, [], ◌∷◌, arith, sub64, ◌^◌, contains, word,
  add64, ◌↔◌, ◌⊎◌,
}
use go_uspclient.Buffer.Admit.{try_add}
use go_uspclient.Buffer.Admission.{TookIn, try_add-TookIn}
use go_uspclient.Buffer.Finality.{run-keeps_retired}
use go_uspclient.Event.{new_event, set_event, clear_event}
use go_uspclient.Protocol.Messages.{with_seq_num}
use go_uspclient.Buffer.State.{retired, TrackedAdmission, AckBuffer, fresh_buffer, pending}
use go_uspclient.Buffer.Deliver.{
  unexpected, ack_check, ack, get_next_to_deliver, deliver_loop, take_entry, find_entry, hand_out,
  only_retired_after_locked,
}
use go_uspclient.Buffer.Valid.{IsValid}
use go_uspclient.Buffer.Valid.Acking.{Ackable}
use go_uspclient.Buffer.Valid.Retiring.{IsSound}
use go_uspclient.Buffer.Run.{
  Op, adds, acks, delivers, resets, resizes, closes, step, run, run-fresh-IsSound,
}
use go_uspclient.Buffer.Acks.{
  ack_check-iff-Ackable, ack_removes, Late, ack_refused, ack_refuses_across_wrap,
}
use go_uspclient.Buffer.Delivery.{IsDone, get_next_to_deliver-IsDone}
use go_uspclient.Buffer.Log.{Log, empty_log, LogRun, Shows, answers}
use go_uspclient.Buffer.Refining.{run-fresh-Shows}
use go_uspclient.Buffer.Blocking.{add_round, waits_for}
use go_uspclient.Buffer.Control.{drain_round, live_seq_bounds, update_capacity}
use go_uspclient.Buffer.Retire.{update_availability, shrink_backing_locked}
use go_uspclient.Buffer.State.{sample_wake, signal_locked}
use go_uspclient.Budget.Reserve.{cancel}
use go_uspclient.Buffer.Admit.{byte_gate}
use go_uspclient.Buffer.Wakeups.{IsHeard, Still}
use go_uspclient.Buffer.Retrying.{add_round-wakes, drain_round-wakes}
use go_uspclient.Buffer.Control.{get_un_acked, live_slots, seq_or_zero}
use go_uspclient.Buffer.Listing.{first_of, last_of}
use go_uspclient.Buffer.Reported.{live_seq_bounds-get_un_acked}
use go_uspclient.Buffer.Admit.{append, track, shared_gate}
use go_uspclient.Buffer.Guarantee.{is_over, HoldsAsker, EndsAsking, try_add_guarantee}
use go_uspclient.Buffer.Handed.{Handed, get_next_to_deliver-Handed}

abbrev script : List Op
script =
    resizes 4
    ∷ adds (with_seq_num 0) 256 none none 0
    ∷ adds (with_seq_num 0) 256 none (some 0) 1
    ∷ delivers
    ∷ delivers
    ∷ acks 1
    ∷ resets
    ∷ closes
    ∷ []

-- Two messages in a window of four, numbered from `first`; one has been handed out.
abbrev two_held : ℕ → AckBuffer
unfolding fresh_buffer new_event set_event
two_held first = record (fresh_buffer 0 none none) {
  buff = some (with_seq_num first) ∷ some (with_seq_num (add64 first 1)) ∷ none ∷ none ∷ [];
  next_index_free = 2;
  first_seq_num = first;
  next_seq_num = add64 first 2;
  ack_every = 2;
  next_index_to_deliver = 1;
  current_capacity = 4;
  is_ready_to_deliver = set_event new_event;
  is_empty = new_event;
}

two_held-IsValid : (first : ℕ) → first < word → IsValid (two_held first)
unfolding fresh_buffer new_event set_event
two_held-IsValid first h = ground arith

two_held-IsSound : IsSound (two_held 1)
unfolding fresh_buffer new_event set_event
two_held-IsSound = record {
  valid = two_held-IsValid 1 (omega arith);
  tracked = record { chain = tt };
}

all_held : AckBuffer
unfolding fresh_buffer new_event set_event
all_held = record (two_held 1) {
  next_index_to_deliver = 2;
  is_ready_to_deliver = new_event;
  is_empty = set_event new_event;
}

all_held-IsSound : IsSound all_held
unfolding all_held fresh_buffer new_event set_event
all_held-IsSound = record { valid = ground arith; tracked = record { chain = tt } }

run-fresh-IsSound_example : IsSound (run script (fresh_buffer 1000 none none))
run-fresh-IsSound_example = run-fresh-IsSound script 1000 none none (omega arith)

ack_check-iff-Ackable_example : (ack_check 1 (two_held 1) ≡ none) ↔ Ackable 1 (two_held 1)
unfolding fresh_buffer new_event set_event
ack_check-iff-Ackable_example =
    ack_check-iff-Ackable 1 (two_held 1) (two_held-IsValid 1 (omega arith)) (omega arith)
      (omega arith)

ack_removes_example : pending (ack 1 (two_held 1)).1 ≡ some (with_seq_num 2) ∷ []
unfolding fresh_buffer new_event set_event ack_check
ack_removes_example =
    (ack_removes 1 (two_held 1) (two_held-IsValid 1 (omega arith)) (omega arith) refl refl).1

ack_refused_example :
    ((ack 2 (two_held 1)).1 ≡ two_held 1) × (((ack 2 (two_held 1)).0 ≡ none) ↔ Late 2 (two_held 1))
unfolding fresh_buffer new_event set_event
ack_refused_example =
    ack_refused 2 (two_held 1) (two_held-IsValid 1 (omega arith)) (omega arith) (omega arith)
      (λ h. omega arith)

-- The window holds 2 ^ 64 - 2 to 0, and 2 ^ 64 - 2 has been handed out.
abbrev wrapping : AckBuffer
unfolding fresh_buffer new_event set_event
wrapping = record (two_held (2 ^ 64 - 2)) {
  buff =
      some (with_seq_num (2 ^ 64 - 2))
      ∷ some (with_seq_num (2 ^ 64 - 1))
      ∷ some (with_seq_num 0)
      ∷ none
      ∷ [];
  next_index_free = 3;
  next_seq_num = 1;
}

wrapping-IsValid : IsValid wrapping
unfolding fresh_buffer new_event set_event
wrapping-IsValid = ground arith

ack_refuses_across_wrap_example :
    (sub64 (2 ^ 64 - 2) (2 ^ 64 - 2) < 3)
    × (ack (2 ^ 64 - 2) wrapping ≡ (some (unexpected (2 ^ 64 - 2)), wrapping))
unfolding fresh_buffer new_event set_event
ack_refuses_across_wrap_example =
    ack_refuses_across_wrap (2 ^ 64 - 2) wrapping wrapping-IsValid (omega arith) (omega arith)
      (omega arith)

get_next_to_deliver-IsDone_example : IsDone (get_next_to_deliver all_held).1
unfolding all_held fresh_buffer new_event set_event get_next_to_deliver
get_next_to_deliver-IsDone_example = get_next_to_deliver-IsDone all_held all_held-IsSound refl

get_next_to_deliver-Handed_example : Handed (with_seq_num 2) (get_next_to_deliver (two_held 1)).1
unfolding fresh_buffer new_event set_event get_next_to_deliver deliver_loop take_entry find_entry
    hand_out contains only_retired_after_locked
get_next_to_deliver-Handed_example =
    get_next_to_deliver-Handed (two_held 1) (with_seq_num 2) two_held-IsSound refl

try_add-TookIn_example :
    let (r, b') = try_add (with_seq_num 0) 256 none (some 5) 3 (two_held 1) in
    ((r.0 ≡ true) × TookIn (with_seq_num 0) (two_held 1) b')
    ⊎ ((r.0 ≡ false)
        × (pending b' ≡ pending (two_held 1))
        × (b'.next_seq_num ≡ (two_held 1).next_seq_num))
try_add-TookIn_example =
    try_add-TookIn (with_seq_num 0) 256 (some 5) 3 (two_held 1) none
      (two_held-IsValid 1 (omega arith))

-- A buffer with a retired receipt in cell 0.
abbrev with_retired : AckBuffer
with_retired = record (two_held 1) { cells = λ c. retired }

run-keeps_retired_example :
    (run (acks 1 ∷ resets ∷ delivers ∷ resizes 8 ∷ closes ∷ []) with_retired).cells 0 ≡ retired
run-keeps_retired_example =
    run-keeps_retired 0 (acks 1 ∷ resets ∷ delivers ∷ resizes 8 ∷ closes ∷ []) with_retired
      (tt, (tt, (tt, (tt, (tt, tt))))) refl

-- A message that may be handed out twice has been once, and delivery starts anew.
abbrev once_sent : List Op
once_sent = resizes 4 ∷ adds (with_seq_num 0) 256 none (some 0) 2 ∷ delivers ∷ resets ∷ []

abbrev sent_entry : TrackedAdmission
sent_entry = record { seq = 1; state = 0; max = 2; sends = 1 }

run-fresh-Shows_example :
    (l : Log) × LogRun script (answers script (fresh_buffer 1000 none none)) empty_log l
    × Shows l (run script (fresh_buffer 1000 none none))
run-fresh-Shows_example = run-fresh-Shows script 1000 none none (omega arith)

-- A full window, and the same with a channel that a call waits on.
abbrev full_held : AckBuffer
unfolding fresh_buffer new_event set_event
full_held = record (two_held 1) { current_capacity = 2; is_available = new_event }

abbrev awaited : AckBuffer
unfolding fresh_buffer new_event set_event
awaited = record full_held { wake = some 0; next_wake = 1 }

add_round-wakes_example :
    IsHeard 0 (run (delivers ∷ acks 1 ∷ []) awaited)
    ⊎ (Still awaited (run (delivers ∷ acks 1 ∷ []) awaited)
        × ((awaited.is_available.v ≡ true)
            ⊎ ((add_round (with_seq_num 0) 256 none none 0 (run (delivers ∷ acks 1 ∷ []) awaited)).0
                ≡ waits_for 0 none)))
unfolding fresh_buffer new_event set_event add_round try_add byte_gate sample_wake cancel
add_round-wakes_example =
    add_round-wakes (with_seq_num 0) 256 none none 0 full_held awaited 0 none
      (delivers ∷ acks 1 ∷ []) refl

drain_round-wakes_example :
    IsHeard 0 (run (acks 1 ∷ closes ∷ []) awaited)
    ⊎ Still awaited (run (acks 1 ∷ closes ∷ []) awaited)
unfolding fresh_buffer new_event set_event drain_round sample_wake live_seq_bounds
drain_round-wakes_example = drain_round-wakes false full_held awaited 0 (acks 1 ∷ closes ∷ []) refl

-- Message 1 is retired, and message 2 is not.
abbrev half_retired : AckBuffer
unfolding fresh_buffer new_event set_event
half_retired = record (two_held 1) { retired = 1 ∷ [] }

half_retired-IsValid : IsValid half_retired
unfolding fresh_buffer new_event set_event
half_retired-IsValid = ground arith

live_seq_bounds-get_un_acked_example :
    (get_un_acked half_retired ≡ live_slots 0 (pending half_retired) half_retired)
    × (live_seq_bounds half_retired ≡ (
      seq_or_zero (first_of (get_un_acked half_retired)),
      seq_or_zero (last_of (get_un_acked half_retired)),
    ))
unfolding fresh_buffer new_event set_event get_un_acked live_slots contains
live_seq_bounds-get_un_acked_example =
    live_seq_bounds-get_un_acked half_retired half_retired-IsValid (λ e. cc)

-- A message that uses the limit up, in a window of four.
abbrev tight : List Op
tight = resizes 4 ∷ adds (with_seq_num 0) 256 none none 0 ∷ []

tight_available : (run tight (fresh_buffer 100 none none)).is_available.v ≡ true
unfolding run step try_add byte_gate shared_gate append track update_capacity signal_locked
    update_availability shrink_backing_locked fresh_buffer set_event clear_event new_event
tight_available = refl

try_add_guarantee_example :
    let b = run tight (fresh_buffer 100 none none) in
    let (r, b') = try_add (with_seq_num 0) 256 none none 0 b in
    HoldsAsker b ⊎ ((r.0 ≡ true) × ((is_over 256 b ≡ false) ⊎ EndsAsking b b'))
try_add_guarantee_example =
    try_add_guarantee tight 100 none none (with_seq_num 0) 256 none none 0 (omega arith, (tt, tt))
      (omega arith) tight_available
