-- ===== src/Client/Tests.antt =====
-- Schedules of a client, and the theorems at them.
use go_uspclient.Base.{
  ◌<◌, ◌*◌, ◌^◌, contains, ℕ, ◌≡◌, ◌≤◌, ◌↔◌, refl, true, false, List, [], ◌∷◌, ◌++◌, Option, none,
  some, get_elem?, inl, inr,
}
use go_uspclient.Event.{new_event, set_event, clear_event}
use go_uspclient.Protocol.Messages.{DataMessage, ControlMessage}
use go_uspclient.Buffer.State.{fresh_buffer, signal_locked}
use go_uspclient.Buffer.Deliver.{
  ack, get_next_to_deliver, deliver_loop, take_entry, find_entry, next_entry, hand_out,
  only_retired_after_locked, ack_check, ack_prefix, reset_delivery, retire_exhausted,
}
use go_uspclient.Buffer.Blocking.{size_of, add_round}
use go_uspclient.Buffer.Admit.{try_add, append, track, byte_gate}
use go_uspclient.Buffer.Retire.{
  ack_receipts_locked, drop_receipts_locked, drop_entries, remove_prefix_locked, move_slots,
  shift_slots, free_prefix_bytes, shrink_backing_locked, update_availability, adjust_delivery,
  purge_retired, release_retired_head_locked,
}
use go_uspclient.Buffer.Control.{close, release_all_locked, update_capacity, get_un_acked}
use go_uspclient.Client.State.{new_client, set_receipt_lifetime}
use go_uspclient.Client.Control.{reconnect, process_control_message, process_ack}
use go_uspclient.Client.Threads.{returned, reads, goes_on, advance, answered}
use go_uspclient.Client.Workers.{
  throttled, cap_backoff, sender, loops, send, transmit, transmitted, on, gives, breaks, takes,
  proceed, break_off, serve, listen,
}
use go_uspclient.Client.System.{
  System, Move, advances, proceeds, asks_reconnect, asks_close, ships, binds, total, step_thread,
  step_worker, move, moves, new_system,
}
use go_uspclient.Buffer.Valid.Retiring.{IsSound}
use go_uspclient.Client.Turns.{holds, owns}
use go_uspclient.Client.Exclusion.{moves-exclusive}
use go_uspclient.Client.Closing.{IsShut}
use go_uspclient.Client.Shutdown.{returned-IsShut}
use go_uspclient.Client.Keeping.{AllFitMoves}
use go_uspclient.Client.Sound.{moves-fresh-IsSound}
use go_uspclient.Buffer.State.{acknowledged}
use go_uspclient.Client.State.{closed}
use go_uspclient.Client.Receipts.{observe_receipt, observation, admission_receipt_owner}
use go_uspclient.Client.Observing.{observed, confirmed, observe_receipt-confirmed}
use go_uspclient.Client.Settled.{settled, returned-keeps_cells, observe_receipt_settled}
use go_uspclient.Protocol.Messages.{with_seq_num}
use go_uspclient.Client.Throttle.{throttled_bound}
use go_uspclient.Client.Hang.{IsStuck, close_hangs}

abbrev ready : ControlMessage
ready = record { verb = "rd"; seq_num = 0; duration = 0; window_size = 0; error = "" }

abbrev go : ℕ → Move
go i = advances i goes_on

-- The listener's read fails, the workers stop, and the reconnection passes its last test of
-- `isClosing`.
abbrev to_starting : List Move
to_starting =
    proceeds 0 on
    ∷ proceeds 0 on
    ∷ proceeds 0 breaks
    ∷ proceeds 1 on
    ∷ proceeds 2 on
    ∷ go 0
    ∷ go 0
    ∷ proceeds 1 on
    ∷ proceeds 2 on
    ∷ go 0
    ∷ go 0
    ∷ go 0
    ∷ go 0
    ∷ advances 0 (reads ready)
    ∷ go 0
    ∷ []

-- `Close` runs up to its lock; the reconnection clears `isStop`, starts the workers and ends.
abbrev to_hang : List Move
to_hang =
    asks_close
    ∷ go 1
    ∷ go 1
    ∷ go 1
    ∷ go 1
    ∷ go 0
    ∷ go 0
    ∷ go 0
    ∷ go 0
    ∷ go 0
    ∷ go 1
    ∷ proceeds 4 on
    ∷ []

abbrev start : System
start = new_system (fresh_buffer 0 none none)

abbrev hanging : System
hanging = moves (to_starting ++ to_hang) start

hanging-IsStuck : IsStuck 4 hanging
unfolding moves move new_system proceed new_client break_off reconnect advance total answered
    process_control_message set_receipt_lifetime close signal_locked release_all_locked
    reset_delivery release_retired_head_locked update_capacity serve listen fresh_buffer set_event
    clear_event new_event step_thread step_worker retire_exhausted
hanging-IsStuck = record {
  hung = record {
    closing = refl;
    not_stopped = refl;
    cut = refl;
    unthrottled = refl;
    sealed = refl;
    idle = refl;
  };
  parked = (inl refl, (inr refl, tt));
  looping = (record { kind = sender; phase = loops }, refl, (refl, inl refl));
}

abbrev later : List Move
later = proceeds 4 on ∷ asks_reconnect ∷ go 1 ∷ proceeds 4 on ∷ go 1 ∷ []

close_hangs_example : (moves later hanging).threads ≡ hanging.threads
close_hangs_example = close_hangs 4 later hanging (tt, (tt, (tt, (tt, (tt, tt))))) hanging-IsStuck

-- `Close` of an idle client, from its first step to its last.
abbrev to_close : List Move
to_close =
    asks_close
    ∷ go 0
    ∷ go 0
    ∷ go 0
    ∷ go 0
    ∷ go 0
    ∷ proceeds 0 on
    ∷ proceeds 1 on
    ∷ proceeds 2 on
    ∷ proceeds 0 on
    ∷ proceeds 1 on
    ∷ proceeds 2 on
    ∷ go 0
    ∷ go 0
    ∷ go 0
    ∷ go 0
    ∷ []

to_close_returns : get_elem? (moves to_close start).threads 0 ≡ some (returned [])
unfolding moves move new_system advance set_receipt_lifetime new_client proceed total get_un_acked
    close signal_locked release_all_locked fresh_buffer set_event clear_event new_event step_thread
    step_worker
to_close_returns = refl

returned-IsShut_example : IsShut (moves to_close start)
returned-IsShut_example = returned-IsShut to_close (fresh_buffer 0 none none) 0 [] to_close_returns

moves-exclusive_example :
    let s = moves to_starting start in
    (total holds s.threads ≤ 1)
    × (total owns s.threads ≤ 1)
    × ((total owns s.threads ≡ 1) ↔ (s.client.is_reconnecting ≡ true))
moves-exclusive_example = moves-exclusive to_starting (fresh_buffer 0 none none)

moves-fresh-IsSound_example : IsSound (moves to_close start).client.buffer
moves-fresh-IsSound_example = moves-fresh-IsSound to_close 0 none none (
  tt,
  (tt, (tt, (tt, (tt, (tt, (tt, (tt, (tt, (tt, (tt, (tt, (tt, (tt, (tt, (tt, tt))))))))))))))),
)

-- A message with a receipt is shipped, sent and acknowledged.
abbrev ack_one : ControlMessage
ack_one = record { verb = "ack"; seq_num = 1; duration = 0; window_size = 0; error = "" }

abbrev to_acked : List Move
to_acked =
    ships (with_seq_num 0) none (some 7) 0
    ∷ binds
    ∷ proceeds 1 on
    ∷ proceeds 1 on
    ∷ proceeds 1 takes
    ∷ proceeds 0 on
    ∷ proceeds 0 on
    ∷ proceeds 0 (gives ack_one)
    ∷ []

acked_confirmed : observed [] [] [] [] [] (moves to_acked start) 5 7 ≡ confirmed
unfolding byte_gate contains advance take_entry find_entry next_entry hand_out
    only_retired_after_locked ack_check ack_prefix track ack_receipts_locked drop_receipts_locked
    drop_entries remove_prefix_locked move_slots shift_slots free_prefix_bytes shrink_backing_locked
    update_availability adjust_delivery purge_retired release_retired_head_locked signal_locked
    set_receipt_lifetime total get_un_acked close release_all_locked moves move new_system
    new_client proceed serve listen send transmit transmitted process_control_message process_ack
    add_round size_of try_add append ack get_next_to_deliver deliver_loop fresh_buffer set_event
    clear_event new_event step_thread step_worker observe_receipt observation
    admission_receipt_owner
acked_confirmed = refl

observe_receipt-confirmed_example :
    let c = (moves to_acked start).client in
    (c.buffer.cells 7 ≡ acknowledged) × (c.is_closing ≡ false)
unfolding moves new_system
observe_receipt-confirmed_example =
    observe_receipt-confirmed [] [] [] [] [] (moves to_acked start) 5 7 acked_confirmed

-- A message is shipped with a receipt and not acknowledged, and the client is closed.
abbrev to_left : List Move
to_left = ships (with_seq_num 0) none (some 7) 0 ∷ binds ∷ to_close

abbrev one_left : Option DataMessage
one_left = some (record (with_seq_num 1) { ack_requested = true })

left_returns : get_elem? (moves to_left start).threads 0 ≡ some (returned (one_left ∷ []))
unfolding byte_gate contains advance take_entry find_entry next_entry hand_out
    only_retired_after_locked ack_check ack_prefix track ack_receipts_locked drop_receipts_locked
    drop_entries remove_prefix_locked move_slots shift_slots free_prefix_bytes shrink_backing_locked
    update_availability adjust_delivery purge_retired release_retired_head_locked signal_locked
    set_receipt_lifetime total get_un_acked close release_all_locked moves move new_system
    new_client proceed serve listen send transmit transmitted process_control_message process_ack
    add_round size_of try_add append ack get_next_to_deliver deliver_loop fresh_buffer set_event
    clear_event new_event step_thread step_worker admission_receipt_owner
left_returns = refl

left_fits : AllFitMoves to_left
left_fits = (
  tt,
  (
    tt,
    (
      tt,
      (tt, (tt, (tt, (tt, (tt, (tt, (tt, (tt, (tt, (tt, (tt, (tt, (tt, (tt, (tt, tt))))))))))))))),
    ),
  ),
)

returned-keeps_cells_example :
    (moves later (moves to_left start)).client.buffer.cells
    ≡ (moves to_left start).client.buffer.cells
returned-keeps_cells_example =
    returned-keeps_cells to_left later (fresh_buffer 0 none none) 0 (one_left ∷ []) left_fits
      (tt, (tt, (tt, (tt, (tt, tt))))) left_returns

left_owned : (moves to_left start).client.receipt_owner ≡ some closed
unfolding byte_gate contains advance take_entry find_entry next_entry hand_out
    only_retired_after_locked ack_check ack_prefix track ack_receipts_locked drop_receipts_locked
    drop_entries remove_prefix_locked move_slots shift_slots free_prefix_bytes shrink_backing_locked
    update_availability adjust_delivery purge_retired release_retired_head_locked signal_locked
    set_receipt_lifetime total get_un_acked close release_all_locked moves move new_system
    new_client proceed serve listen send transmit transmitted process_control_message process_ack
    add_round size_of try_add append ack get_next_to_deliver deliver_loop fresh_buffer set_event
    clear_event new_event step_thread step_worker admission_receipt_owner
left_owned = refl

observe_receipt_settled_example :
    observed [] (go 0 ∷ []) [] [] (asks_reconnect ∷ []) (moves to_left start) 5 7
    ≡ settled ((moves to_left start).client.buffer.cells 7)
observe_receipt_settled_example =
    observe_receipt_settled to_left [] (go 0 ∷ []) [] [] (asks_reconnect ∷ [])
      (fresh_buffer 0 none none) 0 5 7 (one_left ∷ []) closed left_fits
      (tt, (tt, tt), tt, tt, (tt, tt)) left_returns left_owned

-- The proxy asks for a throttle of two days.
abbrev two_days : ControlMessage
two_days = record { verb = "bo"; seq_num = 0; duration = 172800; window_size = 0; error = "" }

abbrev to_throttled : List Move
to_throttled =
    proceeds 0 on
    ∷ proceeds 0 on
    ∷ proceeds 0 (gives two_days)
    ∷ proceeds 1 on
    ∷ proceeds 1 on
    ∷ proceeds 1 on
    ∷ []

throttles :
    get_elem? (moves to_throttled start).workers 1
    ≡ some (record { kind = sender; phase = throttled 86400 })
unfolding moves move new_system new_client proceed serve listen send process_control_message
    fresh_buffer set_event clear_event new_event step_thread step_worker cap_backoff
throttles = refl

throttled_bound_example : (86400 ≤ 24 * 3600) × (86400 * 10 ^ 9 < 2 ^ 63)
throttled_bound_example =
    throttled_bound to_throttled (fresh_buffer 0 none none) 1 86400
      (record { kind = sender; phase = throttled 86400 }) throttles refl
