-- ===== src/Event/Tests.antt =====
-- `WaitFor` beside other waiters.
use go_uspclient.Base.{◌≡◌, refl, false, [], ◌∷◌, ◌++◌}
use go_uspclient.Event.{Event, wait_for_begin, wait_for_end, set_event}
use go_uspclient.Event.Waiting.{count, joins, wait_for_end-begin}

abbrev one_waiting : Event
one_waiting = record { v = false; waiters = 4 ∷ []; sent = [] }

wait_for_end-begin_example :
    let joined = joins (8 ∷ 9 ∷ []) (wait_for_begin 7 one_waiting).1 in
    (count 9 (wait_for_end 7 joined).waiters ≡ count 9 (one_waiting.waiters ++ 8 ∷ 9 ∷ []))
    × ((wait_for_end 7 joined).v ≡ false)
    × ((wait_for_end 7 joined).sent ≡ one_waiting.sent)
    × (wait_for_end 7 (set_event joined) ≡ set_event joined)
wait_for_end-begin_example = wait_for_end-begin 9 7 (8 ∷ 9 ∷ []) one_waiting refl
