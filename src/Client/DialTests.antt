-- ===== src/Client/DialTests.antt =====
-- A dial and a tunnel on small inputs, and the theorems at them.
use go_uspclient.Base.{ℕ, zero, suc, ◌≡◌, ◌⊎◌, ◌↔◌, ◌-◌, refl, Bool, true, false, none, some}
use go_uspclient.Client.Dial.{
  Attempt, connected, max_retries, dial, dial_from, Outcome, dial-Outcome,
}
use go_uspclient.Client.Tunnel.{TunnelReport, open_tunnel, DeadlineFails, open_tunnel_left_open}

-- Only the third round connects.
abbrev third_time : ℕ → Attempt
third_time i = record { cancelled = false; connects = is_two i; interrupted = false }
  where
    is_two : ℕ → Bool
    is_two (suc (suc zero)) = true
    is_two n = false

dial_third : dial third_time "http://proxy" ≡ connected 2
unfolding dial dial_from max_retries
dial_third = refl

dial-Outcome_example :
    Outcome third_time (max_retries "http://proxy" - 1) 0 (dial third_time "http://proxy")
dial-Outcome_example = dial-Outcome third_time "http://proxy"

-- The proxy accepts, and the deadline cannot be cleared.
abbrev uncleared : TunnelReport
uncleared = record {
  connects = true;
  sets_deadline = true;
  writes = true;
  status = some 200;
  clears_deadline = false;
}

open_tunnel_left_open_example :
    ((open_tunnel uncleared).1 ≡ true)
    ↔ (((open_tunnel uncleared).0 ≡ none) ⊎ DeadlineFails uncleared)
open_tunnel_left_open_example = open_tunnel_left_open uncleared
