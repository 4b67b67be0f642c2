-- ===== src/Client/Tunnel.antt =====
-- client.go: the tunnel through a proxy, `NetDialContext`. The answers of the network are parameters.
use go_uspclient.Base.{
  ℕ, ◌≡◌, ◌⊎◌, ◌↔◌, Bool, true, false, not, Option, none, some, if◌then◌else◌, arith, ◌==◌,
}

pub data TunnelError : Type 0 where
  not_connected no_deadline not_sent no_response not_cleared : TunnelError
  refused : ℕ → TunnelError

-- Whether `DialContext`, the first `SetDeadline`, `Write` and the last `SetDeadline` succeed, and the
-- status that `ReadResponse` gives.
pub record TunnelReport : Type 0 where
  pub connects : Bool
  pub sets_deadline : Bool
  pub writes : Bool
  pub status : Option ℕ
  pub clears_deadline : Bool

-- A return with an error: the deferred function closes the connection if the variable `err` that it
-- captured is not nil.
abbrev leave : Bool → TunnelError → Option TunnelError × Bool
leave err e = (some e, not err)

-- `NetDialContext`: its error, and whether the connection to the proxy is open when it returns. The
-- two tests of `SetDeadline` declare an `err` of their own.
unfoldable pub open_tunnel : TunnelReport → Option TunnelError × Bool
open_tunnel r =
    if not r.connects
    then (some not_connected, false)
    else if not r.sets_deadline
    then leave false no_deadline
    else if not r.writes
    then leave true not_sent
    else elim r.status [
      | none ↦ leave true no_response
      | some n ↦
          if not (n == 200)
          then leave true (refused n)
          else if not r.clears_deadline
          then leave false not_cleared
          else (none, true)
    ]

-- Whether a deadline cannot be set or cleared on a connection that is otherwise in order so far.
abbrev pub DeadlineFails : TunnelReport → Type 0
DeadlineFails r =
    (r.connects ≡ true)
    × ((r.sets_deadline ≡ false)
        ⊎ ((r.sets_deadline ≡ true)
            × (r.writes ≡ true)
            × (r.status ≡ some 200)
            × (r.clears_deadline ≡ false)))

-- The connection to the proxy is open when `NetDialContext` returns if the tunnel stands, and also,
-- with nobody to close it, if it returns an error of a `SetDeadline`; after every other error it is
-- closed.
pub open_tunnel_left_open :
    (r : TunnelReport) → ((open_tunnel r).1 ≡ true) ↔ (((open_tunnel r).0 ≡ none) ⊎ DeadlineFails r)
unfolding open_tunnel
open_tunnel_left_open r = ((λ h. ground (arith, h)), λ h. ground (arith, h))
