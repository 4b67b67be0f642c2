-- ===== src/Client/Connecting.antt =====
-- How the first connection of a client ends.
use go_uspclient.Base.{
  ◌≡◌, refl, ◌∙◌, Bool, true, false, Option, none, some, String, arith, if◌then◌else◌, Bool-cases,
  inl, inr, ap, ◌⊎◌, List, [], ◌∷◌,
}
use go_uspclient.Event.{set_event, clear_event}
use go_uspclient.Protocol.Messages.{ControlMessage}
use go_uspclient.Buffer.State.{signal_locked}
use go_uspclient.Buffer.Control.{close, release_all_locked}
use go_uspclient.Client.State.{Client, ClientError, io_failed, reconnect_requested, set_last_error}
use go_uspclient.Client.Options.{ClientOptions}
use go_uspclient.Client.Dial.{DialResult, connected, failed, context_done}
use go_uspclient.Client.Control.{process_control_message, process_ack, reconnect}
use go_uspclient.Client.Connect.{
  Network, DialerResult, no_dialer, dials_with, create_proxy_dialer, ConnectError, rejected,
  not_read, interrupted, closing, drop_socket, publish, accept_reply, greet, after_dial,
  after_dialer, or_url, connect,
}
use go_uspclient.Client.System.{System, step_thread, step_worker, move}
use go_uspclient.Client.Create.{Turn, of_thread, of_worker, turns, alone, throw_away}

-- Nothing of the client is left: no socket, no connection, nothing to wait for, and no bytes, no
-- waiter and no group that its buffer holds.
pub record IsGone (c : Client) : Type 0 where
  socket : c.is_socket_open ≡ false
  pub conn : c.conn ≡ false
  pub cancelled : c.is_cancelled ≡ true
  pub running : c.buffer.is_running ≡ false
  pub closed : c.buffer.is_closed ≡ true
  pub registered : c.buffer.registered ≡ false
  pub bytes : c.buffer.bytes ≡ 0
  pub wake : c.buffer.wake ≡ none

-- A client that works: connected, its workers let go, and nothing stops them.
pub record IsUp (c : Client) : Type 0 where
  socket : c.is_socket_open ≡ true
  pub conn : c.conn ≡ true
  started : c.is_start.v ≡ true
  pub stopped : c.is_stop.v ≡ false
  pub cancelled : c.is_cancelled ≡ false
  pub closing : c.is_closing ≡ false

-- What `connect` keeps of a client without a connection.
pub record IsDown (c : Client) : Type 0 where
  pub conn : c.conn ≡ false
  pub stopped : c.is_stop.v ≡ false
  pub cancelled : c.is_cancelled ≡ false
  pub closing : c.is_closing ≡ false

process-IsDown :
    (msg : ControlMessage) (c : Client)
    → IsDown c
    → IsDown (process_control_message msg c).1
      × ((process_control_message msg c).1.is_socket_open ≡ c.is_socket_open)
unfolding process_control_message process_ack reconnect
process-IsDown msg c d = ground (arith, d.conn, d.stopped, d.cancelled, d.closing)

-- A control message starts a goroutine of `Reconnect` only where it asks for it.
process_asks :
    (msg : ControlMessage) (c : Client)
    → let (e, c', starts) = process_control_message msg c in
      (starts ≡ false) ⊎ (e ≡ some reconnect_requested)
unfolding process_control_message process_ack reconnect
process_asks msg c = ground arith

dropped-IsDown : (e : ClientError) (c : Client) → IsDown c → IsDown (drop_socket e c)
dropped-IsDown e c d = record {
  conn = d.conn;
  stopped = d.stopped;
  cancelled = d.cancelled;
  closing = d.closing;
}

-- How an attempt ends: connected, or with the socket closed; and a goroutine of `Reconnect` starts
-- only where the answer asks for it.
abbrev pub Ends : Option ConnectError × Client × Bool → Type 0
Ends (none, c, starts) = IsUp c × (starts ≡ false)
Ends (some e, c, starts) =
    IsDown c × (c.is_socket_open ≡ false) × ((starts ≡ false) ⊎ (e ≡ rejected reconnect_requested))

abbrev published : Client → Client
unfolding set_event clear_event
published c = record c {
  is_stop = clear_event c.is_stop;
  conn = true;
  is_start = set_event c.is_start;
}

publish_open :
    (spawned : Bool) (c : Client)
    → c.is_closing ≡ false
    → publish spawned c ≡ (none, published c, spawned)
unfolding publish set_event clear_event
publish_open spawned c h = ground (arith, h)

publish-Ends :
    (spawned : Bool) (c : Client)
    → IsDown c
    → c.is_socket_open ≡ true
    → spawned ≡ false
    → Ends (publish spawned c)
unfolding set_event clear_event
publish-Ends spawned c d o n = rw (publish_open spawned c d.closing) (
  record {
    socket = o;
    conn = refl;
    started = refl;
    stopped = ground (arith, d.stopped);
    cancelled = d.cancelled;
    closing = d.closing;
  },
  n,
)

some_injective : {x y : ClientError} → ◌≡◌ {A = Option ClientError} (some x) (some y) → x ≡ y
some_injective q = cc

accept_reply-Ends :
    (msg : ControlMessage) (c : Client)
    → IsDown c
    → c.is_socket_open ≡ true
    → Ends (accept_reply msg c)
unfolding accept_reply
accept_reply-Ends msg c d o =
    go (process_control_message msg c) (process-IsDown msg c d).0 ((process-IsDown msg c d).1 ∙ o)
      (process_asks msg c)
  where
    go :
        (r : Option ClientError × Client × Bool)
        → IsDown r.1
        → r.1.is_socket_open ≡ true
        → (r.2 ≡ false) ⊎ (r.0 ≡ some reconnect_requested)
        → Ends (elim r.0 [
          | none ↦ publish r.2 r.1
          | some failure ↦ (some (rejected failure), drop_socket failure r.1, r.2)
        ])
    go (none, c', spawned) d o (inl n) = publish-Ends spawned c' d o n
    go (none, c', spawned) d o (inr n) = absurd (cc n)
    go (some e, c', spawned) d o (inl n) = (dropped-IsDown e c' d, refl, inl n)
    go (some e, c', spawned) d o (inr n) =
        (dropped-IsDown e c' d, refl, inr (ap rejected (some_injective n)))

greet-Ends : (net : Network) (c : Client) → IsDown c → c.is_socket_open ≡ true → Ends (greet net c)
unfolding greet
greet-Ends net c d o = elim (Bool-cases net.sends_header) [
  | inr h ↦ rw (h, greet) (dropped-IsDown io_failed c d, refl, inl refl)
  | inl h ↦ rw (h, greet) (go net.reply)
]
  where
    go :
        (reply : Option ControlMessage)
        → Ends (elim reply [
          | none ↦ (some not_read, drop_socket io_failed c, false)
          | some msg ↦
              if net.fires_late
              then (some interrupted, drop_socket io_failed c, false)
              else accept_reply msg c
        ])
    go none = (dropped-IsDown io_failed c d, refl, inl refl)
    go (some msg) = elim (Bool-cases net.fires_late) [
      | inl f ↦ rw f (dropped-IsDown io_failed c d, refl, inl refl)
      | inr f ↦ rw f (accept_reply-Ends msg c d o)
    ]

failed-IsDown : (e : Option ClientError) (c : Client) → IsDown c → IsDown (set_last_error e c)
failed-IsDown e c d = record {
  conn = d.conn;
  stopped = d.stopped;
  cancelled = d.cancelled;
  closing = d.closing;
}

after_dial-Ends :
    (net : Network) (c : Client) (r : DialResult)
    → IsDown c
    → c.is_socket_open ≡ false
    → Ends (after_dial net c r)
after_dial-Ends net c (failed i) d s = (failed-IsDown (some io_failed) c d, s, inl refl)
after_dial-Ends net c context_done d s = (d, s, inl refl)
after_dial-Ends net c (connected i) d s =
    greet-Ends net (record c { is_socket_open = true })
      (record { conn = d.conn; stopped = d.stopped; cancelled = d.cancelled; closing = d.closing })
      refl

after_dialer-Ends :
    (net : Network) (o : ClientOptions) (url : String) (c : Client) (r : DialerResult)
    → IsDown c
    → c.is_socket_open ≡ false
    → Ends (after_dialer net o url c r)
after_dialer-Ends net o url c (no_dialer e) d s = (failed-IsDown (some io_failed) c d, s, inl refl)
after_dialer-Ends net o url c (dials_with x) d s = after_dial-Ends net c _ d s

pub connect-Ends :
    (net : Network) (o : ClientOptions) (gen_url : Option String) (wss_url : String) (c : Client)
    → IsDown c
    → c.is_socket_open ≡ false
    → Ends (connect net o gen_url wss_url c)
unfolding connect clear_event
connect-Ends net o gen_url wss_url c d s = open_or c.is_closing d.closing
  where
    begun : Client
    begun = record c { is_start = clear_event c.is_start }

    open_or :
        (b : Bool)
        → b ≡ false
        → Ends (
            if b
            then (some closing, c, false)
            else after_dialer net o
                (or_url gen_url wss_url)
                (record c { is_start = clear_event c.is_start })
                (create_proxy_dialer net o wss_url))
    open_or true h = absurd cc
    open_or false h =
        after_dialer-Ends net o (or_url gen_url wss_url) begun (create_proxy_dialer net o wss_url)
          (record {
            conn = d.conn;
            stopped = d.stopped;
            cancelled = d.cancelled;
            closing = d.closing;
          })
          s

-- Without a goroutine there is no step.
turns-alone : (ts : List Turn) (c : Client) → turns ts (alone c false) ≡ alone c false
unfolding turns move step_thread step_worker
turns-alone [] c = refl
turns-alone (of_thread i a ∷ ts) c = turns-alone ts c
turns-alone (of_worker i r ∷ ts) c = turns-alone ts c

thrown_away : Client → Client
thrown_away c = record c { buffer = close c.buffer; is_cancelled = true }

throw_away-alone :
    (before_close before_cancel : List Turn) (c : Client)
    → throw_away before_close before_cancel (alone c false) ≡ alone (thrown_away c) false
unfolding throw_away thrown_away
throw_away-alone before_close before_cancel c =
    rw (turns-alone before_close c)
      (rw (turns-alone before_cancel (record c { buffer = close c.buffer })) refl)

thrown_away-IsGone : (c : Client) → IsDown c → c.is_socket_open ≡ false → IsGone (thrown_away c)
unfolding thrown_away close release_all_locked signal_locked
thrown_away-IsGone c d s = record {
  socket = s;
  conn = d.conn;
  cancelled = refl;
  running = ground arith;
  closed = ground arith;
  registered = ground arith;
  bytes = ground arith;
  wake = ground arith;
}

-- The client that is thrown away has no goroutine, and nothing is left of it.
abbrev pub IsForgotten : System → Type 0
IsForgotten s = IsGone s.client × (s.threads ≡ []) × (s.workers ≡ [])

pub throw_away-cancelled :
    (before_close before_cancel : List Turn) (s : System)
    → (throw_away before_close before_cancel s).client.is_cancelled ≡ true
unfolding throw_away
throw_away-cancelled before_close before_cancel s = refl

pub throw_away-IsForgotten :
    (before_close before_cancel : List Turn) (c : Client)
    → IsDown c
    → c.is_socket_open ≡ false
    → IsForgotten (throw_away before_close before_cancel (alone c false))
throw_away-IsForgotten before_close before_cancel c d s =
    rw (throw_away-alone before_close before_cancel c) (thrown_away-IsGone c d s, refl, refl)
