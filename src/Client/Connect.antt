-- ===== src/Client/Connect.antt =====
-- client.go: `createProxyDialer` and `connectBeforeWorkers` as `NewClient` calls it, while nobody
-- else has the client. What the URL parser, the certificate pool, the network and the context do is a
-- parameter.
use text.Mathlib.Text.{◌==◌}
use go_uspclient.Base.{ℕ, Bool, true, false, not, Option, none, some, String, if◌then◌else◌}
use go_uspclient.Event.{set_event, clear_event}
use go_uspclient.Protocol.Messages.{ControlMessage}
use go_uspclient.Client.State.{Client, ClientError, io_failed, set_last_error}
use go_uspclient.Client.Options.{ClientOptions}
use go_uspclient.Client.Dial.{Attempt, DialResult, dial, connected, failed, context_done}
use go_uspclient.Client.Control.{process_control_message}

-- `url.Parse` of the proxy's URL succeeds; the name of the host of a URL, if the parser finds one;
-- `AppendCertsFromPEM` succeeds; what each dial of a URL meets; `WriteJSON` succeeds; what
-- `ReadJSON` reads; the context fired after the read.
pub record Network : Type 0 where
  pub parses : String → Bool
  pub host_of : String → Option String
  pub appends_certificate : Bool
  pub dials : String → ℕ → Attempt
  pub sends_header : Bool
  pub reply : Option ControlMessage
  pub fires_late : Bool

-- `DefaultDialer`, or one with its timeouts that makes a tunnel; `server_name` is that of the TLS
-- configuration, if there is one.
pub data Dialer : Type 0 where
  default_dialer : Dialer
  tunnel_dialer : (handshake_timeout connect_timeout : ℕ) → (server_name : Option String) → Dialer

pub data DialerError : Type 0 where
  bad_proxy_url bad_certificate : DialerError

pub data DialerResult : Type 0 where
  dials_with : Dialer → DialerResult
  no_dialer : DialerError → DialerResult

unfoldable pub create_proxy_dialer : Network → ClientOptions → String → DialerResult
create_proxy_dialer net o wss_url =
    let p = o.proxy in
    let name = net.host_of wss_url in
    if p.url == ""
    then dials_with default_dialer
    else if not (net.parses p.url)
    then no_dialer bad_proxy_url
    else elim name [
      | none ↦ dials_with (tunnel_dialer p.handshake_timeout p.connect_timeout none)
      | some host ↦
          if not net.appends_certificate
          then no_dialer bad_certificate
          else dials_with (tunnel_dialer p.handshake_timeout p.connect_timeout (some host))
    ]

pub data ConnectError : Type 0 where
  without_dialer : DialerError → ConnectError
  dial_failed interrupted header_failed not_read closing : ConnectError
  rejected : ClientError → ConnectError

-- `conn.Close()`, and `c.setLastError(err)`.
abbrev pub drop_socket : ClientError → Client → Client
drop_socket e c = record c { is_socket_open = false; last_error = some e }

-- The end of `connectBeforeWorkers`: the error, the client, and whether a `Reconnect` started.
unfoldable pub publish : Bool → Client → Option ConnectError × Client × Bool
unfolding set_event clear_event
publish spawned c =
    if c.is_closing then (some closing, record c { is_socket_open = false }, spawned) else (
      none,
      record c { is_stop = clear_event c.is_stop; conn = true; is_start = set_event c.is_start },
      spawned,
    )

-- Once the answer is read.
unfoldable pub accept_reply : ControlMessage → Client → Option ConnectError × Client × Bool
accept_reply msg c =
    let (e, c', spawned) = process_control_message msg c in
    elim e [
      | none ↦ publish spawned c'
      | some failure ↦ (some (rejected failure), drop_socket failure c', spawned)
    ]

-- Once the socket stands: the header and the answer.
unfoldable pub greet : Network → Client → Option ConnectError × Client × Bool
greet net c =
    if not net.sends_header
    then (some header_failed, drop_socket io_failed c, false)
    else elim net.reply [
      | none ↦ (some not_read, drop_socket io_failed c, false)
      | some msg ↦
          if net.fires_late
          then (some interrupted, drop_socket io_failed c, false)
          else accept_reply msg c
    ]

-- Behind the loop of dials.
abbrev pub after_dial : Network → Client → DialResult → Option ConnectError × Client × Bool
after_dial net c (failed i) = (some dial_failed, set_last_error (some io_failed) c, false)
after_dial net c context_done = (some interrupted, c, false)
after_dial net c (connected i) = greet net (record c { is_socket_open = true })

-- Behind `createProxyDialer`.
abbrev pub after_dialer :
    Network → ClientOptions → String → Client → DialerResult → Option ConnectError × Client × Bool
after_dialer net o url c (no_dialer e) =
    (some (without_dialer e), set_last_error (some io_failed) c, false)
after_dialer net o url c (dials_with d) = after_dial net c (dial (net.dials url) o.proxy.url)

abbrev pub or_url : Option String → String → String
or_url none url = url
or_url (some u) url = u

-- `connectBeforeWorkers` on the URL of `GenURL`, if there is one.
unfoldable pub connect :
    Network → ClientOptions → Option String → String → Client → Option ConnectError × Client × Bool
unfolding clear_event
connect net o gen_url wss_url c =
    if c.is_closing
    then (some closing, c, false)
    else after_dialer net o (or_url gen_url wss_url)
        (record c { is_start = clear_event c.is_start }) (create_proxy_dialer net o wss_url)
