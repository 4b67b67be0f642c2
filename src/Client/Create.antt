-- ===== src/Client/Create.antt =====
-- client.go: `NewClient`. What the SDK, the host and the context answer is a parameter.
use Prim.Native.String.{◌++◌}
use text.Mathlib.Text.{◌==◌}
use go_uspclient.Base.{
  ℕ, Bool, true, false, not, List, [], ◌∷◌, Option, none, some, String, if◌then◌else◌,
}
use go_uspclient.Event.{new_event}
use go_uspclient.Protocol.Mapping.{Compilers}
use go_uspclient.Buffer.State.{AckBuffer, new_ack_buffer}
use go_uspclient.Buffer.Control.{close}
use go_uspclient.Client.State.{Client, unknown}
use go_uspclient.Client.Threads.{Answer, spawning}
use go_uspclient.Client.Workers.{Report}
use go_uspclient.Client.System.{System, advances, proceeds, enlist, recruits, with_buffer, move}
use go_uspclient.Client.Options.{ClientOptions, normalize_proxy_config}
use go_uspclient.Client.Starting.{StartError, check_options}
use go_uspclient.Client.Connect.{Network, ConnectError, connect}

-- A step of a goroutine of the client that `NewClient` makes: of the thread or the worker at this
-- position.
pub data Turn : Type 0 where
  of_thread : ℕ → Answer → Turn
  of_worker : ℕ → Report → Turn

unfoldable pub turns : List Turn → System → System
unfolding move
turns [] s = s
turns (of_thread i a ∷ ts) s = turns ts (move (advances i a) s)
turns (of_worker i r ∷ ts) s = turns ts (move (proceeds i r) s)

-- Whether the SDK makes an organization; the URLs it finds, an error or their `lc_wss`; `ctx.Err()`
-- after that error; `os.Hostname`; `GenURL`; the steps that the client's goroutines take between a
-- failure of `connect` and `c.ab.Close()`, and then before `c.closeCancel()`.
pub record Surroundings : Type 0 where
  pub finds_organization : Bool
  pub urls : Option (Option String)
  pub is_context_done : Bool
  pub host_name : String
  pub gen_url : Option String
  pub network : Network
  pub before_close : List Turn
  pub before_cancel : List Turn

pub data CreateError : Type 0 where
  invalid_options : StartError → CreateError
  no_organization context_cancelled no_urls no_site no_buffer : CreateError

-- An error before there is a client; one of `connect`, with the client that is thrown away and its
-- goroutines; the client of `TestSinkMode`, with its options only; a client with its goroutines, its
-- options and its URL.
pub data Created : Type 0 where
  refused : CreateError → Created
  abandoned : ConnectError → System → Created
  sink : ClientOptions → Created
  created : ClientOptions → String → System → Created

pub data Endpoint : Type 0 where
  endpoint : String → Endpoint
  not_found : CreateError → Endpoint

unfoldable pub resolve : Surroundings → ClientOptions → Endpoint
resolve w o = if not (o.dest_url == "") then endpoint o.dest_url else elim w.urls [
  | none ↦ not_found (if w.is_context_done then context_cancelled else no_urls)
  | some site ↦ elim site [ none ↦ not_found no_site | some u ↦ endpoint ("wss://" ++ u ++ "/usp") ]
]

abbrev pub with_hostname : Surroundings → ClientOptions → ClientOptions
with_hostname w o = record o { hostname = if o.hostname == "" then w.host_name else o.hostname }

-- The client before it connects.
unfoldable pub unconnected : AckBuffer → Client
unfolding new_event
unconnected b = record {
  buffer = b;
  receipt_owner = none;
  receipt_lifetime = unknown;
  conn = false;
  is_socket_open = false;
  is_locked = false;
  is_start = new_event;
  is_stop = new_event;
  is_reconnecting = false;
  backoff_time = 0;
  last_error = none;
  is_closing = false;
  is_cancelled = false;
}

-- The client with the goroutine of `Reconnect` that its first answer started, if it did, and no
-- worker.
abbrev pub alone : Client → Bool → System
alone c starts = record { client = c; threads = enlist starts; workers = [] }

-- `c.ab.Close()` and `c.closeCancel()`, with the steps of the goroutines in front of each.
unfoldable pub throw_away : List Turn → List Turn → System → System
unfolding turns
throw_away before_close before_cancel s =
    let s₁ = turns before_close s in
    let s₂ = turns before_cancel (with_buffer (close s₁.client.buffer) s₁) in
    record s₂ { client = record s₂.client { is_cancelled = true } }

unfoldable pub create_on : Surroundings → ClientOptions → String → Created
unfolding throw_away
create_on w o url = elim (new_ack_buffer o.buffer_options) [
  | none ↦ refused no_buffer
  | some b ↦
      let (e, c, starts) = connect w.network o w.gen_url url (unconnected b) in
      elim e [
        | none ↦ created o url (record (alone c starts) { workers = recruits spawning })
        | some failure ↦
            abandoned failure (throw_away w.before_close w.before_cancel (alone c starts))
      ]
]

-- `NewClient`, with the tests of Client/Starting.
unfoldable pub create :
    Compilers → (List (String × String) → Bool) → Surroundings → ClientOptions → Created
create lib patterns_ok w o =
    let o₁ = normalize_proxy_config o in
    elim (check_options lib patterns_ok o₁) [
      | some e ↦ refused (invalid_options e)
      | none ↦
          if o.test_sink_mode
          then sink o₁
          else if not w.finds_organization
          then refused no_organization
          else elim (resolve w o₁) [
            | not_found e ↦ refused e
            | endpoint url ↦ create_on w (with_hostname w o₁) url
          ]
    ]
