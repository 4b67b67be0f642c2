-- ===== src/Client/Creation.antt =====
-- What `NewClient` returns, and what it leaves behind when it fails.
use go_uspclient.Base.{
  ◌≡◌, refl, Bool, true, false, not, ◌⊎◌, inl, inr, List, [], Option, none, some, String,
  if◌then◌else◌,
}
use go_uspclient.Event.{new_event}
use go_uspclient.Protocol.Mapping.{Compilers}
use go_uspclient.Buffer.State.{AckBuffer, new_ack_buffer}
use go_uspclient.Client.State.{Client, reconnect_requested}
use go_uspclient.Client.Options.{ClientOptions, normalize_proxy_config}
use go_uspclient.Client.Starting.{StartError, check_options}
use go_uspclient.Client.Threads.{spawning}
use go_uspclient.Client.System.{recruits}
use go_uspclient.Client.Connect.{ConnectError, rejected, connect}
use go_uspclient.Client.Create.{
  Surroundings, Created, no_buffer, invalid_options, no_organization, refused, abandoned, sink,
  created, Endpoint, endpoint, not_found, resolve, unconnected, alone, throw_away, with_hostname,
  create_on, create,
}
use go_uspclient.Client.Connecting.{
  IsForgotten, IsUp, IsDown, Ends, connect-Ends, throw_away-cancelled, throw_away-IsForgotten,
}

-- What `NewClient` gives.
abbrev pub IsSettled : Created → Type 0
IsSettled (refused e) = Unit
IsSettled (abandoned e s) =
    (s.client.is_cancelled ≡ true) × (IsForgotten s ⊎ (e ≡ rejected reconnect_requested))
IsSettled (sink o) = o.test_sink_mode ≡ true
IsSettled (created o url s) =
    (o.test_sink_mode ≡ false) × IsUp s.client × (s.threads ≡ []) × (s.workers ≡ recruits spawning)

unconnected-IsDown : (b : AckBuffer) → IsDown (unconnected b)
unfolding unconnected new_event
unconnected-IsDown b = record { conn = refl; stopped = refl; cancelled = refl; closing = refl }

if-IsSettled :
    (c : Bool) (x y : Created)
    → (c ≡ true → IsSettled x)
    → (c ≡ false → IsSettled y)
    → IsSettled (if c then x else y)
if-IsSettled true x y f g = f refl
if-IsSettled false x y f g = g refl

create_on-IsSettled :
    (w : Surroundings) (o : ClientOptions) (url : String)
    → o.test_sink_mode ≡ false
    → IsSettled (create_on w o url)
unfolding create_on unconnected
create_on-IsSettled w o url t = go (new_ack_buffer o.buffer_options)
  where
    after :
        (r : Option ConnectError × Client × Bool)
        → Ends r
        → IsSettled (elim r.0 [
          | none ↦ created o url (record (alone r.1 r.2) { workers = recruits spawning })
          | some failure ↦
              abandoned failure (throw_away w.before_close w.before_cancel (alone r.1 r.2))
        ])
    after (none, c, true) h = absurd (cc h.1)
    after (none, c, false) h = (t, h.0, refl, refl)
    after (some e, c, true) (d, s, inl h) = absurd (cc h)
    after (some e, c, false) (d, s, inl h) = (
      throw_away-cancelled w.before_close w.before_cancel (alone c false),
      inl (throw_away-IsForgotten w.before_close w.before_cancel c d s),
    )
    after (some e, c, starts) (d, s, inr h) =
        (throw_away-cancelled w.before_close w.before_cancel (alone c starts), inr h)

    go :
        (b : Option AckBuffer)
        → IsSettled (elim b [
          | none ↦ refused no_buffer
          | some b ↦
              let (e, c, starts) = connect w.network o w.gen_url url (unconnected b) in
              elim e [
                | none ↦ created o url (record (alone c starts) { workers = recruits spawning })
                | some failure ↦
                    abandoned failure (throw_away w.before_close w.before_cancel (alone c starts))
              ]
        ])
    go none = tt
    go (some b) =
        after (connect w.network o w.gen_url url (unconnected b))
          (connect-Ends w.network o w.gen_url url (unconnected b) (unconnected-IsDown b) refl)

-- Whatever the options, the SDK, the proxy, the network, the peer, the context and the scheduler do,
-- `NewClient` returns one of these: an error, with no client made; the client of `TestSinkMode`,
-- where that is asked for; where it is not, a client whose socket is open and whose three workers
-- are let go, with no reconnection under way and nothing that stops them; or an error and the client
-- that was made, with its context cancelled. Unless that error is that the proxy's first answer asked
-- for a reconnection, the latter is gone: its socket is closed, it has no goroutine, and its buffer is
-- closed, with no bytes, no waiter and no registration in the shared budget.
pub create-IsSettled :
    (lib : Compilers) (patterns_ok : List (String × String) → Bool) (w : Surroundings)
    (o : ClientOptions)
    → IsSettled (create lib patterns_ok w o)
unfolding create normalize_proxy_config
create-IsSettled lib patterns_ok w o = checked (check_options lib patterns_ok options)
  where
    options : ClientOptions
    options = normalize_proxy_config o

    resolved :
        o.test_sink_mode ≡ false
        → (r : Endpoint)
        → IsSettled (elim r [
          | not_found e ↦ refused e
          | endpoint url ↦ create_on w (with_hostname w options) url
        ])
    resolved t (not_found e) = tt
    resolved t (endpoint url) = create_on-IsSettled w (with_hostname w options) url t

    checked :
        (e : Option StartError)
        → IsSettled (elim e [
          | some e ↦ refused (invalid_options e)
          | none ↦
              if o.test_sink_mode
              then sink options
              else if not w.finds_organization
              then refused no_organization
              else elim (resolve w options) [
                | not_found e ↦ refused e
                | endpoint url ↦ create_on w (with_hostname w options) url
              ]
        ])
    checked (some e) = tt
    checked none =
        if-IsSettled o.test_sink_mode (sink options) _ (λ t. t)
          (λ t.
            if-IsSettled (not w.finds_organization) (refused no_organization) _ (λ _. tt)
              (λ _. resolved t (resolve w options)))
