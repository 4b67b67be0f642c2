-- ===== src/Client/OptionTests.antt =====
-- A client and its options on small inputs, and the theorems at them.
use text.Mathlib.Text.{◌==◌}
use go_uspclient.Base.{
  Bool, true, List, ◌≡◌, ◌↔◌, false, [], none, some, ◌∷◌, ◌⊎◌, String, if◌then◌else◌,
}
use go_uspclient.Protocol.Messages.{no_entries, with_seq_num}
use go_uspclient.Protocol.Mapping.{Compilers, MappingDescriptor}
use go_uspclient.Client.Options.{
  ClientOptions, ParsedUrl, unparsed, with_user, without_user, validate_options,
}
use go_uspclient.Client.Starting.{check_options}
use go_uspclient.Client.Create.{Surroundings, create}
use go_uspclient.Client.Creation.{IsSettled, create-IsSettled}
use go_uspclient.Buffer.State.{fresh_buffer}
use go_uspclient.Buffer.Blocking.{added, refused, add_closed}
use go_uspclient.Buffer.Run.{acks, resets}
use go_uspclient.Client.State.{new_client}
use go_uspclient.Client.Api.{
  Handle, in_sink, in_service, ship, client_begin_drain, drain_context, meanwhile,
}
use go_uspclient.Client.Draining.{ship-drained}
use go_uspclient.Client.Passing.{CanStart, check_options_iff}
use go_uspclient.Client.Accepting.{IsAccepted, validate_options_iff}

abbrev blank : MappingDescriptor
blank = record {
  parsing_re = "";
  parsing_grok = [];
  sensor_key_path = "";
  sensor_identity_type = "";
  sensor_hostname_path = "";
  event_type_path = "";
  event_time_path = "";
  event_time_timezone = "";
  investigation_id_path = "";
  is_rename_only = false;
  mappings = [];
  transform = no_entries;
  drop_fields = [];
  sensor_id_replication_path = "";
}

abbrev sample : ClientOptions
sample = record {
  identity = record { oid = "o"; installation_key = "k" };
  hostname = "";
  platform = "text";
  architecture = "";
  mapping = blank;
  mappings = [];
  indexing = [];
  buffer_options = record { max_bytes = 0; shared_budget = none; budget_group = "" };
  is_compressed = false;
  sensor_seed_key = "";
  dest_url = "";
  test_sink_mode = false;
  proxy = record {
    url = "http://proxy";
    username = "u";
    password = "p";
    handshake_timeout = 0;
    connect_timeout = 0;
    read_write_timeout = 0;
  };
}

-- A parser that knows two texts.
abbrev parser : String → ParsedUrl
parser u =
    if u == "http://proxy"
    then without_user
    else if u == "http://u:p@proxy"
    then with_user
    else unparsed

-- Only one bad regular expression.
abbrev compilers : Compilers
compilers = record {
  regexp_ok = λ r. if r == "(" then false else true;
  grok_ok = λ g. true;
  timezone_ok = λ z. true;
}

validate_options_iff_example :
    (validate_options parser compilers sample ≡ none) ↔ IsAccepted parser compilers sample
validate_options_iff_example = validate_options_iff parser compilers sample

abbrev any_patterns : List (String × String) → Bool
any_patterns g = true

check_options_iff_example :
    (check_options compilers any_patterns sample ≡ none) ↔ CanStart compilers any_patterns sample
check_options_iff_example = check_options_iff compilers any_patterns sample

-- A host where everything answers, and the proxy lets the dial through at once.
abbrev surroundings : Surroundings
surroundings = record {
  finds_organization = true;
  urls = some (some "host");
  is_context_done = false;
  host_name = "here";
  gen_url = none;
  before_close = [];
  before_cancel = [];
  network = record {
    parses = λ u. true;
    host_of = λ u. some "host";
    appends_certificate = true;
    dials = λ u i. record { cancelled = false; connects = true; interrupted = false };
    sends_header = true;
    reply = some (record { verb = "rd"; seq_num = 0; duration = 0; window_size = 0; error = "" });
    fires_late = false;
  };
}

create-IsSettled_example : IsSettled (create compilers any_patterns surroundings sample)
create-IsSettled_example = create-IsSettled compilers any_patterns surroundings sample

abbrev served : Handle
served = in_service (new_client (fresh_buffer 1000 none none))

ship-drained_example :
    ((served ≡ in_sink)
      × ((ship (with_seq_num 0) (meanwhile (acks 1 ∷ resets ∷ []) (client_begin_drain served))).0
          ≡ added)
      × ((ship (with_seq_num 0) (meanwhile (acks 1 ∷ resets ∷ []) (drain_context true served).1)).0
          ≡ added))
    ⊎ (((ship (with_seq_num 0) (meanwhile (acks 1 ∷ resets ∷ []) (client_begin_drain served))).0
          ≡ refused add_closed)
        × ((ship
              (with_seq_num 0)
              (meanwhile (acks 1 ∷ resets ∷ []) (drain_context true served).1)).0
            ≡ refused add_closed))
ship-drained_example = ship-drained (with_seq_num 0) (acks 1 ∷ resets ∷ []) true served
