-- ===== src/Client/Turns.antt =====
-- What one step of a thread or a worker does to the lock, to the reconnect flag and to `isClosing`.
use go_uspclient.Base.{ℕ, ◌+◌, ◌≤◌, ◌≡◌, Bool, false, Option, none, some, arith}
use go_uspclient.Protocol.Messages.{DataMessage, ControlMessage}
use go_uspclient.Buffer.Deliver.{get_next_to_deliver}
use go_uspclient.Client.State.{Client, ClientError, set_receipt_lifetime}
use go_uspclient.Client.Control.{reconnect, process_ack, process_control_message}
use go_uspclient.Client.Threads.{
  Thread, marking, cancelling, sealing, stopping, locking, joining, collecting, releasing, shutting,
  returned, shrinking, rewinding, connecting, dialing, checking, starting, spawning, handing,
  publishing, unlocking, failing, waiting, finished, closes, reconnects, Answer, fails, reads,
  goes_on, answered, advance,
}
use go_uspclient.Client.Workers.{
  Worker, Kind, listener, sender, keep_alive, Phase, starts, loops, busy, throttled, exited, Report,
  on, breaks, takes, garbles, fires, gives, break_off, listen, transmit, transmitted, send, ping,
  serve, wake_up, proceed,
}
use go_uspclient.Client.Counting.{bit}

-- Whether the thread holds `connMutex`.
abbrev pub holds : Thread → ℕ
holds (joining p) = 1
holds dialing = 1
holds checking = 1
holds starting = 1
holds spawning = 1
holds handing = 1
holds publishing = 1
holds unlocking = 1
holds t = 0

-- Whether it is the goroutine that has set `isReconnecting`.
abbrev pub owns : Thread → ℕ
owns (stopping reconnects) = 1
owns (locking reconnects) = 1
owns (joining reconnects) = 1
owns shrinking = 1
owns rewinding = 1
owns connecting = 1
owns dialing = 1
owns checking = 1
owns starting = 1
owns spawning = 1
owns handing = 1
owns failing = 1
owns waiting = 1
owns t = 0

-- The fields that a control message, or a worker, leaves alone.
abbrev pub Quietly : Client → Client → Bool → Type 0
Quietly c c' spawned =
    (c'.is_locked ≡ c.is_locked)
    × (c'.is_closing ≡ c.is_closing)
    × (c'.is_stop ≡ c.is_stop)
    × (c'.conn ≡ c.conn)
    × (bit c'.is_reconnecting ≡ bit c.is_reconnecting + bit spawned)

pub reconnect-Quietly : (c : Client) → Quietly c (reconnect c).1 (reconnect c).0
unfolding reconnect
reconnect-Quietly c = ground arith

process_ack-Quietly : (msg : ControlMessage) (c : Client) → Quietly c (process_ack msg c) false
unfolding process_ack
process_ack-Quietly msg c = ground arith

pub process_control_message-Quietly :
    (msg : ControlMessage) (c : Client)
    → Quietly c (process_control_message msg c).1 (process_control_message msg c).2
unfolding process_control_message
process_control_message-Quietly msg c =
    ground (arith, process_ack-Quietly msg c, reconnect-Quietly c)

-- What a worker's step leaves.
abbrev pub AfterWork : Client → Option (Worker × Client × Bool) → Type 0
AfterWork c none = Unit
AfterWork c (some (w, c', spawned)) = Quietly c c' spawned

break_off-Quietly : (w : Worker) (c : Client) → Quietly c (break_off w c).1 (break_off w c).2
unfolding break_off
break_off-Quietly w c =
    ground (arith, reconnect-Quietly (record c { last_error = some ClientError.io_failed }))

transmitted-AfterWork :
    (r : Report) (m : Option DataMessage) (w : Worker) (c : Client)
    → AfterWork c (transmitted r m w c)
unfolding transmitted
transmitted-AfterWork on none w c = ground arith
transmitted-AfterWork breaks none w c = tt
transmitted-AfterWork takes none w c = tt
transmitted-AfterWork garbles none w c = tt
transmitted-AfterWork fires none w c = tt
transmitted-AfterWork (gives msg) none w c = tt
transmitted-AfterWork on (some m) w c = tt
transmitted-AfterWork breaks (some m) w c = break_off-Quietly w c
transmitted-AfterWork takes (some m) w c = ground arith
transmitted-AfterWork garbles (some m) w c = ground arith
transmitted-AfterWork fires (some m) w c = tt
transmitted-AfterWork (gives msg) (some m) w c = tt

listen-AfterWork : (r : Report) (w : Worker) (c : Client) → AfterWork c (listen r w c)
unfolding listen
listen-AfterWork on w c = tt
listen-AfterWork breaks w c = break_off-Quietly w c
listen-AfterWork takes w c = tt
listen-AfterWork garbles w c = tt
listen-AfterWork fires w c = tt
listen-AfterWork (gives msg) w c = ground (arith, process_control_message-Quietly msg c)

send-AfterWork : (r : Report) (w : Worker) (c : Client) → AfterWork c (send r w c)
unfolding send transmit
send-AfterWork r w c = ground (
  arith,
  transmitted-AfterWork r (get_next_to_deliver c.buffer).0 w
      (record c { buffer = (get_next_to_deliver c.buffer).1 }),
)

ping-AfterWork : (r : Report) (w : Worker) (c : Client) → AfterWork c (ping r w c)
unfolding ping
ping-AfterWork on w c = tt
ping-AfterWork breaks w c = break_off-Quietly w c
ping-AfterWork takes w c = ground arith
ping-AfterWork garbles w c = tt
ping-AfterWork fires w c = tt
ping-AfterWork (gives msg) w c = tt

serve-AfterWork : (r : Report) (k : Kind) (w : Worker) (c : Client) → AfterWork c (serve r k w c)
unfolding serve
serve-AfterWork r listener w c = listen-AfterWork r w c
serve-AfterWork r sender w c = send-AfterWork r w c
serve-AfterWork r keep_alive w c = ping-AfterWork r w c

wake_up-AfterWork : (r : Report) (w : Worker) (c : Client) → AfterWork c (wake_up r w c)
unfolding wake_up
wake_up-AfterWork on w c = tt
wake_up-AfterWork breaks w c = ground arith
wake_up-AfterWork takes w c = tt
wake_up-AfterWork garbles w c = tt
wake_up-AfterWork fires w c = ground arith
wake_up-AfterWork (gives msg) w c = tt

pub proceed-AfterWork :
    (r : Report) (p : Phase) (w : Worker) (c : Client) → AfterWork c (proceed r p w c)
unfolding proceed
proceed-AfterWork r starts w c = ground arith
proceed-AfterWork r loops w c = ground arith
proceed-AfterWork r busy w c = serve-AfterWork r w.kind w c
proceed-AfterWork r (throttled n) w c = wake_up-AfterWork r w c
proceed-AfterWork r exited w c = tt

-- What a thread's step leaves: the lock and the flag follow the thread's counter.
abbrev pub AfterTurn : Thread → Client → Option (Thread × Client × Bool) → Type 0
AfterTurn t c none = Unit
AfterTurn t c (some (t', c', spawned)) =
    (holds t' + bit c.is_locked ≡ holds t + bit c'.is_locked)
    × (owns t' + bit spawned + bit c.is_reconnecting ≡ owns t + bit c'.is_reconnecting)
    × (c'.is_closing ≡ c.is_closing)

answered-AfterTurn :
    (msg : ControlMessage) (c : Client)
    → bit c.is_locked ≡ 1
    → AfterTurn dialing c (some (answered msg c))
unfolding answered
answered-AfterTurn msg c h = ground (arith, process_control_message-Quietly msg c)

dialing-AfterTurn :
    (a : Answer) (n : ℕ) (c : Client)
    → 1 ≤ bit c.is_locked
    → AfterTurn dialing c (advance a n dialing c)
unfolding advance
dialing-AfterTurn fails n c h = ground arith
dialing-AfterTurn (reads msg) n c h = answered-AfterTurn msg c (ground arith)
dialing-AfterTurn goes_on n c h = tt

waiting-AfterTurn :
    (a : Answer) (n : ℕ) (c : Client)
    → 1 ≤ bit c.is_reconnecting
    → AfterTurn waiting c (advance a n waiting c)
unfolding advance
waiting-AfterTurn fails n c o = ground arith
waiting-AfterTurn (reads msg) n c o = tt
waiting-AfterTurn goes_on n c o = ground arith

module _ (a : Answer) (n : ℕ) (c : Client) where
  pub advance-AfterTurn :
      (t : Thread)
      → holds t ≤ bit c.is_locked
      → owns t ≤ bit c.is_reconnecting
      → AfterTurn t c (advance a n t c)
  unfolding advance set_receipt_lifetime
  advance-AfterTurn marking h o = ground arith
  advance-AfterTurn cancelling h o = ground arith
  advance-AfterTurn sealing h o = ground arith
  advance-AfterTurn (stopping closes) h o = ground arith
  advance-AfterTurn (stopping reconnects) h o = ground arith
  advance-AfterTurn (locking closes) h o = ground arith
  advance-AfterTurn (locking reconnects) h o = ground arith
  advance-AfterTurn (joining closes) h o = ground arith
  advance-AfterTurn (joining reconnects) h o = ground arith
  advance-AfterTurn collecting h o = ground arith
  advance-AfterTurn (releasing ms) h o = ground arith
  advance-AfterTurn (shutting ms) h o = ground arith
  advance-AfterTurn (returned ms) h o = ground arith
  advance-AfterTurn shrinking h o = ground arith
  advance-AfterTurn rewinding h o = ground arith
  advance-AfterTurn connecting h o = ground arith
  advance-AfterTurn dialing h o = dialing-AfterTurn a n c h
  advance-AfterTurn checking h o = ground arith
  advance-AfterTurn starting h o = ground arith
  advance-AfterTurn spawning h o = ground arith
  advance-AfterTurn handing h o = ground arith
  advance-AfterTurn publishing h o = ground arith
  advance-AfterTurn unlocking h o = ground arith
  advance-AfterTurn failing h o = ground arith
  advance-AfterTurn waiting h o = waiting-AfterTurn a n c o
  advance-AfterTurn finished h o = ground arith
