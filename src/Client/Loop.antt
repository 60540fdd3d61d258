-- ===== src/Client/Loop.antt =====
-- What libuv documents about a client's handles: which calls are allowed when, which callback may run,
-- and what is pending after each. A client runs by moves of the loop and of its user.
use uvx.Prelude.{Bool, true, false, ◌≡◌, List, [], ◌∷◌}
use uvx.Memory.{Run, ok, ◌>>=◌}
use uvx.Client.{
  Client, Config, Event, Nread, tcp_init, read_start, read_stop, uv_close, tcp_connect, timer_init,
  timer_stop, timer_close, timer_start, on_heartbeat_timer, after_close_client, on_client_read,
  on_connect, uvx_client_disconnect, uvx_client_shutdown, uvx_client_connect,
}

-- The handles of a client: the socket is in use from `uv_tcp_init` to its close callback; a connect
-- request, reads and a close request are pending. The timer runs; its handle is in use from
-- `uv_timer_init` until its close is finished, and its close is requested.
pub record Handles : Type 0 where
  pub used : Bool
  pub connecting : Bool
  pub reading : Bool
  pub closing : Bool
  pub timer : Bool
  pub timer_used : Bool
  pub timer_closing : Bool

abbrev pub none_used : Handles
none_used = record {
  used = false;
  connecting = false;
  reading = false;
  closing = false;
  timer = false;
  timer_used = false;
  timer_closing = false;
}

-- A handle is initialised once until it is closed, connects when it is initialised, is read while it is
-- not closing, and is closed once. A handle is initialised again only when its close is finished.
abbrev pub Proper : Handles → Event → Type 0
Proper l tcp_init = l.used ≡ false
Proper l (tcp_connect _) = (l.used ≡ true) × (l.connecting ≡ false) × (l.closing ≡ false)
Proper l read_start = (l.used ≡ true) × (l.closing ≡ false)
Proper l read_stop = l.used ≡ true
Proper l uv_close = (l.used ≡ true) × (l.closing ≡ false)
Proper l timer_init = l.timer_used ≡ false
Proper l (timer_start _) = (l.timer_used ≡ true) × (l.timer_closing ≡ false)
Proper l timer_stop = l.timer_used ≡ true
Proper l timer_close = (l.timer_used ≡ true) × (l.timer_closing ≡ false)
Proper l _ = Unit

abbrev pub asked : Handles → Event → Handles
asked l tcp_init = record l { used = true }
asked l (tcp_connect accepted) = record l { connecting = accepted }
asked l read_start = record l { reading = true }
asked l read_stop = record l { reading = false }
asked l uv_close = record l { closing = true; reading = false }
asked l timer_init = record l { timer_used = true }
asked l (timer_start _) = record l { timer = true }
asked l timer_stop = record l { timer = false }
asked l timer_close = record l { timer = false; timer_closing = true }
asked l _ = l

abbrev pub all_asked : Handles → List Event → Handles
all_asked l [] = l
all_asked l (e ∷ es) = all_asked (asked l e) es

abbrev pub AllProper : Handles → List Event → Type 0
AllProper l [] = Unit
AllProper l (e ∷ es) = Proper l e × AllProper (asked l e) es

-- The callbacks of libuv, with their arguments, and what the user calls; `timer_closed` is the end of the
-- close of the timer, for which the code gives no callback.
pub data Move : Type 0 where
  beat : Bool → Move
  connected : Bool → Move
  read : Nread → Move
  closed timer_closed : Move
  disconnect shutdown : Move

-- The user disconnects and shuts down while no close of the socket is pending, and shuts down once, while the
-- timer runs.
abbrev pub Enabled : Move → Handles → Type 0
Enabled (beat _) l = l.timer ≡ true
Enabled (connected _) l = l.connecting ≡ true
Enabled (read _) l = l.reading ≡ true
Enabled closed l = l.closing ≡ true
Enabled timer_closed l = l.timer_closing ≡ true
Enabled disconnect l = l.closing ≡ false
Enabled shutdown l = (l.closing ≡ false) × (l.timer ≡ true)

-- What is no longer pending when the callback runs.
abbrev pub taken : Move → Handles → Handles
taken (connected _) l = record l { connecting = false }
taken closed l = record l { closing = false; used = false }
taken timer_closed l = record l { timer_used = false; timer_closing = false }
taken _ l = l

-- The handler of the move.
unfoldable pub handle : Move → Client → Run Client
unfolding on_heartbeat_timer on_connect on_client_read after_close_client uvx_client_disconnect
    uvx_client_shutdown
handle (beat accepted) c = ok (on_heartbeat_timer c accepted)
handle (connected status_ok) c = ok (on_connect c status_ok)
handle (read nread) c = on_client_read c nread
handle closed c = after_close_client c
handle timer_closed c = ok c
handle disconnect c = ok (uvx_client_disconnect c).1
handle shutdown c = ok (uvx_client_shutdown c).1

-- A client, whose trace is that of the last turn, and its handles.
pub record System : Type 0 where
  pub client : Client
  pub handles : Handles

abbrev pub quiet : Client → Client
quiet c = record c { trace = [] }

-- The system after a handler: what it asked for is pending.
abbrev pub after : Handles → Client → System
after l c = record { client = c; handles = all_asked l c.trace }

pub data Step (s : System) : System → Type 0 where
  turn :
      (m : Move) {c : Client}
      → Enabled m s.handles
      → handle m (quiet s.client) ≡ ok c
      → Step s (after (taken m s.handles) c)

abbrev pub started : Client → Config → Bool → Bool → System
started c config colon accepted =
    after none_used (uvx_client_connect (quiet c) config colon accepted).1

-- The states that a client can come to after `uvx_client_connect`, whatever was in its memory.
pub data Reach : System → Type 0 where
  start :
      (c : Client) (config : Config) (colon accepted : Bool)
      → Reach (started c config colon accepted)
  next : {s t : System} → Reach s → Step s t → Reach t

-- Some moves in a row, by their handlers.
unfoldable pub turns : System → List Move → Run System
unfolding handle
turns s [] = ok s
turns s (m ∷ ms) = handle m (quiet s.client) >>= λ c. turns (after (taken m s.handles) c) ms
