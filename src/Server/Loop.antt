-- ===== src/Server/Loop.antt =====
-- What libuv documents about a server's connections: which callback may run, which calls are allowed,
-- and what is pending after each. The server runs by moves of the loop and of its user.
use uvx.Prelude.{
  ℕ, ◌+◌, ◌-◌, ◌≤◌, ◌<◌, ◌^◌, ◌≡◌, ◌||◌, Bool, true, false, List, [], ◌∷◌, none, some, ◌==◌,
  if◌then◌else◌,
}
use uvx.Memory.{Run, ok}
use uvx.Server.{
  Server, Conn, Config, Event, Nread, conn_init, accept, read_start, read_stop, uv_close,
  on_connection, on_read, after_close_connection, on_heartbeat_timer, uvx_server_conn_ref,
  uvx_server_start,
}

-- The connections that are read, and those whose close callback has not run yet.
pub record Pending : Type 0 where
  pub reading : ℕ → Bool
  pub closing : ℕ → Bool

abbrev pub mark : (ℕ → Bool) → ℕ → Bool → ℕ → Bool
mark f c b d = if c == d then b else f d

-- A connection is read when it is neither read nor closing, and closed once.
abbrev pub Proper : Pending → Event → Type 0
Proper p (read_start c) = (p.reading c ≡ false) × (p.closing c ≡ false)
Proper p (uv_close c) = p.closing c ≡ false
Proper p _ = Unit

abbrev pub asked : Pending → Event → Pending
asked p (read_start c) = record p { reading = mark p.reading c true }
asked p (read_stop c) = record p { reading = mark p.reading c false }
asked p (uv_close c) = record p {
  reading = mark p.reading c false;
  closing = mark p.closing c true;
}
asked p _ = p

abbrev pub all_asked : Pending → List Event → Pending
all_asked p [] = p
all_asked p (e ∷ es) = all_asked (asked p e) es

-- A connection's handle is initialised once while it is in use, and before it is accepted, read, stopped
-- or closed.
abbrev pub Initialised : (ℕ → Bool) → Event → Type 0
Initialised u (conn_init c) = u c ≡ false
Initialised u (accept c) = u c ≡ true
Initialised u (read_start c) = u c ≡ true
Initialised u (read_stop c) = u c ≡ true
Initialised u (uv_close c) = u c ≡ true
Initialised u _ = Unit

abbrev pub initialised : (ℕ → Bool) → Event → ℕ → Bool
initialised u (conn_init c) = mark u c true
initialised u _ = u

abbrev pub AllInitialised : (ℕ → Bool) → List Event → Type 0
AllInitialised u [] = Unit
AllInitialised u (e ∷ es) = Initialised u e × AllInitialised (initialised u e) es

-- Between two turns the handles in use are those that are read and those that are closing.
abbrev pub in_use : Pending → ℕ → Bool
in_use p c = p.reading c || p.closing c

abbrev pub AllProper : Pending → List Event → Type 0
AllProper p [] = Unit
AllProper p (e ∷ es) = Proper p e × AllProper (asked p e) es

-- A server, whose trace is that of the last turn; what is pending; the references that its user holds;
-- and the time of the loop.
pub record System : Type 0 where
  pub server : Server
  pub pending : Pending
  pub held : ℕ → ℕ
  pub clock : ℕ

-- Callbacks of libuv, with their arguments; what the user calls; and the passing of time.
pub data Move : Type 0 where
  connection : ℕ → Bool → Move
  no_connection beat : Move
  read : ℕ → Nread → Move
  closed : ℕ → Move
  retain release : ℕ → Move
  tick : ℕ → Move

-- A new object lies where none is. Timers run when every close callback of the turn before has run. The
-- user drops only references that it took, and takes fewer than a counter can hold.
abbrev pub Enabled : Move → System → Type 0
Enabled (connection c _) s = s.server.heap c ≡ none
Enabled no_connection s = Unit
Enabled beat s = (c : ℕ) → s.pending.closing c ≡ false
Enabled (read c _) s = s.pending.reading c ≡ true
Enabled (closed c) s = s.pending.closing c ≡ true
Enabled (retain c) s = ((conn : Conn) × (s.server.heap c ≡ some conn)) × (s.held c + 2 < 2 ^ 31)
Enabled (release c) s = 0 < s.held c
Enabled (tick now) s = (s.clock ≤ now) × (now < 2 ^ 64)

-- The handler of the move.
unfoldable pub handle : Move → ℕ → Server → Run Server
unfolding on_connection on_read after_close_connection on_heartbeat_timer uvx_server_conn_ref
handle (connection c accepted) now s = on_connection s true c accepted now
handle no_connection now s = on_connection s false 0 false now
handle beat now s = on_heartbeat_timer s now
handle (read c nread) now s = on_read s c nread now
handle (closed c) now s = after_close_connection s c
handle (retain c) now s = uvx_server_conn_ref s c 1
handle (release c) now s = uvx_server_conn_ref s c (2 ^ 32 - 1)
handle (tick later) now s = ok s

-- What is no longer pending when the callback runs.
abbrev pub taken : Move → Pending → Pending
taken (closed c) p = record p { closing = mark p.closing c false }
taken _ p = p

abbrev pub holds : Move → (ℕ → ℕ) → ℕ → ℕ
holds (retain c) held d = if c == d then held c + 1 else held d
holds (release c) held d = if c == d then held c - 1 else held d
holds _ held d = held d

abbrev pub time : Move → ℕ → ℕ
time (tick later) now = later
time _ now = now

abbrev pub quiet : Server → Server
quiet s = record s { trace = [] }

-- The system after the handler of a move.
abbrev pub after : Move → System → Server → System
after m s server = record {
  server = server;
  pending = all_asked (taken m s.pending) server.trace;
  held = holds m s.held;
  clock = time m s.clock;
}

pub data Step (s : System) : System → Type 0 where
  turn :
      (m : Move) {server : Server}
      → Enabled m s
      → handle m s.clock (quiet s.server) ≡ ok server
      → Step s (after m s server)

abbrev pub nothing_pending : Pending
nothing_pending = record { reading = λ _. false; closing = λ _. false }

-- A server that was started, with room for a connection, and before any connection.
abbrev pub started : Server → Config → Bool → ℕ → System
started s config colon clock = record {
  server = (uvx_server_start (record s { trace = []; heap = λ _. none }) config colon true).1;
  pending = nothing_pending;
  held = λ _. 0;
  clock = clock;
}

-- The states that a server can come to.
pub data Reach : System → Type 0 where
  start :
      (s : Server) (config : Config) (colon : Bool) (clock : ℕ)
      → 0 < config.conn_count
      → clock < 2 ^ 64
      → Reach (started s config colon clock)
  next : {s t : System} → Reach s → Step s t → Reach t
