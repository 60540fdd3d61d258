-- ===== src/Server/Scenario.antt =====
-- A server that was started, then one connection, and then ten seconds later.
use uvx.Prelude.{
  ℕ, ◌<◌, ◌≡◌, ◌↔◌, ◌⊎◌, ◌≢◌, refl, true, false, not, ◌||◌, ◌&&◌, List, [], ◌∷◌, none, some, arith,
}
use uvx.Memory.{fault, null_pointer, Returns}
use uvx.Linkhash.{lh_table_new}
use uvx.Linkhash.Keys.{ptr_key}
use uvx.Linkhash.Store.{new-Holds}
use uvx.Server.{
  Server, Conn, Config, bytes, on_read, after_close_connection, uvx_server_start,
  uvx_server_shutdown,
}
use uvx.Server.Connections.{Serves}
use uvx.Server.Handlers.{on_connection-Serves, connection_events}
use uvx.Server.Loop.{
  all_asked, System, connection, beat, read, tick, handle, quiet, after, turn, started, Reach,
  start, next,
}
use uvx.Server.Sound.{Sound}
use uvx.Server.Safety.{Reach-Sound, allocated_iff, shutdown_dangling}
use uvx.Server.Refinement.{Shows, simulates, history, Reach-Shows}
use uvx.Server.Silence.{silent, beat_closes_silent}

abbrev config : Config
config = record {
  conn_count = 8;
  conn_backlog = 128;
  conn_extra_size = 0;
  conn_timeout = 5000;
  heartbeat_interval = 1000;
  on_conn_ok = true;
  on_conn_fail = true;
  on_conn_closing = true;
  on_conn_close = true;
  on_heartbeat = true;
  on_recv = true;
}

abbrev raw : Server
raw = record { config = config; heartbeat_index = 0; conns = none; heap = λ _. none; trace = [] }

abbrev started_system : System
started_system = started raw config false 1000

started-Reach : Reach started_system
started-Reach = start raw config false 1000 (omega arith) (omega arith)

started-Serves : Serves (quiet started_system.server) []
unfolding uvx_server_start
started-Serves = record {
  table = lh_table_new 8;
  opened = refl;
  holds = new-Holds 8 (omega arith);
  live = tt;
}

first : Returns (handle (connection 32 true) 1000 (quiet started_system.server)) λ s.
    Serves s (32 ∷ [])
    × (s.trace ≡ connection_events started_system.server.config 32 true)
    × (s.config ≡ started_system.server.config)
    × ((d : ℕ) → 32 ≢ d → s.heap d ≡ started_system.server.heap d)
unfolding handle
first =
    let (s, run, (serves, _, others, trace, same)) =
      on_connection-Serves (quiet started_system.server) [] 32 1000 true started-Serves tt in
    (s, run, (serves, trace, same, others))

abbrev one : System
one = after (connection 32 true) started_system first.0

one-Reach : Reach one
unfolding uvx_server_start
one-Reach = next started-Reach (turn (connection 32 true) refl first.1)

one_reading : one.pending.reading 32 ≡ true
unfolding uvx_server_start
one_reading = rw (first.2.1) refl

one_settled : (c : ℕ) → one.pending.closing c ≡ false
unfolding uvx_server_start
one_settled c = rw (first.2.1) refl

abbrev later : System
later = after (tick 11000) one (quiet one.server)

later-Reach : Reach later
unfolding handle
later-Reach = next one-Reach (turn (tick 11000) (omega arith, omega arith) refl)

later_limited : 0 < later.server.config.conn_timeout
unfolding uvx_server_start
later_limited = rw (first.2.2) (omega arith)

Reach-Sound_example : (cs : List ℕ) × Sound one cs
Reach-Sound_example = Reach-Sound one-Reach

allocated_iff_example :
    ((conn : Conn) × (later.server.heap 32 ≡ some conn))
    ↔ ((later.pending.reading 32 || later.pending.closing 32) ≡ true) ⊎ (0 < later.held 32)
allocated_iff_example = allocated_iff later-Reach 32

shutdown_dangling_example : Returns (uvx_server_shutdown later.server) λ r.
    (r.0 ≡ 0)
    × (on_read r.1 32 (bytes 3) 11000 ≡ fault null_pointer)
    × (after_close_connection r.1 32 ≡ fault null_pointer)
shutdown_dangling_example = shutdown_dangling 32 2 later-Reach one_reading

beat_closes_silent_example : Returns (handle beat 11000 (quiet later.server)) λ server.
    (c : ℕ)
    → ((all_asked later.pending server.trace).closing c
        ≡ (later.pending.reading c && silent later.server.heap 11000 later.server.config c))
      × ((all_asked later.pending server.trace).reading c
          ≡ (later.pending.reading c && not (silent later.server.heap 11000 later.server.config c)))
beat_closes_silent_example = beat_closes_silent later-Reach one_settled later_limited

-- Connection 32 was heard of when it came, and again at 11000.
later-Shows : Shows later (record { id = 32; heard = 1000; closing = false } ∷ [])
unfolding history later-Reach one-Reach started-Reach
later-Shows = Reach-Shows later-Reach

simulates_example : Returns (handle (read 32 (bytes 3)) 11000 (quiet later.server)) λ server.
    Shows
      (after (read 32 (bytes 3)) later server)
      (record { id = 32; heard = 11000; closing = false } ∷ [])
simulates_example = simulates (read 32 (bytes 3)) later-Shows one_reading

Reach-Shows_example : Shows later (history later-Reach)
Reach-Shows_example = Reach-Shows later-Reach
