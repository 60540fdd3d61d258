-- ===== src/Client/Tests.antt =====
-- A client that connects over IPv6, and then is connected; all callbacks are set.
use uvx.Prelude.{none, some, if◌then◌else◌, ◌==◌, ◌≡◌, refl, true, false, [], ◌∷◌}
use uvx.Memory.{ok, Returns}
use uvx.Client.{
  Client, Config, read_error, uvx_client_send, client_reconnect, uvx_client_connect, tcp_init,
  tcp_connect, on_connect, uvx_client_disconnect, conn_ok, conn_closing, conn_close,
}
use uvx.Client.Phases.{Phase, talking, hanging_up, spoken}
use uvx.Client.Standing.{In}
use uvx.Client.Protocol.{Seen, nothing, sees_all, AllSet, heard_in_order}
use uvx.Client.Refinement.{client_simulates, settings, phases, reports, heard, Reach-In}
use uvx.Client.Loop.{
  AllProper, beat, connected, read, closed, disconnect, shutdown, taken, handle, System, quiet,
  after, started, turn, Reach, start, next, turns,
}
use uvx.Stream.Owners as Stream
use uvx.Client.Send.{given, client_send-Given}
use uvx.Client.Reconnect.{recovers, refused_never_retries, shutdown_while_connecting}
use uvx.Client.Safety.{handled_properly, disconnect_twice}

abbrev pub config : Config
config = record {
  auto_connect = true;
  heartbeat_interval = 1000;
  on_conn_ok = true;
  on_conn_fail = true;
  on_conn_closing = true;
  on_conn_close = true;
  on_recv = true;
  on_heartbeat = true;
}

-- What the memory of the client holds before it is started.
abbrev raw : Client
raw = record {
  config = config;
  uvserver = true;
  attached = false;
  heartbeat_index = 7;
  connection_closed = true;
  trace = [];
}

abbrev pub connecting : System
connecting = started raw config true true

abbrev pub connected_system : System
connected_system =
    after (taken (connected true) connecting.handles) (on_connect (quiet connecting.client) true)

pub connecting-Reach : Reach connecting
connecting-Reach = start raw config true true

pub connecting_pending : connecting.handles.connecting ≡ true
unfolding uvx_client_connect client_reconnect
connecting_pending = refl

pub connecting_runs : connecting.handles.timer ≡ true
unfolding uvx_client_connect client_reconnect
connecting_runs = refl

pub connected-Reach : Reach connected_system
unfolding handle
connected-Reach = next connecting-Reach (turn (connected true) connecting_pending refl)

pub connected_reading :
    (connected_system.handles.reading ≡ true)
    × (connected_system.handles.timer ≡ true)
    × (connected_system.handles.closing ≡ false)
    × (connected_system.client.uvserver ≡ true)
unfolding uvx_client_connect client_reconnect on_connect
connected_reading = (refl, refl, refl, refl)

handled_properly_example : Returns (handle (connected true) (quiet connecting.client)) λ c.
    AllProper (taken (connected true) connecting.handles) c.trace
    × Reach (after (taken (connected true) connecting.handles) c)
handled_properly_example = handled_properly (connected true) connecting-Reach connecting_pending

abbrev line_open : Phase
line_open = record { line = talking; beating = true; beats = 0 }

connected-In : In config connected_system line_open
unfolding uvx_client_connect client_reconnect on_connect
connected-In = record {
  timer_used = true;
  timer_closing = false;
  attached = true;
  trace = _;
  answered = refl;
  same = refl;
}

client_simulates_example : Returns (handle (read read_error) (quiet connected_system.client)) λ c.
    In config
      (after (taken (read read_error) connected_system.handles) c)
      (record { line = hanging_up true; beating = true; beats = 0 })
    × (spoken c.trace ≡ conn_closing ∷ [])
client_simulates_example = client_simulates (read read_error) connected-In connected_reading.0

Reach-In_example :
    In (settings connected-Reach) connected_system (phases connected-Reach)
    × (heard connected-Reach ≡ reports connected-Reach)
Reach-In_example = Reach-In connected-Reach

connected_reports : reports connected-Reach ≡ conn_ok ∷ []
unfolding reports settings phases connected-Reach connecting-Reach
connected_reports = refl

config-AllSet : AllSet (settings connected-Reach)
unfolding settings connected-Reach connecting-Reach
config-AllSet = record {
  ok_set = refl;
  fail_set = refl;
  closing_set = refl;
  close_set = refl;
  recv_set = refl;
  heartbeat_set = refl;
}

heard_in_order_example : (x : Seen) × (sees_all (some nothing) (heard connected-Reach) ≡ some x)
heard_in_order_example = heard_in_order connected-Reach config-AllSet

out_of_order : sees_all (some nothing) (conn_ok ∷ conn_close ∷ []) ≡ none
out_of_order = refl

disconnect_twice_example :
    Returns
      (turns connected_system (disconnect ∷ []))
      λ t. Reach t × ¬ AllProper t.handles (uvx_client_disconnect (quiet t.client)).1.trace
disconnect_twice_example = disconnect_twice connected-Reach connected_reading.3 connected_reading.2

recovers_example : Returns (turns connected_system (read read_error ∷ closed ∷ beat true ∷ [])) λ u.
    Reach u × (u.client.trace ≡ tcp_init ∷ tcp_connect true ∷ []) × (u.handles.connecting ≡ true)
recovers_example = recovers connected-Reach connected_reading.0 connected_reading.1 true

refused_never_retries_example :
    turns (started raw config false false) (beat true ∷ beat true ∷ beat false ∷ [])
    ≡ ok (record (started raw config false false) {
      client = quiet (started raw config false false).client;
    })
refused_never_retries_example = refused_never_retries raw config false true (true ∷ false ∷ [])

shutdown_while_connecting_example : Returns (turns connecting (shutdown ∷ connected true ∷ [])) λ u.
    Reach u × (u.client.uvserver ≡ true) × (u.handles.reading ≡ true) × (u.handles.timer ≡ false)
shutdown_while_connecting_example =
    shutdown_while_connecting connecting-Reach connecting_pending connecting_runs

-- The data at 5, that the client's user holds.
abbrev holding : Stream.System
holding =
    Stream.after (Stream.obtain 5) (Stream.started λ _. none)
      (Stream.allocate (Stream.started λ _. none).heap 5)

holding-Reach : Stream.Reach holding
unfolding Stream.handle
holding-Reach = ((λ _. none), Stream.then_to Stream.here (Stream.turn (Stream.obtain 5) refl refl))

client_send-Given_example :
    Returns (uvx_client_send connected_system.client holding.heap 1 (some 5) 3 (some 9) 0) λ r.
      let t = given connected_system.client.uvserver 1 5 3 9 0 holding r.1 in
      Stream.Reach t
      × (r.0 ≡ (if connected_system.client.uvserver then (if 0 == 0 then 1 else 0) else 0))
      × (t.owner 5 ≡ (
          if connected_system.client.uvserver
          then (if 0 == 0 then Stream.carried 9 else Stream.lost)
          else Stream.free_memory))
client_send-Given_example =
    client_send-Given connected_system.client 1 5 3 9 0 holding-Reach refl refl
