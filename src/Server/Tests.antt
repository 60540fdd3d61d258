-- ===== src/Server/Tests.antt =====
-- The server at two connections whose keys collide, the older one silent for ten seconds.
use uvx.Prelude.{ℕ, true, ◌≡◌, refl, [], ◌∷◌, Option, some, none, false, arith, ◌==◌, if◌then◌else◌}
use uvx.Memory.{ok}
use uvx.Linkhash.{Table, Entry, key, blank}
use uvx.Linkhash.Keys.{ptr_key, lh_ptr_hash}
use uvx.Linkhash.Rep.{Rep}
use uvx.Server.{
  Server, Conn, Config, uvx_server_iter_conns, check_timeout_clients, log, read_stop, conn_closing,
  uv_close,
}
use uvx.Server.Connections.{Serves}
use uvx.Server.Visits.{iter_conns-visits}
use uvx.Server.Timeouts.{closes, check_timeout-closes}

abbrev slots : ℕ → Entry ℕ ℕ
slots m =
    if 1 == m
    then record { k = key 16; v = some 16; next = some 2; prev = none }
    else if 2 == m
    then record { k = key 80; v = some 80; next = none; prev = some 1 }
    else blank

abbrev two_conns : Table ℕ ℕ
two_conns = record {
  size = 4;
  count = 2;
  collisions = 1;
  resizes = 0;
  lookups = 0;
  inserts = 2;
  head = some 1;
  tail = some 2;
  slots = slots;
}

abbrev old_conn : Conn
old_conn = record { last_comm_time = 1000; refcount = 2; extra = false }

abbrev new_conn : Conn
new_conn = record { last_comm_time = 11000; refcount = 1; extra = false }

abbrev heap : ℕ → Option Conn
heap c = if 16 == c then some old_conn else if 80 == c then some new_conn else none

abbrev config : Config
config = record {
  conn_count = 4;
  conn_backlog = 128;
  conn_extra_size = 0;
  conn_timeout = 5000;
  heartbeat_interval = 1000;
  on_conn_ok = true;
  on_conn_fail = true;
  on_conn_closing = true;
  on_conn_close = true;
  on_heartbeat = true;
  on_recv = true;
}

abbrev server : Server
server = record {
  config = config;
  heartbeat_index = 0;
  conns = some two_conns;
  heap = heap;
  trace = [];
}

two_conns-Rep :
    Rep two_conns
      (record { at = 1; k = 16; v = some 16 } ∷ record { at = 2; k = 80; v = some 80 } ∷ [])
unfolding lh_ptr_hash
two_conns-Rep = record {
  positive = omega arith;
  head = refl;
  tail = refl;
  run = (refl, (refl, tt));
  counted = refl;
  below = omega arith;
  distinct = omega arith;
  keys = omega arith;
  reached = ((0, omega arith, refl), ((1, omega arith, (refl, refl)), tt));
  vacant = λ m h a. ground arith;
}

server-Serves : Serves server (16 ∷ 80 ∷ [])
server-Serves = record {
  table = two_conns;
  opened = refl;
  holds = record {
    nodes = record { at = 1; k = 16; v = some 16 } ∷ record { at = 2; k = 80; v = some 80 } ∷ [];
    rep = two_conns-Rep;
    load = omega arith;
    stored = refl;
  };
  live = ((old_conn, refl), ((new_conn, refl), tt));
}

iter_conns-visits_example : uvx_server_iter_conns server true ≡ ok (2, 16 ∷ 80 ∷ [])
iter_conns-visits_example = iter_conns-visits server (16 ∷ 80 ∷ []) true server-Serves

check_timeout-closes_example :
    check_timeout_clients server 12000
    ≡ ok (log server (read_stop 16 ∷ conn_closing 16 ∷ uv_close 16 ∷ []))
unfolding closes
check_timeout-closes_example =
    check_timeout-closes server (16 ∷ 80 ∷ []) 12000 server-Serves (omega arith) (omega arith)
