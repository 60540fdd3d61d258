-- ===== src/Server.antt =====
-- uvx_server.c: the TCP server. The server's connections are objects on a heap, a pointer to one is
-- its address. libuv and the callbacks of the configuration are outside: what the code asks of them
-- is recorded in `trace`, in order, and what they answer is an argument. Diagnostics are left out.
pub mod Connections
pub mod Handlers
pub mod Visits
pub mod Timeouts
pub mod Loop
pub mod Times
pub mod Pending
pub mod Members
pub mod Sound
pub mod Moves
pub mod Uses
pub mod Safety
pub mod Silence
pub mod Sessions
pub mod Follows
pub mod Refinement
mod Tests
mod Scenario
use uvx.Prelude.{
  ℕ, zero, suc, ◌+◌, ◌-◌, ◌*◌, ◌%◌, ◌^◌, Bool, true, false, ◌||◌, List, [], ◌∷◌, ◌++◌, Option, none,
  some, ltb, ◌==◌, if◌then◌else◌,
}
use uvx.Prelude.Word.{add32}
use uvx.Stream.{Heap, uvx_send_to_stream}
use uvx.Memory.{Run, ok, fault, ◌>>=◌, ◌>>◌, assert, null_pointer, sentinel_key, diverges}
use uvx.Linkhash.{
  Table, Code, success, failure, key, lh_table_new, lh_table_insert, lh_table_delete,
  lh_table_lookup_entry, entry_at,
}
use uvx.Linkhash.Keys.{ptr_key}

-- `uvx_server_conn_t`; `extra` says that the connection has extra bytes behind it.
pub record Conn : Type 0 where
  pub last_comm_time : ℕ
  pub refcount : ℕ
  pub extra : Bool

-- Calls of libuv and of the configuration's callbacks. `tcp_init` is `uv_tcp_init` of the server's handle,
-- `conn_init` that of a connection's.
pub data Event : Type 0 where
  timer_init timer_stop timer_close tcp_init bind4 bind6 listen server_close : Event
  timer_start : ℕ → Event
  heartbeat : ℕ → Event
  conn_ok conn_fail conn_closing conn_close read_start read_stop uv_close conn_init accept :
      ℕ → Event
  recv : ℕ → ℕ → Event
  free_base : Event

-- `uvx_server_config_t`, with its times in milliseconds; a callback is whether it is set.
pub record Config : Type 0 where
  pub conn_count : ℕ
  pub conn_backlog : ℕ
  pub conn_extra_size : ℕ
  pub conn_timeout : ℕ
  pub heartbeat_interval : ℕ
  pub on_conn_ok : Bool
  pub on_conn_fail : Bool
  pub on_conn_closing : Bool
  pub on_conn_close : Bool
  pub on_heartbeat : Bool
  pub on_recv : Bool

-- `uvx_server_t` and the heap; `none` in `conns` is a freed table.
pub record Server : Type 0 where
  pub config : Config
  pub heartbeat_index : ℕ
  pub conns : Option (Table ℕ ℕ)
  pub heap : ℕ → Option Conn
  pub trace : List Event

-- `nread`: a number of bytes or an error.
pub data Nread : Type 0 where
  bytes : ℕ → Nread
  read_error : Nread

abbrev pub log : Server → List Event → Server
log s events = record s { trace = s.trace ++ events }

-- `if(callback) callback(...)`
abbrev pub calls : Bool → Event → List Event
calls set e = if set then e ∷ [] else []

abbrev pub put : (ℕ → Option Conn) → ℕ → Option Conn → ℕ → Option Conn
put h c v d = if c == d then v else h d

-- `*conn`: a freed connection cannot be used.
pub conn_at : Server → ℕ → Run Conn
conn_at s c = elim (s.heap c) [ none ↦ fault null_pointer | some conn ↦ ok conn ]

pub table_of : Server → Run (Table ℕ ℕ)
table_of s = elim s.conns [ none ↦ fault null_pointer | some t ↦ ok t ]

abbrev pub is_success : Code → Bool
is_success success = true
is_success failure = false

abbrev pub is_null : Option ℕ → Bool
is_null none = true
is_null (some _) = false

pub uvx_server_default_config : Config
uvx_server_default_config = record {
  conn_count = 1024;
  conn_backlog = 128;
  conn_extra_size = 0;
  conn_timeout = 180 * 1000;
  heartbeat_interval = 60 * 1000;
  on_conn_ok = false;
  on_conn_fail = false;
  on_conn_closing = false;
  on_conn_close = false;
  on_heartbeat = false;
  on_recv = false;
}

-- `ret >= 0` is `listening`, and `strchr(ip, ':')` is `colon`.
pub uvx_server_start : Server → Config → Bool → Bool → Bool × Server
uvx_server_start s config colon listening = (
  listening,
  record s {
    config = config;
    conns = some (lh_table_new config.conn_count);
    heartbeat_index = 0;
    trace =
        s.trace
        ++ timer_init
          ∷ ((if ltb 0 config.heartbeat_interval
                then timer_start config.heartbeat_interval ∷ []
                else [])
              ++ tcp_init ∷ (if colon then bind6 else bind4) ∷ listen ∷ []);
  },
)

pub uvx_server_shutdown : Server → Run (ℕ × Server)
unfolding table_of
uvx_server_shutdown s = do
  _ ← table_of s
  ok (0, record s { conns = none; trace = s.trace ++ timer_stop ∷ timer_close ∷ server_close ∷ [] })

-- `ref` is 1, or -1 as 32 bits.
pub uvx_server_conn_ref : Server → ℕ → ℕ → Run Server
unfolding conn_at
uvx_server_conn_ref s c ref = do
  assert (ref == 1 || ref == 2 ^ 32 - 1)
  conn ← conn_at s c
  let n = add32 conn.refcount ref
  ok (record s {
    heap = put s.heap c (if n == 0 then none else some (record conn { refcount = n }));
  })

-- The heap is that of Stream, and `uvclient` the address of the field of that name.
unfoldable pub uvx_server_conn_send :
    Server → ℕ → Heap → ℕ → Option ℕ → ℕ → Option ℕ → ℕ → Run (ℕ × Heap)
unfolding conn_at
uvx_server_conn_send s c h uvclient d size w status =
    conn_at s c >>= λ _. uvx_send_to_stream h (some uvclient) d size w status

abbrev pub disconnect_events : Config → ℕ → List Event
disconnect_events config c =
    read_stop c ∷ (calls config.on_conn_closing (conn_closing c) ++ uv_close c ∷ [])

-- `_uv_disconnect_client`
pub disconnect_client : Server → ℕ → Run Server
unfolding conn_at
disconnect_client s c = do _ ← conn_at s c; ok (log s (disconnect_events s.config c))

-- `uvx__on_read`; `now` is `uv_now`, and `free_base` is `free(buf->base)`.
pub on_read : Server → ℕ → Nread → ℕ → Run Server
unfolding conn_at table_of disconnect_client
on_read s c read_error now = do s' ← disconnect_client s c; ok (log s' (free_base ∷ []))
on_read s c (bytes zero) now = conn_at s c >>= λ _. ok (log s (free_base ∷ []))
on_read s c (bytes (suc n)) now = do
  conn ← conn_at s c
  t ← table_of s
  (code, t') ← lh_table_delete t c
  assert (is_success code)
  t'' ← lh_table_insert t' c (some c)
  ok (record s {
    heap = put s.heap c (some (record conn { last_comm_time = now }));
    conns = some t'';
    trace = s.trace ++ (calls s.config.on_recv (recv c (suc n)) ++ free_base ∷ []);
  })

-- `_uv_after_close_connection`
pub after_close_connection : Server → ℕ → Run Server
unfolding conn_at table_of uvx_server_conn_ref
after_close_connection s c = do
  _ ← conn_at s c
  t ← table_of s
  (code, t') ← lh_table_delete t c
  assert (is_success code)
  uvx_server_conn_ref
      (record s { conns = some t'; trace = s.trace ++ calls s.config.on_conn_close (conn_close c) })
      c (2 ^ 32 - 1)

-- `uvx__on_connection`; `c` is what `calloc` returns, and `accepted` says that `uv_accept` returns 0.
pub on_connection : Server → Bool → ℕ → Bool → ℕ → Run Server
unfolding table_of
on_connection s status_ok c accepted now =
    if status_ok
    then (do
      t ← table_of s
      let conn : Conn = record {
        last_comm_time = if accepted then now else 0;
        refcount = 1;
        extra = ltb 0 s.config.conn_extra_size;
      }
      (found, t') ← lh_table_lookup_entry t c
      assert (is_null found)
      t'' ← lh_table_insert t' c (some c)
      ok (record s {
        heap = put s.heap c (some conn);
        conns = some t'';
        trace =
            s.trace
            ++ conn_init c
              ∷ accept c
              ∷ (if accepted
                  then calls s.config.on_conn_ok (conn_ok c) ++ read_start c ∷ []
                  else calls s.config.on_conn_fail (conn_fail c) ++ uv_close c ∷ []);
      }))
    else ok s

-- The loop of `_uvx_check_timeout_clients` from `p` on, where `t` is the table, which the loop does not
-- change. The fuel is the number of slots.
pub timeouts_from : ℕ → Table ℕ ℕ → Server → Option ℕ → ℕ → Run Server
unfolding conn_at disconnect_client
timeouts_from fuel t s none now = ok s
timeouts_from zero t s (some p) now = fault diverges
timeouts_from (suc fuel) t s (some p) now = entry_at t p >>= λ e. elim e.k [
  | key c ↦ conn_at s c >>= λ conn.
      if ltb s.config.conn_timeout ((now + 2 ^ 64 - conn.last_comm_time) % 2 ^ 64)
      then (disconnect_client s c >>= λ s'. timeouts_from fuel t s' e.next now)
      else ok s
  | _ ↦ fault sentinel_key
]

-- `_uvx_check_timeout_clients`
pub check_timeout_clients : Server → ℕ → Run Server
unfolding timeouts_from table_of
check_timeout_clients s now =
    if s.config.conn_timeout == 0
    then ok s
    else (table_of s >>= λ t. timeouts_from t.size t s t.head now)

-- `_uv_on_heartbeat_timer`
pub on_heartbeat_timer : Server → ℕ → Run Server
unfolding check_timeout_clients
on_heartbeat_timer s now =
    let s' = record s {
      heartbeat_index = add32 s.heartbeat_index 1;
      trace = s.trace ++ calls s.config.on_heartbeat (heartbeat s.heartbeat_index);
    } in
    if ltb 0 s'.config.conn_timeout then check_timeout_clients s' now else ok s'

-- The loop of `uvx_server_iter_conns`, and the connections that the callback is called on.
pub iter_from : ℕ → Table ℕ ℕ → Option ℕ → Run (List ℕ)
iter_from fuel t none = ok []
iter_from zero t (some p) = fault diverges
iter_from (suc fuel) t (some p) = entry_at t p >>= λ e. elim e.k [
  | key c ↦ do rest ← iter_from fuel t e.next; ok (c ∷ rest)
  | _ ↦ fault sentinel_key
]

-- `on_iter_conn` says whether there is a callback, which leaves the table as it is.
pub uvx_server_iter_conns : Server → Bool → Run (ℕ × List ℕ)
unfolding iter_from table_of
uvx_server_iter_conns s on_iter_conn = do
  t ← table_of s
  visited ← if on_iter_conn then iter_from t.size t t.head else ok []
  ok (t.count, visited)
