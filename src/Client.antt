-- ===== src/Client.antt =====
-- uvx_client.c: the TCP client, which connects again at its next heartbeat after a connection was
-- closed. What the code asks of libuv and which callbacks of the configuration it calls is recorded in
-- `trace`, in order; what libuv answers is an argument. Diagnostics are left out.
pub mod Loop
pub mod Invariant
pub mod Safety
pub mod Reconnect
pub mod Send
pub mod Phases
pub mod Standing
pub mod Turns
pub mod Refinement
pub mod Protocol
pub mod Hooks
pub mod Reentry
mod Tests
use uvx.Prelude.{
  ℕ, zero, suc, ◌*◌, Bool, true, false, List, [], ◌∷◌, ◌++◌, if◌then◌else◌, Option, some,
}
use uvx.Prelude.Word.{add32}
use uvx.Stream.{Heap, free, uvx_send_to_stream}
use uvx.Memory.{Run, ok, ◌>>=◌, ◌>>◌, assert}

-- `uvx_client_config_t`, with its time in milliseconds; a callback is whether it is set.
pub record Config : Type 0 where
  pub auto_connect : Bool
  pub heartbeat_interval : ℕ
  pub on_conn_ok : Bool
  pub on_conn_fail : Bool
  pub on_conn_closing : Bool
  pub on_conn_close : Bool
  pub on_recv : Bool
  pub on_heartbeat : Bool

-- Calls of libuv and of the configuration's callbacks. `tcp_connect` says whether it was accepted.
pub data Event : Type 0 where
  ip4_addr ip6_addr tcp_init read_start read_stop uv_close : Event
  tcp_connect : Bool → Event
  timer_init timer_stop timer_close : Event
  timer_start : ℕ → Event
  conn_ok conn_fail conn_closing conn_close free_base : Event
  recv heartbeat : ℕ → Event

-- `uvx_client_t`: `uvserver` is whether the pointer is `&uvclient`, and `attached` whether
-- `uvclient.data` points to the client.
pub record Client : Type 0 where
  pub config : Config
  pub uvserver : Bool
  pub attached : Bool
  pub heartbeat_index : ℕ
  pub connection_closed : Bool
  pub trace : List Event

-- `nread`: a number of bytes or an error.
pub data Nread : Type 0 where
  bytes : ℕ → Nread
  read_error : Nread

abbrev pub log : Client → List Event → Client
log c events = record c { trace = c.trace ++ events }

-- `if(callback) callback(...)`
abbrev pub calls : Bool → Event → List Event
calls set e = if set then e ∷ [] else []

pub uvx_client_default_config : Config
uvx_client_default_config = record {
  auto_connect = true;
  heartbeat_interval = 60 * 1000;
  on_conn_ok = false;
  on_conn_fail = false;
  on_conn_closing = false;
  on_conn_close = false;
  on_recv = false;
  on_heartbeat = false;
}

-- `uvx__client_reconnect`; `accepted` says that `uv_tcp_connect` returns no error.
pub client_reconnect : Client → Bool → Bool × Client
client_reconnect c accepted = (
  accepted,
  record c {
    uvserver = false;
    connection_closed = false;
    trace = c.trace ++ tcp_init ∷ tcp_connect accepted ∷ [];
  },
)

-- `uvx__on_heartbeat_timer`
pub on_heartbeat_timer : Client → Bool → Client
unfolding client_reconnect
on_heartbeat_timer c accepted =
    if c.uvserver
    then record c {
      heartbeat_index = add32 c.heartbeat_index 1;
      trace = c.trace ++ calls c.config.on_heartbeat (heartbeat c.heartbeat_index);
    }
    else if c.connection_closed
    then (client_reconnect c accepted).1
    else c

-- `strchr(ip, ':')` is `colon`.
pub uvx_client_connect : Client → Config → Bool → Bool → Bool × Client
unfolding client_reconnect
uvx_client_connect c config colon accepted =
    let started = record c {
      uvserver = false;
      connection_closed = false;
      config = config;
      trace = c.trace ++ (if colon then ip6_addr else ip4_addr) ∷ [];
    } in
    let (ret, c') = client_reconnect started accepted in
    (
      ret,
      record c' {
        heartbeat_index = 0;
        trace = c'.trace ++ timer_init ∷ timer_start config.heartbeat_interval ∷ [];
      },
    )

-- `uvx__after_close_client`
pub after_close_client : Client → Run Client
after_close_client c = do
  assert c.attached
  ok (record c {
    uvserver = false;
    connection_closed = true;
    trace = c.trace ++ calls c.config.on_conn_close conn_close;
  })

-- `_uvx_client_close`
pub client_close : Client → Client
client_close c = log c (calls c.config.on_conn_closing conn_closing ++ uv_close ∷ [])

-- `uvx__on_client_read`; `free_base` is `free(buf->base)`.
pub on_client_read : Client → Nread → Run Client
unfolding client_close
on_client_read c (bytes zero) = do assert c.attached; ok (log c (free_base ∷ []))
on_client_read c (bytes (suc n)) = do
  assert c.attached
  assert c.uvserver
  ok (log c (calls c.config.on_recv (recv (suc n)) ++ free_base ∷ []))
on_client_read c read_error = do
  assert c.attached
  ok (log (client_close (log c (read_stop ∷ []))) (free_base ∷ []))

-- `_uv_on_connect`; libuv hands it the request that `uv_tcp_connect` was given.
pub on_connect : Client → Bool → Client
unfolding client_close
on_connect c status_ok =
    if status_ok
    then record c {
      attached = true;
      uvserver = true;
      trace = c.trace ++ calls c.config.on_conn_ok conn_ok ++ read_start ∷ [];
    }
    else client_close (record c {
      attached = true;
      uvserver = false;
      trace = c.trace ++ calls c.config.on_conn_fail conn_fail;
    })

pub uvx_client_disconnect : Client → ℕ × Client
unfolding client_close
uvx_client_disconnect c = (1, if c.uvserver then client_close c else c)

pub uvx_client_shutdown : Client → ℕ × Client
unfolding uvx_client_disconnect
uvx_client_shutdown c = (1, (uvx_client_disconnect (log c (timer_stop ∷ timer_close ∷ []))).1)

-- The heap is that of Stream; `uvclient` is the address of the field of that name.
unfoldable pub uvx_client_send : Client → Heap → ℕ → Option ℕ → ℕ → Option ℕ → ℕ → Run (ℕ × Heap)
uvx_client_send c h uvclient d size w status =
    if c.uvserver
    then uvx_send_to_stream h (some uvclient) d size w status
    else (free h d >>= λ h'. ok (0, h'))
