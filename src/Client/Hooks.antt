-- ===== src/Client/Hooks.antt =====
-- uvx_client.c with callbacks of the configuration that call back into the client. The handlers are those of
-- Client, with what each callback does where it is called; `_uvx_client_close` can so call itself, on fuel.
use uvx.Prelude.{ℕ, zero, suc, Bool, true, false, List, [], ◌∷◌, if◌then◌else◌}
use uvx.Prelude.Word.{add32}
use uvx.Memory.{Run, ok, fault, diverges, ◌>>=◌, ◌>>◌, assert}
use uvx.Client.{
  Client, Config, Event, Nread, bytes, read_error, log, client_reconnect, uvx_client_connect,
  conn_ok, conn_fail, conn_closing, conn_close, recv, heartbeat, read_start, read_stop, uv_close,
  free_base, timer_stop, timer_close,
}
use uvx.Client.Loop.{Move, beat, connected, read, closed, timer_closed, disconnect, shutdown}

-- The callbacks of the configuration, and what the user does in one.
pub data Hook : Type 0 where
  in_conn_ok in_conn_fail in_conn_closing in_conn_close in_recv in_heartbeat : Hook

pub data Act : Type 0 where
  disconnecting : Act
  connecting_to : Config → Bool → Bool → Act

-- `close` is `_uvx_client_close`.
unfoldable pub perform : (Client → Run Client) → List Act → Client → Run Client
perform close [] c = ok c
perform close (disconnecting ∷ acts) c =
    (if c.uvserver then close c else ok c) >>= perform close acts
perform close (connecting_to config colon accepted ∷ acts) c =
    perform close acts (uvx_client_connect c config colon accepted).1

-- `if(callback) callback(...)`
unfoldable pub call : (Client → Run Client) → Bool → Event → List Act → Client → Run Client
unfolding perform
call close set e acts c = if set then perform close acts (log c (e ∷ [])) else ok c

module _ (does : Hook → List Act) where
  unfoldable pub close_in : ℕ → Client → Run Client
  unfolding call
  close_in zero c = fault diverges
  close_in (suc fuel) c = do
    c' ← call (close_in fuel) c.config.on_conn_closing conn_closing (does in_conn_closing) c
    ok (log c' (uv_close ∷ []))

  unfoldable pub on_heartbeat_in : ℕ → Client → Bool → Run Client
  unfolding call close_in client_reconnect
  on_heartbeat_in fuel c accepted =
      if c.uvserver
      then call (close_in fuel) c.config.on_heartbeat (heartbeat c.heartbeat_index)
          (does in_heartbeat) (record c { heartbeat_index = add32 c.heartbeat_index 1 })
      else if c.connection_closed
      then ok (client_reconnect c accepted).1
      else ok c

  unfoldable pub after_close_in : ℕ → Client → Run Client
  unfolding call close_in
  after_close_in fuel c = do
    assert c.attached
    c' ← call (close_in fuel) c.config.on_conn_close conn_close (does in_conn_close) c
    ok (record c' { uvserver = false; connection_closed = true })

  unfoldable pub on_read_in : ℕ → Client → Nread → Run Client
  unfolding call close_in
  on_read_in fuel c (bytes zero) = do assert c.attached; ok (log c (free_base ∷ []))
  on_read_in fuel c (bytes (suc n)) = do
    assert c.attached
    assert c.uvserver
    c' ← call (close_in fuel) c.config.on_recv (recv (suc n)) (does in_recv) c
    ok (log c' (free_base ∷ []))
  on_read_in fuel c read_error = do
    assert c.attached
    c' ← close_in fuel (log c (read_stop ∷ []))
    ok (log c' (free_base ∷ []))

  unfoldable pub on_connect_in : ℕ → Client → Bool → Run Client
  unfolding call close_in
  on_connect_in fuel c status_ok =
      if status_ok
      then (do
        c' ←
            call (close_in fuel) c.config.on_conn_ok conn_ok (does in_conn_ok)
              (record c { attached = true; uvserver = true })
        ok (log c' (read_start ∷ [])))
      else (do
        c' ←
            call (close_in fuel) c.config.on_conn_fail conn_fail (does in_conn_fail)
              (record c { attached = true; uvserver = false })
        close_in fuel c')

  unfoldable pub disconnect_in : ℕ → Client → Run Client
  unfolding close_in
  disconnect_in fuel c = if c.uvserver then close_in fuel c else ok c

  unfoldable pub shutdown_in : ℕ → Client → Run Client
  unfolding disconnect_in
  shutdown_in fuel c = disconnect_in fuel (log c (timer_stop ∷ timer_close ∷ []))

  unfoldable pub handle_in : ℕ → Move → Client → Run Client
  unfolding on_heartbeat_in on_connect_in on_read_in after_close_in disconnect_in shutdown_in
  handle_in fuel (beat accepted) c = on_heartbeat_in fuel c accepted
  handle_in fuel (connected status_ok) c = on_connect_in fuel c status_ok
  handle_in fuel (read nread) c = on_read_in fuel c nread
  handle_in fuel closed c = after_close_in fuel c
  handle_in fuel timer_closed c = ok c
  handle_in fuel disconnect c = disconnect_in fuel c
  handle_in fuel shutdown c = shutdown_in fuel c
