-- ===== src/Client/Reconnect.antt =====
-- How a client comes back after its connection is lost, and when it does not.
use uvx.Prelude.{◌≡◌, refl, sym, ap, ◌∙◌, Bool, true, false, List, [], ◌∷◌, ◌++◌, arith, map}
use uvx.Memory.{ok, Returns}
use uvx.Client.{
  Client, Config, Event, read_error, calls, client_reconnect, on_heartbeat_timer,
  uvx_client_connect, after_close_client, on_client_read, client_close, tcp_init, tcp_connect,
  read_stop, uv_close, conn_closing, conn_close, free_base, timer_stop, timer_close,
  uvx_client_shutdown, uvx_client_disconnect, on_connect, conn_ok, read_start,
}
use uvx.Client.Loop.{
  Handles, all_asked, Move, beat, connected, read, closed, shutdown, taken, handle, System, quiet,
  after, started, turn, Reach, next, turns,
}
use uvx.Client.Invariant.{Reach-Fits}

-- A move that is handled, and the moves after it.
pub turns_next :
    (s : System) (m : Move) (ms : List Move) (c : Client)
    → handle m (quiet s.client) ≡ ok c
    → turns s (m ∷ ms) ≡ turns (after (taken m s.handles) c) ms
unfolding turns
turns_next s m ms c e = rw e

pub turns_none : (s : System) → turns s [] ≡ ok s
unfolding turns
turns_none s = refl

abbrev lost_events : Bool → List Event
lost_events b = read_stop ∷ ((calls b conn_closing ++ uv_close ∷ []) ++ free_base ∷ [])

lost_pending :
    (b : Bool) (l : Handles)
    → ((all_asked l (lost_events b)).closing ≡ true)
      × ((all_asked l (lost_events b)).timer ≡ l.timer)
lost_pending true l = (refl, refl)
lost_pending false l = (refl, refl)

-- A read error on an attached client.
lost_run :
    (c : Client)
    → c.attached ≡ true
    → handle (read read_error) (quiet c)
      ≡ ok (record c { trace = lost_events c.config.on_conn_closing })
unfolding handle on_client_read client_close
lost_run c attached = rw attached

closed_run :
    (c : Client)
    → c.attached ≡ true
    → handle closed (quiet c)
      ≡ ok (record c {
        uvserver = false;
        connection_closed = true;
        trace = calls c.config.on_conn_close conn_close;
      })
unfolding handle after_close_client
closed_run c attached = rw attached

closed_pending : (b : Bool) (l : Handles) → (all_asked l (calls b conn_close)).timer ≡ l.timer
closed_pending true l = refl
closed_pending false l = refl

beat_run :
    (c : Client) (accepted : Bool)
    → c.uvserver ≡ false
    → c.connection_closed ≡ true
    → handle (beat accepted) (quiet c)
      ≡ ok (record c {
        uvserver = false;
        connection_closed = false;
        trace = tcp_init ∷ tcp_connect accepted ∷ [];
      })
unfolding handle on_heartbeat_timer client_reconnect
beat_run c accepted down closed_flag = rw (down, closed_flag)

-- After a read error on an open connection, the close callback and the next heartbeat, all three may
-- come and are handled to their ends, and the client has asked for a new connection; it is connecting
-- if libuv accepted this.
pub recovers :
    {s : System}
    → Reach s
    → s.handles.reading ≡ true
    → s.handles.timer ≡ true
    → (accepted : Bool)
    → Returns (turns s (read read_error ∷ closed ∷ beat accepted ∷ [])) λ u.
      Reach u
      × (u.client.trace ≡ tcp_init ∷ tcp_connect accepted ∷ [])
      × (u.handles.connecting ≡ accepted)
recovers {s} r reading timer accepted =
    let f = Reach-Fits r in
    let attached : s.client.attached ≡ true = ground (arith, f) in
    let b = s.client.config.on_conn_closing in
    let run1 = lost_run s.client attached in
    let s1 = after s.handles (record s.client { trace = lost_events b }) in
    let r1 : Reach s1 = next r (turn (read read_error) reading run1) in
    let run2 = closed_run s1.client attached in
    let s2 = after (taken closed s1.handles) (record s1.client {
      uvserver = false;
      connection_closed = true;
      trace = calls s1.client.config.on_conn_close conn_close;
    }) in
    let r2 : Reach s2 = next r1 (turn closed (lost_pending b s.handles).0 run2) in
    let run3 = beat_run s2.client accepted refl refl in
    let timer2 : s2.handles.timer ≡ true =
      closed_pending s.client.config.on_conn_close (taken closed s1.handles)
      ∙ (lost_pending b s.handles).1
      ∙ timer in
    (
      _,
      turns_next s (read read_error) (closed ∷ beat accepted ∷ []) s1.client run1
          ∙ turns_next s1 closed (beat accepted ∷ []) s2.client run2
          ∙ turns_next s2 (beat accepted) [] _ run3
          ∙ turns_none _,
      (next r2 (turn (beat accepted) timer2 run3), refl, refl),
    )

idle_beat :
    (c : Client) (b : Bool)
    → c.uvserver ≡ false
    → c.connection_closed ≡ false
    → handle (beat b) (quiet c) ≡ ok (quiet c)
unfolding handle on_heartbeat_timer client_reconnect
idle_beat c b down not_closed = rw (down, not_closed)

idle_beats :
    (c : Client) (l : Handles) (bs : List Bool)
    → c.uvserver ≡ false
    → c.connection_closed ≡ false
    → c.trace ≡ []
    → turns (record { client = c; handles = l }) (map beat bs)
      ≡ ok (record { client = c; handles = l })
idle_beats c l [] down not_closed e = turns_none _
idle_beats c l (b ∷ bs) down not_closed e =
    turns_next (record { client = c; handles = l }) (beat b) (map beat bs) (quiet c)
      (idle_beat c b down not_closed)
    ∙ idle_beats (quiet c) l bs down not_closed refl
    ∙ ap (λ es. ok (record { client = record c { trace = es }; handles = l })) (sym e)

refused_flags :
    (c : Client) (config : Config) (colon : Bool)
    → let s = started c config colon false in
      (s.client.uvserver ≡ false) × (s.client.connection_closed ≡ false)
unfolding uvx_client_connect client_reconnect
refused_flags c config colon = (refl, refl)

-- Where `uv_tcp_connect` refuses at once, `uvx_client_connect` leaves a client that no heartbeat ever
-- connects again: each asks for nothing, whatever libuv would answer, and leaves the client as it is.
pub refused_never_retries :
    (c : Client) (config : Config) (colon b : Bool) (bs : List Bool)
    → let s = started c config colon false in
      turns s (beat b ∷ map beat bs) ≡ ok (record s { client = quiet s.client })
refused_never_retries c config colon b bs =
    let s = started c config colon false in
    let (down, not_closed) = refused_flags c config colon in
    turns_next s (beat b) (map beat bs) (quiet s.client) (idle_beat s.client b down not_closed)
    ∙ idle_beats (quiet s.client) s.handles bs down not_closed refl

shutdown_run :
    (c : Client)
    → c.uvserver ≡ false
    → handle shutdown (quiet c) ≡ ok (record c { trace = timer_stop ∷ timer_close ∷ [] })
unfolding handle uvx_client_shutdown uvx_client_disconnect
shutdown_run c down = rw down

connected_run :
    (c : Client)
    → handle (connected true) (quiet c)
      ≡ ok (record c {
        attached = true;
        uvserver = true;
        trace = calls c.config.on_conn_ok conn_ok ++ read_start ∷ [];
      })
unfolding handle on_connect
connected_run c = refl

connected_pending :
    (b : Bool) (l : Handles)
    → let k = all_asked l (calls b conn_ok ++ read_start ∷ []) in
      (k.reading ≡ true) × (k.timer ≡ l.timer)
connected_pending true l = (refl, refl)
connected_pending false l = (refl, refl)

-- `uvx_client_shutdown`, the first, while the client is connecting stops the timer and nothing else: when the
-- connection then comes about, the client opens it, and nothing closes it.
pub shutdown_while_connecting :
    {s : System}
    → Reach s
    → s.handles.connecting ≡ true
    → s.handles.timer ≡ true
    → Returns (turns s (shutdown ∷ connected true ∷ [])) λ u.
      Reach u × (u.client.uvserver ≡ true) × (u.handles.reading ≡ true) × (u.handles.timer ≡ false)
shutdown_while_connecting {s} r e runs =
    let f = Reach-Fits r in
    let run1 = shutdown_run s.client (ground (arith, f)) in
    let s1 = after s.handles (record s.client { trace = timer_stop ∷ timer_close ∷ [] }) in
    let r1 : Reach s1 = next r (turn shutdown (ground (arith, f), runs) run1) in
    let run2 = connected_run s1.client in
    let (reading, timer) =
      connected_pending s.client.config.on_conn_ok (taken (connected true) s1.handles) in
    (
      _,
      turns_next s shutdown (connected true ∷ []) s1.client run1
          ∙ turns_next s1 (connected true) [] _ run2
          ∙ turns_none _,
      (next r1 (turn (connected true) e run2), refl, reading, timer),
    )
