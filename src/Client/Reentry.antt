-- ===== src/Client/Reentry.antt =====
-- Callbacks of a client that call back into it.
mod Tests
use uvx.Prelude.{
  if◌then◌else◌, ℕ, zero, suc, ◌≡◌, refl, sym, ap, ◌∙◌, Bool, true, false, inl, inr, Bool-cases,
  List, [], ◌∷◌, ◌++◌, append-nil, append_assoc, arith, Option,
}
use uvx.Memory.{Run, ok, fault, diverges, ◌>>=◌, ◌>>◌, assert, Returns}
use uvx.Client.{
  ip4_addr, ip6_addr, tcp_init, tcp_connect, timer_init, timer_start, Client, Config, Event, Nread,
  bytes, read_error, log, calls, client_reconnect, uvx_client_connect, on_heartbeat_timer,
  after_close_client, client_close, on_client_read, on_connect, uvx_client_disconnect,
  uvx_client_shutdown, conn_ok, conn_fail, conn_closing, conn_close, recv, heartbeat, read_start,
  read_stop, uv_close, free_base, timer_stop, timer_close,
}
use uvx.Prelude.Word.{add32}
use uvx.Client.Loop.{
  System, quiet, after, taken, Reach, AllProper, all_asked, Handles, Move, beat, connected, read,
  closed, timer_closed, disconnect, shutdown, handle,
}
use uvx.Client.Invariant.{Reach-Fits}
use uvx.Client.Hooks.{
  Hook, in_conn_closing, in_conn_close, Act, disconnecting, connecting_to, perform, call, close_in,
  on_heartbeat_in, on_connect_in, on_read_in, after_close_in, disconnect_in, shutdown_in, handle_in,
}

abbrev idle : Hook → List Act
idle _ = []

idle_call :
    (close : Client → Run Client) (set : Bool) (e : Event) (c : Client)
    → call close set e [] c ≡ ok (log c (calls set e))
unfolding call perform
idle_call close true e c = refl
idle_call close false e c = ap (λ t. ok (record c { trace = t })) (sym (append-nil c.trace))

idle_close : (fuel : ℕ) (c : Client) → close_in idle (suc fuel) c ≡ ok (client_close c)
unfolding close_in client_close
idle_close fuel c =
    rw (idle_call (close_in idle fuel) c.config.on_conn_closing conn_closing c)
      (ap (λ t. ok (record c { trace = t })) (append_assoc c.trace _ _))

-- When no callback calls back into the client, each handler, with room for one call of `_uvx_client_close`
-- or more, does exactly what it does in Client.
idle_hooks : (fuel : ℕ) (m : Move) (c : Client) → handle_in idle (suc fuel) m c ≡ handle m c
unfolding handle_in handle on_heartbeat_in on_connect_in on_read_in after_close_in disconnect_in
    shutdown_in on_heartbeat_timer after_close_client on_client_read on_connect
    uvx_client_disconnect uvx_client_shutdown
idle_hooks fuel (beat accepted) c = elim (Bool-cases c.uvserver) [
  | inl up ↦ rw up (
      idle_call (close_in idle (suc fuel)) c.config.on_heartbeat (heartbeat c.heartbeat_index)
        (record c { uvserver = true; heartbeat_index = add32 c.heartbeat_index 1 }))
  | inr not_up ↦ elim (Bool-cases c.connection_closed) [
    | inl down ↦ rw (not_up, down) refl
    | inr not_down ↦ rw (not_up, not_down) refl
  ]
]
idle_hooks fuel (connected true) c =
    rw
      (idle_call (close_in idle (suc fuel)) c.config.on_conn_ok conn_ok
        (record c { attached = true; uvserver = true }))
      refl
idle_hooks fuel (connected false) c =
    rw
      (idle_call (close_in idle (suc fuel)) c.config.on_conn_fail conn_fail
        (record c { attached = true; uvserver = false }))
      (idle_close fuel (record c {
        attached = true;
        uvserver = false;
        trace = c.trace ++ calls c.config.on_conn_fail conn_fail;
      }))
idle_hooks fuel (read (bytes zero)) c = refl
idle_hooks fuel (read (bytes (suc n))) c =
    rw (idle_call (close_in idle (suc fuel)) c.config.on_recv (recv (suc n)) c) (
      ap (λ t. assert c.attached >> (assert c.uvserver >> ok (record c { trace = t })))
        (append_assoc c.trace _ _))
idle_hooks fuel (read read_error) c = rw (idle_close fuel (log c (read_stop ∷ []))) refl
idle_hooks fuel closed c =
    rw (idle_call (close_in idle (suc fuel)) c.config.on_conn_close conn_close c) refl
idle_hooks fuel timer_closed c = refl
idle_hooks fuel disconnect c = elim (Bool-cases c.uvserver) [
  | inl up ↦ rw up (idle_close fuel (record c { uvserver = true }))
  | inr not_up ↦ rw not_up refl
]
idle_hooks fuel shutdown c = elim (Bool-cases c.uvserver) [
  | inl up ↦
      rw up (idle_close fuel (log (record c { uvserver = true }) (timer_stop ∷ timer_close ∷ [])))
  | inr not_up ↦ rw not_up refl
]

-- A client that was connected anew before its close callback ended.
abbrev dialed_anew : Client → Config → Bool → Client
dialed_anew c config colon = record c {
  config = config;
  uvserver = false;
  connection_closed = true;
  heartbeat_index = 0;
  trace =
      conn_close
      ∷ (if colon then ip6_addr else ip4_addr)
      ∷ tcp_init
      ∷ tcp_connect true
      ∷ timer_init
      ∷ timer_start config.heartbeat_interval
      ∷ [];
}

module _ (does : Hook → List Act) where
  close_endless :
      (rest : List Act) (c : Client) (fuel : ℕ)
      → does in_conn_closing ≡ disconnecting ∷ rest
      → c.config.on_conn_closing ≡ true
      → c.uvserver ≡ true
      → close_in does fuel c ≡ fault diverges
  unfolding close_in call perform
  close_endless rest c zero e set up = refl
  close_endless rest c (suc fuel) e set up =
      let again =
        close_endless rest
          (record c {
            uvserver = true;
            trace = c.trace ++ conn_closing ∷ [];
            config = record c.config { on_conn_closing = true };
          })
          fuel e refl refl in
      rw (set, e, up, again) refl

  -- When `on_conn_closing` calls `uvx_client_disconnect` first of all, then `uvx_client_disconnect` on an
  -- open connection never returns, however deep its calls of itself may go.
  pub closing_never_ends :
      (rest : List Act) (c : Client) (fuel : ℕ)
      → does in_conn_closing ≡ disconnecting ∷ rest
      → c.config.on_conn_closing ≡ true
      → c.uvserver ≡ true
      → handle_in does fuel disconnect c ≡ fault diverges
  unfolding handle_in disconnect_in
  closing_never_ends rest c fuel e set up =
      rw up (close_endless rest (record c { uvserver = true }) fuel e set refl)

  close_dials :
      (c : Client) (config : Config) (colon : Bool) (fuel : ℕ)
      → does in_conn_close ≡ connecting_to config colon true ∷ []
      → c.config.on_conn_close ≡ true
      → c.attached ≡ true
      → handle_in does fuel closed (quiet c) ≡ ok (dialed_anew c config colon)
  unfolding handle_in after_close_in call perform uvx_client_connect client_reconnect
  close_dials c config colon fuel e set attached = rw (attached, set, e) refl

  anew_beats :
      (c : Client) (config : Config) (colon accepted : Bool) (fuel : ℕ)
      → handle_in does fuel (beat accepted) (quiet (dialed_anew c config colon))
        ≡ ok (record (dialed_anew c config colon) {
          connection_closed = false;
          trace = tcp_init ∷ tcp_connect accepted ∷ [];
        })
  unfolding handle_in on_heartbeat_in client_reconnect
  anew_beats c config colon accepted fuel = refl

anew_proper :
    (c : Client) (config : Config) (colon : Bool) (l : Handles)
    → l.used ≡ false
    → l.connecting ≡ false
    → l.closing ≡ false
    → l.timer_used ≡ false
    → l.timer_closing ≡ false
    → AllProper l (dialed_anew c config colon).trace
anew_proper c config true l used idle unclosed off kept =
    (tt, (tt, (used, ((refl, idle, unclosed), (off, ((refl, kept), tt))))))
anew_proper c config false l used idle unclosed off kept =
    (tt, (tt, (used, ((refl, idle, unclosed), (off, ((refl, kept), tt))))))

anew_pending :
    (c : Client) (config : Config) (colon : Bool) (l : Handles)
    → let k = all_asked l (dialed_anew c config colon).trace in
      (k.used ≡ true) × (k.connecting ≡ true) × (k.timer ≡ true)
anew_pending c config true l = (refl, refl, refl)
anew_pending c config false l = (refl, refl, refl)

-- When the close callback of a client runs whose timer was closed, that close being finished, and
-- `on_conn_close` connects the client anew, then all that is asked of libuv is proper. But the close
-- callback sets `connection_closed` after that, so that the next heartbeat initialises the socket again
-- while its connect request is pending, which is not proper.
pub connect_in_close :
    (does : Hook → List Act) {s : System} (config : Config) (colon accepted : Bool) (fuel : ℕ)
    → Reach s
    → s.handles.closing ≡ true
    → s.handles.timer_used ≡ false
    → s.handles.timer_closing ≡ false
    → s.client.config.on_conn_close ≡ true
    → does in_conn_close ≡ connecting_to config colon true ∷ []
    → Returns (handle_in does fuel closed (quiet s.client)) λ c.
      let t = after (taken closed s.handles) c in
      AllProper (taken closed s.handles) c.trace
      × (t.handles.connecting ≡ true)
      × (t.handles.timer ≡ true)
      × Returns (handle_in does fuel (beat accepted) (quiet c)) λ d. ¬ AllProper t.handles d.trace
connect_in_close does {s} config colon accepted fuel r closing off kept set e =
    let f = Reach-Fits r in
    let l = taken closed s.handles in
    let (used, connecting, timer) = anew_pending s.client config colon l in
    (
      dialed_anew s.client config colon,
      close_dials does s.client config colon fuel e set (f.closing closing),
      (
        anew_proper s.client config colon l refl (ground (arith, f)) refl off kept,
        connecting,
        timer,
        (_, anew_beats does s.client config colon accepted fuel, λ p. used_twice _ used p.0),
      ),
    )
  where
    used_twice : (b : Bool) → b ≡ true → ¬ (b ≡ false)
    used_twice b e f = cc
