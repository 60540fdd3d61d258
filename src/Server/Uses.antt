-- ===== src/Server/Uses.antt =====
-- The handles of connections are initialised before they are used, and once while they are in use.
use uvx.Prelude.{
  ℕ, zero, suc, ◌≡◌, refl, sym, inl, inr, Bool, true, false, List, [], ◌∷◌, ◌++◌, Option, arith,
  ltb, ◌==◌, Bool-cases,
}
use uvx.Memory.{Returns}
use uvx.Server.{
  Conn, Config, Event, bytes, read_error, calls, disconnect_events, conn_ok, conn_fail,
  conn_closing, conn_close, recv, heartbeat, read_start, uv_close, free_base,
}
use uvx.Server.Connections.{Among}
use uvx.Server.Timeouts.{silence, closes}
use uvx.Server.Handlers.{
  on_connection-Serves, on_read-Heard, after_close-Serves, connection_events, conn_ref_run,
}
use uvx.Server.Members.{member, member-Among, Among-member}
use uvx.Server.Loop.{
  System, Move, connection, no_connection, beat, read, closed, retain, release, tick, Initialised,
  initialised, AllInitialised, in_use, taken, Enabled, handle, quiet,
}
use uvx.Server.Sound.{Sound, Serves-quiet, At-congr, At-alive, held_alive}
use uvx.Server.Moves.Opened.{absent, At-free}
use uvx.Server.Moves.Heard.{on_list, alive, nothing_run, error_run}
use uvx.Server.Moves.Closed.{on_list as closing_on_list}
use uvx.Server.Moves.Counted.{retain_run, bit_small}
use uvx.Server.Moves.Beaten.{beat_closes, beat_run, in_order}

-- The call of a user's callback uses no handle.
abbrev Unused : Event → Type 0
Unused e = (u : ℕ → Bool) → (initialised u e ≡ u) × Initialised u e

calls-AllInitialised :
    (b : Bool) (e : Event) (u : ℕ → Bool) (es : List Event)
    → Unused e
    → AllInitialised u es
    → AllInitialised u (calls b e ++ es)
calls-AllInitialised true e u es o q = ((o u).1, rw (o u).0 q)
calls-AllInitialised false e u es o q = q

call-AllInitialised :
    (b : Bool) (e : Event) (u : ℕ → Bool) → Unused e → AllInitialised u (calls b e)
call-AllInitialised true e u o = ((o u).1, tt)
call-AllInitialised false e u o = tt

disconnect-AllInitialised :
    (config : Config) (c : ℕ) (u : ℕ → Bool) (es : List Event)
    → u c ≡ true
    → AllInitialised u es
    → AllInitialised u (disconnect_events config c ++ es)
disconnect-AllInitialised config c u es used q = (used, closing_call config.on_conn_closing)
  where
    closing_call :
        (b : Bool) → AllInitialised u ((calls b (conn_closing c) ++ uv_close c ∷ []) ++ es)
    closing_call true = (tt, (used, q))
    closing_call false = (used, q)

connection-AllInitialised :
    (config : Config) (c : ℕ) (accepted : Bool) (u : ℕ → Bool)
    → u c ≡ false
    → AllInitialised u (connection_events config c accepted)
connection-AllInitialised config c true u free =
    let used : (c == c) ≡ true = ground arith in
    (
      free,
      (
        rw used refl,
        calls-AllInitialised config.on_conn_ok (conn_ok c) _ (read_start c ∷ []) (λ v. (refl, tt))
            (rw used refl, tt),
      ),
    )
connection-AllInitialised config c false u free =
    let used : (c == c) ≡ true = ground arith in
    (
      free,
      (
        rw used refl,
        calls-AllInitialised config.on_conn_fail (conn_fail c) _ (uv_close c ∷ []) (λ v. (refl, tt))
            (rw used refl, tt),
      ),
    )

closes-AllInitialised :
    (h : ℕ → Option Conn) (now : ℕ) (config : Config) (u : ℕ → Bool) (cs : List ℕ)
    → ((d : ℕ) → Among d cs → u d ≡ true)
    → AllInitialised u (closes h now config cs)
unfolding closes
closes-AllInitialised h now config u [] used = tt
closes-AllInitialised h now config u (c ∷ cs) used =
    let rest = closes-AllInitialised h now config u cs (λ d m. used d (inr m)) in
    elim (Bool-cases (ltb config.conn_timeout (silence h now c))) [
      | inl silent ↦
          rw silent
            (disconnect-AllInitialised config c u (closes h now config cs) (used c (inl refl)) rest)
      | inr heard ↦ rw heard rest
    ]

beat-AllInitialised :
    (h : ℕ → Option Conn) (now : ℕ) (config : Config) (u : ℕ → Bool) (cs : List ℕ)
    → ((d : ℕ) → Among d cs → u d ≡ true)
    → AllInitialised u (beat_closes h now config cs)
unfolding beat_closes
beat-AllInitialised h now config u cs used = elim (Bool-cases (ltb 0 config.conn_timeout)) [
  | inl limited ↦ rw limited (closes-AllInitialised h now config u cs used)
  | inr free ↦ rw free tt
]

-- What a sound server asks for in a move is asked of handles that are in use.
abbrev Uses : System → Move → Type 0
Uses s m =
    Returns (handle m s.clock (quiet s.server))
      λ server. AllInitialised (in_use (taken m s.pending)) server.trace

module _ (s : System) (cs : List ℕ) (v : Sound s cs) where
  listed_used : (d : ℕ) → Among d cs → in_use s.pending d ≡ true
  listed_used d m = let a = v.at d in ground (arith, a.placed, Among-member d cs m)

  pub move-Uses : (m : Move) → Enabled m s → Uses s m
  unfolding handle
  move-Uses (connection c accepted) e =
      let a = absent s cs v c accepted e in
      let (server, run, (_, _, _, trace, _)) =
        on_connection-Serves (quiet s.server) cs c s.clock accepted (Serves-quiet v.serves) a in
      let free = At-free s cs v c accepted e in
      (
        server,
        run,
        rw trace (
            connection-AllInitialised s.server.config c accepted (in_use s.pending)
              (ground (arith, free))),
      )
  move-Uses (read c (bytes (suc n))) e =
      let (server, run, (_, trace)) =
        on_read-Heard (quiet s.server) cs c n s.clock (Serves-quiet v.serves)
          (member-Among c cs (on_list s cs v c e)) in
      (
        server,
        run,
        rw trace (
            calls-AllInitialised s.server.config.on_recv (recv c (suc n)) _ (free_base ∷ [])
              (λ u. (refl, tt)) (tt, tt)),
      )
  move-Uses (read c (bytes zero)) e =
      let (conn, before) = alive s cs v c e in
      (_, nothing_run s.server c s.clock conn before, (tt, tt))
  move-Uses (read c read_error) e =
      let (conn, before) = alive s cs v c e in
      (
        _,
        error_run s.server c s.clock conn before,
        disconnect-AllInitialised s.server.config c (in_use s.pending) (free_base ∷ [])
            (ground arith) (tt, tt),
      )
  move-Uses (closed c) e =
      let listed = closing_on_list s cs v c e in
      let (conn, before) = At-alive (v.at c) (ground arith) in
      let a = At-congr (sym before) refl refl refl (sym listed) (v.at c) in
      let (server, run, (_, _, _, trace)) =
        after_close-Serves (quiet s.server) cs c conn (Serves-quiet v.serves)
          (member-Among c cs listed) before (omega (arith, a.counted))
          (omega (arith, a.counted, a.few)) in
      (
        server,
        run,
        rw trace
            (call-AllInitialised s.server.config.on_conn_close (conn_close c) _ (λ u. (refl, tt))),
      )
  move-Uses beat e = (
    _,
    beat_run s.server cs s.clock v.serves (in_order s cs v e),
    calls-AllInitialised s.server.config.on_heartbeat (heartbeat s.server.heartbeat_index) _ _
        (λ u. (refl, tt))
        (beat-AllInitialised s.server.heap s.clock s.server.config (in_use s.pending) cs
          listed_used),
  )
  move-Uses no_connection e = (quiet s.server, refl, tt)
  move-Uses (tick later) e = (quiet s.server, refl, tt)
  move-Uses (retain c) ((conn, e), room) =
      let a = At-congr (sym e) refl refl refl refl (v.at c) in
      (
        _,
        retain_run (quiet s.server) c conn e
            (omega (arith, a.counted, room, bit_small (member c cs))),
        tt,
      )
  move-Uses (release c) e =
      let (conn, before) = held_alive (v.at c) e in
      let a = At-congr (sym before) refl refl refl refl (v.at c) in
      (
        _,
        conn_ref_run (quiet s.server) c conn before (omega (arith, a.counted, e))
            (omega (arith, a.counted, a.few, bit_small (member c cs))),
        tt,
      )
