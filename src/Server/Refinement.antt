-- ===== src/Server/Refinement.antt =====
-- Every move of a server does to its connections what the abstract server does to its sessions.
use uvx.Prelude.{
  ℕ, zero, suc, ◌+◌, ◌<◌, ◌^◌, ◌≡◌, refl, sym, ap, ◌∙◌, Bool, List, [], ◌∷◌, ◌++◌, some, subst,
  arith,
}
use uvx.Memory.{ok, Returns}
use uvx.Server.{put, Server, Conn, Config, bytes, read_error}
use uvx.Server.Connections.{without}
use uvx.Server.Handlers.{
  on_connection-Serves, on_read-Heard, after_close-Serves, dropped, conn_ref_run,
}
use uvx.Server.Members.{member, member-Among}
use uvx.Server.Loop.{
  System, Move, connection, no_connection, beat, read, closed, retain, release, tick, Enabled,
  handle, quiet, after, turn, started, Reach, start, next,
}
use uvx.Server.Sound.{held_alive, Sound, Serves-quiet, At-congr, At-alive}
use uvx.Server.Moves.Opened.{absent, connection-TurnsTo}
use uvx.Server.Moves.Heard.{
  on_list, gone, alive, bytes-TurnsTo, nothing-TurnsTo, error-TurnsTo, nothing_run, error_run,
}
use uvx.Server.Moves.Closed.{closed-TurnsTo, on_list as closing_on_list, gone as closing_gone}
use uvx.Server.Moves.Counted.{
  retain_run, since-put, bit_small, released-Live, retain-TurnsTo, release-TurnsTo,
}
use uvx.Server.Moves.Beaten.{beat_run, in_order, beat-TurnsTo, tick-TurnsTo, no_connection-TurnsTo}
use uvx.Server.Safety.{started-Sound}
use uvx.Server.Sessions.{Session, follow, sessions}
use uvx.Server.Follows.{
  Follows, followed, connection-Follows, bytes-Follows, error-Follows, closed-Follows, beat-Follows,
  counted-Follows,
}

-- The abstract server is at `xs` when the connections of the sound server are these sessions.
abbrev pub Shows : System → List Session → Type 0
Shows s xs = (cs : List ℕ) × Sound s cs × (sessions s cs ≡ xs)

-- The connections after a move, which the server still serves and which follow the sessions.
abbrev Simulates : Move → System → List ℕ → Type 0
Simulates m s cs =
    (ds : List ℕ) × Returns (handle m s.clock (quiet s.server))
      λ server. Sound (after m s server) ds × Follows m s cs ds server

module _ (s : System) (cs : List ℕ) (v : Sound s cs) where
  connection-Simulates :
      (c : ℕ) (accepted : Bool)
      → Enabled (connection c accepted) s
      → Simulates (connection c accepted) s cs
  unfolding handle
  connection-Simulates c accepted e =
      let a = absent s cs v c accepted e in
      let (server, run, (serves, here, others, trace, _)) =
        on_connection-Serves (quiet s.server) cs c s.clock accepted (Serves-quiet v.serves) a in
      (
        cs ++ c ∷ [],
        followed (connection c accepted) s cs (cs ++ c ∷ []) server run
            (connection-Follows s cs v c accepted server e a here others trace)
            (connection-TurnsTo s cs v c accepted e),
      )

  bytes-Simulates :
      (c n : ℕ) → Enabled (read c (bytes (suc n))) s → Simulates (read c (bytes (suc n))) s cs
  unfolding handle
  bytes-Simulates c n e =
      let (server, run, (heard, trace)) =
        on_read-Heard (quiet s.server) cs c n s.clock (Serves-quiet v.serves)
          (member-Among c cs (on_list s cs v c e)) in
      let (conn, here, _) = heard.heard in
      let a = v.at c in
      (
        without c cs ++ c ∷ [],
        followed (read c (bytes (suc n))) s cs (without c cs ++ c ∷ []) server run
            (bytes-Follows s cs v c n server conn (ground (arith, a)) (gone s cs v c e) here
              heard.others trace)
            (bytes-TurnsTo s cs v c e n),
      )

  closed-Simulates : (c : ℕ) → Enabled (closed c) s → Simulates (closed c) s cs
  unfolding handle
  closed-Simulates c e =
      let listed = closing_on_list s cs v c e in
      let (conn, before) = At-alive (v.at c) (ground arith) in
      let a = At-congr (sym before) refl refl refl (sym listed) (v.at c) in
      let (server, run, (serves, here, others, trace)) =
        after_close-Serves (quiet s.server) cs c conn (Serves-quiet v.serves)
          (member-Among c cs listed) before (omega (arith, a.counted))
          (omega (arith, a.counted, a.few)) in
      (
        without c cs,
        followed (closed c) s cs (without c cs) server run
            (closed-Follows s cs v c server (closing_gone s cs v c e) others trace)
            (closed-TurnsTo s cs v c e),
      )

  retain-Simulates : (c : ℕ) → Enabled (retain c) s → Simulates (retain c) s cs
  unfolding handle
  retain-Simulates c ((conn, e), room) =
      let a = At-congr (sym e) refl refl refl refl (v.at c) in
      let more : Conn = record conn { refcount = conn.refcount + 1 } in
      (
        cs,
        followed (retain c) s cs cs
            (record s.server { heap = put s.server.heap c (some more); trace = [] })
            (retain_run (quiet s.server) c conn e
              (omega (arith, a.counted, room, bit_small (member c cs))))
            (counted-Follows s cs v c (some more)
              (λ d m. since-put s.server.heap c d conn more e refl))
            (retain-TurnsTo s cs v c conn e room),
      )

  release-Simulates : (c : ℕ) → Enabled (release c) s → Simulates (release c) s cs
  unfolding handle
  release-Simulates c e =
      let (conn, before) = held_alive (v.at c) e in
      let a = At-congr (sym before) refl refl refl refl (v.at c) in
      (
        cs,
        followed (release c) s cs cs
            (record s.server { heap = put s.server.heap c (dropped conn); trace = [] })
            (conn_ref_run (quiet s.server) c conn before (omega (arith, a.counted, e))
              (omega (arith, a.counted, a.few, bit_small (member c cs))))
            (counted-Follows s cs v c (dropped conn)
              (released-Live s cs v c conn before e (member c cs) refl).1)
            (release-TurnsTo s cs v c conn before e),
      )

  simulated : (m : Move) → Enabled m s → Simulates m s cs
  unfolding handle
  simulated (connection c accepted) e = connection-Simulates c accepted e
  simulated (read c (bytes (suc n))) e = bytes-Simulates c n e
  simulated (read c (bytes zero)) e =
      let (conn, before) = alive s cs v c e in
      (
        cs,
        followed (read c (bytes zero)) s cs cs _ (nothing_run s.server c s.clock conn before) refl
            (nothing-TurnsTo s cs v c e),
      )
  simulated (read c read_error) e =
      let (conn, before) = alive s cs v c e in
      (
        cs,
        followed (read c read_error) s cs cs _ (error_run s.server c s.clock conn before)
            (error-Follows s cs v c conn) (error-TurnsTo s cs v c e),
      )
  simulated (closed c) e = closed-Simulates c e
  simulated beat e = (
    cs,
    followed beat s cs cs _ (beat_run s.server cs s.clock v.serves (in_order s cs v e))
        (beat-Follows s cs v e) (beat-TurnsTo s cs v e),
  )
  simulated no_connection e =
      (cs, followed no_connection s cs cs (quiet s.server) refl refl (no_connection-TurnsTo s cs v))
  simulated (retain c) e = retain-Simulates c e
  simulated (release c) e = release-Simulates c e
  simulated (tick later) (le, small) = (
    cs,
    followed (tick later) s cs cs (quiet s.server) refl refl (tick-TurnsTo s cs v later le small),
  )

-- When a server that shows some sessions makes a move that libuv or the user can make, the move ends
-- normally, and the server then shows the sessions that the abstract server has after it: a new one at the
-- end, the one that was heard of at the end with its new time, the silent ones closing, a closed one gone,
-- all others as they were and in the same order.
pub simulates :
    {s : System} {xs : List Session} (m : Move)
    → Shows s xs
    → Enabled m s
    → Returns
        (handle m s.clock (quiet s.server))
        λ server. Shows (after m s server) (follow s.server.config.conn_timeout s.clock m xs)
simulates {s} m (cs, v, shown) e =
    let (ds, (server, run, (sound, follows))) = simulated s cs v m e in
    (server, run, (ds, sound, follows ∙ ap (follow s.server.config.conn_timeout s.clock m) shown))

pub started-Shows :
    (s : Server) (config : Config) (colon : Bool) (clock : ℕ)
    → 0 < config.conn_count
    → clock < 2 ^ 64
    → Shows (started s config colon clock) []
started-Shows s config colon clock room small =
    ([], started-Sound s config colon clock room small, refl)

-- The sessions of the abstract server after the moves by which a server came to its state.
unfoldable pub history : {s : System} → Reach s → List Session
history (start s config colon clock room small) = []
history (next {s} r (turn m e run)) = follow s.server.config.conn_timeout s.clock m (history r)

ok-injective : {a b : Server} → ok a ≡ ok b → a ≡ b
ok-injective e = cc

-- In every state that a server can come to it shows the sessions that the abstract server, which has none at
-- the start, has after the same moves.
pub Reach-Shows : {s : System} (r : Reach s) → Shows s (history r)
unfolding history
Reach-Shows (start s config colon clock room small) = started-Shows s config colon clock room small
Reach-Shows (next {s} r (turn m e run)) =
    let (server, run', shows) = simulates m (Reach-Shows r) e in
    subst (λ x. Shows (after m s x) (history (next r (turn m e run))))
      (ok-injective (sym run' ∙ run)) shows
