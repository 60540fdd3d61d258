-- ===== src/Server/Follows.antt =====
-- What each handler of a server does to the sessions of its connections.
use uvx.Prelude.{
  ℕ, suc, ◌-◌, ◌≤◌, ◌≡◌, ◌≢◌, refl, sym, ap, ◌∙◌, inl, inr, Bool, true, false, not, ◌||◌, ◌&&◌,
  List, [], ◌∷◌, ◌++◌, Option, none, some, arith, ltb, ◌==◌, if◌then◌else◌, Bool-cases, subst,
}
use uvx.Memory.{ok, Returns}
use uvx.Server.{
  Server, Conn, bytes, read_error, put, disconnect_events, free_base, calls, conn_close, heartbeat,
}
use uvx.Server.Connections.{Live-Among, Among, Absent, without}
use uvx.Server.Handlers.{accepted_conn, connection_events}
use uvx.Prelude.Word.{add32}
use uvx.Server.Timeouts.{silence}
use uvx.Server.Times.{since, Rising, silence-since}
use uvx.Server.Members.{Among-member}
use uvx.Server.Loop.{
  System, Move, connection, beat, read, closed, handle, taken, quiet, after, all_asked, Pending,
}
use uvx.Server.Sound.{Sound, apart_of, Absent-apart}
use uvx.Server.Moves.{TurnsTo}
use uvx.Server.Moves.Opened.{At-free, opened, connection_pending, opened_elsewhere}
use uvx.Server.Moves.Heard.{gone, recv_events, recv_pending}
use uvx.Server.Moves.Closed.{close_pending}
use uvx.Server.Moves.Beaten.{beat_closes, all_read}
use uvx.Server.Silence.{closes_at, silent}
use uvx.Server.Pending.{all_asked-calls, disconnect_asked, dropping}
use uvx.Server.Sessions.{
  session_cons, without_id, follow, sessions, view, view-append, view-without, view-congr,
  view-close, view-silent,
}

-- The connections of the server after the move, and the sessions that it then shows.
abbrev pub Follows : Move → System → List ℕ → List ℕ → Server → Type 0
Follows m s cs ds server =
    sessions (after m s server) ds ≡ follow s.server.config.conn_timeout s.clock m (sessions s cs)

-- Where a handler leaves the other addresses.
elsewhere_since :
    (h h' : ℕ → Option Conn) (c : ℕ)
    → ((d : ℕ) → c ≢ d → h' d ≡ h d)
    → (d : ℕ) → (c == d) ≡ false
    → since h' d ≡ since h d
elsewhere_since h h' c others d e =
    ap (λ o. elim o [ none ↦ 0 | some conn ↦ conn.last_comm_time ]) (others d (apart_of c d e))

ok-injective : {a b : Server} → ok a ≡ ok b → a ≡ b
ok-injective e = cc

-- What follows from a run of the handler and from the invariant after it.
pub followed :
    (m : Move) (s : System) (cs ds : List ℕ) (server : Server)
    → handle m s.clock (quiet s.server) ≡ ok server
    → Follows m s cs ds server
    → TurnsTo m s ds
    → Returns
        (handle m s.clock (quiet s.server))
        λ server'. Sound (after m s server') ds × Follows m s cs ds server'
followed m s cs ds server run f (server', run', t) =
    (server, run, (subst (λ x. Sound (after m s x) ds) (ok-injective (sym run' ∙ run)) t.sound, f))

since-some :
    (h : ℕ → Option Conn) (c : ℕ) (conn : Conn) → h c ≡ some conn → since h c ≡ conn.last_comm_time
since-some h c conn e = ap (λ o. elim o [ none ↦ 0 | some conn ↦ conn.last_comm_time ]) e

opened_here :
    (p : Pending) (c : ℕ) (accepted : Bool)
    → p.closing c ≡ false
    → (opened p c accepted).closing c ≡ not accepted
opened_here p c true e = e
opened_here p c false e = ground arith

heard_here :
    (s : Server) (accepted : Bool) (now : ℕ)
    → (accepted_conn s accepted now).last_comm_time ≡ (if accepted then now else 0)
heard_here s accepted now = refl

module _ (s : System) (cs : List ℕ) (v : Sound s cs) where
  pub connection-Follows :
      (c : ℕ) (accepted : Bool) (server : Server)
      → s.server.heap c ≡ none
      → Absent c cs
      → server.heap c ≡ some (accepted_conn (quiet s.server) accepted s.clock)
      → ((d : ℕ) → c ≢ d → server.heap d ≡ s.server.heap d)
      → server.trace ≡ connection_events s.server.config c accepted
      → Follows (connection c accepted) s cs (cs ++ c ∷ []) server
  connection-Follows c accepted server free absent here others trace =
      let p' = opened s.pending c accepted in
      let pending : all_asked s.pending server.trace ≡ p' =
        ap (all_asked s.pending) trace ∙ connection_pending s.server.config c accepted s.pending in
      let a = At-free s cs v c accepted free in
      let open_yet : s.pending.closing c ≡ false = ground (arith, a) in
      ap (λ (p : Pending). view server.heap p.closing (cs ++ c ∷ [])) pending
      ∙ view-append server.heap p'.closing cs (c ∷ [])
      ∙ ap (λ l. l ++ view server.heap p'.closing (c ∷ []))
          (view-congr s.server.heap server.heap s.pending.closing p'.closing cs λ d m.
            let e = Absent-apart c d cs absent m in
            (
              elsewhere_since s.server.heap server.heap c others d e,
              (opened_elsewhere s.pending c accepted d e).1,
            ))
      ∙ ap (λ l. view s.server.heap s.pending.closing cs ++ l)
          (session_cons c (since-some server.heap c _ here)
            (opened_here s.pending c accepted open_yet) refl)

  -- The sessions of the others, when `c` is heard of or gone.
  others_view :
      (c : ℕ) (h' : ℕ → Option Conn) (k' : ℕ → Bool)
      → Absent c (without c cs)
      → ((d : ℕ) → c ≢ d → h' d ≡ s.server.heap d)
      → ((d : ℕ) → (c == d) ≡ false → k' d ≡ s.pending.closing d)
      → view h' k' (without c cs) ≡ without_id c (sessions s cs)
  others_view c h' k' gone others same =
      view-congr s.server.heap h' s.pending.closing k' (without c cs) (λ d m.
        let e = Absent-apart c d (without c cs) gone m in
        (elsewhere_since s.server.heap h' c others d e, same d e))
      ∙ view-without s.server.heap s.pending.closing c cs

  pub bytes-Follows :
      (c n : ℕ) (server : Server) (conn : Conn)
      → s.pending.closing c ≡ false
      → Absent c (without c cs)
      → server.heap c ≡ some (record conn { last_comm_time = s.clock })
      → ((d : ℕ) → c ≢ d → server.heap d ≡ s.server.heap d)
      → server.trace ≡ recv_events s.server.config c n
      → Follows (read c (bytes (suc n))) s cs (without c cs ++ c ∷ []) server
  bytes-Follows c n server conn open_yet gone here others trace =
      let pending : all_asked s.pending server.trace ≡ s.pending =
        ap (all_asked s.pending) trace ∙ recv_pending s.server.config c n s.pending in
      ap (λ (p : Pending). view server.heap p.closing (without c cs ++ c ∷ [])) pending
      ∙ view-append server.heap s.pending.closing (without c cs) (c ∷ [])
      ∙ ap (λ l. l ++ view server.heap s.pending.closing (c ∷ []))
          (others_view c server.heap s.pending.closing gone others (λ d e. refl))
      ∙ ap (λ l. without_id c (sessions s cs) ++ l)
          (session_cons c (since-some server.heap c _ here) open_yet refl)

  pub error-Follows :
      (c : ℕ) (conn : Conn)
      → Follows
          (read c read_error)
          s
          cs
          cs
          (record s.server { trace = disconnect_events s.server.config c ++ free_base ∷ [] })
  error-Follows c conn =
      ap (λ (p : Pending). view s.server.heap p.closing cs)
        (disconnect_asked s.server.config c s.pending (free_base ∷ []))
      ∙ view-close s.server.heap s.server.heap s.pending.closing (dropping s.pending c).closing c cs
          (λ d m. (refl, ground arith))

  pub closed-Follows :
      (c : ℕ) (server : Server)
      → Absent c (without c cs)
      → ((d : ℕ) → c ≢ d → server.heap d ≡ s.server.heap d)
      → server.trace ≡ calls s.server.config.on_conn_close (conn_close c)
      → Follows (closed c) s cs (without c cs) server
  closed-Follows c server gone others trace =
      let p = taken (closed c) s.pending in
      let pending : all_asked p server.trace ≡ p =
        ap (all_asked p) trace ∙ close_pending s.server.config.on_conn_close c p in
      ap (λ (p : Pending). view server.heap p.closing (without c cs)) pending
      ∙ others_view c server.heap p.closing gone others (λ d e. rw e refl)

  heard_before :
      (ds : List ℕ)
      → Rising s.server.heap s.pending.reading s.clock ds
      → (d : ℕ) → Among d ds
      → s.pending.reading d ≡ true
      → since s.server.heap d ≤ s.clock
  heard_before [] r d m q = elim m [ ]
  heard_before (c ∷ ds) (a, r) d (inl e) q =
      subst (λ k. since s.server.heap k ≤ s.clock) e (a (ap s.pending.reading e ∙ q)).0
  heard_before (c ∷ ds) (a, r) d (inr m) q = heard_before ds r d m q

  -- The silence that the code computes without borrow.
  silence_lem :
      ((c : ℕ) → s.pending.closing c ≡ false)
      → (d : ℕ) → Among d cs
      → silence s.server.heap s.clock d ≡ s.clock - since s.server.heap d
  silence_lem none_closes d m =
      let (conn, e) = Live-Among s.server.heap d cs v.serves.live m in
      let le = heard_before cs v.times d m (all_read s cs v none_closes d m) in
      omega (arith, silence-since s.server.heap s.clock d conn v.small e le, le)

  -- What `closing` is after a heartbeat.
  beat_closing :
      ((c : ℕ) → s.pending.closing c ≡ false)
      → (d : ℕ) → Among d cs
      → (all_asked s.pending (beat_closes s.server.heap s.clock s.server.config cs)).closing d ≡ (
          s.pending.closing d
          || (ltb 0 s.server.config.conn_timeout
              && ltb s.server.config.conn_timeout (s.clock - since s.server.heap d)))
  unfolding beat_closes
  beat_closing none_closes d m = elim (Bool-cases (ltb 0 s.server.config.conn_timeout)) [
    | inl limited ↦ rw limited (
        (closes_at s.server.heap s.clock s.server.config s.pending cs d).0
        ∙ ap (λ b. s.pending.closing d || (b && silent s.server.heap s.clock s.server.config d))
            (Among-member d cs m)
        ∙ ap (λ n. s.pending.closing d || ltb s.server.config.conn_timeout n)
            (silence_lem none_closes d m))
    | inr unlimited ↦ rw unlimited (ground arith)
  ]

  pub beat-Follows :
      ((c : ℕ) → s.pending.closing c ≡ false)
      → Follows beat s cs cs (record s.server {
        heartbeat_index = add32 s.server.heartbeat_index 1;
        trace =
            calls s.server.config.on_heartbeat (heartbeat s.server.heartbeat_index)
            ++ beat_closes s.server.heap s.clock s.server.config cs;
      })
  beat-Follows none_closes =
      let es = beat_closes s.server.heap s.clock s.server.config cs in
      ap (λ (p : Pending). view s.server.heap p.closing cs)
        (all_asked-calls s.server.config.on_heartbeat (heartbeat s.server.heartbeat_index) s.pending
          es (λ q. (refl, tt)))
      ∙ view-silent s.server.heap s.server.heap s.pending.closing (all_asked s.pending es).closing
          s.server.config.conn_timeout s.clock cs (λ d m. (refl, beat_closing none_closes d m))

  pub counted-Follows :
      (c : ℕ) (o : Option Conn)
      → ((d : ℕ) → Among d cs → since (put s.server.heap c o) d ≡ since s.server.heap d)
      → view (put s.server.heap c o) s.pending.closing cs ≡ sessions s cs
  counted-Follows c o same =
      view-congr s.server.heap (put s.server.heap c o) s.pending.closing s.pending.closing cs
        (λ d m. (same d m, refl))
