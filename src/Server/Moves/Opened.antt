-- ===== src/Server/Moves/Opened.antt =====
-- A connection that comes in, accepted or not.
use uvx.Prelude.{
  ℕ, ◌≡◌, ◌≢◌, refl, sym, ap, ◌∙◌, Bool, true, false, List, [], ◌∷◌, ◌++◌, none, some, arith, ◌==◌,
  subst,
}
use uvx.Server.{Server, Conn, Config, conn_ok, conn_fail, read_start, uv_close}
use uvx.Server.Connections.{Absent, Serves}
use uvx.Server.Handlers.{on_connection-Serves, accepted_conn, connection_events}
use uvx.Server.Loop.{Pending, mark, all_asked, AllProper, System, connection, handle, quiet}
use uvx.Server.Pending.{all_asked-calls, calls-AllProper}
use uvx.Server.Members.{member, member-snoc_self, member-snoc_other, Live-free}
use uvx.Server.Times.{Rising-mono, Rising-snoc}
use uvx.Server.Sound.{
  At, At-congr, Sound, Serves-quiet, Elsewhere, at-Elsewhere, Keeps-Elsewhere, apart_of,
}
use uvx.Server.Moves.{TurnsTo}

-- What is pending after a connection.
abbrev pub opened : Pending → ℕ → Bool → Pending
opened p c true = record { reading = mark p.reading c true; closing = p.closing }
opened p c false = record { reading = mark p.reading c false; closing = mark p.closing c true }

pub connection_pending :
    (config : Config) (c : ℕ) (accepted : Bool) (p : Pending)
    → all_asked p (connection_events config c accepted) ≡ opened p c accepted
connection_pending config c true p =
    all_asked-calls config.on_conn_ok (conn_ok c) p (read_start c ∷ []) (λ q. (refl, tt))
connection_pending config c false p =
    all_asked-calls config.on_conn_fail (conn_fail c) p (uv_close c ∷ []) (λ q. (refl, tt))

connection-AllProper :
    (config : Config) (c : ℕ) (accepted : Bool) (p : Pending)
    → p.reading c ≡ false
    → p.closing c ≡ false
    → AllProper p (connection_events config c accepted)
connection-AllProper config c true p r k = (
  tt,
  (
    tt,
    calls-AllProper config.on_conn_ok (conn_ok c) p (read_start c ∷ []) (λ q. (refl, tt))
        ((r, k), tt),
  ),
)
connection-AllProper config c false p r k = (
  tt,
  (
    tt,
    calls-AllProper config.on_conn_fail (conn_fail c) p (uv_close c ∷ []) (λ q. (refl, tt)) (k, tt),
  ),
)

-- An address that is free before is in order after.
opened-At :
    (p : Pending) (c n : ℕ) (accepted : Bool) (conn : Conn) (m : Bool)
    → At none (p.reading c) (p.closing c) n m
    → conn.refcount ≡ 1
    → At (some conn) ((opened p c accepted).reading c) ((opened p c accepted).closing c) n true
opened-At p c n true conn m at e = ground (arith, at)
opened-At p c n false conn m at e = ground (arith, at)

pub opened_elsewhere :
    (p : Pending) (c : ℕ) (accepted : Bool) (d : ℕ)
    → (c == d) ≡ false
    → ((opened p c accepted).reading d ≡ p.reading d)
      × ((opened p c accepted).closing d ≡ p.closing d)
opened_elsewhere p c true d e = (rw e, refl)
opened_elsewhere p c false d e = (rw e, rw e)

opened_read :
    (p : Pending) (c : ℕ) (accepted : Bool)
    → (opened p c accepted).reading c ≡ true
    → accepted ≡ true
opened_read p c true r = refl
opened_read p c false r = ground arith

module _ (s : System) (cs : List ℕ) (v : Sound s cs) (c : ℕ) (accepted : Bool)
    (free : s.server.heap c ≡ none) where
  pub absent : Absent c cs
  absent = Live-free s.server.heap c cs v.serves.live free

  pub At-free : At none (s.pending.reading c) (s.pending.closing c) (s.held c) (member c cs)
  At-free = At-congr (sym free) refl refl refl refl (v.at c)

  opened-Sound :
      (server : Server)
      → Serves server (cs ++ c ∷ [])
      → server.heap c ≡ some (accepted_conn (quiet s.server) accepted s.clock)
      → ((d : ℕ) → c ≢ d → server.heap d ≡ s.server.heap d)
      → Sound
          (record {
            server = server;
            pending = opened s.pending c accepted;
            held = s.held;
            clock = s.clock;
          })
          (cs ++ c ∷ [])
  opened-Sound server serves here others =
      let t : System = record {
        server = server;
        pending = opened s.pending c accepted;
        held = s.held;
        clock = s.clock;
      } in
      let e : Elsewhere s t cs (cs ++ c ∷ []) c = record {
        heap = λ d o. others d (apart_of c d o);
        reading = λ d o. (opened_elsewhere s.pending c accepted d o).0;
        closing = λ d o. (opened_elsewhere s.pending c accepted d o).1;
        held = λ d o. refl;
        listed = λ d o. member-snoc_other c d cs o;
      } in
      record {
        serves = serves;
        at = at-Elsewhere e v.at (
            At-congr here refl refl refl (member-snoc_self c cs) (
              opened-At s.pending c (s.held c) accepted
                (accepted_conn (quiet s.server) accepted s.clock) (member c cs) At-free refl));
        times =
            Rising-snoc server.heap t.pending.reading c s.clock cs
              (Rising-mono s.server.heap s.pending.reading server.heap t.pending.reading s.clock
                s.clock cs (omega arith) (Keeps-Elsewhere cs e absent) v.times)
              (λ r.
                let yes_accepted = opened_read s.pending c accepted r in
                ap (λ o. elim o [ none ↦ 0 | some conn ↦ conn.last_comm_time ]) here
                ∙ rw yes_accepted);
        small = v.small;
      }

  pub connection-TurnsTo : TurnsTo (connection c accepted) s (cs ++ c ∷ [])
  unfolding handle
  connection-TurnsTo =
      let (server, run, (serves, here, others, trace, _)) =
        on_connection-Serves (quiet s.server) cs c s.clock accepted (Serves-quiet v.serves)
          absent in
      let pending : all_asked s.pending server.trace ≡ opened s.pending c accepted =
        ap (all_asked s.pending) trace ∙ connection_pending s.server.config c accepted s.pending in
      (
        server,
        run,
        record {
          proper = rw trace (
              connection-AllProper s.server.config c accepted s.pending (ground (arith, At-free))
                (ground (arith, At-free)));
          sound =
              subst
                (λ p.
                  Sound (record { server = server; pending = p; held = s.held; clock = s.clock })
                    (cs ++ c ∷ []))
                (sym pending) (opened-Sound server serves here others);
        },
      )
