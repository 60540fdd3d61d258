-- ===== src/Server/Moves/Heard.antt =====
-- Reads on a connection: bytes, none, or an error.
use uvx.Prelude.{
  ℕ, zero, suc, ◌≡◌, ◌≢◌, refl, sym, ap, ◌∙◌, Bool, true, List, [], ◌∷◌, ◌++◌, Option, none, some,
  arith, subst,
}
use uvx.Memory.{ok}
use uvx.Server.{
  Server, Conn, Config, Event, bytes, read_error, calls, recv, free_base, on_read,
  disconnect_client, disconnect_events,
}
use uvx.Server.Connections.{Absent, Serves, without}
use uvx.Server.Handlers.{on_read-Heard, conn_at_lem}
use uvx.Server.Loop.{Pending, all_asked, AllProper, System, read, handle, quiet}
use uvx.Server.Pending.{
  all_asked-calls, calls-AllProper, disconnect_asked, disconnect-AllProper, dropping,
}
use uvx.Server.Members.{
  member, member-snoc_self, member-snoc_other, member-without_other, member-Among,
  Different-without, Serves-Different,
}
use uvx.Server.Times.{Rising-mono, Rising-snoc, Rising-without}
use uvx.Server.Sound.{
  At, At-congr, At-alive, Sound, Serves-quiet, Elsewhere, at-Elsewhere, Keeps-Elsewhere, apart_of,
}
use uvx.Server.Moves.{TurnsTo}

abbrev pub recv_events : Config → ℕ → ℕ → List Event
recv_events config c n = calls config.on_recv (recv c (suc n)) ++ free_base ∷ []

pub recv_pending :
    (config : Config) (c n : ℕ) (p : Pending) → all_asked p (recv_events config c n) ≡ p
recv_pending config c n p =
    all_asked-calls config.on_recv (recv c (suc n)) p (free_base ∷ []) (λ q. (refl, tt))

recv-AllProper : (config : Config) (c n : ℕ) (p : Pending) → AllProper p (recv_events config c n)
recv-AllProper config c n p =
    calls-AllProper config.on_recv (recv c (suc n)) p (free_base ∷ []) (λ q. (refl, tt)) (tt, tt)

pub nothing_run :
    (s : Server) (c now : ℕ) (conn : Conn)
    → s.heap c ≡ some conn
    → on_read (quiet s) c (bytes zero) now ≡ ok (record s { trace = free_base ∷ [] })
unfolding on_read
nothing_run s c now conn e = rw (conn_at_lem (quiet s) c conn e)

pub error_run :
    (s : Server) (c now : ℕ) (conn : Conn)
    → s.heap c ≡ some conn
    → on_read (quiet s) c read_error now
      ≡ ok (record s { trace = disconnect_events s.config c ++ free_base ∷ [] })
unfolding on_read disconnect_client
error_run s c now conn e = rw (conn_at_lem (quiet s) c conn e)

-- The address of a connection that was read and is being closed.
dropped-At :
    (p : Pending) (c : ℕ) (o : Option Conn) (n : ℕ) (m : Bool)
    → At o (p.reading c) (p.closing c) n m
    → p.reading c ≡ true
    → At o ((dropping p c).reading c) ((dropping p c).closing c) n m
dropped-At p c o n m a reads = record {
  counted = a.counted;
  freed = a.freed;
  placed = ground (arith, a);
  apart = ground arith;
  few = a.few;
}

module _ (s : System) (cs : List ℕ) (v : Sound s cs) (c : ℕ)
    (reads : s.pending.reading c ≡ true) where
  pub on_list : member c cs ≡ true
  on_list = let a = v.at c in ground (arith, a)

  pub alive : (conn : Conn) × (s.server.heap c ≡ some conn)
  alive = At-alive (v.at c) (ground arith)

  pub gone : Absent c (without c cs)
  gone = Different-without c cs (Serves-Different cs v.serves)

  heard-Sound :
      (server : Server) (conn : Conn)
      → Serves server (without c cs ++ c ∷ [])
      → server.heap c ≡ some (record conn { last_comm_time = s.clock })
      → s.server.heap c ≡ some conn
      → ((d : ℕ) → c ≢ d → server.heap d ≡ s.server.heap d)
      → Sound
          (record { server = server; pending = s.pending; held = s.held; clock = s.clock })
          (without c cs ++ c ∷ [])
  heard-Sound server conn serves here before others =
      let t : System = record {
        server = server;
        pending = s.pending;
        held = s.held;
        clock = s.clock;
      } in
      let e : Elsewhere s t cs (without c cs ++ c ∷ []) c = record {
        heap = λ d o. others d (apart_of c d o);
        reading = λ d o. refl;
        closing = λ d o. refl;
        held = λ d o. refl;
        listed = λ d o. member-snoc_other c d (without c cs) o ∙ member-without_other c d cs o;
      } in
      let a = At-congr (sym before) refl refl refl (sym on_list) (v.at c) in
      let here_at : At (some (record conn { last_comm_time = s.clock })) (s.pending.reading c)
          (s.pending.closing c) (s.held c) true =
        record {
          counted = a.counted;
          freed = λ z. absurd (ground (arith, a));
          placed = a.placed;
          apart = a.apart;
          few = a.few;
        } in
      record {
        serves = serves;
        at =
            at-Elsewhere e v.at
              (At-congr here refl refl refl (member-snoc_self c (without c cs)) here_at);
        times =
            Rising-snoc server.heap s.pending.reading c s.clock (without c cs)
              (Rising-mono s.server.heap s.pending.reading server.heap s.pending.reading s.clock
                s.clock (without c cs) (omega arith) (Keeps-Elsewhere (without c cs) e gone)
                (Rising-without s.server.heap s.pending.reading c s.clock cs v.times))
              (λ r. ap (λ o. elim o [ none ↦ 0 | some conn ↦ conn.last_comm_time ]) here);
        small = v.small;
      }

  pub bytes-TurnsTo : (n : ℕ) → TurnsTo (read c (bytes (suc n))) s (without c cs ++ c ∷ [])
  unfolding handle
  bytes-TurnsTo n =
      let (server, run, (heard, trace)) =
        on_read-Heard (quiet s.server) cs c n s.clock (Serves-quiet v.serves)
          (member-Among c cs on_list) in
      let (conn, here, before) = heard.heard in
      let pending : all_asked s.pending server.trace ≡ s.pending =
        ap (all_asked s.pending) trace ∙ recv_pending s.server.config c n s.pending in
      (
        server,
        run,
        record {
          proper = rw trace (recv-AllProper s.server.config c n s.pending);
          sound =
              subst
                (λ p.
                  Sound (record { server = server; pending = p; held = s.held; clock = s.clock })
                    (without c cs ++ c ∷ []))
                (sym pending) (heard-Sound server conn heard.serves here before heard.others);
        },
      )

  pub nothing-TurnsTo : TurnsTo (read c (bytes zero)) s cs
  unfolding handle
  nothing-TurnsTo =
      let (conn, e) = alive in
      (
        record s.server { trace = free_base ∷ [] },
        nothing_run s.server c s.clock conn e,
        record {
          proper = (tt, tt);
          sound = record {
            serves = record {
              table = v.serves.table;
              opened = v.serves.opened;
              holds = v.serves.holds;
              live = v.serves.live;
            };
            at = v.at;
            times = v.times;
            small = v.small;
          };
        },
      )

  error_events : List Event
  error_events = disconnect_events s.server.config c ++ free_base ∷ []

  pub error-TurnsTo : TurnsTo (read c read_error) s cs
  unfolding handle error_events
  error-TurnsTo =
      let (conn, e) = alive in
      let server : Server = record s.server { trace = error_events } in
      let pending : all_asked s.pending error_events ≡ dropping s.pending c =
        disconnect_asked s.server.config c s.pending (free_base ∷ []) in
      let t : System = record {
        server = server;
        pending = dropping s.pending c;
        held = s.held;
        clock = s.clock;
      } in
      let a = v.at c in
      let off : Elsewhere s t cs cs c = record {
        heap = λ d o. refl;
        reading = λ d o. rw o;
        closing = λ d o. rw o;
        held = λ d o. refl;
        listed = λ d o. refl;
      } in
      (
        server,
        error_run s.server c s.clock conn e,
        record {
          proper =
              disconnect-AllProper s.server.config c s.pending (free_base ∷ []) (ground (arith, a))
                (tt, tt);
          sound =
              subst
                (λ p.
                  Sound (record { server = server; pending = p; held = s.held; clock = s.clock })
                    cs)
                (sym pending)
                (record {
                  serves = record {
                    table = v.serves.table;
                    opened = v.serves.opened;
                    holds = v.serves.holds;
                    live = v.serves.live;
                  };
                  at =
                      at-Elsewhere {t = t} off v.at
                        (dropped-At s.pending c (s.server.heap c) (s.held c) (member c cs) a reads);
                  times =
                      Rising-mono s.server.heap s.pending.reading s.server.heap t.pending.reading
                        s.clock s.clock cs (omega arith) (λ d m r. (ground arith, refl)) v.times;
                  small = v.small;
                });
        },
      )
