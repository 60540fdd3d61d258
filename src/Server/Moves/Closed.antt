-- ===== src/Server/Moves/Closed.antt =====
-- The close callback of a connection.
use uvx.Prelude.{
  ℕ, ◌-◌, ◌<◌, ◌≡◌, ◌≢◌, refl, sym, ap, ◌∙◌, inl, inr, Bool, true, false, List, none, some, arith,
  ◌==◌, Bool-cases, subst,
}
use uvx.Server.{Server, Conn, calls, conn_close}
use uvx.Server.Connections.{Absent, Serves, without}
use uvx.Server.Handlers.{after_close-Serves, dropped}
use uvx.Server.Loop.{Pending, mark, all_asked, AllProper, System, closed, handle, quiet}
use uvx.Server.Members.{
  member, member-without_other, member-Among, Different-without, Serves-Different, Absent-member,
}
use uvx.Server.Times.{Rising-mono, Rising-without}
use uvx.Server.Sound.{
  At, At-congr, At-alive, Sound, Serves-quiet, Elsewhere, at-Elsewhere, Keeps-Elsewhere, apart_of,
  refs,
}
use uvx.Server.Moves.{TurnsTo}

pub close_pending : (b : Bool) (c : ℕ) (p : Pending) → all_asked p (calls b (conn_close c)) ≡ p
close_pending true c p = refl
close_pending false c p = refl

close-AllProper : (b : Bool) (c : ℕ) (p : Pending) → AllProper p (calls b (conn_close c))
close-AllProper true c p = (tt, tt)
close-AllProper false c p = tt

-- An object of which one reference is dropped.
pub refs-dropped : (conn : Conn) → 0 < conn.refcount → refs (dropped conn) ≡ conn.refcount - 1
unfolding dropped
refs-dropped conn h = elim (Bool-cases (conn.refcount == 1)) [
  | inl last ↦ rw last (ground arith)
  | inr more ↦ rw more
]

pub dropped-freed :
    (conn : Conn) → 0 < conn.refcount → refs (dropped conn) ≡ 0 → dropped conn ≡ none
unfolding dropped
dropped-freed conn h = elim (Bool-cases (conn.refcount == 1)) [
  | inl last ↦ rw last (λ _. refl)
  | inr more ↦ rw more (λ z. absurd (ground arith))
]

module _ (s : System) (cs : List ℕ) (v : Sound s cs) (c : ℕ)
    (closes : s.pending.closing c ≡ true) where
  pub on_list : member c cs ≡ true
  on_list = let a = v.at c in ground (arith, a)

  pub gone : Absent c (without c cs)
  gone = Different-without c cs (Serves-Different cs v.serves)

  pub closed_pending : Pending
  closed_pending = record s.pending { closing = mark s.pending.closing c false }

  closed-Sound :
      (server : Server) (conn : Conn)
      → Serves server (without c cs)
      → server.heap c ≡ dropped conn
      → s.server.heap c ≡ some conn
      → 0 < conn.refcount
      → ((d : ℕ) → c ≢ d → server.heap d ≡ s.server.heap d)
      → Sound
          (record { server = server; pending = closed_pending; held = s.held; clock = s.clock })
          (without c cs)
  unfolding closed_pending
  closed-Sound server conn serves here before positive others =
      let t : System = record {
        server = server;
        pending = closed_pending;
        held = s.held;
        clock = s.clock;
      } in
      let e : Elsewhere s t cs (without c cs) c = record {
        heap = λ d o. others d (apart_of c d o);
        reading = λ d o. refl;
        closing = λ d o. rw o;
        held = λ d o. refl;
        listed = λ d o. member-without_other c d cs o;
      } in
      let a = At-congr (sym before) refl refl refl (sym on_list) (v.at c) in
      let here_at : At (dropped conn) (s.pending.reading c) (mark s.pending.closing c false c)
          (s.held c) false =
        record {
          counted = omega (arith, a.counted, refs-dropped conn positive);
          freed = dropped-freed conn positive;
          placed = ground (arith, a);
          apart = ground arith;
          few = a.few;
        } in
      record {
        serves = serves;
        at =
            at-Elsewhere e v.at
              (At-congr here refl refl refl (Absent-member c (without c cs) gone) here_at);
        times =
            Rising-mono s.server.heap s.pending.reading server.heap s.pending.reading s.clock
              s.clock (without c cs) (omega arith) (Keeps-Elsewhere (without c cs) e gone)
              (Rising-without s.server.heap s.pending.reading c s.clock cs v.times);
        small = v.small;
      }

  pub closed-TurnsTo : TurnsTo (closed c) s (without c cs)
  unfolding handle closed_pending
  closed-TurnsTo =
      let (conn, before) = At-alive (v.at c) (ground arith) in
      let a = At-congr (sym before) refl refl refl (sym on_list) (v.at c) in
      let positive : 0 < conn.refcount = omega (arith, a.counted) in
      let (server, run, (serves, here, others, trace)) =
        after_close-Serves (quiet s.server) cs c conn (Serves-quiet v.serves)
          (member-Among c cs on_list) before positive (omega (arith, a.counted, a.few)) in
      let pending : all_asked closed_pending server.trace ≡ closed_pending =
        ap (all_asked closed_pending) trace
        ∙ close_pending s.server.config.on_conn_close c closed_pending in
      (
        server,
        run,
        record {
          proper = rw trace (close-AllProper s.server.config.on_conn_close c closed_pending);
          sound =
              subst
                (λ p.
                  Sound (record { server = server; pending = p; held = s.held; clock = s.clock })
                    (without c cs))
                (sym pending) (closed-Sound server conn serves here before positive others);
        },
      )
