-- ===== src/Server/Moves/Counted.antt =====
-- References that the user takes and drops.
use uvx.Prelude.{
  ℕ, ◌+◌, ◌-◌, ◌≤◌, ◌<◌, ◌^◌, ◌≡◌, refl, sym, ap, ◌∙◌, inl, inr, Bool, true, false, List, [], ◌∷◌,
  Option, some, arith, ◌==◌, Bool-cases, ==_iff,
}
use uvx.Prelude.Word.{add32}
use uvx.Memory.{ok, ◌>>=◌}
use uvx.Server.{Server, Conn, put, uvx_server_conn_ref}
use uvx.Server.Connections.{Among, Absent, Live, Live-put, Live-Absent, put_same}
use uvx.Server.Handlers.{conn_at_lem, conn_ref_run, dropped}
use uvx.Server.Loop.{System, retain, release, handle, quiet}
use uvx.Server.Members.{member, member-Absent}
use uvx.Server.Times.{since, Rising-mono}
use uvx.Server.Sound.{At, At-congr, Sound, Elsewhere, at-Elsewhere, bit}
use uvx.Server.Moves.{TurnsTo}
use uvx.Server.Moves.Closed.{refs-dropped, dropped-freed}

pub retain_run :
    (s : Server) (c : ℕ) (conn : Conn)
    → s.heap c ≡ some conn
    → conn.refcount + 1 < 2 ^ 32
    → uvx_server_conn_ref s c 1
      ≡ ok (record s { heap = put s.heap c (some (record conn { refcount = conn.refcount + 1 })) })
unfolding uvx_server_conn_ref
retain_run s c conn alive small =
    let e : add32 conn.refcount 1 ≡ conn.refcount + 1 = omega arith in
    let f : (conn.refcount + 1 == 0) ≡ false = ground arith in
    rw (conn_at_lem s c conn alive, ◌>>=◌, e, f)

-- The object at `c` is replaced by one that was heard of at the same time.
module _ (s : System) (cs : List ℕ) (v : Sound s cs) (c : ℕ) (o : Option Conn) (held : ℕ → ℕ) where
  counted_system : System
  counted_system = record {
    server = record s.server { heap = put s.server.heap c o; trace = [] };
    pending = s.pending;
    held = held;
    clock = s.clock;
  }

  counted-Sound :
      Live (put s.server.heap c o) cs
      → ((d : ℕ) → (c == d) ≡ false → held d ≡ s.held d)
      → ((d : ℕ) → Among d cs → since (put s.server.heap c o) d ≡ since s.server.heap d)
      → At o (s.pending.reading c) (s.pending.closing c) (held c) (member c cs)
      → Sound counted_system cs
  unfolding counted_system
  counted-Sound live elsewhere same here =
      let e : Elsewhere s counted_system cs cs c = record {
        heap = λ d p. rw p;
        reading = λ d p. refl;
        closing = λ d p. refl;
        held = elsewhere;
        listed = λ d p. refl;
      } in
      record {
        serves = record {
          table = v.serves.table;
          opened = v.serves.opened;
          holds = v.serves.holds;
          live = live;
        };
        at = at-Elsewhere e v.at (At-congr (put_same s.server.heap c o) refl refl refl refl here);
        times =
            Rising-mono s.server.heap s.pending.reading (put s.server.heap c o) s.pending.reading
              s.clock s.clock cs (omega arith) (λ d m r. (r, same d m)) v.times;
        small = v.small;
      }

pub since-put :
    (h : ℕ → Option Conn) (c d : ℕ) (conn conn' : Conn)
    → h c ≡ some conn
    → conn'.last_comm_time ≡ conn.last_comm_time
    → since (put h c (some conn')) d ≡ since h d
since-put h c d conn conn' alive e = elim (Bool-cases (c == d)) [
  | inl same ↦
      let f : h d ≡ some conn = ap h (sym ((==_iff c d).0 same)) ∙ alive in
      rw (since, same) (rw (since, f) e)
  | inr other ↦ rw (since, other)
]

pub since-put-Absent :
    (h : ℕ → Option Conn) (c d : ℕ) (o : Option Conn) (cs : List ℕ)
    → Absent c cs
    → Among d cs
    → since (put h c o) d ≡ since h d
since-put-Absent h c d o [] a m = elim m [ ]
since-put-Absent h c d o (b ∷ bs) (ne, a) (inl e) =
    let other : (c == d) ≡ false = ground arith in rw (since, other)
since-put-Absent h c d o (b ∷ bs) (ne, a) (inr m) = since-put-Absent h c d o bs a m

pub bit_small : (b : Bool) → bit b ≤ 1
bit_small true = omega arith
bit_small false = omega arith

module _ (s : System) (cs : List ℕ) (v : Sound s cs) (c : ℕ) (conn : Conn)
    (alive : s.server.heap c ≡ some conn) where
  here_before : At (some conn) (s.pending.reading c) (s.pending.closing c) (s.held c) (member c cs)
  here_before = At-congr (sym alive) refl refl refl refl (v.at c)

  pub retain-TurnsTo : s.held c + 2 < 2 ^ 31 → TurnsTo (retain c) s cs
  unfolding handle counted_system
  retain-TurnsTo room =
      let a = here_before in
      let more : Conn = record conn { refcount = conn.refcount + 1 } in
      (
        record s.server { heap = put s.server.heap c (some more); trace = [] },
        retain_run (quiet s.server) c conn alive
            (omega (arith, a.counted, room, bit_small (member c cs))),
        record {
          proper = tt;
          sound =
              counted-Sound s cs v c (some more) _ (Live-put s.server.heap c more cs v.serves.live)
                (λ d o. rw o) (λ d m. since-put s.server.heap c d conn more alive refl)
                (At-congr {n = s.held c + 1} refl refl refl (rw ((==_iff c c).1 refl)) refl
                  (record {
                    counted = omega (arith, a.counted);
                    freed = λ z. absurd (omega arith);
                    placed = a.placed;
                    apart = a.apart;
                    few = omega (arith, room);
                  }));
        },
      )

  pub released-Live :
      0 < s.held c
      → (m : Bool) → member c cs ≡ m
      → Live (put s.server.heap c (dropped conn)) cs
        × ((d : ℕ)
            → Among d cs
            → since (put s.server.heap c (dropped conn)) d ≡ since s.server.heap d)
  unfolding dropped
  released-Live room true e =
      let a = At-congr {m' = true} refl refl refl refl (sym e) here_before in
      let many : (conn.refcount == 1) ≡ false = ground (arith, a.counted, room) in
      let fewer : Conn = record conn { refcount = conn.refcount - 1 } in
      rw many (
        Live-put s.server.heap c fewer cs v.serves.live,
        λ d m. since-put s.server.heap c d conn fewer alive refl,
      )
  released-Live room false e = (
    Live-Absent s.server.heap c _ cs (member-Absent c cs e) v.serves.live,
    λ d m. since-put-Absent s.server.heap c d _ cs (member-Absent c cs e) m,
  )

  pub release-TurnsTo : 0 < s.held c → TurnsTo (release c) s cs
  unfolding handle counted_system
  release-TurnsTo room =
      let a = here_before in
      let positive : 0 < conn.refcount = omega (arith, a.counted, room) in
      let (live, times) = released-Live room (member c cs) refl in
      (
        record s.server { heap = put s.server.heap c (dropped conn); trace = [] },
        conn_ref_run (quiet s.server) c conn alive positive
            (omega (arith, a.counted, a.few, bit_small (member c cs))),
        record {
          proper = tt;
          sound =
              counted-Sound s cs v c (dropped conn) _ live (λ d o. rw o) times
                (At-congr {n = s.held c - 1} refl refl refl (rw ((==_iff c c).1 refl)) refl
                  (record {
                    counted = omega (arith, a.counted, refs-dropped conn positive, room);
                    freed = dropped-freed conn positive;
                    placed = a.placed;
                    apart = a.apart;
                    few = omega (arith, a.few);
                  }));
        },
      )
