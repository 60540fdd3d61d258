-- ===== src/Server/Handlers.antt =====
-- What the handlers of the server do to its connections.
use uvx.Prelude.{
  ℕ, suc, ◌-◌, ◌<◌, ◌^◌, ◌≡◌, ◌≢◌, refl, sym, ap, ◌∙◌, inl, inr, List, [], ◌∷◌, ◌++◌, Option, none,
  some, arith, ◌==◌, if◌then◌else◌, subst, Bool, true, false, Bool-cases, ltb,
}
use uvx.Prelude.Word.{add32}
use uvx.Memory.{ok, ◌>>=◌, Returns}
use uvx.Linkhash.{Table, Code, success, lh_table_insert, lh_table_delete, lh_table_lookup_entry}
use uvx.Linkhash.Keys.{ptr_key}
use uvx.Linkhash.Store.{Holds, NotIn, remove, insert-Holds, delete-Holds, lookup_entry-Missing}
use uvx.Server.{
  Server, Conn, Config, Event, calls, free_base, recv, bytes, put, conn_at, table_of, on_read,
  after_close_connection, uvx_server_conn_ref, conn_close, on_connection, conn_init, accept,
  conn_ok, conn_fail, read_start, uv_close,
}
use uvx.Server.Connections.{
  Among, Absent, Serves, entries, entry, without, remove-NotIn, NotIn-Absent, remove-entries,
  find-entries-Among, Live-Among, Absent-NotIn, find-entries-Absent, Live-put, Live-Absent,
  Live-without, Live-snoc, put_same, entries-snoc,
}

pub conn_at_lem : (s : Server) (c : ℕ) (conn : Conn) → s.heap c ≡ some conn → conn_at s c ≡ ok conn
unfolding conn_at
conn_at_lem s c conn e = rw (conn_at, e)

pub table_of_lem : (s : Server) (t : Table ℕ ℕ) → s.conns ≡ some t → table_of s ≡ ok t
unfolding table_of
table_of_lem s t e = rw (table_of, e)

on_read_run :
    (s : Server) (c n now : ℕ) (conn : Conn) (t t' t'' : Table ℕ ℕ) (code : Code)
    → s.heap c ≡ some conn
    → s.conns ≡ some t
    → lh_table_delete t c ≡ ok (code, t')
    → code ≡ success
    → lh_table_insert t' c (some c) ≡ ok t''
    → on_read s c (bytes (suc n)) now
      ≡ ok (record s {
        heap = put s.heap c (some (record conn { last_comm_time = now }));
        conns = some t'';
        trace = s.trace ++ (calls s.config.on_recv (recv c (suc n)) ++ free_base ∷ []);
      })
unfolding on_read
on_read_run s c n now conn t t' t'' code alive opened deleted good inserted =
    rw (conn_at_lem s c conn alive, ◌>>=◌, table_of_lem s t opened, ◌>>=◌, deleted, ◌>>=◌)
      (rw good (rw inserted))

-- The server after a handler that `c` is heard of: its place and its time.
pub record Heard (s : Server) (cs : List ℕ) (c now : ℕ) (s' : Server) : Type 0 where
  pub serves : Serves s' (without c cs ++ c ∷ [])
  pub heard :
      (conn : Conn) × (s'.heap c ≡ some (record conn { last_comm_time = now }))
      × (s.heap c ≡ some conn)
  pub others : (d : ℕ) → c ≢ d → s'.heap d ≡ s.heap d

-- `uvx__on_read` of some bytes on a connection of the server ends normally: the connection moves to
-- the end of the list and gets the current time, the others keep their order and their state, and
-- `on_recv`, if it is set, is called on the bytes, whose buffer is freed.
pub on_read-Heard :
    (s : Server) (cs : List ℕ) (c n now : ℕ)
    → Serves s cs
    → Among c cs
    → Returns (on_read s c (bytes (suc n)) now) λ s'.
      Heard s cs c now s'
      × (s'.trace ≡ s.trace ++ (calls s.config.on_recv (recv c (suc n)) ++ free_base ∷ []))
on_read-Heard s cs c n now v a =
    let (conn, alive) = Live-Among s.heap c cs v.live a in
    let conn' : Conn = record conn { last_comm_time = now } in
    let (r, deleted, (code, rest)) = delete-Holds v.table (entries cs) c v.holds in
    let (t'', inserted, done) =
      insert-Holds r.1 (remove c (entries cs)) c (some c) rest (remove-NotIn c v.holds) in
    (
      _,
      on_read_run s c n now conn v.table r.1 t'' r.0 alive v.opened deleted
          (code ∙ find-entries-Among c cs a) inserted,
      (
        record {
          serves = record {
            table = t'';
            opened = refl;
            holds =
                subst (Holds t'')
                  (ap (λ l. l ++ entry c ∷ []) (remove-entries c cs)
                    ∙ sym (entries-snoc (without c cs) c))
                  done;
            live =
                Live-snoc (put s.heap c (some conn')) c conn' (without c cs)
                  (put_same s.heap c (some conn'))
                  (Live-put s.heap c conn' (without c cs) (Live-without s.heap c cs v.live));
          };
          heard = (conn, put_same s.heap c (some conn'), alive);
          others = λ d ne. (let other : (c == d) ≡ false = ground arith in rw other);
        },
        refl,
      ),
    )

-- The connection object when a reference is dropped.
unfoldable pub dropped : Conn → Option Conn
dropped conn =
    if conn.refcount == 1 then none else some (record conn { refcount = conn.refcount - 1 })

pub conn_ref_run :
    (s : Server) (c : ℕ) (conn : Conn)
    → s.heap c ≡ some conn
    → 0 < conn.refcount
    → conn.refcount < 2 ^ 32
    → uvx_server_conn_ref s c (2 ^ 32 - 1) ≡ ok (record s { heap = put s.heap c (dropped conn) })
unfolding uvx_server_conn_ref dropped
conn_ref_run s c conn alive positive small =
    let e : add32 conn.refcount (2 ^ 32 - 1) ≡ conn.refcount - 1 = omega arith in
    elim (Bool-cases (conn.refcount == 1)) [
      | inl last ↦
          let f : (conn.refcount - 1 == 0) ≡ true = ground arith in
          rw (conn_at_lem s c conn alive, ◌>>=◌, e, last, f)
      | inr more ↦
          let f : (conn.refcount - 1 == 0) ≡ false = ground arith in
          rw (conn_at_lem s c conn alive, ◌>>=◌, e, more, f)
    ]

after_close_run :
    (s : Server) (c : ℕ) (conn : Conn) (t t' : Table ℕ ℕ) (code : Code)
    → s.heap c ≡ some conn
    → s.conns ≡ some t
    → lh_table_delete t c ≡ ok (code, t')
    → code ≡ success
    → after_close_connection s c
      ≡ uvx_server_conn_ref
          (record s {
            conns = some t';
            trace = s.trace ++ calls s.config.on_conn_close (conn_close c);
          })
          c
          (2 ^ 32 - 1)
unfolding after_close_connection
after_close_run s c conn t t' code alive opened deleted good =
    rw (conn_at_lem s c conn alive, ◌>>=◌, table_of_lem s t opened, ◌>>=◌, deleted, ◌>>=◌) (rw good)

-- `_uv_after_close_connection` on a connection of the server ends normally: the connection leaves the
-- list, the others stay as they are, `on_conn_close` is called if it is set, and the connection is freed exactly
-- when the server had the only reference.
pub after_close-Serves :
    (s : Server) (cs : List ℕ) (c : ℕ) (conn : Conn)
    → Serves s cs
    → Among c cs
    → s.heap c ≡ some conn
    → 0 < conn.refcount
    → conn.refcount < 2 ^ 32
    → Returns (after_close_connection s c) λ s'.
      Serves s' (without c cs)
      × (s'.heap c ≡ dropped conn)
      × ((d : ℕ) → c ≢ d → s'.heap d ≡ s.heap d)
      × (s'.trace ≡ s.trace ++ calls s.config.on_conn_close (conn_close c))
after_close-Serves s cs c conn v a alive positive small =
    let (r, deleted, (code, rest)) = delete-Holds v.table (entries cs) c v.holds in
    let holds = subst (Holds r.1) (remove-entries c cs) rest in
    let gone : Absent c (without c cs) =
      NotIn-Absent c (without c cs)
        (subst (NotIn c) (remove-entries c cs) (remove-NotIn c v.holds)) in
    let s1 = record s {
      conns = some r.1;
      trace = s.trace ++ calls s.config.on_conn_close (conn_close c);
    } in
    (
      record s1 { heap = put s.heap c (dropped conn) },
      after_close_run s c conn v.table r.1 r.0 alive v.opened deleted
            (code ∙ find-entries-Among c cs a)
          ∙ conn_ref_run s1 c conn alive positive small,
      (
        record {
          table = r.1;
          opened = refl;
          holds = holds;
          live =
              Live-Absent s.heap c (dropped conn) (without c cs) gone
                (Live-without s.heap c cs v.live);
        },
        put_same s.heap c (dropped conn),
        (λ d ne. (let other : (c == d) ≡ false = ground arith in rw other)),
        refl,
      ),
    )

-- The new connection, and what is done with it.
abbrev pub accepted_conn : Server → Bool → ℕ → Conn
accepted_conn s accepted now = record {
  last_comm_time = if accepted then now else 0;
  refcount = 1;
  extra = ltb 0 s.config.conn_extra_size;
}

abbrev pub connection_events : Config → ℕ → Bool → List Event
connection_events config c accepted =
    conn_init c
    ∷ accept c
    ∷ (if accepted
        then calls config.on_conn_ok (conn_ok c) ++ read_start c ∷ []
        else calls config.on_conn_fail (conn_fail c) ++ uv_close c ∷ [])

on_connection_run :
    (s : Server) (c now : ℕ) (accepted : Bool) (t t' t'' : Table ℕ ℕ)
    → s.conns ≡ some t
    → lh_table_lookup_entry t c ≡ ok (none, t')
    → lh_table_insert t' c (some c) ≡ ok t''
    → on_connection s true c accepted now
      ≡ ok (record s {
        heap = put s.heap c (some (accepted_conn s accepted now));
        conns = some t'';
        trace = s.trace ++ connection_events s.config c accepted;
      })
unfolding on_connection
on_connection_run s c now accepted t t' t'' opened missing inserted =
    rw (table_of_lem s t opened, ◌>>=◌, missing, ◌>>=◌) (rw inserted)

-- `uvx__on_connection` of a new object ends normally: the connection is the last of the list, with
-- one reference and the current time, or 0 if it could not be accepted; the others and the
-- configuration stay as they are, and then it is read from, or closed.
pub on_connection-Serves :
    (s : Server) (cs : List ℕ) (c now : ℕ) (accepted : Bool)
    → Serves s cs
    → Absent c cs
    → Returns (on_connection s true c accepted now) λ s'.
      Serves s' (cs ++ c ∷ [])
      × (s'.heap c ≡ some (accepted_conn s accepted now))
      × ((d : ℕ) → c ≢ d → s'.heap d ≡ s.heap d)
      × (s'.trace ≡ s.trace ++ connection_events s.config c accepted)
      × (s'.config ≡ s.config)
on_connection-Serves s cs c now accepted v a =
    let conn = accepted_conn s accepted now in
    let (t', missing, kept) = lookup_entry-Missing v.holds c (find-entries-Absent c cs a) in
    let (t'', inserted, done) =
      insert-Holds t' (entries cs) c (some c) kept (Absent-NotIn c cs a) in
    (
      _,
      on_connection_run s c now accepted v.table t' t'' v.opened missing inserted,
      (
        record {
          table = t'';
          opened = refl;
          holds = subst (Holds t'') (sym (entries-snoc cs c)) done;
          live =
              Live-snoc (put s.heap c (some conn)) c conn cs (put_same s.heap c (some conn))
                (Live-put s.heap c conn cs v.live);
        },
        put_same s.heap c (some conn),
        (λ d ne. (let other : (c == d) ≡ false = ground arith in rw other)),
        refl,
        refl,
      ),
    )
