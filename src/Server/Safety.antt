-- ===== src/Server/Safety.antt =====
-- What holds in every state that a server can come to.
use uvx.Prelude.{
  ℕ, zero, suc, ◌<◌, ◌^◌, ◌≡◌, ◌↔◌, refl, sym, ap, ◌∙◌, inl, inr, ◌⊎◌, Bool, true, false, ◌||◌,
  List, [], ◌∷◌, ◌++◌, Option, none, some, arith, Bool-cases, subst,
}
use uvx.Memory.{ok, fault, ◌>>=◌, null_pointer, Returns}
use uvx.Linkhash.{lh_table_new}
use uvx.Linkhash.Keys.{ptr_key}
use uvx.Linkhash.Store.{new-Holds}
use uvx.Server.{
  Server, Conn, Config, bytes, read_error, table_of, on_read, after_close_connection,
  uvx_server_start, uvx_server_shutdown, timer_stop, timer_close, server_close,
}
use uvx.Server.Connections.{Serves}
use uvx.Server.Handlers.{conn_at_lem, table_of_lem}
use uvx.Server.Loop.{
  System, Move, connection, no_connection, beat, read, closed, retain, release, tick, Enabled,
  after, turn, started, Reach, start, next,
}
use uvx.Server.Sound.{held_alive, At, At-congr, Sound, At-alive}
use uvx.Server.Moves.{TurnsTo}
use uvx.Server.Moves.Opened.{connection-TurnsTo}
use uvx.Server.Moves.Heard.{bytes-TurnsTo, nothing-TurnsTo, error-TurnsTo}
use uvx.Server.Moves.Closed.{closed-TurnsTo}
use uvx.Server.Moves.Counted.{retain-TurnsTo, release-TurnsTo}
use uvx.Server.Moves.Beaten.{beat-TurnsTo, tick-TurnsTo, no_connection-TurnsTo}

pub move-TurnsTo :
    (s : System) (cs : List ℕ)
    → Sound s cs
    → (m : Move) → Enabled m s
    → (ds : List ℕ) × TurnsTo m s ds
move-TurnsTo s cs v (connection c accepted) e = (_, connection-TurnsTo s cs v c accepted e)
move-TurnsTo s cs v no_connection e = (_, no_connection-TurnsTo s cs v)
move-TurnsTo s cs v beat e = (_, beat-TurnsTo s cs v e)
move-TurnsTo s cs v (read c read_error) e = (_, error-TurnsTo s cs v c e)
move-TurnsTo s cs v (read c (bytes zero)) e = (_, nothing-TurnsTo s cs v c e)
move-TurnsTo s cs v (read c (bytes (suc n))) e = (_, bytes-TurnsTo s cs v c e n)
move-TurnsTo s cs v (closed c) e = (_, closed-TurnsTo s cs v c e)
move-TurnsTo s cs v (retain c) ((conn, alive), room) = (_, retain-TurnsTo s cs v c conn alive room)
move-TurnsTo s cs v (release c) e =
    let (conn, alive) = held_alive (v.at c) e in (_, release-TurnsTo s cs v c conn alive e)
move-TurnsTo s cs v (tick now) (later, small) = (_, tick-TurnsTo s cs v now later small)

pub started-Sound :
    (s : Server) (config : Config) (colon : Bool) (clock : ℕ)
    → 0 < config.conn_count
    → clock < 2 ^ 64
    → Sound (started s config colon clock) []
unfolding uvx_server_start
started-Sound s config colon clock room small = record {
  serves = record {
    table = lh_table_new config.conn_count;
    opened = refl;
    holds = new-Holds config.conn_count room;
    live = tt;
  };
  at = λ c. record {
    counted = refl;
    freed = λ _. refl;
    placed = refl;
    apart = refl;
    few = omega arith;
  };
  times = tt;
  small = small;
}

ok-injective : {a b : Server} → ok a ≡ ok b → a ≡ b
ok-injective e = cc

-- In every state that a server can come to, its table holds a list of different connections, all
-- allocated; each is read or is closing and not both; those that are read stand in the order in which
-- they were last heard of; and the counter of every object is the number of the user's references to it,
-- and one more if it is on the table. An object whose counter is 0 is freed.
pub Reach-Sound : {s : System} → Reach s → (cs : List ℕ) × Sound s cs
Reach-Sound (start s config colon clock room small) =
    ([], started-Sound s config colon clock room small)
Reach-Sound (next {s} r (turn m e run)) =
    let (cs, v) = Reach-Sound r in
    let (ds, (server, run', t)) = move-TurnsTo s cs v m e in
    (ds, subst (λ x. Sound (after m s x) ds) (ok-injective (sym run' ∙ run)) t.sound)

alive_iff :
    {o : Option Conn} {r k m : Bool} {n : ℕ}
    → At o r k n m
    → ((conn : Conn) × (o ≡ some conn)) ↔ ((r || k) ≡ true) ⊎ (0 < n)
alive_iff {o = none} {r} {k} at = (
  (λ a. absurd (let e = a.1 in cc)),
  (λ a. elim a [ inl e ↦ At-alive at e | inr h ↦ held_alive at h ]),
)
alive_iff {o = some conn} {r} {k} {m} at = (
  (λ a. elim (Bool-cases (r || k)) [
    | inl e ↦ inl e
    | inr e ↦
        let off : m ≡ false = at.placed ∙ e in
        let b = At-congr refl refl refl refl (sym off) at in inr (positive b)
  ]),
  (λ a. (conn, refl)),
)
  where
    positive : {p q : Bool} {k' : ℕ} → At (some conn) p q k' false → 0 < k'
    positive {k' = zero} b = absurd (let e : some conn ≡ none = b.freed b.counted in cc)
    positive {k' = suc n} b = omega arith

-- A connection's memory is there exactly as long as it is read, its close callback is still to come, or
-- the user holds a reference: it is neither freed too early nor kept.
pub allocated_iff :
    {s : System}
    → Reach s
    → (c : ℕ)
    → ((conn : Conn) × (s.server.heap c ≡ some conn))
      ↔ ((s.pending.reading c || s.pending.closing c) ≡ true) ⊎ (0 < s.held c)
allocated_iff r c = let (cs, v) = Reach-Sound r in alive_iff (v.at c)

shutdown_run :
    (s : Server) (cs : List ℕ)
    → Serves s cs
    → Returns (uvx_server_shutdown s) λ r. (r.0 ≡ 0) × (r.1.conns ≡ none) × (r.1.heap ≡ s.heap)
unfolding uvx_server_shutdown
shutdown_run s cs v = (
  (0, record s { conns = none; trace = s.trace ++ timer_stop ∷ timer_close ∷ server_close ∷ [] }),
  rw (table_of_lem s v.table v.opened),
  (refl, refl, refl),
)

dangling :
    (s : Server) (c n now : ℕ) (conn : Conn)
    → s.conns ≡ none
    → s.heap c ≡ some conn
    → (on_read s c (bytes (suc n)) now ≡ fault null_pointer)
      × (after_close_connection s c ≡ fault null_pointer)
unfolding on_read after_close_connection
dangling s c n now conn e alive = (
  rw (conn_at_lem s c conn alive, ◌>>=◌, table_of, e),
  rw (conn_at_lem s c conn alive, ◌>>=◌, table_of, e),
)

-- `uvx_server_shutdown` returns 0 and frees the table while connections are open: the next bytes on any
-- of them, and its close callback, then use the freed table.
pub shutdown_dangling :
    {s : System} (c n : ℕ)
    → Reach s
    → s.pending.reading c ≡ true
    → Returns (uvx_server_shutdown s.server) λ r.
      (r.0 ≡ 0)
      × (on_read r.1 c (bytes (suc n)) s.clock ≡ fault null_pointer)
      × (after_close_connection r.1 c ≡ fault null_pointer)
shutdown_dangling {s} c n r e =
    let (cs, v) = Reach-Sound r in
    let (conn, alive) = At-alive (v.at c) (ground arith) in
    let (result, run, (zero_result, freed, same)) = shutdown_run s.server cs v.serves in
    let (a, b) = dangling result.1 c n s.clock conn freed (ap (λ h. h c) same ∙ alive) in
    (result, run, (zero_result, a, b))
