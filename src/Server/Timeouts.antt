-- ===== src/Server/Timeouts.antt =====
-- `_uvx_check_timeout_clients`, which stops at the first connection that was heard of recently.
use uvx.Prelude.{
  ℕ, zero, suc, ◌+◌, ◌-◌, ◌≤◌, ◌<◌, ◌%◌, ◌^◌, ◌≡◌, refl, sym, ap, ◌∙◌, inl, inr, List, [], ◌∷◌,
  ◌++◌, Option, none, some, arith, length, ◌==◌, if◌then◌else◌, subst, true, false, Bool-cases, ltb,
  append-nil, append_assoc,
}
use uvx.Memory.{ok, ◌>>=◌}
use uvx.Linkhash.{Table, Entry}
use uvx.Linkhash.Keys.{ptr_key}
use uvx.Linkhash.Nodes.{Node, first, linked, Linked, Below}
use uvx.Linkhash.Probe.{entry_at_lem}
use uvx.Server.{
  Server, Conn, Config, Event, disconnect_events, log, timeouts_from, check_timeout_clients,
}
use uvx.Server.Connections.{Serves, Live}
use uvx.Server.Handlers.{conn_at_lem, table_of_lem}
use uvx.Server.Visits.{keys, keys-entries}

-- How long ago a connection was heard of.
abbrev pub silence : (ℕ → Option Conn) → ℕ → ℕ → ℕ
silence h now c = elim (h c) [
  | none ↦ 0
  | some conn ↦ (now + 2 ^ 64 - conn.last_comm_time) % 2 ^ 64
]

-- The calls that close every connection silent for longer than the timeout.
unfoldable pub closes : (ℕ → Option Conn) → ℕ → Config → List ℕ → List Event
closes h now config [] = []
closes h now config (c ∷ cs) =
    if ltb config.conn_timeout (silence h now c)
    then disconnect_events config c ++ closes h now config cs
    else closes h now config cs

-- The connections were heard of in the order of the list.
abbrev pub Within : (ℕ → Option Conn) → ℕ → ℕ → List ℕ → Type 0
Within h now most [] = Unit
Within h now most (c ∷ cs) = (silence h now c ≤ most) × Within h now most cs

abbrev pub Ordered : (ℕ → Option Conn) → ℕ → List ℕ → Type 0
Ordered h now [] = Unit
Ordered h now (c ∷ cs) = Within h now (silence h now c) cs × Ordered h now cs

closes-Within :
    (h : ℕ → Option Conn) (now most : ℕ) (config : Config) (cs : List ℕ)
    → Within h now most cs
    → most ≤ config.conn_timeout
    → closes h now config cs ≡ []
unfolding closes
closes-Within h now most config [] w e = refl
closes-Within h now most config (c ∷ cs) (a, w) e =
    let quiet : ltb config.conn_timeout (silence h now c) ≡ false = ground arith in
    rw quiet (closes-Within h now most config cs w e)

log-log : (s : Server) (a b : List Event) → log (log s a) b ≡ log s (a ++ b)
log-log s a b = ap (λ l. record s { trace = l }) (append_assoc s.trace a b)

log-nil : (s : Server) → log s [] ≡ s
log-nil s = ap (λ l. record s { trace = l }) (append-nil s.trace)

silence-of :
    (h : ℕ → Option Conn) (now c : ℕ) (conn : Conn)
    → h c ≡ some conn
    → silence h now c ≡ (now + 2 ^ 64 - conn.last_comm_time) % 2 ^ 64
silence-of h now c conn e = rw (silence, e)

module _ (fuel : ℕ) (t : Table ℕ ℕ) (s : Server) (p : Option ℕ) (x : Node ℕ ℕ)
    (rest : List (Node ℕ ℕ)) (now : ℕ) (conn : Conn) (inside : x.at < t.size)
    (slot : t.slots x.at ≡ linked x (first rest none) p) (alive : s.heap x.k ≡ some conn) where
  stays_run :
      ltb s.config.conn_timeout ((now + 2 ^ 64 - conn.last_comm_time) % 2 ^ 64) ≡ false
      → timeouts_from (suc fuel) t s (some x.at) now ≡ ok s
  unfolding timeouts_from
  stays_run quiet =
      rw (entry_at_lem t x.at inside, ◌>>=◌, ap (λ (y : Entry ℕ ℕ). y.k) slot)
        (rw (conn_at_lem s x.k conn alive, ◌>>=◌, quiet))

  closed_run :
      ltb s.config.conn_timeout ((now + 2 ^ 64 - conn.last_comm_time) % 2 ^ 64) ≡ true
      → timeouts_from (suc fuel) t s (some x.at) now
        ≡ timeouts_from fuel t (log s (disconnect_events s.config x.k)) (first rest none) now
  unfolding timeouts_from
  closed_run silent =
      rw (entry_at_lem t x.at inside, ◌>>=◌, ap (λ (y : Entry ℕ ℕ). y.k) slot)
        (rw (conn_at_lem s x.k conn alive, ◌>>=◌, silent)
          (ap (λ q. timeouts_from fuel t (log s (disconnect_events s.config x.k)) q now)
            (ap (λ (y : Entry ℕ ℕ). y.next) slot)))

timeouts_nil :
    (fuel : ℕ) (t : Table ℕ ℕ) (s : Server) (now : ℕ) → timeouts_from fuel t s none now ≡ ok s
unfolding timeouts_from
timeouts_nil zero t s now = refl
timeouts_nil (suc fuel) t s now = refl

timeouts_from-closes :
    (fuel : ℕ) (t : Table ℕ ℕ) (s : Server) (p : Option ℕ) (ns : List (Node ℕ ℕ)) (now : ℕ)
    → length ns ≤ fuel
    → Linked t.slots p ns none
    → Below t.size ns
    → Live s.heap (keys ns)
    → Ordered s.heap now (keys ns)
    → timeouts_from fuel t s (first ns none) now ≡ ok (log s (closes s.heap now s.config (keys ns)))
unfolding closes
timeouts_from-closes fuel t s p [] now few run below live o =
    timeouts_nil fuel t s now ∙ ap ok (sym (log-nil s))
timeouts_from-closes zero t s p (x ∷ ns) now few run below live o = absurd (omega arith)
timeouts_from-closes (suc fuel) t s p (x ∷ ns) now few (slot, run) (h, below) ((conn, alive), live)
      (w, o) =
    let age = silence-of s.heap now x.k conn alive in
    elim (Bool-cases (ltb s.config.conn_timeout (silence s.heap now x.k))) [
      | inl silent ↦
          let events = disconnect_events s.config x.k in
          closed_run fuel t s p x ns now conn h slot alive
            (ap (ltb s.config.conn_timeout) (sym age) ∙ silent)
          ∙ timeouts_from-closes fuel t (log s events) (some x.at) ns now (omega arith) run below
              live o
          ∙ ap ok (log-log s events (closes s.heap now s.config (keys ns)))
          ∙ ap (λ l. ok (log s l)) (rw silent)
      | inr quiet ↦
          let none_left : closes s.heap now s.config (keys ns) ≡ [] =
            closes-Within s.heap now (silence s.heap now x.k) s.config (keys ns) w (ground arith) in
          stays_run fuel t s p x ns now conn h slot alive
            (ap (ltb s.config.conn_timeout) (sym age) ∙ quiet)
          ∙ ap ok (sym (log-nil s))
          ∙ ap (λ l. ok (log s l)) (sym none_left)
          ∙ ap (λ l. ok (log s l)) (rw quiet)
    ]

check_run :
    (s s' : Server) (t : Table ℕ ℕ) (p : Option ℕ) (now : ℕ)
    → s.conns ≡ some t
    → t.head ≡ p
    → 0 < s.config.conn_timeout
    → timeouts_from t.size t s p now ≡ ok s'
    → check_timeout_clients s now ≡ ok s'
unfolding check_timeout_clients
check_run s s' t p now opened head positive run =
    let limited : (s.config.conn_timeout == 0) ≡ false = ground arith in
    rw
      (limited, table_of_lem s t opened, ◌>>=◌, ap (λ q. timeouts_from t.size t s q now) head ∙ run)

-- `_uvx_check_timeout_clients` with a positive timeout, where the connections were heard of in the
-- order of the list: it ends normally and asks to close exactly the connections that were silent for
-- longer than the timeout, all of them although the loop stops early, oldest first.
pub check_timeout-closes :
    (s : Server) (cs : List ℕ) (now : ℕ)
    → Serves s cs
    → 0 < s.config.conn_timeout
    → Ordered s.heap now cs
    → check_timeout_clients s now ≡ ok (log s (closes s.heap now s.config cs))
check_timeout-closes s cs now v positive o =
    let h = v.holds in
    let same = keys-entries h.nodes cs h.stored in
    let few : length h.nodes ≤ v.table.size = omega (arith, h.load, h.rep.positive) in
    check_run s _ v.table (first h.nodes none) now v.opened h.rep.head positive (
      timeouts_from-closes v.table.size v.table s none h.nodes now few h.rep.run h.rep.below
        (subst (Live s.heap) (sym same) v.live) (subst (Ordered s.heap now) (sym same) o)
      ∙ ap (λ l. ok (log s (closes s.heap now s.config l))) same)
