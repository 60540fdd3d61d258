-- ===== src/Server/Visits.antt =====
-- The loops of the server over its connections: `uvx_server_iter_conns` and
-- `_uvx_check_timeout_clients`.
use uvx.Prelude.{
  Bool, true, false, if◌then◌else◌, ℕ, zero, suc, ◌≤◌, ◌<◌, ◌≡◌, refl, ap, ◌∙◌, List, [], ◌∷◌,
  Option, none, some, arith, length, map,
}
use uvx.Memory.{ok, ◌>>=◌}
use uvx.Linkhash.{Table, Entry}
use uvx.Linkhash.Keys.{ptr_key}
use uvx.Linkhash.Nodes.{Node, first, linked, Linked, Below}
use uvx.Linkhash.Probe.{entry_at_lem}
use uvx.Linkhash.Insert.{contents}
use uvx.Server.{Server, iter_from, uvx_server_iter_conns}
use uvx.Server.Connections.{Serves, entries, entry}
use uvx.Server.Handlers.{table_of_lem}

abbrev pub keys : List (Node ℕ ℕ) → List ℕ
keys ns = map (λ (x : Node ℕ ℕ). x.k) ns

pub keys-entries : (ns : List (Node ℕ ℕ)) (cs : List ℕ) → contents ns ≡ entries cs → keys ns ≡ cs
keys-entries [] [] e = refl
keys-entries [] (c ∷ cs) e = absurd (cc)
keys-entries (x ∷ ns) [] e = absurd (cc)
keys-entries (x ∷ ns) (c ∷ cs) e =
    let head : (d : ℕ × Option ℕ) → List (ℕ × Option ℕ) → ℕ × Option ℕ =
      λ d l. elim l [ [] ↦ d | a ∷ _ ↦ a ] in
    let tail : List (ℕ × Option ℕ) → List (ℕ × Option ℕ) = λ l. elim l [ [] ↦ [] | _ ∷ a ↦ a ] in
    let f : x.k ≡ c = ap (λ l. (head (entry c) l).0) e in
    let g : keys ns ≡ cs = keys-entries ns cs (ap tail e) in rw (f, g)

iter_run :
    (fuel : ℕ) (t : Table ℕ ℕ) (p : Option ℕ) (x : Node ℕ ℕ) (rest : List (Node ℕ ℕ)) (l : List ℕ)
    → x.at < t.size
    → t.slots x.at ≡ linked x (first rest none) p
    → iter_from fuel t (first rest none) ≡ ok l
    → iter_from (suc fuel) t (some x.at) ≡ ok (x.k ∷ l)
unfolding iter_from
iter_run fuel t p x rest l h e run =
    rw (entry_at_lem t x.at h, ◌>>=◌, ap (λ (y : Entry ℕ ℕ). y.k) e)
      (rw (ap (λ (y : Entry ℕ ℕ). y.next) e, run))

iter_nil : (fuel : ℕ) (t : Table ℕ ℕ) → iter_from fuel t none ≡ ok []
unfolding iter_from
iter_nil zero t = refl
iter_nil (suc fuel) t = refl

iter_from-keys :
    (fuel : ℕ) (t : Table ℕ ℕ) (p : Option ℕ) (rest : List (Node ℕ ℕ))
    → length rest ≤ fuel
    → Linked t.slots p rest none
    → Below t.size rest
    → iter_from fuel t (first rest none) ≡ ok (keys rest)
iter_from-keys fuel t p [] few run below = iter_nil fuel t
iter_from-keys zero t p (x ∷ rest) few run below = absurd (omega arith)
iter_from-keys (suc fuel) t p (x ∷ rest) few (e, run) (h, below) =
    iter_run fuel t p x rest (keys rest) h e
      (iter_from-keys fuel t (some x.at) rest (omega arith) run below)

iter_conns_run :
    (s : Server) (t : Table ℕ ℕ) (p : Option ℕ) (n : ℕ) (cs : List ℕ) (on_iter_conn : Bool)
    → s.conns ≡ some t
    → t.head ≡ p
    → t.count ≡ n
    → iter_from t.size t p ≡ ok cs
    → uvx_server_iter_conns s on_iter_conn ≡ ok (n, if on_iter_conn then cs else [])
unfolding uvx_server_iter_conns
iter_conns_run s t p n cs true opened head counted run =
    rw (table_of_lem s t opened, ◌>>=◌, ap (iter_from t.size t) head ∙ run, counted)
iter_conns_run s t p n cs false opened head counted run =
    rw (table_of_lem s t opened, ◌>>=◌, counted)

-- `uvx_server_iter_conns` ends normally: it calls a callback on each connection once, in the order
-- of the list, and none where there is no callback, and returns the number of connections.
pub iter_conns-visits :
    (s : Server) (cs : List ℕ) (on_iter_conn : Bool)
    → Serves s cs
    → uvx_server_iter_conns s on_iter_conn ≡ ok (length cs, if on_iter_conn then cs else [])
iter_conns-visits s cs on_iter_conn v =
    let h = v.holds in
    let same = keys-entries h.nodes cs h.stored in
    let few : length h.nodes ≤ v.table.size = omega (arith, h.load, h.rep.positive) in
    let size : length h.nodes ≡ length cs = keys-length h.nodes ∙ ap length same in
    iter_conns_run s v.table (first h.nodes none) (length cs) cs on_iter_conn v.opened h.rep.head
      (h.rep.counted ∙ size)
      (iter_from-keys v.table.size v.table none h.nodes few h.rep.run h.rep.below ∙ ap ok same)
  where
    keys-length : (ns : List (Node ℕ ℕ)) → length ns ≡ length (keys ns)
    keys-length [] = refl
    keys-length (x ∷ ns) = ap suc (keys-length ns)
