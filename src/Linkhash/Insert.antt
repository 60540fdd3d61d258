-- ===== src/Linkhash/Insert.antt =====
-- `lh_table_insert` and `lh_table_resize` on a table that holds its entries.
use mathlib.Core.List.{map-append}
use uvx.Prelude.{
  ℕ, zero, suc, ◌+◌, ◌*◌, ◌≤◌, ◌<◌, ◌≡◌, refl, sym, ap, ◌∙◌, List, [], ◌∷◌, ◌++◌, Option, none,
  some, arith, length, false, length-append, map, append-nil, append_assoc,
}
use uvx.Memory.{Run, ok, ◌>>=◌, Returns}
use uvx.Linkhash.{
  Entry, Table, place, copy_from, lh_table_resize, insert_within, crowded, lh_table_new,
}
use uvx.Linkhash.Keys.{Key}
use uvx.Linkhash.Nodes.{Node, first, linked, Linked, Below}
use uvx.Linkhash.Probe.{entry_at_lem}
use uvx.Linkhash.Rep.{Other, DistinctKeys, Rep, Rep-congr, new-Rep}
use uvx.Linkhash.Lookup.{Other-join}
use uvx.Linkhash.Append.{place-Placed}

-- The key and value of an entry.
abbrev pub pair_of {ℓ} : {K V : Type ℓ} → Node K V → K × Option V
pair_of x = (x.k, x.v)

-- What the entries store, in order.
abbrev pub contents {ℓ} : {K V : Type ℓ} → List (Node K V) → List (K × Option V)
contents ns = map pair_of ns

-- The bound on the load that every insertion restores.
abbrev pub Load : ℕ → ℕ → Type 0
Load size count = 100 * count ≤ 66 * size + 100

module _ {ℓ} {K V : Type ℓ} where
  pub length-contents : (ns : List (Node K V)) → length (contents ns) ≡ length ns
  length-contents [] = refl
  length-contents (x ∷ ns) = ap suc (length-contents ns)

  -- The keys of `rest` are none of those of `ms`.
  abbrev Fresh : List (Node K V) → List (Node K V) → Type ℓ
  Fresh [] ms = Unit
  Fresh (x ∷ rest) ms = Other x.k ms × Fresh rest ms

  Fresh-nil : (rest : List (Node K V)) → Fresh rest []
  Fresh-nil [] = tt
  Fresh-nil (x ∷ rest) = (tt, Fresh-nil rest)

  Fresh-snoc :
      (rest ms : List (Node K V)) (y : Node K V)
      → Fresh rest ms
      → Other y.k rest
      → Fresh rest (ms ++ y ∷ [])
  Fresh-snoc [] ms y f o = tt
  Fresh-snoc (x ∷ rest) ms y (a, f) (ne, o) =
      (Other-join x.k ms (y ∷ []) a ((λ e. ne (sym e)), tt), Fresh-snoc rest ms y f o)

module _ {ℓ} {K V : Type ℓ} ⦃fns : Key K⦄ where
  -- An insertion that does not resize.
  pub insert_run :
      (depth : ℕ) (t : Table K V) (k : K) (v : Option V)
      → crowded t.size t.count ≡ false
      → insert_within (suc depth) t k v ≡ place (record t { inserts = t.inserts + 1 }) k v
  unfolding insert_within
  insert_run depth t k v e = rw e

  -- A table of `size` slots with some entries that store `kvs`.
  pub record Stores (size : ℕ) (kvs : List (K × Option V)) (t : Table K V) : Type ℓ where
    pub nodes : List (Node K V)
    pub rep : Rep t nodes
    pub stored : contents nodes ≡ kvs
    pub width : t.size ≡ size

  copy_run :
      (insert : Table K V → K → Option V → Run (Table K V)) (fuel : ℕ) (t : Table K V)
      (p : Option ℕ) (x : Node K V) (rest : List (Node K V)) (into into' : Table K V)
      → x.at < t.size
      → t.slots x.at ≡ linked x (first rest none) p
      → insert into x.k x.v ≡ ok into'
      → copy_from insert (suc fuel) t (some x.at) into
        ≡ copy_from insert fuel t (first rest none) into'
  unfolding copy_from
  copy_run insert fuel t p x rest into into' h e run =
      rw (entry_at_lem t x.at h, ◌>>=◌, ap (λ (y : Entry K V). y.k) e)
        (rw (ap (λ (y : Entry K V). y.v) e, run, ◌>>=◌) (rw (ap (λ (y : Entry K V). y.next) e)))

  copy_nil :
      (insert : Table K V → K → Option V → Run (Table K V)) (fuel : ℕ) (t into : Table K V)
      → copy_from insert fuel t none into ≡ ok into
  unfolding copy_from
  copy_nil insert zero t into = refl
  copy_nil insert (suc fuel) t into = refl

  copy_from-Stores :
      (depth fuel : ℕ) (t : Table K V) (p : Option ℕ) (rest : List (Node K V)) (size : ℕ)
      (into : Table K V) (ms : List (Node K V))
      → length rest ≤ fuel
      → Linked t.slots p rest none
      → Below t.size rest
      → DistinctKeys rest
      → Rep into ms
      → into.size ≡ size
      → Fresh rest ms
      → Load size (length ms + length rest)
      → Returns
          (copy_from (insert_within (suc depth)) fuel t (first rest none) into)
          (Stores size (contents ms ++ contents rest))
  copy_from-Stores depth fuel t p [] size into ms few run below keys rep width fresh load = (
    into,
    copy_nil _ fuel t into,
    record { nodes = ms; rep = rep; stored = sym (append-nil (contents ms)); width = width },
  )
  copy_from-Stores depth zero t p (x ∷ rest) size into ms few run below keys rep width fresh load =
      absurd (omega arith)
  copy_from-Stores depth (suc fuel) t p (x ∷ rest) size into ms few (e, run) (h, below) (o, keys)
        rep width (f, fresh) load =
      let quiet : crowded into.size into.count ≡ false = ground (arith, rep.counted, width) in
      let (into', run', w) =
        place-Placed (record into { inserts = into.inserts + 1 }) ms x.k x.v
          (Rep-congr refl refl refl refl refl rep) f (omega (arith, width, rep.positive)) in
      let y : Node K V = record { at = w.slot; k = x.k; v = x.v } in
      let (last', run'', s) =
        copy_from-Stores depth fuel t (some x.at) rest size into' (ms ++ y ∷ []) (omega arith) run
          below keys w.rep (w.size ∙ width) (Fresh-snoc rest ms y fresh o)
          (omega (arith, length-append ms (y ∷ []))) in
      (
        last',
        copy_run (insert_within (suc depth)) fuel t p x rest into into' h e
              (insert_run depth into x.k x.v quiet ∙ run')
            ∙ run'',
        record {
          nodes = s.nodes;
          rep = s.rep;
          stored =
              s.stored
              ∙ ap (λ l. l ++ contents rest) (map-append pair_of ms (y ∷ []))
              ∙ append_assoc (contents ms) (pair_of y ∷ []) (contents rest);
          width = s.width;
        },
      )

  -- The table after its slots are replaced by those of another.
  abbrev replaced : Table K V → Table K V → Table K V
  replaced t u = record t {
    slots = u.slots;
    size = t.size * 2;
    head = u.head;
    tail = u.tail;
    resizes = t.resizes + 1;
  }

  resize_run :
      (insert : Table K V → K → Option V → Run (Table K V)) (t u : Table K V) (p : Option ℕ)
      → t.head ≡ p
      → copy_from insert t.size t p (lh_table_new (t.size * 2)) ≡ ok u
      → lh_table_resize insert t (t.size * 2) ≡ ok (replaced t u)
  unfolding lh_table_resize
  resize_run insert t u p head run =
      rw (ap (λ q. copy_from insert t.size t q (lh_table_new (t.size * 2))) head ∙ run)

  -- `lh_table_resize` doubles the slots and keeps every entry, in order.
  pub resize-Stores :
      (depth : ℕ) (t : Table K V) (ns : List (Node K V))
      → Rep t ns
      → Load t.size (length ns)
      → Returns
          (lh_table_resize (insert_within (suc depth)) t (t.size * 2))
          (Stores (t.size * 2) (contents ns))
  resize-Stores depth t ns rep load =
      let (u, run, s) =
        copy_from-Stores depth t.size t none ns (t.size * 2) (lh_table_new (t.size * 2)) []
          (omega (arith, rep.positive)) rep.run rep.below rep.keys
          (new-Rep (t.size * 2) (omega (arith, rep.positive))) (unfold lh_table_new in refl)
          (Fresh-nil ns) (omega arith) in
      let same : length s.nodes ≡ length ns =
        sym (length-contents s.nodes) ∙ ap length s.stored ∙ length-contents ns in
      (
        replaced t u,
        resize_run (insert_within (suc depth)) t u (first ns none) rep.head run,
        record {
          nodes = s.nodes;
          rep =
              Rep-congr (sym s.width) refl refl refl (rep.counted ∙ sym same ∙ sym s.rep.counted)
                s.rep;
          stored = s.stored;
          width = refl;
        },
      )
