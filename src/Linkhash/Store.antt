-- ===== src/Linkhash/Store.antt =====
-- The table as an ordered association list: what `lh_table_new`, `lh_table_lookup`,
-- `lh_table_insert` and `lh_table_delete` promise a client.
use mathlib.Core.List.{map-append}
use mathlib.Core.Option
use uvx.Prelude.{
  ℕ, suc, ◌+◌, ◌*◌, ◌≤◌, ◌<◌, ◌≡◌, ◌≢◌, refl, sym, ap, ◌∙◌, inl, inr, List, [], ◌∷◌, ◌++◌, Option,
  none, some, arith, length, if◌then◌else◌, true, subst, Bool-cases, length-append,
}
use uvx.Memory.{ok, Returns}
use uvx.Linkhash.{
  Table, place, lh_table_resize, insert_within, lh_table_insert, lh_table_delete, lh_table_lookup,
  lh_table_lookup_entry, crowded, lh_table_new,
}
use uvx.Linkhash.Keys.{Key}
use uvx.Linkhash.Nodes.{Node}
use uvx.Linkhash.Rep.{Other, Rep, Rep-congr, new-Rep, find_node, remove_node}
use uvx.Linkhash.Lookup.{lookup-find, lookup_entry-find, slot_of, value_of}
use uvx.Linkhash.Delete.{delete-Rep, code_of}
use uvx.Linkhash.Append.{place-Placed}
use uvx.Linkhash.Insert.{pair_of, contents, Load, insert_run, resize-Stores, length-contents}

-- A missing value is null.
abbrev pub or_null {ℓ} : {V : Type ℓ} → Option (Option V) → Option V
or_null none = none
or_null (some v) = v

module _ {ℓ} {K V : Type ℓ} ⦃fns : Key K⦄ where
  -- The ordered association list that a client sees.
  unfoldable pub find : K → List (K × Option V) → Option (Option V)
  find k [] = none
  find k ((k', v) ∷ kvs) = if fns.equal_fn k' k then some v else find k kvs

  unfoldable pub remove : K → List (K × Option V) → List (K × Option V)
  remove k [] = []
  remove k ((k', v) ∷ kvs) = if fns.equal_fn k' k then kvs else (k', v) ∷ remove k kvs

  abbrev pub NotIn : K → List (K × Option V) → Type ℓ
  NotIn k [] = Unit
  NotIn k ((k', v) ∷ kvs) = (k ≢ k') × NotIn k kvs

  -- The table is well formed, within its load, and stores `kvs` in this order.
  pub record Holds (t : Table K V) (kvs : List (K × Option V)) : Type ℓ where
    pub nodes : List (Node K V)
    pub rep : Rep t nodes
    pub load : Load t.size (length nodes)
    pub stored : contents nodes ≡ kvs

  remove-contents :
      (k : K) (ns : List (Node K V)) → contents (remove_node k ns) ≡ remove k (contents ns)
  unfolding remove remove_node
  remove-contents k [] = refl
  remove-contents k (x ∷ ns) = elim (Bool-cases (fns.equal_fn x.k k)) [
    | inl same ↦ rw same
    | inr other ↦ rw other (ap (◌∷◌ (pair_of x)) (remove-contents k ns))
  ]

  length-remove_node : (k : K) (ns : List (Node K V)) → length (remove_node k ns) ≤ length ns
  unfolding remove_node
  length-remove_node k [] = omega arith
  length-remove_node k (x ∷ ns) = elim (Bool-cases (fns.equal_fn x.k k)) [
    | inl same ↦ rw same (omega arith)
    | inr other ↦ rw other (omega (arith, length-remove_node k ns))
  ]

  code_of-find :
      (k : K) (ns : List (Node K V)) → code_of (find_node k ns) ≡ code_of (find k (contents ns))
  unfolding find find_node
  code_of-find k [] = refl
  code_of-find k (x ∷ ns) = elim (Bool-cases (fns.equal_fn x.k k)) [
    | inl same ↦ rw same
    | inr other ↦ rw other (code_of-find k ns)
  ]

  value_of-find :
      (k : K) (ns : List (Node K V)) → value_of (find_node k ns) ≡ or_null (find k (contents ns))
  unfolding find find_node
  value_of-find k [] = refl
  value_of-find k (x ∷ ns) = elim (Bool-cases (fns.equal_fn x.k k)) [
    | inl same ↦ rw same
    | inr other ↦ rw other (value_of-find k ns)
  ]

  NotIn-Other : (k : K) (ns : List (Node K V)) → NotIn k (contents ns) → Other k ns
  NotIn-Other k [] h = tt
  NotIn-Other k (x ∷ ns) (ne, h) = (ne, NotIn-Other k ns h)

  -- A new table is empty.
  pub new-Holds : (size : ℕ) → 0 < size → Holds (lh_table_new size) []
  new-Holds size h = record { nodes = []; rep = new-Rep size h; load = omega arith; stored = refl }

  place-Holds :
      (t : Table K V) (ns : List (Node K V)) (k : K) (v : Option V)
      → Rep t ns
      → Other k ns
      → length ns < t.size
      → 100 * length ns ≤ 66 * t.size
      → Returns (place t k v) λ t'. Holds t' (contents ns ++ (k, v) ∷ [])
  place-Holds t ns k v rep other room light =
      let (t', run, p) = place-Placed t ns k v rep other room in
      let y : Node K V = record { at = p.slot; k = k; v = v } in
      (
        t',
        run,
        record {
          nodes = ns ++ y ∷ [];
          rep = p.rep;
          load = omega (arith, p.size, length-append ns (y ∷ []));
          stored = map-append pair_of ns (y ∷ []);
        },
      )

  insert_within_resize :
      (depth : ℕ) (t t2 : Table K V) (k : K) (v : Option V)
      → crowded t.size t.count ≡ true
      → lh_table_resize (insert_within depth) (record t { inserts = t.inserts + 1 }) (t.size * 2)
        ≡ ok t2
      → insert_within (suc depth) t k v ≡ place t2 k v
  unfolding insert_within
  insert_within_resize depth t t2 k v e run = rw (e, run)

  -- `lh_table_insert` of a new key appends it and its value at the end, resizing the table where it
  -- is crowded; two levels of calls between it and `lh_table_resize` are enough.
  pub insert-Holds :
      (t : Table K V) (kvs : List (K × Option V)) (k : K) (v : Option V)
      → Holds t kvs
      → NotIn k kvs
      → Returns (lh_table_insert t k v) λ t'. Holds t' (kvs ++ (k, v) ∷ [])
  unfolding lh_table_insert
  insert-Holds t kvs k v h new =
      let t1 = record t { inserts = t.inserts + 1 } in
      let rep1 = Rep-congr {t' = t1} refl refl refl refl refl h.rep in
      let counted = h.rep.counted in
      let absent : NotIn k (contents h.nodes) = subst (NotIn k) (sym h.stored) new in
      elim (Bool-cases (crowded t.size t.count)) [
        | inl full ↦
            let (t2, run, s) = resize-Stores 0 t1 h.nodes rep1 h.load in
            let same : length s.nodes ≡ length h.nodes =
              sym (length-contents s.nodes) ∙ ap length s.stored ∙ length-contents h.nodes in
            let (t', run', done) =
              place-Holds t2 s.nodes k v s.rep
                (NotIn-Other k s.nodes (subst (NotIn k) (sym s.stored) absent))
                (omega (arith, same, s.width, h.load, h.rep.positive))
                (omega (arith, same, s.width, h.load, h.rep.positive)) in
            (
              t',
              insert_within_resize 1 t t2 k v full run ∙ run',
              subst (λ l. Holds t' (l ++ (k, v) ∷ [])) (s.stored ∙ h.stored) done,
            )
        | inr light ↦
            let few : 100 * length h.nodes ≤ 66 * t.size = ground (arith, counted, light) in
            let (t', run', done) =
              place-Holds t1 h.nodes k v rep1 (NotIn-Other k h.nodes absent)
                (omega (arith, few, h.rep.positive)) few in
            (
              t',
              insert_run 1 t k v light ∙ run',
              subst (λ l. Holds t' (l ++ (k, v) ∷ [])) h.stored done,
            )
      ]

  -- `lh_table_delete` removes the key, and returns 0 exactly if it was there; the rest stays in order.
  pub delete-Holds :
      (t : Table K V) (kvs : List (K × Option V)) (k : K)
      → Holds t kvs
      → Returns (lh_table_delete t k) λ r. (r.0 ≡ code_of (find k kvs)) × Holds r.1 (remove k kvs)
  delete-Holds t kvs k h =
      let (r, run, (code, rep, size)) = delete-Rep h.rep k in
      (
        r,
        run,
        (
          code ∙ code_of-find k h.nodes ∙ ap (λ l. code_of (find k l)) h.stored,
          record {
            nodes = remove_node k h.nodes;
            rep = rep;
            load = omega (arith, size, h.load, length-remove_node k h.nodes);
            stored = remove-contents k h.nodes ∙ ap (remove k) h.stored;
          },
        ),
      )

  -- `lh_table_lookup` returns the stored value, or null if the key is not there, and changes nothing
  -- that a client sees.
  pub lookup-Holds :
      (t : Table K V) (kvs : List (K × Option V)) (k : K)
      → Holds t kvs
      → Returns (lh_table_lookup t k) λ r. (r.0 ≡ or_null (find k kvs)) × Holds r.1 kvs
  lookup-Holds t kvs k h = (
    (value_of (find_node k h.nodes), record t { lookups = t.lookups + 1 }),
    lookup-find h.rep k,
    (
      value_of-find k h.nodes ∙ ap (λ l. or_null (find k l)) h.stored,
      record {
        nodes = h.nodes;
        rep = Rep-congr refl refl refl refl refl h.rep;
        load = h.load;
        stored = h.stored;
      },
    ),
  )

  find_node-none :
      (k : K) (ns : List (Node K V)) → find k (contents ns) ≡ none → find_node k ns ≡ none
  unfolding find find_node
  find_node-none k [] e = refl
  find_node-none k (x ∷ ns) e = elim (Bool-cases (fns.equal_fn x.k k)) [
    | inl same ↦ absurd (let f : some x.v ≡ none = rw same at e in cc)
    | inr other ↦ rw other (find_node-none k ns (rw other at e))
  ]

  -- `lh_table_lookup_entry` returns null for a key that is not there.
  pub lookup_entry-Missing :
      {t : Table K V} {kvs : List (K × Option V)}
      → Holds t kvs
      → (k : K) → find k kvs ≡ none
      → (t' : Table K V) × (lh_table_lookup_entry t k ≡ ok (none, t')) × Holds t' kvs
  lookup_entry-Missing {t} h k e = (
    record t { lookups = t.lookups + 1 },
    lookup_entry-find h.rep k
        ∙ ap (λ o. ok (Option.map slot_of o, record t { lookups = t.lookups + 1 }))
            (find_node-none k h.nodes (ap (find k) h.stored ∙ e)),
    record {
      nodes = h.nodes;
      rep = Rep-congr refl refl refl refl refl h.rep;
      load = h.load;
      stored = h.stored;
    },
  )
