-- ===== src/Linkhash/Lookup.antt =====
-- `lh_table_lookup_entry` and `lh_table_lookup` on a table that holds its entries.
use mathlib.Core.Option
use uvx.Prelude.{
  ℕ, ◌+◌, ◌%◌, ◌<◌, ◌≡◌, refl, sym, ap, ◌∙◌, inl, inr, List, [], ◌∷◌, ◌++◌, Option, none, some,
  arith, ◌==◌, true, subst, Bool-cases, ==_iff, Option-cases,
}
use uvx.Memory.{ok, ◌>>=◌}
use uvx.Linkhash.{
  Cell, Entry, Table, key, home_slot, lookup_from, lh_table_lookup_entry, lh_table_lookup,
}
use uvx.Linkhash.Keys.{Key}
use uvx.Linkhash.Nodes.{Node, Linked, Apart, Apart-join, Below, Below-split, Linked-split}
use uvx.Linkhash.Probe.{
  entry_at_lem, is_key, Missing, Unique, lookup_from-Missing, lookup_from-found,
}
use uvx.Linkhash.Rep.{
  Rep-congr, Other, DistinctKeys, Reached, Rep, find_node, find_split, find-Other,
}

module _ {ℓ} {K V : Type ℓ} where
  pub Other-split : (k : K) (xs ys : List (Node K V)) → Other k (xs ++ ys) → Other k xs × Other k ys
  Other-split k [] ys o = (tt, o)
  Other-split k (x ∷ xs) ys (ne, o) = let (a, b) = Other-split k xs ys o in ((ne, a), b)

  pub Other-join : (k : K) (xs ys : List (Node K V)) → Other k xs → Other k ys → Other k (xs ++ ys)
  Other-join k [] ys a b = b
  Other-join k (x ∷ xs) ys (ne, a) b = (ne, Other-join k xs ys a b)

  pub DistinctKeys-middle :
      (xs : List (Node K V)) (x : Node K V) (ys : List (Node K V))
      → DistinctKeys (xs ++ x ∷ ys)
      → Other x.k xs × Other x.k ys × DistinctKeys (xs ++ ys)
  DistinctKeys-middle [] x ys (a, d) = (tt, a, d)
  DistinctKeys-middle (z ∷ xs) x ys (a, d) =
      let (b, (ne, c)) = Other-split z.k xs (x ∷ ys) a in
      let (left, right, rest) = DistinctKeys-middle xs x ys d in
      (((λ e. ne (sym e)), left), right, (Other-join z.k xs ys b c, rest))

  -- The slot of an entry has its key.
  pub slot_key :
      (s : ℕ → Entry K V) (p q : Option ℕ) (xs : List (Node K V)) (x : Node K V)
      (ys : List (Node K V))
      → Linked s p (xs ++ x ∷ ys) q
      → (s x.at).k ≡ key x.k
  slot_key s p q xs x ys r =
      let (_, (e, _)) = Linked-split s p xs (x ∷ ys) q r in ap (λ (y : Entry K V). y.k) e

  -- A slot of a run has the key of one of its entries.
  pub slot-Other :
      (s : ℕ → Entry K V) (p q : Option ℕ) (ns : List (Node K V)) (k : K) (m : ℕ)
      → Linked s p ns q
      → Other k ns
      → (s m).k ≡ key k
      → Apart m ns
  slot-Other s p q [] k m r o e = tt
  slot-Other s p q (x ∷ ns) k m (f, r) (ne, o) e = (
    (λ same.
        ne (key-injective k x.k (sym e ∙ ap (λ j. (s j).k) same ∙ ap (λ (y : Entry K V). y.k) f))),
    slot-Other s (some x.at) q ns k m r o e,
  )
    where
      key-injective : (a b : K) → Cell.key a ≡ Cell.key b → a ≡ b
      key-injective a b h = cc

module _ {ℓ} {K V : Type ℓ} ⦃fns : Key K⦄ where
  pub Reached-split :
      (s : ℕ → Entry K V) (size : ℕ) (xs ys : List (Node K V))
      → Reached s size (xs ++ ys)
      → Reached s size xs × Reached s size ys
  Reached-split s size [] ys r = (tt, r)
  Reached-split s size (x ∷ xs) ys (e, r) = let (a, b) = Reached-split s size xs ys r in ((e, a), b)

  pub Reached-join :
      (s : ℕ → Entry K V) (size : ℕ) (xs ys : List (Node K V))
      → Reached s size xs
      → Reached s size ys
      → Reached s size (xs ++ ys)
  Reached-join s size [] ys a b = b
  Reached-join s size (x ∷ xs) ys (e, a) b = (e, Reached-join s size xs ys a b)

  module _ {t : Table K V} {ns : List (Node K V)} (rep : Rep t ns) where
    not_vacant : (m : ℕ) (k : K) → m < t.size → (t.slots m).k ≡ key k → ¬ (Apart m ns)
    not_vacant m k h e a =
        let f : is_key (t.slots m).k ≡ true = ap is_key e in let g = rep.vacant m h a in absurd (cc)

    pub Other-Missing : (k : K) → Other k ns → Missing t k
    Other-Missing k o m k' h e = elim (Bool-cases (fns.equal_fn k' k)) [
      | inl same ↦ absurd (
          not_vacant m k' h e (
            slot-Other t.slots none none ns k m rep.run o
              (e ∙ ap key ((fns.equal_iff k' k).0 same))))
      | inr other ↦ other
    ]

    pub node-Unique :
        (xs : List (Node K V)) (x : Node K V) (ys : List (Node K V))
        → ns ≡ xs ++ x ∷ ys
        → Unique t x.k x.at
    node-Unique xs x ys split =
        let run = subst (λ l. Linked t.slots none l none) split rep.run in
        let (before, after) = Linked-split t.slots none xs (x ∷ ys) none run in
        let (o_before, o_after, _) =
          DistinctKeys-middle xs x ys (subst DistinctKeys split rep.keys) in
        record {
          here = slot_key t.slots none none xs x ys run;
          alone = λ m k' h e same. elim (Bool-cases (m == x.at)) [
            | inl f ↦ (==_iff m x.at).0 f
            | inr f ↦
                let e' = e ∙ ap key ((fns.equal_iff k' x.k).0 same) in
                absurd (
                  not_vacant m k' h e (
                    subst (Apart m) (sym split) (
                      Apart-join m xs (x ∷ ys)
                        (slot-Other t.slots none _ xs x.k m before o_before e')
                        (
                          (λ g. absurd (ground (arith, f, g))),
                          slot-Other t.slots _ none ys x.k m after.1 o_after e',
                        ))))
          ];
        }

    pub home_slot_lem : (k : K) → home_slot t k ≡ ok (fns.hash_fn k % t.size)
    unfolding home_slot
    home_slot_lem k = ground (arith, rep.positive)

    pub home-lt : (k : K) → fns.hash_fn k % t.size < t.size
    home-lt k = grind (arith, rep.positive)

    looked_up :
        (k : K)
        → lookup_from t.size t k (fns.hash_fn k % t.size)
          ≡ ok (Option.map (λ (x : Node K V). x.at) (find_node k ns))
    looked_up k = elim (Option-cases (find_node k ns)) [
      | inl e ↦
          rw e (lookup_from-Missing t.size t k _ (home-lt k) (Other-Missing k (find-Other k ns e)))
      | inr (x, e) ↦
          let (xs, ys, split, same) = find_split k ns x e in
          let (_, ((d, small, r), _)) =
            Reached-split t.slots t.size xs (x ∷ ys)
              (subst (Reached t.slots t.size) split rep.reached) in
          rw (e, ← same)
            (lookup_from-found t.size d t x.k _ x.at (home-lt x.k) small r
              (node-Unique xs x ys split))
    ]

abbrev pub slot_of {ℓ} : {K V : Type ℓ} → Node K V → ℕ
slot_of x = x.at

abbrev pub value_of {ℓ} : {K V : Type ℓ} → Option (Node K V) → Option V
value_of none = none
value_of (some x) = x.v

module _ {ℓ} {K V : Type ℓ} ⦃fns : Key K⦄ {t : Table K V} {ns : List (Node K V)}
    (rep : Rep t ns) where
  -- `lh_table_lookup_entry` returns the slot of the entry with the key, or null if there is none,
  -- and only counts the lookup.
  pub lookup_entry-find :
      (k : K)
      → lh_table_lookup_entry t k
        ≡ ok (Option.map slot_of (find_node k ns), record t { lookups = t.lookups + 1 })
  unfolding lh_table_lookup_entry
  lookup_entry-find k =
      rw (home_slot_lem rep k, ◌>>=◌)
        (rw (
          looked_up
            (Rep-congr {t' = record t { lookups = t.lookups + 1 }} refl refl refl refl refl rep) k))

  -- `lh_table_lookup` returns the value stored under the key, or null if there is none.
  pub lookup-find :
      (k : K)
      → lh_table_lookup t k ≡ ok (value_of (find_node k ns), record t { lookups = t.lookups + 1 })
  unfolding lh_table_lookup
  lookup-find k = elim (Option-cases (find_node k ns)) [
    | inl e ↦ rw (lookup_entry-find k, ◌>>=◌, e)
    | inr (x, e) ↦
        let (xs, ys, split, _) = find_split k ns x e in
        let run = subst (λ l. Linked t.slots none l none) split rep.run in
        let (_, (f, _)) = Linked-split t.slots none xs (x ∷ ys) none run in
        let (_, (inside, _)) =
          Below-split t.size xs (x ∷ ys) (subst (Below t.size) split rep.below) in
        rw (lookup_entry-find k, ◌>>=◌, e) (rw (entry_at_lem t x.at inside, f))
  ]
