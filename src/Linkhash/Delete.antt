-- ===== src/Linkhash/Delete.antt =====
-- `lh_table_delete_entry` and `lh_table_delete` on a table that holds its entries.
use uvx.Prelude.{
  ℕ, ◌+◌, ◌-◌, ◌<◌, ◌≡◌, refl, ap, ◌∙◌, inl, inr, List, [], ◌∷◌, ◌++◌, Option, none, some, arith,
  ◌==◌, false, subst, Bool-cases, Option-cases, length-append,
}
use uvx.Memory.{ok, ◌>>=◌, Returns}
use uvx.Linkhash.{
  Entry, Table, freed, key, update, unlink, Code, success, failure, lh_table_delete_entry,
  lh_table_delete,
}
use uvx.Linkhash.Keys.{Key}
use uvx.Linkhash.Nodes.{
  Node, Apart, Apart-join, Apart-split, Below-split, Below-join, Linked-split, first-append,
  last-append, Distinct-middle, Linked-frame, update_self, update_cell,
}
use uvx.Linkhash.Probe.{Reaches-mono, is_key, is_empty, entry_at_lem}
use uvx.Linkhash.Rep.{remove_node, remove_split, remove_absent, Reached, Rep, Rep-congr, find_node}
use uvx.Linkhash.Lookup.{
  DistinctKeys-middle, slot_key, Reached-split, Reached-join, lookup_entry-find,
}
use uvx.Linkhash.Unlink.{Between, unlink-Unlinked}

module _ {ℓ} {K V : Type ℓ} where
  -- The table between the marking of the slot and the unlinking.
  abbrev marked : Table K V → ℕ → Table K V
  marked t n = record t {
    count = t.count - 1;
    slots = update t.slots n (record (t.slots n) { v = none; k = freed });
  }

  -- The table with the links of the slot cleared.
  abbrev cleared : Table K V → ℕ → Table K V
  cleared t n = record t {
    slots = update t.slots n (record (t.slots n) { next = none; prev = none });
  }

  delete_run :
      (t : Table K V) (n : ℕ) (k : K) (t2 : Table K V)
      → n < t.size
      → (t.slots n).k ≡ key k
      → unlink (marked t n) n ≡ ok t2
      → t2.size ≡ t.size
      → lh_table_delete_entry t n ≡ ok (success, cleared t2 n)
  unfolding lh_table_delete_entry
  delete_run t n k t2 h e run size =
      rw (entry_at_lem t n h, ◌>>=◌, e) (rw (run, ◌>>=◌) (rw (entry_at_lem t2 n (rw size h))))

module _ {ℓ} {K V : Type ℓ} ⦃fns : Key K⦄ where
  pub Reached-mono :
      (s s' : ℕ → Entry K V) (size : ℕ) (ns : List (Node K V))
      → ((m : ℕ) → is_empty (s m).k ≡ false → is_empty (s' m).k ≡ false)
      → Reached s size ns
      → Reached s' size ns
  Reached-mono s s' size [] keep r = tt
  Reached-mono s s' size (x ∷ xs) keep ((d, h, r), rs) =
      ((d, h, Reaches-mono s s' size _ d x.at keep r), Reached-mono s s' size xs keep rs)

  module _ {t : Table K V} (xs : List (Node K V)) (x : Node K V) (ys : List (Node K V))
      (rep : Rep t (xs ++ x ∷ ys)) where
    marked-Between : Between (marked t x.at) xs x.at ys
    marked-Between =
        let (before, (e, after)) = Linked-split t.slots none xs (x ∷ ys) none rep.run in
        let (left, right, rest) = Distinct-middle xs x ys rep.distinct in
        let (below_xs, (inside, below_ys)) = Below-split t.size xs (x ∷ ys) rep.below in
        let mark = record (t.slots x.at) { v = none; k = freed } in
        record {
          head = rep.head ∙ first-append xs (x ∷ ys) none;
          tail = rep.tail ∙ last-append none xs (x ∷ ys);
          before = Linked-frame t.slots x.at mark none xs (some x.at) left before;
          after = Linked-frame t.slots x.at mark (some x.at) ys none right after;
          next =
              ap (λ (y : Entry K V). y.next) (update_self t.slots x.at mark)
              ∙ ap (λ (y : Entry K V). y.next) e;
          prev =
              ap (λ (y : Entry K V). y.prev) (update_self t.slots x.at mark)
              ∙ ap (λ (y : Entry K V). y.prev) e;
          apart_before = left;
          apart_after = right;
          distinct = rest;
          below = Below-join t.size xs ys below_xs below_ys;
          inside = inside;
        }

    marked_cell :
        (m : ℕ) → is_empty (t.slots m).k ≡ false → is_empty ((marked t x.at).slots m).k ≡ false
    marked_cell m e = elim (Bool-cases (x.at == m)) [ inl same ↦ rw same | inr other ↦ rw other e ]

    Apart-others : (m : ℕ) → (x.at == m) ≡ false → Apart m (xs ++ ys) → Apart m (xs ++ x ∷ ys)
    Apart-others m other a =
        let (b, c) = Apart-split m xs ys a in
        Apart-join m xs (x ∷ ys) b ((λ e. absurd (ground (arith, e, other))), c)

    marked_vacant :
        (m : ℕ) → m < t.size → Apart m (xs ++ ys) → is_key ((marked t x.at).slots m).k ≡ false
    marked_vacant m h a = elim (Bool-cases (x.at == m)) [
      | inl same ↦ rw same
      | inr other ↦ rw other (rep.vacant m h (Apart-others m other a))
    ]

    -- `lh_table_delete_entry` on the slot of an entry returns 0 and removes that entry alone; the
    -- others keep their slots, values and order.
    pub delete_entry-Rep :
        Returns
          (lh_table_delete_entry t x.at)
          λ r. (r.0 ≡ success) × Rep r.1 (xs ++ ys) × (r.1.size ≡ t.size)
    delete_entry-Rep =
        let b = marked-Between in
        let (t2, run, u) = unlink-Unlinked (marked t x.at) xs x.at ys b in
        let key_there = slot_key t.slots none none xs x ys rep.run in
        let (_, _, keys) = DistinctKeys-middle xs x ys rep.keys in
        let (r_xs, (_, r_ys)) = Reached-split t.slots t.size xs (x ∷ ys) rep.reached in
        let cell : (m : ℕ) → ((cleared t2 x.at).slots m).k ≡ ((marked t x.at).slots m).k =
          λ m. update_cell t2.slots x.at m _ refl ∙ u.cells m in
        (
          (success, cleared t2 x.at),
          delete_run t x.at x.k t2 b.inside key_there run u.size,
          (
            refl,
            record {
              positive = rw u.size rep.positive;
              head = u.head;
              tail = u.tail;
              run =
                  Linked-frame t2.slots x.at _ none (xs ++ ys) none
                    (Apart-join x.at xs ys b.apart_before b.apart_after) u.run;
              counted =
                  omega
                    (arith, u.count, rep.counted, length-append xs (x ∷ ys), length-append xs ys);
              below = rw u.size b.below;
              distinct = b.distinct;
              keys = keys;
              reached = rw u.size (
                  Reached-mono t.slots (cleared t2 x.at).slots t.size (xs ++ ys)
                    (λ m e. rw (cell m) (marked_cell m e))
                    (Reached-join t.slots t.size xs ys r_xs r_ys));
              vacant = λ m h a. rw (cell m) (marked_vacant m (rw u.size at h) a);
            },
            u.size,
          ),
        )

abbrev pub code_of {ℓ} : {A : Type ℓ} → Option A → Code
code_of none = failure
code_of (some _) = success

module _ {ℓ} {K V : Type ℓ} ⦃fns : Key K⦄ where
  -- `lh_table_delete` removes the entry with the key and returns 0, or returns -1 if there is none;
  -- the other entries keep their slots, values and order.
  pub delete-Rep :
      {t : Table K V} {ns : List (Node K V)}
      → Rep t ns
      → (k : K)
      → Returns
          (lh_table_delete t k)
          λ r. (r.0 ≡ code_of (find_node k ns)) × Rep r.1 (remove_node k ns) × (r.1.size ≡ t.size)
  unfolding lh_table_delete
  delete-Rep {t} {ns} rep k = elim (Option-cases (find_node k ns)) [
    | inl e ↦ (
      (failure, record t { lookups = t.lookups + 1 }),
      rw (lookup_entry-find rep k, ◌>>=◌, e),
      (rw e, rw (remove_absent k ns e) (Rep-congr refl refl refl refl refl rep), refl),
    )
    | inr (x, e) ↦
        let (xs, ys, split, removed) = remove_split k ns x e in
        let rep' =
          subst (Rep (record t { lookups = t.lookups + 1 })) split
            (Rep-congr refl refl refl refl refl rep) in
        let (r, run, (done, after, size)) = delete_entry-Rep xs x ys rep' in
        (r, rw (lookup_entry-find rep k, ◌>>=◌, e) run, (rw e done, rw removed after, size))
  ]
