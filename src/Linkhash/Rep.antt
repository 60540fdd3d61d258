-- ===== src/Linkhash/Rep.antt =====
-- The invariant of a table: which entries it holds, in what order, and where.
use uvx.Prelude.{
  ℕ, ◌%◌, ◌<◌, ◌≡◌, ◌≢◌, refl, sym, ap, ◌∙◌, ◌⊎◌, inl, inr, List, [], ◌∷◌, ◌++◌, Option, none, some,
  arith, length, ◌==◌, if◌then◌else◌, false, Bool-cases, ==_iff,
}
use mathlib.Core.Option.{some-injective}
use uvx.Linkhash.{Entry, Table, lh_table_new}
use uvx.Linkhash.Keys.{Key}
use uvx.Linkhash.Nodes.{Node, first, last, Linked, Apart, Distinct, Below}
use uvx.Linkhash.Probe.{Reaches, is_key}

module _ {ℓ} {K V : Type ℓ} where
  -- No entry has the key.
  abbrev pub Other : K → List (Node K V) → Type ℓ
  Other k [] = Unit
  Other k (x ∷ xs) = (k ≢ x.k) × Other k xs

  abbrev pub DistinctKeys : List (Node K V) → Type ℓ
  DistinctKeys [] = Unit
  DistinctKeys (x ∷ xs) = Other x.k xs × DistinctKeys xs

  pub Apart-or_split :
      (n : ℕ) (ns : List (Node K V))
      → Apart n ns
        ⊎ ((xs : List (Node K V)) × (x : Node K V) × (ys : List (Node K V)) × (ns ≡ xs ++ x ∷ ys)
            × (x.at ≡ n))
  Apart-or_split n [] = inl tt
  Apart-or_split n (x ∷ ns) = elim (Bool-cases (x.at == n)) [
    | inl e ↦ inr ([], x, ns, refl, (==_iff x.at n).0 e)
    | inr e ↦ elim (Apart-or_split n ns) [
      | inl a ↦ inl ((λ f. absurd (ground (arith, f))), a)
      | inr (xs, y, ys, split, f) ↦ inr (x ∷ xs, y, ys, ap (◌∷◌ x) split, f)
    ]
  ]

module _ {ℓ} {K V : Type ℓ} ⦃fns : Key K⦄ where
  -- Each entry is found by a search from the home slot of its key.
  abbrev pub Reached : (ℕ → Entry K V) → ℕ → List (Node K V) → Type 0
  Reached s size [] = Unit
  Reached s size (x ∷ xs) =
      ((d : ℕ) × (d < size) × Reaches s size (fns.hash_fn x.k % size) d x.at) × Reached s size xs

  -- The table holds the entries `ns`, from the head of its list to the tail.
  pub record Rep (t : Table K V) (ns : List (Node K V)) : Type ℓ where
    pub positive : 0 < t.size
    pub head : t.head ≡ first ns none
    pub tail : t.tail ≡ last none ns
    pub run : Linked t.slots none ns none
    pub counted : t.count ≡ length ns
    pub below : Below t.size ns
    pub distinct : Distinct ns
    pub keys : DistinctKeys ns
    pub reached : Reached t.slots t.size ns
    pub vacant : (m : ℕ) → m < t.size → Apart m ns → is_key (t.slots m).k ≡ false

  -- The entry of a given key.
  unfoldable pub find_node : K → List (Node K V) → Option (Node K V)
  find_node k [] = none
  find_node k (x ∷ xs) = if fns.equal_fn x.k k then some x else find_node k xs

  pub find_split :
      (k : K) (ns : List (Node K V)) (x : Node K V)
      → find_node k ns ≡ some x
      → (xs : List (Node K V)) × (ys : List (Node K V)) × (ns ≡ xs ++ x ∷ ys) × (x.k ≡ k)
  unfolding find_node
  find_split k [] x e = absurd (cc)
  find_split k (y ∷ ns) x e = elim (Bool-cases (fns.equal_fn y.k k)) [
    | inl same ↦
        let f : y ≡ x = some-injective y x (rw same at e) in
        (
          [],
          ns,
          ap (λ z. z ∷ ns) f,
          ap (λ (z : Node K V). z.k) (sym f) ∙ (fns.equal_iff y.k k).0 same,
        )
    | inr other ↦
        let (xs, ys, split, g) = find_split k ns x (rw other at e) in
        (y ∷ xs, ys, ap (◌∷◌ y) split, g)
  ]

  pub find-Other : (k : K) (ns : List (Node K V)) → find_node k ns ≡ none → Other k ns
  unfolding find_node
  find-Other k [] e = tt
  find-Other k (y ∷ ns) e = elim (Bool-cases (fns.equal_fn y.k k)) [
    | inl same ↦ absurd (let f : some y ≡ none = rw same at e in cc)
    | inr other ↦ (
      (λ f. absurd (let g = (fns.equal_iff y.k k).1 (sym f) in cc)),
      find-Other k ns (rw other at e),
    )
  ]

  -- What a table holds depends on its slots, their number, the ends of its list and its count.
  pub Rep-congr :
      {t t' : Table K V} {ns : List (Node K V)}
      → t'.size ≡ t.size
      → t'.head ≡ t.head
      → t'.tail ≡ t.tail
      → t'.slots ≡ t.slots
      → t'.count ≡ t.count
      → Rep t ns
      → Rep t' ns
  Rep-congr size head tail slots count rep = record {
    positive = rw size rep.positive;
    head = head ∙ rep.head;
    tail = tail ∙ rep.tail;
    run = rw slots rep.run;
    counted = count ∙ rep.counted;
    below = rw size rep.below;
    distinct = rep.distinct;
    keys = rep.keys;
    reached = rw (slots, size) rep.reached;
    vacant = λ m h a. rw slots (rep.vacant m (rw size at h) a);
  }

  -- A new table of at least one slot is empty.
  pub new-Rep : (size : ℕ) → 0 < size → Rep (lh_table_new size) []
  unfolding lh_table_new
  new-Rep size h = record {
    positive = h;
    head = refl;
    tail = refl;
    run = tt;
    counted = refl;
    below = tt;
    distinct = tt;
    keys = tt;
    reached = tt;
    vacant = λ m h a. refl;
  }

-- The entries without that of the key.
unfoldable pub remove_node {ℓ} :
    {K V : Type ℓ} ⦃fns : Key K⦄ → K → List (Node K V) → List (Node K V)
remove_node k [] = []
remove_node ⦃fns⦄ k (x ∷ xs) = if fns.equal_fn x.k k then xs else x ∷ remove_node k xs

module _ {ℓ} {K V : Type ℓ} ⦃fns : Key K⦄ where
  -- The first entry with the key, and the entries around it.
  pub remove_split :
      (k : K) (ns : List (Node K V)) (x : Node K V)
      → find_node k ns ≡ some x
      → (xs : List (Node K V)) × (ys : List (Node K V)) × (ns ≡ xs ++ x ∷ ys)
        × (remove_node k ns ≡ xs ++ ys)
  unfolding find_node remove_node
  remove_split k [] x e = absurd (cc)
  remove_split k (y ∷ ns) x e = elim (Bool-cases (fns.equal_fn y.k k)) [
    | inl same ↦
        let f : y ≡ x = some-injective y x (rw same at e) in ([], ns, ap (λ z. z ∷ ns) f, rw same)
    | inr other ↦
        let (xs, ys, split, f) = remove_split k ns x (rw other at e) in
        (y ∷ xs, ys, ap (◌∷◌ y) split, rw other (ap (◌∷◌ y) f))
  ]

  pub remove_absent : (k : K) (ns : List (Node K V)) → find_node k ns ≡ none → remove_node k ns ≡ ns
  unfolding find_node remove_node
  remove_absent k [] e = refl
  remove_absent k (y ∷ ns) e = elim (Bool-cases (fns.equal_fn y.k k)) [
    | inl same ↦ absurd (let f : some y ≡ none = rw same at e in cc)
    | inr other ↦ rw other (ap (◌∷◌ y) (remove_absent k ns (rw other at e)))
  ]
