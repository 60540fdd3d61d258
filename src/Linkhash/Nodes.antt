-- ===== src/Linkhash/Nodes.antt =====
-- Runs of linked entries: which slots they use, and how a write to one slot changes them.
use uvx.Prelude.{
  Bool-cases, ==_iff, ℕ, ◌<◌, ◌≡◌, ◌≢◌, refl, sym, ap, ◌∙◌, inl, inr, List, [], ◌∷◌, ◌++◌, Option,
  some, arith, ◌==◌,
}
use uvx.Linkhash.{Entry, key, update}

-- A linked entry: its slot, key and value.
pub record Node {ℓ} (K V : Type ℓ) : Type ℓ where
  pub at : ℕ
  pub k : K
  pub v : Option V

module _ {ℓ} {K V : Type ℓ} where
  -- A pointer to the first entry, or else what follows the run.
  abbrev pub first : List (Node K V) → Option ℕ → Option ℕ
  first [] q = q
  first (x ∷ xs) q = some x.at

  -- A pointer to the last entry, or else what precedes the run.
  abbrev pub last : Option ℕ → List (Node K V) → Option ℕ
  last p [] = p
  last p (x ∷ xs) = last (some x.at) xs

  -- What an entry of the run contains.
  abbrev pub linked : Node K V → Option ℕ → Option ℕ → Entry K V
  linked x q p = record { k = key x.k; v = x.v; next = q; prev = p }

  -- The entries of the run are in their slots, linked both ways between `p` and `q`.
  abbrev pub Linked : (ℕ → Entry K V) → Option ℕ → List (Node K V) → Option ℕ → Type ℓ
  Linked s p [] q = Unit
  Linked s p (x ∷ xs) q = (s x.at ≡ linked x (first xs q) p) × Linked s (some x.at) xs q

  -- Slot `n` is none of the run's.
  abbrev pub Apart : ℕ → List (Node K V) → Type 0
  Apart n [] = Unit
  Apart n (x ∷ xs) = (n ≢ x.at) × Apart n xs

  abbrev pub Distinct : List (Node K V) → Type 0
  Distinct [] = Unit
  Distinct (x ∷ xs) = Apart x.at xs × Distinct xs

  pub first-append :
      (xs ys : List (Node K V)) (q : Option ℕ) → first (xs ++ ys) q ≡ first xs (first ys q)
  first-append [] ys q = refl
  first-append (x ∷ xs) ys q = refl

  pub last-append :
      (p : Option ℕ) (xs ys : List (Node K V)) → last p (xs ++ ys) ≡ last (last p xs) ys
  last-append p [] ys = refl
  last-append p (x ∷ xs) ys = last-append (some x.at) xs ys

  pub Linked-split :
      (s : ℕ → Entry K V) (p : Option ℕ) (xs ys : List (Node K V)) (q : Option ℕ)
      → Linked s p (xs ++ ys) q
      → Linked s p xs (first ys q) × Linked s (last p xs) ys q
  Linked-split s p [] ys q r = (tt, r)
  Linked-split s p (x ∷ xs) ys q (e, r) =
      let (a, b) = Linked-split s (some x.at) xs ys q r in
      ((e ∙ ap (λ o. linked x o p) (first-append xs ys q), a), b)

  pub Linked-join :
      (s : ℕ → Entry K V) (p : Option ℕ) (xs ys : List (Node K V)) (q : Option ℕ)
      → Linked s p xs (first ys q)
      → Linked s (last p xs) ys q
      → Linked s p (xs ++ ys) q
  Linked-join s p [] ys q a b = b
  Linked-join s p (x ∷ xs) ys q (e, a) b = (
    e ∙ ap (λ o. linked x o p) (sym (first-append xs ys q)),
    Linked-join s (some x.at) xs ys q a b,
  )

  pub update_ne : (s : ℕ → Entry K V) (n m : ℕ) (e : Entry K V) → n ≢ m → update s n e m ≡ s m
  update_ne s n m e h = ground arith

  pub update_self : (s : ℕ → Entry K V) (n : ℕ) (e : Entry K V) → update s n e n ≡ e
  update_self s n e = ground arith

  -- A write that keeps the key of its slot keeps every key.
  pub update_cell :
      (s : ℕ → Entry K V) (n m : ℕ) (e : Entry K V) → e.k ≡ (s n).k → (update s n e m).k ≡ (s m).k
  update_cell s n m e h = elim (Bool-cases (n == m)) [
    | inl same ↦ rw same (h ∙ ap (λ j. (s j).k) ((==_iff n m).0 same))
    | inr other ↦ rw other
  ]

  -- A write to another slot leaves the run as it is.
  pub Linked-frame :
      (s : ℕ → Entry K V) (n : ℕ) (e : Entry K V) (p : Option ℕ) (xs : List (Node K V))
      (q : Option ℕ)
      → Apart n xs
      → Linked s p xs q
      → Linked (update s n e) p xs q
  Linked-frame s n e p [] q a r = tt
  Linked-frame s n e p (x ∷ xs) q (ne, a) (eq, r) =
      (update_ne s n x.at e ne ∙ eq, Linked-frame s n e (some x.at) xs q a r)

  -- `->prev = p'` at the first entry of a run.
  pub Linked-set_first :
      (s : ℕ → Entry K V) (p p' : Option ℕ) (x : Node K V) (xs : List (Node K V)) (q : Option ℕ)
      → Apart x.at xs
      → Linked s p (x ∷ xs) q
      → Linked (update s x.at (record (s x.at) { prev = p' })) p' (x ∷ xs) q
  Linked-set_first s p p' x xs q a (e, r) = (
    update_self s x.at _ ∙ ap (λ (y : Entry K V). record y { prev = p' }) e,
    Linked-frame s x.at _ (some x.at) xs q a r,
  )

  -- `->next = q'` at the last entry of a run.
  pub Linked-set_last :
      (s : ℕ → Entry K V) (p : Option ℕ) (xs : List (Node K V)) (x : Node K V) (q q' : Option ℕ)
      → Apart x.at xs
      → Linked s p (xs ++ x ∷ []) q
      → Linked (update s x.at (record (s x.at) { next = q' })) p (xs ++ x ∷ []) q'
  Linked-set_last s p xs x q q' a r =
      let (before, (e, _)) = Linked-split s p xs (x ∷ []) q r in
      Linked-join _ p xs (x ∷ []) q' (Linked-frame s x.at _ p xs (some x.at) a before)
        (update_self s x.at _ ∙ ap (λ (y : Entry K V). record y { next = q' }) e, tt)

  pub Apart-split : (n : ℕ) (xs ys : List (Node K V)) → Apart n (xs ++ ys) → Apart n xs × Apart n ys
  Apart-split n [] ys a = (tt, a)
  Apart-split n (x ∷ xs) ys (ne, a) = let (b, c) = Apart-split n xs ys a in ((ne, b), c)

  pub Apart-join : (n : ℕ) (xs ys : List (Node K V)) → Apart n xs → Apart n ys → Apart n (xs ++ ys)
  Apart-join n [] ys a b = b
  Apart-join n (x ∷ xs) ys (ne, a) b = (ne, Apart-join n xs ys a b)

  -- What distinctness says of one entry among the others.
  pub Distinct-middle :
      (xs : List (Node K V)) (x : Node K V) (ys : List (Node K V))
      → Distinct (xs ++ x ∷ ys)
      → Apart x.at xs × Apart x.at ys × Distinct (xs ++ ys)
  Distinct-middle [] x ys (a, d) = (tt, a, d)
  Distinct-middle (z ∷ xs) x ys (a, d) =
      let (b, (ne, c)) = Apart-split z.at xs (x ∷ ys) a in
      let (left, right, rest) = Distinct-middle xs x ys d in
      (((λ e. ne (sym e)), left), right, (Apart-join z.at xs ys b c, rest))

  pub Distinct-snoc :
      (xs : List (Node K V)) (x : Node K V) → Distinct xs → Apart x.at xs → Distinct (xs ++ x ∷ [])
  Distinct-snoc [] x d a = (tt, tt)
  Distinct-snoc (z ∷ xs) x (b, d) (ne, a) =
      (Apart-join z.at xs (x ∷ []) b ((λ e. ne (sym e)), tt), Distinct-snoc xs x d a)

  -- Every slot of the run is below `n`.
  abbrev pub Below : ℕ → List (Node K V) → Type 0
  Below n [] = Unit
  Below n (x ∷ xs) = (x.at < n) × Below n xs

  pub Below-split : (n : ℕ) (xs ys : List (Node K V)) → Below n (xs ++ ys) → Below n xs × Below n ys
  Below-split n [] ys b = (tt, b)
  Below-split n (x ∷ xs) ys (h, b) = let (c, d) = Below-split n xs ys b in ((h, c), d)

  pub Below-join : (n : ℕ) (xs ys : List (Node K V)) → Below n xs → Below n ys → Below n (xs ++ ys)
  Below-join n [] ys a b = b
  Below-join n (x ∷ xs) ys (h, a) b = (h, Below-join n xs ys a b)
