-- ===== src/Linkhash/Unlink.antt =====
-- Taking one entry out of the linked list: the four cases of `lh_table_delete_entry`.
use uvx.Prelude.{
  subst, ℕ, ◌<◌, ◌≡◌, ◌≢◌, refl, sym, ◌∙◌, inl, inr, List, [], ◌∷◌, ◌++◌, Option, none, some, arith,
  append_assoc, append-nil, snoc_view,
}
use uvx.Memory.{ok, Returns}
use uvx.Linkhash.{Table, update, unlink}
use uvx.Linkhash.Nodes.{
  Node, first, last, Linked, Apart, Distinct, Below, first-append, last-append, Linked-join,
  Linked-frame, Linked-set_first, Linked-set_last, Apart-split, Distinct-middle, Below-split,
  update_cell,
}

module _ {ℓ} {K V : Type ℓ} where
  unlink_only :
      (t : Table K V) (n : ℕ)
      → t.head ≡ some n
      → t.tail ≡ some n
      → unlink t n ≡ ok (record t { head = none; tail = none })
  unfolding unlink
  unlink_only t n h l = ground arith

  unlink_first :
      (t : Table K V) (n m l : ℕ)
      → t.head ≡ some n
      → t.tail ≡ some l
      → l ≢ n
      → n < t.size
      → m < t.size
      → m ≢ n
      → (t.slots n).next ≡ some m
      → unlink t n
        ≡ ok (record t {
          head = some m;
          slots = update t.slots m (record (t.slots m) { prev = none });
        })
  unfolding unlink
  unlink_first t n m l h e ne hn hm mn nx = ground arith

  unlink_last :
      (t : Table K V) (n j f : ℕ)
      → t.head ≡ some f
      → t.tail ≡ some n
      → f ≢ n
      → n < t.size
      → j < t.size
      → j ≢ n
      → (t.slots n).prev ≡ some j
      → unlink t n
        ≡ ok (record t {
          tail = some j;
          slots = update t.slots j (record (t.slots j) { next = none });
        })
  unfolding unlink
  unlink_last t n j f h e ne hn hj jn pv = ground arith

  unlink_middle :
      (t : Table K V) (n j m f l : ℕ)
      → t.head ≡ some f
      → t.tail ≡ some l
      → f ≢ n
      → l ≢ n
      → n < t.size
      → j < t.size
      → m < t.size
      → j ≢ n
      → (t.slots n).prev ≡ some j
      → (t.slots n).next ≡ some m
      → unlink t n
        ≡ ok (record t {
          slots =
              let s1 = update t.slots j (record (t.slots j) { next = some m }) in
              update s1 m (record (s1 m) { prev = some j });
        })
  unfolding unlink
  unlink_middle t n j m f l h e fn ln hn hj hm jn pv nx = ground arith

  -- The list without the entry `x`; no key changes.
  pub record Unlinked (t : Table K V) (rest : List (Node K V)) (t' : Table K V) : Type ℓ where
    pub head : t'.head ≡ first rest none
    pub tail : t'.tail ≡ last none rest
    pub run : Linked t'.slots none rest none
    pub cells : (m : ℕ) → (t'.slots m).k ≡ (t.slots m).k
    pub size : t'.size ≡ t.size
    pub count : t'.count ≡ t.count

  -- The entry in slot `x.at` stands between `xs` and `ys`.
  pub record Between (t : Table K V) (xs : List (Node K V)) (n : ℕ) (ys : List (Node K V))
      : Type ℓ where
    pub head : t.head ≡ first xs (some n)
    pub tail : t.tail ≡ last (some n) ys
    pub before : Linked t.slots none xs (some n)
    pub after : Linked t.slots (some n) ys none
    pub next : (t.slots n).next ≡ first ys none
    pub prev : (t.slots n).prev ≡ last none xs
    pub apart_before : Apart n xs
    pub apart_after : Apart n ys
    pub distinct : Distinct (xs ++ ys)
    pub below : Below t.size (xs ++ ys)
    pub inside : n < t.size

  last-Apart :
      (n m : ℕ) (ys : List (Node K V))
      → n ≢ m
      → Apart n ys
      → (l : ℕ) × (last (some m) ys ≡ some l) × (l ≢ n)
  last-Apart n m [] ne a = (m, refl, λ e. ne (sym e))
  last-Apart n m (y ∷ ys) ne (ne', a) = last-Apart n y.at ys ne' a

  first-Apart :
      (n : ℕ) (xs : List (Node K V)) (m : ℕ)
      → n ≢ m
      → Apart n xs
      → (f : ℕ) × (first xs (some m) ≡ some f) × (f ≢ n)
  first-Apart n [] m ne a = (m, refl, λ e. ne (sym e))
  first-Apart n (x ∷ xs) m ne (ne', a) = (x.at, refl, λ e. ne' (sym e))

  unlink-Unlinked_first :
      (t : Table K V) (n : ℕ) (ys : List (Node K V))
      → Between t [] n ys
      → Returns (unlink t n) (Unlinked t ys)
  unlink-Unlinked_first t n [] b = (
    record t { head = none; tail = none },
    unlink_only t n b.head b.tail,
    record { head = refl; tail = refl; run = tt; cells = λ m. refl; size = refl; count = refl },
  )
  unlink-Unlinked_first t n (y ∷ ys) b =
      let (l, tail, ln) = last-Apart n y.at ys b.apart_after.0 b.apart_after.1 in
      (
        record t {
          head = some y.at;
          slots = update t.slots y.at (record (t.slots y.at) { prev = none });
        },
        unlink_first t n y.at l b.head (b.tail ∙ tail) ln b.inside b.below.0
            (λ e. b.apart_after.0 (sym e)) b.next,
        record {
          head = refl;
          tail = b.tail;
          run = Linked-set_first t.slots (some n) none y ys none b.distinct.0 b.after;
          cells = λ m. ground arith;
          size = refl;
          count = refl;
        },
      )

  first_snoc :
      (n : ℕ) (zs : List (Node K V)) (z : Node K V) (q : Option ℕ)
      → Apart n (zs ++ z ∷ [])
      → (f : ℕ) × (first (zs ++ z ∷ []) q ≡ some f) × (f ≢ n)
  first_snoc n [] z q (ne, _) = (z.at, refl, λ e. ne (sym e))
  first_snoc n (x ∷ zs) z q (ne, _) = (x.at, refl, λ e. ne (sym e))

  pub first_any :
      (zs : List (Node K V)) (z : Node K V) (q q' : Option ℕ) {o : Option ℕ}
      → first (zs ++ z ∷ []) q ≡ o
      → first (zs ++ z ∷ []) q' ≡ o
  first_any [] z q q' e = e
  first_any (x ∷ zs) z q q' e = e

  pub last_snoc :
      (p : Option ℕ) (zs : List (Node K V)) (z : Node K V) → last p (zs ++ z ∷ []) ≡ some z.at
  last_snoc p zs z = last-append p zs (z ∷ [])

  unlink-Unlinked_last :
      (t : Table K V) (n : ℕ) (zs : List (Node K V)) (z : Node K V)
      → Between t (zs ++ z ∷ []) n []
      → Returns (unlink t n) (Unlinked t (zs ++ z ∷ []))
  unlink-Unlinked_last t n zs z b =
      let (f, head, fn) = first_snoc n zs z (some n) b.apart_before in
      let (az, (zn, _)) = Apart-split n zs (z ∷ []) b.apart_before in
      let (apart_z, _, _) = Distinct-middle zs z [] (rw append-nil at b.distinct) in
      let (_, (below_z, _)) = Below-split t.size zs (z ∷ []) (rw append-nil at b.below) in
      (
        record t {
          tail = some z.at;
          slots = update t.slots z.at (record (t.slots z.at) { next = none });
        },
        unlink_last t n z.at f (b.head ∙ head) b.tail fn b.inside below_z (λ e. zn (sym e))
            (b.prev ∙ last_snoc none zs z),
        record {
          head = b.head ∙ head ∙ sym (first_any zs z (some n) none head);
          tail = sym (last_snoc none zs z);
          run = Linked-set_last t.slots none zs z (some n) none apart_z b.before;
          cells = λ m. ground arith;
          size = refl;
          count = refl;
        },
      )

  unlink-Unlinked_middle :
      (t : Table K V) (n : ℕ) (zs : List (Node K V)) (z y : Node K V) (ys : List (Node K V))
      → Between t (zs ++ z ∷ []) n (y ∷ ys)
      → Returns (unlink t n) (Unlinked t ((zs ++ z ∷ []) ++ y ∷ ys))
  unlink-Unlinked_middle t n zs z y ys b =
      let (f, head, fn) = first_snoc n zs z (some n) b.apart_before in
      let (l, tail, ln) = last-Apart n y.at ys b.apart_after.0 b.apart_after.1 in
      let (_, (zn, _)) = Apart-split n zs (z ∷ []) b.apart_before in
      let (below_zs, (below_y, _)) = Below-split t.size (zs ++ z ∷ []) (y ∷ ys) b.below in
      let (_, (below_z, _)) = Below-split t.size zs (z ∷ []) below_zs in
      let (y_before, y_after, _) = Distinct-middle (zs ++ z ∷ []) y ys b.distinct in
      let (z_before, z_after, _) = Distinct-middle zs z (y ∷ ys) (rw append_assoc at b.distinct) in
      let s1 = update t.slots z.at (record (t.slots z.at) { next = some y.at }) in
      (
        record t { slots = update s1 y.at (record (s1 y.at) { prev = some z.at }) },
        unlink_middle t n z.at y.at f l (b.head ∙ head) (b.tail ∙ tail) fn ln b.inside below_z
            below_y (λ e. zn (sym e)) (b.prev ∙ last_snoc none zs z) b.next,
        record {
          head =
              b.head
              ∙ head
              ∙ sym (first-append (zs ++ z ∷ []) (y ∷ ys) none ∙ first_any zs z (some n) _ head);
          tail = b.tail ∙ sym (last-append none (zs ++ z ∷ []) (y ∷ ys));
          run =
              Linked-join _ none (zs ++ z ∷ []) (y ∷ ys) none
                (Linked-frame s1 y.at _ none (zs ++ z ∷ []) (some y.at) y_before
                  (Linked-set_last t.slots none zs z (some n) (some y.at) z_before b.before))
                (subst
                  (λ p.
                    Linked (update s1 y.at (record (s1 y.at) { prev = some z.at })) p (y ∷ ys) none)
                  (sym (last_snoc none zs z))
                  (Linked-set_first s1 (some n) (some z.at) y ys none y_after
                    (Linked-frame t.slots z.at _ (some n) (y ∷ ys) none z_after b.after)));
          cells = λ m. update_cell s1 y.at m _ refl ∙ update_cell t.slots z.at m _ refl;
          size = refl;
          count = refl;
        },
      )

  unlink-Unlinked_snoc :
      (t : Table K V) (n : ℕ) (zs : List (Node K V)) (z : Node K V) (ys : List (Node K V))
      → Between t (zs ++ z ∷ []) n ys
      → Returns (unlink t n) (Unlinked t ((zs ++ z ∷ []) ++ ys))
  unlink-Unlinked_snoc t n zs z [] b = rw append-nil (unlink-Unlinked_last t n zs z b)
  unlink-Unlinked_snoc t n zs z (y ∷ ys) b = unlink-Unlinked_middle t n zs z y ys b

  -- `lh_table_delete_entry` takes an entry out of the list wherever it stands: the others stay
  -- linked, in their order.
  pub unlink-Unlinked :
      (t : Table K V) (xs : List (Node K V)) (n : ℕ) (ys : List (Node K V))
      → Between t xs n ys
      → Returns (unlink t n) (Unlinked t (xs ++ ys))
  unlink-Unlinked t xs n ys b = elim (snoc_view xs) [
    | inl e ↦
        subst (λ zs. Returns (unlink t n) (Unlinked t (zs ++ ys))) (sym e)
          (unlink-Unlinked_first t n ys (subst (λ zs. Between t zs n ys) e b))
    | inr (zs, z, e) ↦
        subst (λ xs'. Returns (unlink t n) (Unlinked t (xs' ++ ys))) (sym e)
          (unlink-Unlinked_snoc t n zs z ys (subst (λ xs'. Between t xs' n ys) e b))
  ]
