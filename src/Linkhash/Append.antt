-- ===== src/Linkhash/Append.antt =====
-- The end of `lh_table_insert` on a table that holds its entries, and `place` as a whole.
use uvx.Prelude.{
  ℕ, ◌%◌, ◌<◌, ◌≡◌, ◌≢◌, refl, sym, ap, ◌∙◌, inl, inr, List, [], ◌∷◌, ◌++◌, Option, none, some,
  length, true, false, subst, snoc_view,
}
use uvx.Memory.{ok, ◌>>=◌, Returns}
use uvx.Linkhash.{Entry, Table, probe_from, append_entry, place, home_slot}
use uvx.Linkhash.Keys.{Key}
use uvx.Linkhash.Nodes.{
  Node, first, linked, Linked, Apart, Apart-split, Below-split, Linked-join, first-append,
  Linked-frame, Linked-set_last, update_self, update_cell, update_ne, Distinct-middle,
}
use uvx.Linkhash.Probe.{Reaches, is_key, distance-lt}
use uvx.Linkhash.Unlink.{first_any, last_snoc}
use uvx.Linkhash.Rep.{Rep-congr, Other, Rep, Apart-or_split}
use uvx.Linkhash.Lookup.{Other-Missing, home_slot_lem, home-lt, slot_key}
use uvx.Linkhash.Place.{
  Rep-snoc, append_alone, append_behind, filled, alone, pointed, behind, free_slot, probe_from-Free,
}

module _ {ℓ} {K V : Type ℓ} ⦃fns : Key K⦄ where
  -- The entry that is about to be linked.
  record Slot (t : Table K V) (ns : List (Node K V)) (x : Node K V) : Type ℓ where
    inside : x.at < t.size
    free : is_key (t.slots x.at).k ≡ false
    other : Other x.k ns
    reach : (d : ℕ) × (d < t.size) × Reaches t.slots t.size (fns.hash_fn x.k % t.size) d x.at

  Slot-Apart :
      (t : Table K V) (ns : List (Node K V)) (x : Node K V) → Rep t ns → Slot t ns x → Apart x.at ns
  Slot-Apart t ns x rep s = elim (Apart-or_split x.at ns) [
    | inl a ↦ a
    | inr (xs, y, ys, split, e) ↦
        let taken =
          slot_key t.slots none none xs y ys
            (subst (λ l. Linked t.slots none l none) split rep.run) in
        let f : is_key (t.slots x.at).k ≡ true =
          ap (λ m. is_key (t.slots m).k) (sym e) ∙ ap is_key taken in
        absurd (let g = s.free in cc)
  ]

  first-some :
      (zs : List (Node K V)) (z : Node K V) (q : Option ℕ)
      → (f : ℕ) × (first (zs ++ z ∷ []) q ≡ some f)
  first-some [] z q = (z.at, refl)
  first-some (x ∷ zs) z q = (x.at, refl)

  place_run :
      (t : Table K V) (k : K) (v : Option V) (home : ℕ) (r : ℕ × Table K V) (t1 : Table K V)
      {t' : Table K V}
      → home_slot t k ≡ ok home
      → probe_from t.size t k home ≡ ok r
      → r.1 ≡ t1
      → append_entry t1 r.0 k v ≡ ok t'
      → place t k v ≡ ok t'
  unfolding place
  place_run t k v home r t1 e run same run' =
      rw (e, ◌>>=◌) (rw (run, ◌>>=◌) (ap (λ u. append_entry u r.0 k v) same ∙ run'))

  append-Rep_first :
      (t : Table K V) (x : Node K V)
      → Rep t []
      → Slot t [] x
      → Returns (append_entry t x.at x.k x.v) λ t'. Rep t' (x ∷ []) × (t'.size ≡ t.size)
  append-Rep_first t x rep s =
      let fill = filled t x.at x.k x.v in
      (
        alone t x.at x.k x.v,
        append_alone t x.at x.k x.v s.inside rep.head,
        (
          Rep-snoc rep (alone t x.at x.k x.v) x refl refl refl refl (update_self fill x.at _, tt)
              s.inside tt tt s.reach
              (λ m ne.
                ap (λ (y : Entry K V). y.k)
                  (update_ne fill x.at m _ ne ∙ update_ne t.slots x.at m _ ne)),
          refl,
        ),
      )

  append-Rep_snoc :
      (t : Table K V) (zs : List (Node K V)) (z x : Node K V)
      → Rep t (zs ++ z ∷ [])
      → Slot t (zs ++ z ∷ []) x
      → Returns
          (append_entry t x.at x.k x.v)
          λ t'. Rep t' ((zs ++ z ∷ []) ++ x ∷ []) × (t'.size ≡ t.size)
  append-Rep_snoc t zs z x rep s =
      let fill = filled t x.at x.k x.v in
      let point = pointed t x.at x.k x.v z.at in
      let ns = zs ++ z ∷ [] in
      let apart = Slot-Apart t ns x rep s in
      let (_, (xz, _)) = Apart-split x.at zs (z ∷ []) apart in
      let zx : z.at ≢ x.at = λ e. xz (sym e) in
      let (z_before, _, _) = Distinct-middle zs z [] rep.distinct in
      let (_, (z_inside, _)) = Below-split t.size zs (z ∷ []) rep.below in
      let (f, head) = first-some zs z none in
      (
        behind t x.at x.k x.v z.at,
        append_behind t x.at x.k x.v z.at f s.inside z_inside (rep.head ∙ head)
            (rep.tail ∙ last_snoc none zs z),
        (
          Rep-snoc rep (behind t x.at x.k x.v z.at) x refl refl
              (rep.head ∙ head ∙ sym (first-append ns (x ∷ []) none ∙ first_any zs z none _ head))
              refl
              (Linked-join (behind t x.at x.k x.v z.at).slots none ns (x ∷ []) none
                (Linked-frame point x.at _ none ns (some x.at) apart (
                  Linked-set_last fill none zs z none (some x.at) z_before
                    (Linked-frame t.slots x.at _ none ns none apart rep.run)))
                (
                  update_self point x.at _
                      ∙ ap (λ (y : Entry K V). record y { prev = some z.at; next = none })
                          (update_ne fill z.at x.at _ zx ∙ update_self t.slots x.at _)
                      ∙ ap (linked x none) (sym (last_snoc none zs z)),
                  tt,
                ))
              s.inside apart s.other s.reach
              (λ m ne.
                ap (λ (y : Entry K V). y.k) (update_ne point x.at m _ ne)
                ∙ update_cell fill z.at m _ refl
                ∙ ap (λ (y : Entry K V). y.k) (update_ne t.slots x.at m _ ne)),
          refl,
        ),
      )

  append-Rep :
      (t : Table K V) (ns : List (Node K V)) (x : Node K V)
      → Rep t ns
      → Slot t ns x
      → Returns (append_entry t x.at x.k x.v) λ t'. Rep t' (ns ++ x ∷ []) × (t'.size ≡ t.size)
  append-Rep t ns x rep s = elim (snoc_view ns) [
    | inl e ↦
        subst
          (λ l.
            Returns (append_entry t x.at x.k x.v) λ t'. Rep t' (l ++ x ∷ []) × (t'.size ≡ t.size))
          (sym e) (append-Rep_first t x (subst (Rep t) e rep) (subst (λ l. Slot t l x) e s))
    | inr (zs, z, e) ↦
        subst
          (λ l.
            Returns (append_entry t x.at x.k x.v) λ t'. Rep t' (l ++ x ∷ []) × (t'.size ≡ t.size))
          (sym e) (append-Rep_snoc t zs z x (subst (Rep t) e rep) (subst (λ l. Slot t l x) e s))
  ]

  -- What an insertion of a new key adds: an entry with that key and value at the tail.
  pub record Placed (t : Table K V) (ns : List (Node K V)) (k : K) (v : Option V) (t' : Table K V)
      : Type ℓ where
    pub slot : ℕ
    pub rep : Rep t' (ns ++ record { at = slot; k = k; v = v } ∷ [])
    pub size : t'.size ≡ t.size

  pub place-Placed :
      (t : Table K V) (ns : List (Node K V)) (k : K) (v : Option V)
      → Rep t ns
      → Other k ns
      → length ns < t.size
      → Returns (place t k v) (Placed t ns k v)
  place-Placed t ns k v rep other room =
      let (f, small, apart) = free_slot t.size ns room in
      let home = fns.hash_fn k % t.size in
      let (r, run, w) =
        probe_from-Free t.size t k home f (home-lt rep k) small (rep.vacant f small apart)
          (distance-lt t.size home f (home-lt rep k) small) (Other-Missing rep k other) in
      let (t', run', (rep', size)) =
        append-Rep (record t { collisions = w.collisions }) ns (record { at = r.0; k = k; v = v })
          (Rep-congr refl refl refl refl refl rep)
          (record {
            inside = w.inside;
            free = w.free;
            other = other;
            reach = (w.steps, w.few, w.reached);
          }) in
      (
        t',
        place_run t k v home r _ (home_slot_lem rep k) run w.same run',
        record { slot = r.0; rep = rep'; size = size },
      )
