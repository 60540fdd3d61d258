-- ===== src/Linkhash/Place.antt =====
-- `lh_table_insert` behind its test of the load: probing for a free slot, and the append to the list.
use uvx.Prelude.{
  ℕ, zero, suc, ◌+◌, ◌%◌, ◌<◌, ◌≡◌, ◌≢◌, refl, sym, ap, ◌∙◌, inl, inr, List, [], ◌∷◌, ◌++◌, Option,
  none, some, arith, length, ◌==◌, true, false, subst, Bool-cases, ==_iff, length-append,
}
use uvx.Memory.{ok, ◌>>=◌, Returns}
use uvx.Linkhash.{Entry, Table, key, update, next_slot, probe_from, append_entry}
use uvx.Linkhash.Keys.{Key}
use uvx.Linkhash.Nodes.{
  Node, first, Linked, Apart, Apart-join, Apart-split, Below-join, last-append, Distinct-snoc,
}
use uvx.Linkhash.Probe.{
  Reaches, is_key, is_empty, entry_at_lem, Missing, Cell-cases, distance, next_slot-lt,
  distance-next_slot,
}
use uvx.Linkhash.Rep.{Other, DistinctKeys, Rep, Apart-or_split}
use uvx.Linkhash.Lookup.{slot_key, Reached-join, Other-join}
use uvx.Linkhash.Delete.{Reached-mono}

module _ {ℓ} {K V : Type ℓ} where
  -- With fewer entries than slots, some slot is free.
  pub free_slot :
      (size : ℕ) (ns : List (Node K V)) → length ns < size → (f : ℕ) × (f < size) × Apart f ns
  free_slot zero ns h = absurd (omega arith)
  free_slot (suc n) ns h = elim (Apart-or_split n ns) [
    | inl a ↦ (n, omega arith, a)
    | inr (xs, x, ys, split, e) ↦
        let (f, small, a) =
          free_slot n (xs ++ ys)
            (omega (arith, ap length split, length-append xs (x ∷ ys), length-append xs ys)) in
        let (b, c) = Apart-split f xs ys a in
        (f, omega arith, subst (Apart f) (sym split) (Apart-join f xs (x ∷ ys) b (omega arith, c)))
  ]

module _ {ℓ} {K V : Type ℓ} ⦃fns : Key K⦄ where
  probe_stop :
      (fuel : ℕ) (t : Table K V) (k : K) (n : ℕ)
      → n < t.size
      → is_key (t.slots n).k ≡ false
      → probe_from (suc fuel) t k n ≡ ok (n, t)
  unfolding probe_from
  probe_stop fuel t k n h e = elim (Cell-cases (t.slots n).k) [
    | inl c ↦ rw (entry_at_lem t n h, c)
    | inr (inl c) ↦ rw (entry_at_lem t n h, c)
    | inr (inr (k', c)) ↦ absurd (let f : is_key (t.slots n).k ≡ true = ap is_key c in cc)
  ]

  probe_pass :
      (fuel : ℕ) (t : Table K V) (k k' : K) (n : ℕ)
      → n < t.size
      → (t.slots n).k ≡ key k'
      → fns.equal_fn k' k ≡ false
      → probe_from (suc fuel) t k n
        ≡ probe_from fuel (record t { collisions = t.collisions + 1 }) k (next_slot t.size n)
  unfolding probe_from
  probe_pass fuel t k k' n h e ne = rw (entry_at_lem t n h, e, ne)

  -- Where a search for a free slot ends.
  pub record Free (t : Table K V) (n fuel : ℕ) (r : ℕ × Table K V) : Type ℓ where
    pub collisions : ℕ
    pub same : r.1 ≡ record t { collisions = collisions }
    pub inside : r.0 < t.size
    pub free : is_key (t.slots r.0).k ≡ false
    pub steps : ℕ
    pub few : steps < fuel
    pub reached : Reaches t.slots t.size n steps r.0

  pub probe_from-Free :
      (fuel : ℕ) (t : Table K V) (k : K) (n f : ℕ)
      → n < t.size
      → f < t.size
      → is_key (t.slots f).k ≡ false
      → distance t.size n f < fuel
      → Missing t k
      → Returns (probe_from fuel t k n) (Free t n fuel)
  probe_from-Free zero t k n f hn hf free near miss = absurd (omega arith)
  probe_from-Free (suc fuel) t k n f hn hf free near miss =
      elim (Bool-cases (is_key (t.slots n).k)) [
        | inr stop ↦ (
          (n, t),
          probe_stop fuel t k n hn stop,
          record {
            collisions = t.collisions;
            same = refl;
            inside = hn;
            free = stop;
            steps = 0;
            few = omega arith;
            reached = refl;
          },
        )
        | inl taken ↦ elim (Cell-cases (t.slots n).k) [
          | inl c ↦ absurd (let g : is_key (t.slots n).k ≡ false = ap is_key c in cc)
          | inr (inl c) ↦ absurd (let g : is_key (t.slots n).k ≡ false = ap is_key c in cc)
          | inr (inr (k', c)) ↦
              let ne : n ≢ f = λ e. absurd (
                let g : is_key (t.slots n).k ≡ false = ap (λ m. is_key (t.slots m).k) e ∙ free in
                cc) in
              let (r, run, w) =
                probe_from-Free fuel (record t { collisions = t.collisions + 1 }) k
                  (next_slot t.size n) f (next_slot-lt t.size n hn) hf free
                  (omega (arith, distance-next_slot t.size n f hn hf ne)) miss in
              (
                r,
                probe_pass fuel t k k' n hn c (miss n k' hn c) ∙ run,
                record {
                  collisions = w.collisions;
                  same = w.same;
                  inside = w.inside;
                  free = w.free;
                  steps = suc w.steps;
                  few = omega (arith, w.few);
                  reached = (ap is_empty c, w.reached);
                },
              )
        ]
      ]

module _ {ℓ} {K V : Type ℓ} where
  DistinctKeys-snoc :
      (xs : List (Node K V)) (x : Node K V)
      → DistinctKeys xs
      → Other x.k xs
      → DistinctKeys (xs ++ x ∷ [])
  DistinctKeys-snoc [] x d a = (tt, tt)
  DistinctKeys-snoc (z ∷ xs) x (b, d) (ne, a) =
      (Other-join z.k xs (x ∷ []) b ((λ e. ne (sym e)), tt), DistinctKeys-snoc xs x d a)

module _ {ℓ} {K V : Type ℓ} (t : Table K V) (n : ℕ) (k : K) (v : Option V) where
  -- The slots after the stores of `append_entry`, by whether the list was empty.
  abbrev pub filled : ℕ → Entry K V
  filled = update t.slots n (record (t.slots n) { k = key k; v = v })

  abbrev pub alone : Table K V
  alone = record t {
    count = t.count + 1;
    head = some n;
    tail = some n;
    slots = update filled n (record (t.slots n) { k = key k; v = v; next = none; prev = none });
  }

  abbrev pub pointed : ℕ → ℕ → Entry K V
  pointed l = update filled l (record (filled l) { next = some n })

  abbrev pub behind : ℕ → Table K V
  behind l = record t {
    count = t.count + 1;
    tail = some n;
    slots = update (pointed l) n (record (pointed l n) { prev = some l; next = none });
  }

  pub append_alone : n < t.size → t.head ≡ none → append_entry t n k v ≡ ok alone
  unfolding append_entry
  append_alone h e = rw (entry_at_lem t n h, ◌>>=◌, e)

  pub append_behind :
      (l f : ℕ)
      → n < t.size
      → l < t.size
      → t.head ≡ some f
      → t.tail ≡ some l
      → append_entry t n k v ≡ ok (behind l)
  unfolding append_entry
  append_behind l f hn hl e e' =
      let t1 = record t { count = t.count + 1; slots = filled } in
      let t2 = record t1 { slots = pointed l } in
      rw (entry_at_lem t n hn, ◌>>=◌, e, e')
        (rw (entry_at_lem t1 l hl, ◌>>=◌) (rw (entry_at_lem t2 n hn, ◌>>=◌, e, e')))

module _ {ℓ} {K V : Type ℓ} ⦃fns : Key K⦄ {t : Table K V} {ns : List (Node K V)}
    (rep : Rep t ns) where
  -- A table with one more entry at the end of its list, in a slot that was free.
  pub Rep-snoc :
      (t' : Table K V) (x : Node K V)
      → t'.size ≡ t.size
      → t'.count ≡ t.count + 1
      → t'.head ≡ first (ns ++ x ∷ []) none
      → t'.tail ≡ some x.at
      → Linked t'.slots none (ns ++ x ∷ []) none
      → x.at < t.size
      → Apart x.at ns
      → Other x.k ns
      → ((d : ℕ) × (d < t.size) × Reaches t.slots t.size (fns.hash_fn x.k % t.size) d x.at)
      → ((m : ℕ) → x.at ≢ m → (t'.slots m).k ≡ (t.slots m).k)
      → Rep t' (ns ++ x ∷ [])
  Rep-snoc t' x size count head tail run inside apart other reach cells =
      let keep : (m : ℕ) → is_empty (t.slots m).k ≡ false → is_empty (t'.slots m).k ≡ false = λ m e.
        elim (Bool-cases (x.at == m)) [
          | inl same ↦
              subst (λ j. is_empty (t'.slots j).k ≡ false) ((==_iff x.at m).0 same)
                (ap is_empty (slot_key t'.slots none none ns x [] run))
          | inr ne ↦ rw (cells m (λ f. absurd (ground (arith, f, ne)))) e
        ] in
      record {
        positive = rw size rep.positive;
        head = head;
        tail = tail ∙ sym (last-append none ns (x ∷ []));
        run = run;
        counted = omega (arith, count, rep.counted, length-append ns (x ∷ []));
        below = rw size (Below-join t.size ns (x ∷ []) rep.below (inside, tt));
        distinct = Distinct-snoc ns x rep.distinct apart;
        keys = DistinctKeys-snoc ns x rep.keys other;
        reached = rw size (
            Reached-mono t.slots t'.slots t.size (ns ++ x ∷ []) keep
              (Reached-join t.slots t.size ns (x ∷ []) rep.reached (reach, tt)));
        vacant = λ m h a.
            let (b, (ne, _)) = Apart-split m ns (x ∷ []) a in
            rw (cells m (λ f. ne (sym f))) (rep.vacant m (rw size at h) b);
      }
