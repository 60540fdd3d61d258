-- ===== src/Linkhash/Probe.antt =====
-- Probing: the slots that a search from a key's home slot passes.
use uvx.Prelude.{
  ℕ, zero, suc, ◌+◌, ◌-◌, ◌<◌, ◌≡◌, ◌≢◌, refl, ap, ◌∙◌, ◌⊎◌, inl, inr, none, some, arith,
  if◌then◌else◌, Bool, true, false, leb, Bool-cases,
}
use uvx.Memory.{ok}
use uvx.Linkhash.{Cell, Entry, Table, empty, freed, key, next_slot, entry_at, lookup_from}
use uvx.Linkhash.Keys.{Key}

abbrev pub is_empty {ℓ} : {K : Type ℓ} → Cell K → Bool
is_empty empty = true
is_empty freed = false
is_empty (key _) = false

abbrev pub is_key {ℓ} : {K : Type ℓ} → Cell K → Bool
is_key empty = false
is_key freed = false
is_key (key _) = true

pub Cell-cases {ℓ} : {K : Type ℓ} (c : Cell K) → (c ≡ empty) ⊎ (c ≡ freed) ⊎ ((k : K) × (c ≡ key k))
Cell-cases empty = inl refl
Cell-cases freed = inr (inl refl)
Cell-cases (key k) = inr (inr (k, refl))

-- How many steps lead from slot `n` to slot `f`, round the end.
abbrev pub distance : ℕ → ℕ → ℕ → ℕ
distance size n f = if leb n f then f - n else f + size - n

pub next_slot-lt : (size n : ℕ) → n < size → next_slot size n < size
next_slot-lt size n h = ground arith

pub distance-next_slot :
    (size n f : ℕ)
    → n < size
    → f < size
    → n ≢ f
    → distance size (next_slot size n) f + 1 ≡ distance size n f
distance-next_slot size n f hn hf ne = ground arith

pub distance-lt : (size n f : ℕ) → n < size → f < size → distance size n f < size
distance-lt size n f hn hf = ground arith

module _ {ℓ} {K V : Type ℓ} where
  pub entry_at_lem : (t : Table K V) (n : ℕ) → n < t.size → entry_at t n ≡ ok (t.slots n)
  unfolding entry_at
  entry_at_lem t n h = ground arith

  -- A search from slot `n` passes `d` slots, none of them empty, and comes to slot `i`.
  abbrev pub Reaches : (ℕ → Entry K V) → ℕ → ℕ → ℕ → ℕ → Type 0
  Reaches s size n zero i = n ≡ i
  Reaches s size n (suc d) i = (is_empty (s n).k ≡ false) × Reaches s size (next_slot size n) d i

  -- Slots that are not empty stay so, and what is reached stays reached.
  pub Reaches-mono :
      (s s' : ℕ → Entry K V) (size n d i : ℕ)
      → ((m : ℕ) → is_empty (s m).k ≡ false → is_empty (s' m).k ≡ false)
      → Reaches s size n d i
      → Reaches s' size n d i
  Reaches-mono s s' size n zero i keep r = r
  Reaches-mono s s' size n (suc d) i keep (e, r) =
      (keep n e, Reaches-mono s s' size (next_slot size n) d i keep r)

module _ {ℓ} {K V : Type ℓ} ⦃fns : Key K⦄ where
  -- The branches of one round of the search.
  lookup_empty :
      (fuel : ℕ) (t : Table K V) (k : K) (n : ℕ)
      → n < t.size
      → (t.slots n).k ≡ empty
      → lookup_from (suc fuel) t k n ≡ ok none
  unfolding lookup_from
  lookup_empty fuel t k n h e = rw (entry_at_lem t n h, e)

  lookup_pass :
      (fuel : ℕ) (t : Table K V) (k : K) (n : ℕ)
      → n < t.size
      → ((t.slots n).k ≡ freed)
        ⊎ ((k' : K) × ((t.slots n).k ≡ key k') × (fns.equal_fn k' k ≡ false))
      → lookup_from (suc fuel) t k n ≡ lookup_from fuel t k (next_slot t.size n)
  unfolding lookup_from
  lookup_pass fuel t k n h (inl e) = rw (entry_at_lem t n h, e)
  lookup_pass fuel t k n h (inr (k', e, ne)) = rw (entry_at_lem t n h, e, ne)

  lookup_hit :
      (fuel : ℕ) (t : Table K V) (k k' : K) (n : ℕ)
      → n < t.size
      → (t.slots n).k ≡ key k'
      → fns.equal_fn k' k ≡ true
      → lookup_from (suc fuel) t k n ≡ ok (some n)
  unfolding lookup_from
  lookup_hit fuel t k k' n h e same = rw (entry_at_lem t n h, e, same)

  -- No slot has the key.
  abbrev pub Missing : Table K V → K → Type ℓ
  Missing t k = (m : ℕ) (k' : K) → m < t.size → (t.slots m).k ≡ key k' → fns.equal_fn k' k ≡ false

  pub lookup_from-Missing :
      (fuel : ℕ) (t : Table K V) (k : K) (n : ℕ)
      → n < t.size
      → Missing t k
      → lookup_from fuel t k n ≡ ok none
  lookup_from-Missing zero t k n h miss = unfold lookup_from in refl
  lookup_from-Missing (suc fuel) t k n h miss =
      let rest = lookup_from-Missing fuel t k (next_slot t.size n) (next_slot-lt t.size n h) miss in
      elim (Cell-cases (t.slots n).k) [
        | inl e ↦ lookup_empty fuel t k n h e
        | inr (inl e) ↦ lookup_pass fuel t k n h (inl e) ∙ rest
        | inr (inr (k', e)) ↦ lookup_pass fuel t k n h (inr (k', e, miss n k' h e)) ∙ rest
      ]

  -- Slot `i` has the key, and no other has.
  pub record Unique (t : Table K V) (k : K) (i : ℕ) : Type ℓ where
    pub here : (t.slots i).k ≡ key k
    pub alone :
        (m : ℕ) (k' : K) → m < t.size → (t.slots m).k ≡ key k' → fns.equal_fn k' k ≡ true → m ≡ i

  pub lookup_from-found :
      (fuel d : ℕ) (t : Table K V) (k : K) (n i : ℕ)
      → n < t.size
      → d < fuel
      → Reaches t.slots t.size n d i
      → Unique t k i
      → lookup_from fuel t k n ≡ ok (some i)
  lookup_from-found zero d t k n i hn hd r u = absurd (omega arith)
  lookup_from-found (suc fuel) zero t k n i hn hd r u =
      lookup_hit fuel t k k n hn (ap (λ m. (t.slots m).k) r ∙ u.here) ((fns.equal_iff k k).1 refl)
      ∙ ap (λ m. ok (some m)) r
  lookup_from-found (suc fuel) (suc d) t k n i hn hd (e, r) u =
      let rest =
        lookup_from-found fuel d t k (next_slot t.size n) i (next_slot-lt t.size n hn) (omega arith)
          r u in
      elim (Cell-cases (t.slots n).k) [
        | inl c ↦ absurd (let f : is_empty (t.slots n).k ≡ true = ap is_empty c in cc)
        | inr (inl c) ↦ lookup_pass fuel t k n hn (inl c) ∙ rest
        | inr (inr (k', c)) ↦ elim (Bool-cases (fns.equal_fn k' k)) [
          | inl same ↦
              lookup_hit fuel t k k' n hn c same ∙ ap (λ m. ok (some m)) (u.alone n k' hn c same)
          | inr other ↦ lookup_pass fuel t k n hn (inr (k', c, other)) ∙ rest
        ]
      ]
