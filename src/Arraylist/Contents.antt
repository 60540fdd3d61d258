-- ===== src/Arraylist/Contents.antt =====
-- What `array_list_add` and `array_list_put_idx` do to the contents of an array.
use uvx.Prelude.{
  ℕ, zero, suc, ◌+◌, ◌-◌, ◌*◌, ◌≤◌, ◌<◌, ◌≡◌, refl, sym, ap, ◌∙◌, max, Bool, true, false, List, [],
  ◌∷◌, ◌++◌, Option, none, arith, length, set, get_or, get_or-append_right, inl, inr, ◌⊎◌,
  replicate, ltb, length-append, length-replicate, append-nil,
}
use uvx.Memory.{ok, fault, ◌>>=◌, out_of_bounds, Returns}
use uvx.Arraylist.{ArrayList, array_list_put_idx, array_list_add, array_list_expand_internal, slot}

module _ {A : Type 0} where
  -- The array has the pointers `xs`, and null pointers behind them.
  pub record Holds (arr : ArrayList A) (xs : List (Option A)) : Type 0 where
    pub spare : ℕ
    pub stored : arr.array ≡ xs ++ replicate spare none
    pub counted : arr.length ≡ length xs
    pub sized : arr.size ≡ length xs + spare
    pub positive : 0 < arr.size

  set-append :
      (xs : List (Option A)) (i : ℕ) (old item : Option A) (ys : List (Option A))
      → i ≡ length xs
      → set (xs ++ old ∷ ys) i item ≡ (xs ++ item ∷ []) ++ ys
  set-append [] zero old item ys e = refl
  set-append [] (suc i) old item ys e = absurd (omega arith)
  set-append (x ∷ xs) zero old item ys e = absurd (omega arith)
  set-append (x ∷ xs) (suc i) old item ys e = ap (◌∷◌ x) (set-append xs i old item ys (omega arith))

  pub get_or-behind :
      (xs ys : List (Option A)) (i : ℕ) (old : Option A)
      → i ≡ length xs
      → get_or (xs ++ old ∷ ys) i none ≡ old
  get_or-behind xs ys i old e = get_or-append_right xs (old ∷ ys) i 0 none (omega arith)

  pub slot_lem :
      (arr : ArrayList A) (i : ℕ) → i < length arr.array → slot arr i ≡ ok (get_or arr.array i none)
  unfolding slot
  slot_lem arr i h = ground arith

  slot-fault : (arr : ArrayList A) (i : ℕ) → length arr.array ≤ i → slot arr i ≡ fault out_of_bounds
  unfolding slot
  slot-fault arr i h = ground arith

  -- The array behind a pointer that was stored where a null pointer was.
  abbrev stored_at : ArrayList A → ℕ → Option A → ArrayList A
  stored_at arr idx item = record arr {
    array = set arr.array idx item;
    length = max arr.length (idx + 1);
  }

  put_run :
      (arr arr1 : ArrayList A) (idx : ℕ) (item : Option A) (room : Bool)
      → array_list_expand_internal arr idx room ≡ (true, arr1)
      → slot arr1 idx ≡ ok none
      → array_list_put_idx arr idx item room ≡ ok (true, stored_at arr1 idx item)
  unfolding array_list_put_idx
  put_run arr arr1 idx item room e f =
      rw (e, f, ◌>>=◌) (ap (λ r. ok (true, stored_at r.1 idx item)) e)

  put_fault :
      (arr arr1 : ArrayList A) (idx : ℕ) (item : Option A) (room : Bool)
      → array_list_expand_internal arr idx room ≡ (true, arr1)
      → slot arr1 idx ≡ fault out_of_bounds
      → array_list_put_idx arr idx item room ≡ fault out_of_bounds
  unfolding array_list_put_idx
  put_fault arr arr1 idx item room e f = rw (e, f)

  -- The array with room for `new_size` pointers.
  abbrev widened : ArrayList A → ℕ → ArrayList A
  widened arr new_size = record arr {
    array = arr.array ++ replicate (new_size - arr.size) none;
    size = new_size;
  }

  expand_none :
      (arr : ArrayList A) (mx : ℕ)
      → mx < arr.size
      → array_list_expand_internal arr mx true ≡ (true, arr)
  unfolding array_list_expand_internal
  expand_none arr mx h = let few : ltb mx arr.size ≡ true = ground arith in rw few

  expand_more :
      (arr : ArrayList A) (mx new_size : ℕ)
      → arr.size ≤ mx
      → max (arr.size * 2) mx ≡ new_size
      → array_list_expand_internal arr mx true ≡ (true, widened arr new_size)
  unfolding array_list_expand_internal
  expand_more arr mx new_size h e =
      let many : ltb mx arr.size ≡ false = ground arith in rw (many, e)

  pub length-stored :
      {arr : ArrayList A} {xs : List (Option A)} → (h : Holds arr xs) → length arr.array ≡ arr.size
  length-stored {arr} {xs} h =
      ap length h.stored
      ∙ length-append xs (replicate h.spare none)
      ∙ ap (λ n. length xs + n) (length-replicate h.spare none)
      ∙ sym h.sized

  -- `array_list_put_idx` at twice the size or beyond, although there is memory, writes past the end: the
  -- array grows to `idx` pointers, and index `idx` is not one of them.
  pub put_idx_overflow :
      (arr : ArrayList A) (xs : List (Option A)) (idx : ℕ) (item : Option A)
      → Holds arr xs
      → arr.size * 2 ≤ idx
      → array_list_put_idx arr idx item true ≡ fault out_of_bounds
  put_idx_overflow arr xs idx item h far =
      put_fault arr (widened arr idx) idx item true
        (expand_more arr idx idx (omega arith) (omega arith))
        (slot-fault (widened arr idx) idx (
          omega (
            arith,
            length-append arr.array (replicate (idx - arr.size) none),
            length-replicate {A = Option A} (idx - arr.size) none,
            length-stored h,
          )))

  -- A pointer stored behind the others, where there is room.
  stored_at-Holds :
      (arr : ArrayList A) (xs : List (Option A)) (item : Option A) (n : ℕ)
      → arr.array ≡ xs ++ none ∷ replicate n none
      → arr.length ≡ length xs
      → arr.size ≡ length xs + suc n
      → Holds (stored_at arr arr.length item) (xs ++ item ∷ [])
  stored_at-Holds arr xs item n e counted sized = record {
    spare = n;
    stored =
        ap (λ l. set l arr.length item) e
        ∙ set-append xs arr.length none item (replicate n none) counted;
    counted = omega (arith, length-append xs (item ∷ []), counted);
    sized = omega (arith, length-append xs (item ∷ []), sized);
    positive = omega (arith, sized);
  }

  slot_behind :
      (arr : ArrayList A) (xs ys : List (Option A)) (i : ℕ)
      → arr.array ≡ xs ++ none ∷ ys
      → i ≡ length xs
      → slot arr i ≡ ok none
  slot_behind arr xs ys i e f =
      slot_lem arr i (omega (arith, ap length e, length-append xs (none ∷ ys)))
      ∙ ap (λ l. ok (get_or l i none)) e
      ∙ ap ok (get_or-behind xs ys i none f)

  add_run :
      (arr arr1 : ArrayList A) (item : Option A)
      → array_list_put_idx arr arr.length item true ≡ ok (true, arr1)
      → array_list_add arr item true ≡ ok (true, arr1)
  unfolding array_list_add
  add_run arr arr1 item e = e

  -- `array_list_add` with memory left appends the pointer, frees nothing, and ends normally, whether or
  -- not the array is full.
  pub add-Holds :
      (arr : ArrayList A) (xs : List (Option A)) (item : Option A)
      → Holds arr xs
      → Returns
          (array_list_add arr item true)
          λ r. (r.0 ≡ true) × Holds r.1 (xs ++ item ∷ []) × (r.1.freed ≡ arr.freed)
  add-Holds arr xs item h = elim (split h.spare) [
    | inr (n, e) ↦
        let array = h.stored ∙ ap (λ k. xs ++ replicate k none) e in
        (
          (true, stored_at arr arr.length item),
          add_run arr _ item (
              put_run arr arr arr.length item true
                (expand_none arr arr.length (omega (arith, e, h.counted, h.sized)))
                (slot_behind arr xs (replicate n none) arr.length array h.counted)),
          (refl, stored_at-Holds arr xs item n array h.counted (omega (arith, h.sized, e)), refl),
        )
    | inl e ↦
        let new_size = arr.size * 2 in
        let n = arr.size - 1 in
        let more : new_size - arr.size ≡ suc n = omega (arith, h.positive) in
        let all : arr.array ≡ xs = h.stored ∙ ap (λ k. xs ++ replicate k none) e ∙ append-nil xs in
        let array : arr.array ++ replicate (new_size - arr.size) none
            ≡ xs ++ none ∷ replicate n none =
          ap (λ l. l ++ replicate (new_size - arr.size) none) all
          ∙ ap (λ k. xs ++ replicate k none) more in
        let arr1 = widened arr new_size in
        (
          (true, stored_at arr1 arr.length item),
          add_run arr _ item (
              put_run arr arr1 arr.length item true
                (expand_more arr arr.length new_size (omega (arith, e, h.counted, h.sized))
                  (omega (arith, e, h.counted, h.sized)))
                (slot_behind arr1 xs (replicate n none) arr.length array h.counted)),
          (
            refl,
            stored_at-Holds arr1 xs item n array h.counted (omega (arith, h.sized, e, h.positive)),
            refl,
          ),
        )
  ]
    where
      split : (n : ℕ) → (n ≡ 0) ⊎ ((m : ℕ) × (n ≡ suc m))
      split zero = inl refl
      split (suc m) = inr (m, refl)
