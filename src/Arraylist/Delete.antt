-- ===== src/Arraylist/Delete.antt =====
-- What `array_list_del_idx` does to the contents of an array.
use uvx.Prelude.{
  ℕ, suc, ◌+◌, ◌-◌, ◌/◌, ◌≤◌, ◌<◌, ◌≡◌, refl, sym, ap, ◌∙◌, subst, Bool, true, false, List, [], ◌∷◌,
  ◌++◌, Option, none, some, arith, length, take, drop, get_or, inl, inr, ◌⊎◌, Bool-cases, ◌||◌,
  ◌==◌, leb, ltb, replicate, length-append, append_assoc, take-append, drop-append,
}
use uvx.Memory.{ok, ◌>>=◌, Returns}
use uvx.Arraylist.{ArrayList, default_size, check_and_free, array_list_del_idx, slot, release}
use uvx.Arraylist.Contents.{Holds, slot_lem, length-stored, get_or-behind}

module _ {A : Type 0} where
  shrunk : ArrayList A → ArrayList A
  shrunk arr = record arr {
    array = take arr.length arr.array ++ replicate (arr.size / 2 - arr.length) none;
    size = arr.size / 2;
  }

  -- The array stays as it is, or is cut to half its size.
  check_and_free_cases :
      (arr : ArrayList A) (room : Bool)
      → (check_and_free arr room ≡ arr)
        ⊎ ((check_and_free arr room ≡ shrunk arr) × (arr.length < arr.size / 2))
  unfolding check_and_free shrunk
  check_and_free_cases arr room =
      elim (Bool-cases (leb arr.size default_size || arr.size == arr.length)) [
        | inl e ↦ inl (rw e refl)
        | inr e ↦ elim (Bool-cases (leb (arr.size / 2) arr.length)) [
          | inl f ↦ inl (rw (e, f) refl)
          | inr f ↦ elim (Bool-cases room) [
            | inl g ↦ inr (rw (e, f, g) refl, ground arith)
            | inr g ↦ inl (rw (e, f, g) refl)
          ]
        ]
      ]

  shrunk-Holds :
      (arr : ArrayList A) (xs : List (Option A))
      → Holds arr xs
      → arr.length < arr.size / 2
      → Holds (shrunk arr) xs
  unfolding shrunk
  shrunk-Holds arr xs h few = record {
    spare = arr.size / 2 - arr.length;
    stored =
        ap (λ l. l ++ replicate (arr.size / 2 - arr.length) none)
          (ap (take arr.length) h.stored
            ∙ take-append xs (replicate h.spare none) arr.length h.counted);
    counted = h.counted;
    sized = omega (arith, h.counted);
    positive = omega arith;
  }

  check_and_free-Holds :
      (arr : ArrayList A) (xs : List (Option A)) (room : Bool)
      → Holds arr xs
      → Holds (check_and_free arr room) xs × ((check_and_free arr room).freed ≡ arr.freed)
  unfolding shrunk
  check_and_free-Holds arr xs room h = elim (check_and_free_cases arr room) [
    | inl e ↦ (subst (λ r. Holds r xs) (sym e) h, ap (λ (r : ArrayList A). r.freed) e)
    | inr (e, few) ↦ (
      subst (λ r. Holds r xs) (sym e) (shrunk-Holds arr xs h few),
      ap (λ (r : ArrayList A). r.freed) e,
    )
  ]

  -- The array after the pointers behind `idx` moved down.
  abbrev moved : ArrayList A → ℕ → List A → ArrayList A
  moved arr idx released =
      let n = arr.length - 1 in
      record arr {
        array =
            (take idx arr.array ++ take (n - idx) (drop (idx + 1) arr.array))
            ++ none ∷ drop (n + 1) arr.array;
        length = n;
        freed = released;
      }

  del_run :
      (arr : ArrayList A) (idx : ℕ) (a : A) (room : Bool)
      → arr.free_fn ≡ true
      → idx < arr.length
      → slot arr idx ≡ ok (some a)
      → arr.length ≤ length arr.array
      → array_list_del_idx arr idx room
        ≡ ok (true, check_and_free (moved arr idx (arr.freed ++ a ∷ [])) room)
  unfolding array_list_del_idx release slot
  del_run arr idx a room free lt e wide =
      let inside : leb arr.length idx ≡ false = ground arith in
      let last : ltb (arr.length - 1) (length arr.array) ≡ true = ground arith in
      rw (inside, e, ◌>>=◌, free, ◌>>=◌, last) refl

  moved-array :
      (array pre post rep : List (Option A)) (old : Option A) (idx n : ℕ)
      → array ≡ (pre ++ old ∷ post) ++ rep
      → idx ≡ length pre
      → n ≡ length pre + length post
      → (take idx array ++ take (n - idx) (drop (idx + 1) array)) ++ none ∷ drop (n + 1) array
        ≡ (pre ++ post) ++ none ∷ rep
  moved-array array pre post rep old idx n e at len =
      let whole : array ≡ pre ++ (old ∷ (post ++ rep)) = e ∙ append_assoc pre (old ∷ post) rep in
      let first_part : take idx array ≡ pre =
        ap (take idx) whole ∙ take-append pre (old ∷ (post ++ rep)) idx at in
      let front : array ≡ (pre ++ old ∷ []) ++ (post ++ rep) =
        whole ∙ sym (append_assoc pre (old ∷ []) (post ++ rep)) in
      let behind : drop (idx + 1) array ≡ post ++ rep =
        ap (drop (idx + 1)) front
        ∙ drop-append (pre ++ old ∷ []) (post ++ rep) (idx + 1)
            (omega (arith, length-append pre (old ∷ []))) in
      let second_part : take (n - idx) (drop (idx + 1) array) ≡ post =
        ap (take (n - idx)) behind ∙ take-append post rep (n - idx) (omega arith) in
      let last_part : drop (n + 1) array ≡ rep =
        ap (drop (n + 1)) e
        ∙ drop-append (pre ++ old ∷ post) rep (n + 1)
            (omega (arith, length-append pre (old ∷ post))) in
      rw (first_part, second_part, last_part) refl

  moved-Holds :
      (arr : ArrayList A) (pre post : List (Option A)) (old : Option A) (idx : ℕ)
      (released : List A)
      → Holds arr (pre ++ old ∷ post)
      → idx ≡ length pre
      → Holds (moved arr idx released) (pre ++ post)
  moved-Holds arr pre post old idx released h at =
      let all = length-append pre (old ∷ post) in
      record {
        spare = suc h.spare;
        stored =
            moved-array arr.array pre post (replicate h.spare none) old idx (arr.length - 1)
              h.stored at (omega (arith, h.counted, all));
        counted = omega (arith, h.counted, all, length-append pre post);
        sized = omega (arith, h.sized, all, length-append pre post);
        positive = h.positive;
      }

  -- `array_list_del_idx` of an array with a `free_fn` frees the pointer at the index, moves those behind it
  -- down by one, and keeps the rest, whether or not the array is cut to half its size and whether or not
  -- that succeeds.
  pub del_idx-Holds :
      (arr : ArrayList A) (pre post : List (Option A)) (a : A) (idx : ℕ) (room : Bool)
      → Holds arr (pre ++ some a ∷ post)
      → arr.free_fn ≡ true
      → idx ≡ length pre
      → Returns
          (array_list_del_idx arr idx room)
          λ r. (r.0 ≡ true) × Holds r.1 (pre ++ post) × (r.1.freed ≡ arr.freed ++ a ∷ [])
  del_idx-Holds arr pre post a idx room h free at =
      let all = length-append pre (some a ∷ post) in
      let wide : arr.length ≤ length arr.array =
        omega (arith, length-stored h, h.counted, h.sized) in
      let lt : idx < arr.length = omega (arith, h.counted, all) in
      let whole = h.stored ∙ append_assoc pre (some a ∷ post) (replicate h.spare none) in
      let found : slot arr idx ≡ ok (some a) =
        slot_lem arr idx (omega (arith, lt, wide))
        ∙ ap (λ l. ok (get_or l idx none)) whole
        ∙ ap ok (get_or-behind pre (post ++ replicate h.spare none) idx (some a) at) in
      let released = arr.freed ++ a ∷ [] in
      let (holds, same) =
        check_and_free-Holds (moved arr idx released) (pre ++ post) room
          (moved-Holds arr pre post (some a) idx released h at) in
      (
        (true, check_and_free (moved arr idx released) room),
        del_run arr idx a room free lt found wide,
        (refl, holds, same),
      )
