-- ===== src/Arraylist.antt =====
-- utils/arraylist.c and utils/arraylist.h: an array of pointers that grows. A pointer is an `Option`,
-- an index a natural number. Each function that reallocates takes whether there is memory.
pub mod Contents
pub mod Delete
use uvx.Prelude.{
  ℕ, zero, suc, ◌+◌, ◌-◌, ◌*◌, ◌/◌, max, Bool, true, false, List, [], ◌∷◌, ◌++◌, Option, none, some,
  length, take, drop, get_or, set, replicate, ltb, leb, ◌==◌, ◌||◌, if◌then◌else◌,
}
use uvx.Memory.{Run, ok, fault, ◌>>=◌, ◌>>◌, null_pointer, out_of_bounds}

-- `struct array_list`; `free_fn` is whether there is one, and `freed` what it was called on.
pub record ArrayList (A : Type 0) : Type 0 where
  pub array : List (Option A)
  pub length : ℕ
  pub size : ℕ
  pub free_fn : Bool
  pub freed : List A

abbrev pub default_size : ℕ
default_size = 32

module _ {A : Type 0} where
  pub array_list_new : Bool → Bool → Option (ArrayList A)
  array_list_new free_fn room =
      if room
      then some (record {
        array = replicate default_size none;
        length = 0;
        size = default_size;
        free_fn = free_fn;
        freed = [];
      })
      else none

  -- `arr->array[i]`
  pub slot : ArrayList A → ℕ → Run (Option A)
  slot arr i =
      if ltb i (length arr.array) then ok (get_or arr.array i none) else fault out_of_bounds

  -- `arr->free_fn(p)`
  pub release : ArrayList A → Option A → Run (ArrayList A)
  release arr p =
      if arr.free_fn
      then ok (elim p [ none ↦ arr | some a ↦ record arr { freed = arr.freed ++ a ∷ [] } ])
      else fault null_pointer

  pub array_list_get_idx : ArrayList A → ℕ → Run (Option A)
  unfolding slot
  array_list_get_idx arr i = if leb arr.length i then ok none else slot arr i

  -- The result is whether it is 0.
  pub array_list_expand_internal : ArrayList A → ℕ → Bool → Bool × ArrayList A
  array_list_expand_internal arr mx room =
      if ltb mx arr.size
      then (true, arr)
      else if room
      then (
        true,
        record arr {
          array = arr.array ++ replicate (max (arr.size * 2) mx - arr.size) none;
          size = max (arr.size * 2) mx;
        },
      )
      else (false, arr)

  pub array_list_put_idx : ArrayList A → ℕ → Option A → Bool → Run (Bool × ArrayList A)
  unfolding array_list_expand_internal slot release
  array_list_put_idx arr idx item room =
      let (good, arr1) = array_list_expand_internal arr idx room in
      if good
      then (do
        old ← slot arr1 idx
        arr2 ← elim old [ none ↦ ok arr1 | some p ↦ release arr1 (some p) ]
        ok (
          true,
          record arr2 { array = set arr2.array idx item; length = max arr2.length (idx + 1) },
        ))
      else ok (false, arr1)

  pub array_list_add : ArrayList A → Option A → Bool → Run (Bool × ArrayList A)
  unfolding array_list_put_idx
  array_list_add arr item room = array_list_put_idx arr arr.length item room

  -- `check_and_free_array_memary`
  pub check_and_free : ArrayList A → Bool → ArrayList A
  check_and_free arr room =
      if leb arr.size default_size || arr.size == arr.length
      then arr
      else if leb (arr.size / 2) arr.length
      then arr
      else if room
      then record arr {
        array = take arr.length arr.array ++ replicate (arr.size / 2 - arr.length) none;
        size = arr.size / 2;
      }
      else arr

  -- The loop of `array_list_del_idx` moves the pointers behind `idx` down by one.
  pub array_list_del_idx : ArrayList A → ℕ → Bool → Run (Bool × ArrayList A)
  unfolding slot release check_and_free
  array_list_del_idx arr idx room = if leb arr.length idx then ok (false, arr) else (do
    old ← slot arr idx
    arr1 ← release arr old
    _ ← slot arr1 (arr1.length - 1)
    let n = arr1.length - 1
    let moved = take idx arr1.array ++ take (n - idx) (drop (idx + 1) arr1.array)
    ok (
      true,
      check_and_free (record arr1 { array = moved ++ none ∷ drop (n + 1) arr1.array; length = n })
          room,
    ))
