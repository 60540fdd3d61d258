-- ===== src/Linkhash/Tests.antt =====
-- The theorems on `lh_table` at a table of four slots with two entries whose keys collide.
use uvx.Prelude.{ℕ, ◌≡◌, refl, [], ◌∷◌, some, none, arith, ◌==◌, if◌then◌else◌}
use uvx.Memory.{Returns}
use uvx.Linkhash.{Table, Entry, key, blank, success, lh_table_insert, lh_table_delete}
use uvx.Linkhash.Keys.{ptr_key, lh_ptr_hash}
use uvx.Linkhash.Nodes.{Node}
use uvx.Linkhash.Rep.{Rep}
use uvx.Linkhash.Store.{Holds, insert-Holds, delete-Holds, find, remove}

abbrev older : Node ℕ ℕ
older = record { at = 1; k = 16; v = some 7 }

abbrev newer : Node ℕ ℕ
newer = record { at = 2; k = 80; v = some 9 }

abbrev slots : ℕ → Entry ℕ ℕ
slots m =
    if 1 == m
    then record { k = key 16; v = some 7; next = some 2; prev = none }
    else if 2 == m
    then record { k = key 80; v = some 9; next = none; prev = some 1 }
    else blank

abbrev two_entries : Table ℕ ℕ
two_entries = record {
  size = 4;
  count = 2;
  collisions = 1;
  resizes = 0;
  lookups = 0;
  inserts = 2;
  head = some 1;
  tail = some 2;
  slots = slots;
}

two_entries-Rep : Rep two_entries (older ∷ newer ∷ [])
unfolding lh_ptr_hash
two_entries-Rep = record {
  positive = omega arith;
  head = refl;
  tail = refl;
  run = (refl, (refl, tt));
  counted = refl;
  below = omega arith;
  distinct = omega arith;
  keys = omega arith;
  reached = ((0, omega arith, refl), ((1, omega arith, (refl, refl)), tt));
  vacant = λ m h a. ground arith;
}

two_entries-Holds : Holds two_entries ((16, some 7) ∷ (80, some 9) ∷ [])
two_entries-Holds = record {
  nodes = older ∷ newer ∷ [];
  rep = two_entries-Rep;
  load = omega arith;
  stored = refl;
}

insert-Holds_example :
    Returns
      (lh_table_insert two_entries 32 (some 8))
      λ t. Holds t ((16, some 7) ∷ (80, some 9) ∷ (32, some 8) ∷ [])
insert-Holds_example =
    insert-Holds two_entries ((16, some 7) ∷ (80, some 9) ∷ []) 32 (some 8) two_entries-Holds
      (omega arith)

delete-Holds_example :
    Returns (lh_table_delete two_entries 16) λ r. (r.0 ≡ success) × Holds r.1 ((80, some 9) ∷ [])
unfolding remove find
delete-Holds_example =
    delete-Holds two_entries ((16, some 7) ∷ (80, some 9) ∷ []) 16 two_entries-Holds
