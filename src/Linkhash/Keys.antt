-- ===== src/Linkhash/Keys.antt =====
-- The functions that a table takes for its keys, `hash_fn` and `equal_fn`, and the two pairs of them
-- in utils/linkhash.c. A pointer is its address; a text is its bytes, without the end.
use uvx.Prelude.{
  ℕ, ◌+◌, ◌*◌, ◌%◌, ◌/◌, ◌^◌, ◌-◌, ◌≡◌, ◌↔◌, Bool, true, false, List, [], ◌∷◌, ltb, ◌==◌, ==_iff,
  ◌&&◌, if◌then◌else◌, arith,
}

pub record Key {ℓ} (K : Type ℓ) : Type ℓ where
  pub hash_fn : K → ℕ
  pub equal_fn : K → K → Bool
  pub equal_iff : (a b : K) → (equal_fn a b ≡ true) ↔ (a ≡ b)

abbrev pub lh_prime : ℕ
lh_prime = 0x9e370001

-- The product is one of `unsigned long`, of 64 bits.
unfoldable pub lh_ptr_hash : ℕ → ℕ
lh_ptr_hash k = k * lh_prime % 2 ^ 64 / 2 ^ 4

abbrev pub lh_ptr_equal : ℕ → ℕ → Bool
lh_ptr_equal k1 k2 = k1 == k2

-- `(unsigned int) c` of a signed `char`.
pub extend : ℕ → ℕ
extend c = if ltb c 128 then c else c + 2 ^ 32 - 256

hash_from : ℕ → List ℕ → ℕ
unfolding extend
hash_from h [] = h
hash_from h (c ∷ text) = hash_from ((h * 129 + extend c + lh_prime) % 2 ^ 32) text

pub lh_char_hash : List ℕ → ℕ
unfolding hash_from
lh_char_hash text = hash_from 0 text

-- `strcmp(k1, k2) == 0`
pub lh_char_equal : List ℕ → List ℕ → Bool
lh_char_equal [] [] = true
lh_char_equal (a ∷ s) (b ∷ t) = a == b && lh_char_equal s t
lh_char_equal _ _ = false

pub lh_char_equal_iff : (s t : List ℕ) → (lh_char_equal s t ≡ true) ↔ (s ≡ t)
unfolding lh_char_equal
lh_char_equal_iff [] [] = ground arith
lh_char_equal_iff (a ∷ s) [] = ground arith
lh_char_equal_iff [] (b ∷ t) = ground arith
lh_char_equal_iff (a ∷ s) (b ∷ t) = ground (arith, lh_char_equal_iff s t)

-- The functions of `lh_kptr_table_new`.
instance abbrev pub ptr_key : Key ℕ
ptr_key = record { hash_fn = lh_ptr_hash; equal_fn = lh_ptr_equal; equal_iff = ==_iff }

-- The functions of `lh_kchar_table_new`.
abbrev pub char_key : Key (List ℕ)
char_key = record {
  hash_fn = lh_char_hash;
  equal_fn = lh_char_equal;
  equal_iff = lh_char_equal_iff;
}
