-- ===== src/Memory/Plain.antt =====
-- An allocator that meets the interface and never fails: new memory is zero.
use uvx.Prelude.{
  ℕ, ◌≤◌, ◌≡◌, refl, ◌∙◌, ◌++◌, some, arith, length, take, replicate, min, length-take,
  length-append, length-replicate, take-take, take-append_le,
}
use mathlib.Core.Option.{some-injective}
use uvx.Memory.{Block, Allocator, Succeeds}

abbrev zeroed : Block → ℕ → Block
zeroed b n = take n (b ++ replicate n 0)

length-zeroed : (b : Block) (n : ℕ) → length (zeroed b n) ≡ n
length-zeroed b n = omega (
  arith,
  length-take n (b ++ replicate n 0),
  length-append b (replicate n 0),
  length-replicate {A = ℕ} n 0,
)

take-zeroed : (b : Block) (n k : ℕ) → k ≤ min (length b) n → take k (zeroed b n) ≡ take k b
take-zeroed b n k h =
    take-take k n (b ++ replicate n 0) (omega arith)
    ∙ take-append_le k b (replicate n 0) (omega arith)

malloc_size_lem : (n : ℕ) (b : Block) → some (replicate n 0) ≡ some b → length b ≡ n
malloc_size_lem n b e = rw (← some-injective (replicate n 0) b e) (length-replicate n 0)

realloc_size_lem : (a : Block) (n : ℕ) (b : Block) → some (zeroed a n) ≡ some b → length b ≡ n
realloc_size_lem a n b e = rw (← some-injective (zeroed a n) b e) (length-zeroed a n)

realloc_keeps_lem :
    (a : Block) (n k : ℕ) (b : Block)
    → some (zeroed a n) ≡ some b
    → k ≤ min (length a) n
    → take k b ≡ take k a
realloc_keeps_lem a n k b e h = rw (← some-injective (zeroed a n) b e) (take-zeroed a n k h)

pub plain : Allocator
plain = record {
  malloc = λ n. some (replicate n 0);
  realloc = λ b n. some (zeroed b n);
  malloc_size = malloc_size_lem;
  realloc_size = realloc_size_lem;
  realloc_keeps = realloc_keeps_lem;
}

pub plain-Succeeds : Succeeds plain
unfolding plain
plain-Succeeds = record {
  mallocs = λ n. (replicate n 0, refl);
  reallocs = λ c n. (zeroed c n, refl);
}
