-- ===== src/Memory.antt =====
-- Heap blocks as the C code sees them: `memcpy`, `memmove` and stores into a block, `malloc` and
-- `realloc`. An access outside its block, a use of a null pointer, a failed assertion and a loop
-- that does not end are faults.
pub mod Laws
pub mod Plain
use uvx.Prelude.{
  ℕ, ◌+◌, ◌≤◌, ◌≡◌, Bool, true, false, List, ◌++◌, Option, none, some, length, take, drop, leb, min,
  if◌then◌else◌,
}

pub data Fault : Type 0 where
  null_pointer freed_pointer out_of_bounds division_by_zero sentinel_key assertion diverges : Fault

-- What a call comes to.
pub data Run {ℓ} (V : Type ℓ) : Type ℓ where
  fault : Fault → Run V
  ok : V → Run V

infixl 5 ◌>>◌ ◌>>=◌
-- The rest of a function after a call.
abbrev pub ◌>>=◌ {κ ℓ} : {W : Type κ} {V : Type ℓ} → Run V → (V → Run W) → Run W
fault why >>= _ = fault why
ok v >>= rest = rest v

-- The rest of a function after a statement.
abbrev pub ◌>>◌ {κ} : {W : Type κ} → Run (Unit {0}) → Run W → Run W
first >> rest = first >>= λ _. rest

-- `assert(b)`
abbrev pub assert : Bool → Run (Unit {0})
assert true = ok tt
assert false = fault assertion

-- The contents of a block, byte by byte.
abbrev pub Block : Type 0
Block = List ℕ

-- A pointer is used as the start of a block.
abbrev pub deref : Option Block → Run Block
deref none = fault null_pointer
deref (some b) = ok b

-- `memcpy(b + offset, p, length p)`
unfoldable pub store : Block → ℕ → List ℕ → Run Block
store b offset p =
    if leb (offset + length p) (length b)
    then ok (take offset b ++ (p ++ drop (offset + length p) b))
    else fault out_of_bounds

-- The `n` bytes that `memcpy(_, b + offset, n)` reads.
unfoldable pub load : Block → ℕ → ℕ → Run (List ℕ)
load b offset n =
    if leb (offset + n) (length b) then ok (take n (drop offset b)) else fault out_of_bounds

-- `malloc` and `realloc` of the C library. A null result is `none`; the contents of new memory are
-- whatever the allocator leaves there.
pub record Allocator : Type 0 where
  pub malloc : ℕ → Option Block
  pub realloc : Block → ℕ → Option Block
  pub malloc_size : (n : ℕ) (b : Block) → malloc n ≡ some b → length b ≡ n
  pub realloc_size : (a : Block) (n : ℕ) (b : Block) → realloc a n ≡ some b → length b ≡ n
  pub realloc_keeps :
      (a : Block) (n k : ℕ) (b : Block)
      → realloc a n ≡ some b
      → k ≤ min (length a) n
      → take k b ≡ take k a

-- `realloc` of a null pointer is `malloc`.
abbrev pub reallocate : Allocator → Option Block → ℕ → Option Block
reallocate a none n = a.malloc n
reallocate a (some b) n = a.realloc b n

-- The allocator never reports that memory is exhausted.
pub record Succeeds (a : Allocator) : Type 0 where
  pub mallocs : (n : ℕ) → (b : Block) × (a.malloc n ≡ some b)
  pub reallocs : (c : Block) (n : ℕ) → (b : Block) × (a.realloc c n ≡ some b)

-- The call ends without a fault and what it returns is as `Good` says.
abbrev pub Returns {κ ℓ} : {V : Type ℓ} → Run V → (V → Type κ) → Type (κ ⊔ ℓ)
Returns {V} call Good = (v : V) × (call ≡ ok v) × Good v
