-- ===== src/Prelude/Word.antt =====
-- Unsigned 32-bit arithmetic as C computes it on `unsigned int`.
use Prim.Native.Nat.{ℕ, ◌+◌, ◌-◌, ◌*◌, ◌%◌, ◌^◌, ◌/◌}
use mathlib.Core.List.{List, [], ◌∷◌, ◌++◌}

abbrev pub mul32 : ℕ → ℕ → ℕ
mul32 m n = m * n % 2 ^ 32

abbrev pub sub32 : ℕ → ℕ → ℕ
sub32 m n = (2 ^ 32 + m - n) % 2 ^ 32

abbrev pub add32 : ℕ → ℕ → ℕ
add32 m n = (m + n) % 2 ^ 32

-- The four bytes of a 32-bit pattern in little-endian memory.
abbrev pub bytes32 : ℕ → List ℕ
bytes32 n = (n % 256) ∷ (n / 256 % 256) ∷ (n / 65536 % 256) ∷ (n / 16777216 % 256) ∷ []

-- The eight bytes of a 64-bit pattern.
abbrev pub bytes64 : ℕ → List ℕ
bytes64 n = bytes32 (n % 2 ^ 32) ++ bytes32 (n / 2 ^ 32)
