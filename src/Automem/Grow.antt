-- ===== src/Automem/Grow.antt =====
-- The doubling loop of `automem_ensure_newspace`: when it ends, and with what size.
use uvx.Prelude.{
  ℕ, zero, suc, ◌+◌, ◌*◌, ◌-◌, ◌^◌, ◌≤◌, ◌<◌, ◌≡◌, ◌⊎◌, inl, inr, arith, ltb, true, Bool-cases, ◌∙◌,
  ap,
}
use uvx.Prelude.Word.{sub32, mul32}
use uvx.Memory.{Returns}
use uvx.Automem.{grow_loop}
use native.Mathlib.Nat.{pow-suc}

-- `n` is large enough, and was not doubled further than needed.
pub record Grown (start size len n : ℕ) : Type 0 where
  pub enough : size + len ≤ n
  pub from : start ≤ n
  pub tight : (n ≡ start) ⊎ (n < 2 * (size + len))

sub32_lem : (n size : ℕ) → size ≤ n → n < 2 ^ 32 → sub32 n size ≡ n - size
sub32_lem n size h k = omega arith

double_lem : (n size len : ℕ) → n < size + len → size + len ≤ 2 ^ 31 → mul32 n 2 ≡ 2 * n
double_lem n size len h k = omega arith

Grown-double :
    (start size len n : ℕ)
    → start < size + len
    → Grown (2 * start) size len n
    → Grown start size len n
Grown-double start size len n h g = ground arith

grow_loop-more :
    (fuel n size len : ℕ)
    → ltb (sub32 n size) len ≡ true
    → mul32 n 2 ≡ 2 * n
    → grow_loop (suc fuel) n size len ≡ grow_loop fuel (2 * n) size len
unfolding grow_loop
grow_loop-more fuel n size len more twice = rw (more, twice)

-- The loop of `automem_ensure_newspace`, from `n` bytes with `size` of them in use, ends within
-- `fuel` doublings where these reach `size + len`, a sum of at most 2 ^ 31: it returns a size that
-- has room for `len` more bytes, is at least `n`, and is `n` itself or less than twice the sum.
pub grow_loop-Grown :
    (fuel n size len : ℕ)
    → size ≤ n
    → n < 2 ^ 32
    → size + len ≤ 2 ^ 31
    → size + len ≤ n * 2 ^ fuel
    → Returns (grow_loop (suc fuel) n size len) (Grown n size len)
unfolding grow_loop
grow_loop-Grown zero n size len below word small reach =
    (n, ground (arith, sub32_lem n size), omega arith)
grow_loop-Grown (suc fuel) n size len below word small reach =
    elim (Bool-cases (ltb (sub32 n size) len)) [
      | inl more ↦
          let short : n < size + len = ground (arith, sub32_lem n size) in
          let twice : mul32 n 2 ≡ 2 * n = double_lem n size len short small in
          let enough : size + len ≤ 2 * n * 2 ^ fuel =
            omega (arith, ap (λ (t : ℕ). n * t) (pow-suc 2 fuel)) in
          let (r, run, g) =
            grow_loop-Grown fuel (2 * n) size len (omega arith) (omega arith) small enough in
          (
            r,
            grow_loop-more (suc fuel) n size len more twice ∙ run,
            Grown-double n size len r short g,
          )
      | inr done ↦ (n, rw done, ground (arith, sub32_lem n size))
    ]
