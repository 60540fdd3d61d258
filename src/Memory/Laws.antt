-- ===== src/Memory/Laws.antt =====
-- What stores and loads inside a block do.
use uvx.Prelude.{
  sym, ap, ◌∙◌, ℕ, ◌+◌, ◌≤◌, ◌<◌, ◌≡◌, List, ◌++◌, arith, length, take, drop, length-append,
  length-take, length-drop, take-append, append_assoc,
}
use uvx.Memory.{Block, Run, ok, fault, ◌>>=◌, out_of_bounds, store, load, Returns}

pub bind-Returns {ℓ κ μ} :
    {A : Type ℓ} {B : Type κ} {m : Run A} {f : A → Run B} {P : A → Type μ} {Q : B → Type μ}
    → Returns m P
    → ((a : A) → P a → Returns (f a) Q)
    → Returns (m >>= f) Q
bind-Returns {f = f} (a, run, p) k = let (b, run', q) = k a p in (b, rw run run', q)

-- A store inside the block succeeds, keeps its size, and puts the bytes behind those before it.
pub store-Returns :
    (b : Block) (offset : ℕ) (p : List ℕ)
    → offset + length p ≤ length b
    → Returns
        (store b offset p)
        λ c. (length c ≡ length b) × (take (offset + length p) c ≡ take offset b ++ p)
unfolding store
store-Returns b offset p h = (
  take offset b ++ (p ++ drop (offset + length p) b),
  ground arith,
  (
    omega (
      arith,
      length-append (take offset b) (p ++ drop (offset + length p) b),
      length-append p (drop (offset + length p) b),
      length-take offset b,
      length-drop (offset + length p) b,
    ),
    rw (← append_assoc) (
        take-append (take offset b ++ p) _ _
          (omega (arith, length-append (take offset b) p, length-take offset b))),
  ),
)

-- A store of `p` at the start of a block leaves a block that starts with `p`.
pub store_front :
    (b : Block) (p : List ℕ)
    → length p ≤ length b
    → Returns (store b 0 p) λ c. (length c ≡ length b) × (take (length p) c ≡ p)
store_front b p h =
    let (c, run, (same, prefix)) = store-Returns b 0 p (omega arith) in
    let zero-add' : 0 + length p ≡ length p = omega arith in
    (c, run, (same, ap (λ k. take k c) (sym zero-add') ∙ prefix))

pub store-fault :
    (b : Block) (offset : ℕ) (p : List ℕ)
    → length b < offset + length p
    → store b offset p ≡ fault out_of_bounds
unfolding store
store-fault b offset p h = ground arith

pub load_lem :
    (b : Block) (offset n : ℕ)
    → offset + n ≤ length b
    → load b offset n ≡ ok (take n (drop offset b))
unfolding load
load_lem b offset n h = ground arith
