-- ===== src/Automem/Contents.antt =====
-- What an `automem_t` holds, and the appends: `automem_init`, `automem_ensure_newspace`,
-- `automem_append_voidp` and its wrappers.
use uvx.Prelude.{
  ℕ, ◌+◌, ◌*◌, ◌^◌, ◌≤◌, ◌<◌, ◌≡◌, refl, ap, ◌∙◌, inl, inr, arith, ltb, Bool-cases, List, [], ◌++◌,
  some, length, take, ◌==◌, length-append, if◌then◌else◌, max,
}
use uvx.Prelude.Word.{add32}
use uvx.Memory.{Block, ◌>>=◌, store, Allocator, reallocate, Succeeds, Returns}
use uvx.Memory.Laws.{store-Returns}
use uvx.Automem.{
  Automem, automem_init, automem_ensure_newspace, automem_append_voidp, automem_reset,
}
use uvx.Automem.Grow.{grow_loop-Grown}

-- The record owns a block of `buffersize` bytes, whose first `size` bytes are `xs`.
pub record Holds (m : Automem) (xs : List ℕ) : Type 0 where
  pub block : Block
  pub held : m.pdata ≡ some block
  pub room : length block ≡ m.buffersize
  pub counted : m.size ≡ length xs
  pub fits : length xs ≤ m.buffersize
  pub word : m.buffersize < 2 ^ 32
  pub positive : 0 < m.buffersize
  pub bytes : take (length xs) block ≡ xs

-- `automem_reset` empties the buffer and keeps its block.
pub Holds-reset : {m : Automem} {xs : List ℕ} → Holds m xs → Holds (automem_reset m) []
unfolding automem_reset
Holds-reset h = record {
  block = h.block;
  held = h.held;
  room = h.room;
  counted = refl;
  fits = omega arith;
  word = h.word;
  positive = h.positive;
  bytes = refl;
}

module _ (a : Allocator) (succeeds : Succeeds a) where
  -- A fresh buffer is empty, of the size that was asked for (128 for 0).
  pub init-Holds :
      (m : Automem) (n : ℕ)
      → n < 2 ^ 32
      → Holds (automem_init a m n) []
        × ((automem_init a m n).buffersize ≡ (if n == 0 then 128 else n))
  unfolding automem_init
  init-Holds m n word =
      let size : ℕ = if n == 0 then 128 else n in
      let (b, e) = succeeds.mallocs size in
      (
        record {
          block = b;
          held = e;
          room = a.malloc_size size b e;
          counted = refl;
          fits = omega arith;
          word = ground arith;
          positive = ground arith;
          bytes = refl;
        },
        refl,
      )

  -- What `automem_ensure_newspace` leaves: the same bytes, with room for `len` more.
  pub record Ensured (m : Automem) (xs : List ℕ) (len : ℕ) (m' : Automem) : Type 0 where
    pub holds : Holds m' xs
    pub enough : length xs + len ≤ m'.buffersize
    pub tight : m'.buffersize ≤ max m.buffersize (2 * (length xs + len))

  realloc-Holds :
      (m : Automem) (xs : List ℕ) (n : ℕ)
      → Holds m xs
      → m.buffersize ≤ n
      → n < 2 ^ 32
      → Holds (record m { pdata = reallocate a m.pdata n; buffersize = n }) xs
  realloc-Holds m xs n h grown word =
      let (b, e) = succeeds.reallocs h.block n in
      record {
        block = b;
        held = rw h.held e;
        room = a.realloc_size h.block n b e;
        counted = h.counted;
        fits = omega (arith, h.fits);
        word = word;
        positive = omega (arith, h.positive);
        bytes = a.realloc_keeps h.block n (length xs) b e (omega (arith, h.fits, h.room)) ∙ h.bytes;
      }

  pub ensure-Ensured :
      (m : Automem) (xs : List ℕ) (len : ℕ)
      → Holds m xs
      → length xs + len ≤ 2 ^ 31
      → Returns (automem_ensure_newspace a m len) (Ensured m xs len)
  unfolding automem_ensure_newspace
  ensure-Ensured m xs len h small =
      let (n, run, g) =
        grow_loop-Grown 32 m.buffersize m.size len (omega (arith, h.fits, h.counted)) h.word
          (omega (arith, h.counted)) (omega (arith, h.counted, h.positive)) in
      elim (Bool-cases (ltb m.buffersize n)) [
        | inl more ↦ (
          record m { pdata = reallocate a m.pdata n; buffersize = n },
          rw (run, more),
          record {
            holds = realloc-Holds m xs n h g.from (omega (arith, g.tight, h.word, h.counted));
            enough = omega (arith, g.enough, h.counted);
            tight = omega (arith, g.tight, h.counted);
          },
        )
        | inr same ↦ (
          m,
          rw (run, same),
          record { holds = h; enough = ground (arith, g.enough, h.counted); tight = omega arith },
        )
      ]

  -- What an append of `p` leaves.
  pub record Appended (m : Automem) (xs p : List ℕ) (m' : Automem) : Type 0 where
    pub holds : Holds m' (xs ++ p)
    pub tight : m'.buffersize ≤ max m.buffersize (2 * (length xs + length p))

  store-Holds :
      {m : Automem} {xs : List ℕ} (p : List ℕ)
      → (h : Holds m xs) → length xs + length p ≤ m.buffersize
      → Returns
          (store h.block m.size p)
          λ b. Holds (record m { pdata = some b; size = add32 m.size (length p) }) (xs ++ p)
  store-Holds {m} {xs} p h room =
      let (b, run, (same, prefix)) =
        store-Returns h.block m.size p (omega (arith, h.room, h.counted)) in
      (
        b,
        run,
        record {
          block = b;
          held = refl;
          room = same ∙ h.room;
          counted = omega (arith, h.counted, h.word, length-append xs p);
          fits = omega (arith, length-append xs p);
          word = h.word;
          positive = h.positive;
          bytes =
              rw (length-append xs p, ← h.counted)
                (prefix ∙ rw h.counted (ap (λ ys. ys ++ p) h.bytes));
        },
      )

  -- On a buffer that holds `xs`, `automem_append_voidp` of `p` leaves `xs ++ p`.
  pub append-Appended :
      (m : Automem) (xs p : List ℕ)
      → Holds m xs
      → length xs + length p ≤ 2 ^ 31
      → Returns (automem_append_voidp a m p) λ r. Appended m xs p r.0 × (r.1 ≡ length p)
  unfolding automem_append_voidp
  append-Appended m xs p h small =
      let (m', run, e) = ensure-Ensured m xs (length p) h small in
      let (b, run', h') = store-Holds p e.holds e.enough in
      (
        (record m' { pdata = some b; size = add32 m'.size (length p) }, length p),
        rw (run, ◌>>=◌, e.holds.held, run'),
        (record { holds = h'; tight = e.tight }, refl),
      )
