-- ===== src/Automem.antt =====
-- utils/automem.c and utils/automem.h: a byte buffer that grows. `unsigned int` wraps at 2 ^ 32;
-- the block behind `pdata` comes from the allocator, which is a parameter. A function that changes
-- `*pmem` returns the new record, beside its result where it has one.
pub mod Grow
pub mod Contents
pub mod Erase
pub mod Attach
pub mod Field
pub mod History
mod Tests
use uvx.Prelude.{
  ℕ, zero, suc, ◌+◌, List, [], ◌∷◌, Option, none, some, length, ltb, ◌==◌, if◌then◌else◌, false,
  true,
}
use uvx.Prelude.Word.{add32, sub32, mul32, bytes32, bytes64}
use uvx.Memory.{Block, Run, ok, fault, diverges, ◌>>=◌, deref, store, load, Allocator, reallocate}

pub record Automem : Type 0 where
  pub size : ℕ
  pub buffersize : ℕ
  pub pdata : Option Block

pub automem_reset : Automem → Automem
automem_reset m = record m { size = 0 }

-- The loop of `automem_ensure_newspace`. The fuel bounds the rounds: after 32 doublings the
-- size is 0 and stays 0.
pub grow_loop : ℕ → ℕ → ℕ → ℕ → Run ℕ
grow_loop zero n size len = fault diverges
grow_loop (suc fuel) n size len =
    let rest = grow_loop fuel (mul32 n 2) size len in if ltb (sub32 n size) len then rest else ok n

abbrev pub rounds : ℕ
rounds = 33

-- `free` releases the block; the fields say that none is held.
pub automem_uninit : Automem → Automem
automem_uninit m = elim m.pdata [
  | none ↦ m
  | some _ ↦ record { size = 0; buffersize = 0; pdata = none }
]

pub automem_detach : Automem → Option Block × ℕ
automem_detach m = (if m.size == 0 then none else m.pdata, m.size)

-- The reads and writes of `memmove(pdata, pdata + from, n)`.
pub move_down : Block → ℕ → ℕ → Run Block
move_down b from n = load b from n >>= store b 0

pub automem_erase : Automem → ℕ → Run (Automem × ℕ)
unfolding move_down
automem_erase m n =
    if ltb n m.size
    then (do
      b ← deref m.pdata
      moved ← move_down b n (sub32 m.size n)
      ok (record m { pdata = some moved; size = sub32 m.size n }, sub32 m.size n))
    else ok (record m { size = 0 }, 0)

module _ (a : Allocator) where
  pub automem_init : Automem → ℕ → Automem
  automem_init m initial =
      let n = if initial == 0 then 128 else initial in
      record m { size = 0; buffersize = n; pdata = a.malloc n }

  pub automem_clean : Automem → Automem
  automem_clean m = automem_init (automem_uninit m) 128

  pub automem_ensure_newspace : Automem → ℕ → Run Automem
  automem_ensure_newspace m len = do
    n ← grow_loop rounds m.buffersize m.size len
    ok (
        if ltb m.buffersize n
        then record m { pdata = reallocate a m.pdata n; buffersize = n }
        else m)

  pub automem_attach : Automem → List ℕ → Run Automem
  automem_attach m p = do
    m' ←
        (if ltb m.buffersize (length p)
          then automem_ensure_newspace m (sub32 (length p) m.buffersize)
          else ok m)
    b ← deref m'.pdata
    b' ← store b 0 p
    ok (record m' { pdata = some b'; size = length p })

  pub automem_append_voidp : Automem → List ℕ → Run (Automem × ℕ)
  automem_append_voidp m p = do
    m' ← automem_ensure_newspace m (length p)
    b ← deref m'.pdata
    b' ← store b m'.size p
    ok (record m' { pdata = some b'; size = add32 m'.size (length p) }, length p)

  pub automem_append_int : Automem → ℕ → Run Automem
  automem_append_int m n = do (m', _) ← automem_append_voidp m (bytes32 n); ok m'

  -- The argument is the address that the parameter holds: its bytes are appended, not the text.
  pub automem_append_pchar : Automem → ℕ → Run Automem
  automem_append_pchar m address = do (m', _) ← automem_append_voidp m (bytes64 address); ok m'

  pub automem_append_char : Automem → ℕ → Run Automem
  automem_append_char m c = do (m', _) ← automem_append_voidp m (c ∷ []); ok m'

  pub automem_append_byte : Automem → ℕ → Run Automem
  automem_append_byte m c = do (m', _) ← automem_append_voidp m (c ∷ []); ok m'

  pub automem_erase_ex : Automem → ℕ → ℕ → Run (Automem × ℕ)
  unfolding automem_init automem_uninit move_down
  automem_erase_ex m n limit =
      let newsize = sub32 m.size n in
      if ltb n m.size
      then (if ltb (add32 newsize limit) m.buffersize
          then (do
            buffer ← deref (a.malloc (add32 newsize limit))
            b ← deref m.pdata
            kept ← load b n newsize
            buffer' ← store buffer 0 kept
            ok (
              record { size = newsize; buffersize = add32 newsize limit; pdata = some buffer' },
              newsize,
            ))
          else (do
            b ← deref m.pdata
            moved ← move_down b n newsize
            ok (record m { pdata = some moved; size = newsize }, newsize)))
      else (let emptied = record m { size = 0 } in
          let result =
            if ltb limit m.buffersize
            then automem_init (automem_uninit emptied) limit
            else emptied in
          ok (result, result.size))
