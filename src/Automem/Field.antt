-- ===== src/Automem/Field.antt =====
-- The field functions at the end of utils/automem.c, which write ` field="value" ` pairs: compiled
-- under `_NEW_CENTER_SERVEER`. `_itoa` and `_ultoa` come from the C runtime and are parameters.
pub mod Escape
pub mod Append
pub mod Reader
use uvx.Prelude.{
  ℕ, zero, suc, ◌+◌, List, [], ◌∷◌, ◌++◌, Option, none, some, length, ltb, ◌==◌, if◌then◌else◌,
  false, true,
}
use uvx.Prelude.Word.{add32}
use uvx.Memory.{Block, Run, ok, fault, ◌>>=◌, deref, store, Allocator}
use uvx.Automem.{Automem, automem_append_voidp, automem_ensure_newspace}

-- `pmem->pdata[pmem->size++] = c`
pub push_byte : Automem → ℕ → Run Automem
push_byte m c = do
  b ← deref m.pdata
  b' ← store b m.size (c ∷ [])
  ok (record m { pdata = some b'; size = add32 m.size 1 })

-- What the second `switch` of `automem_append_field` writes for a character, in its stores of four
-- bytes, two bytes and one.
unfoldable pub escape_char : ℕ → List (List ℕ)
escape_char c =
    if c == b'&'
    then (b'&' ∷ b'a' ∷ b'm' ∷ b'p' ∷ []) ∷ (b';' ∷ []) ∷ []
    else if c == b'<'
    then (b'&' ∷ b'l' ∷ b't' ∷ b';' ∷ []) ∷ []
    else if c == b'>'
    then (b'&' ∷ b'g' ∷ b't' ∷ b';' ∷ []) ∷ []
    else if c == 34
    then (b'&' ∷ b'q' ∷ b'u' ∷ b'o' ∷ []) ∷ (b't' ∷ b';' ∷ []) ∷ []
    else if c == 39
    then (b'&' ∷ b'a' ∷ b'p' ∷ b'o' ∷ []) ∷ (b's' ∷ b';' ∷ []) ∷ []
    else (c ∷ []) ∷ []

-- What the first `switch` adds to `t`.
pub escaped_size : ℕ → ℕ
escaped_size c =
    if c == b'&'
    then 5
    else if c == b'<'
    then 4
    else if c == b'>'
    then 4
    else if c == 34
    then 6
    else if c == 39
    then 6
    else 1

-- The first loop: `t` after the text.
pub measure_value : ℕ → List ℕ → ℕ
measure_value t [] = t
measure_value t (c ∷ val) = measure_value (add32 t (escaped_size c)) val

-- A row of stores, `sz` moved behind each.
pub store_all : Block → ℕ → List (List ℕ) → Run (Block × ℕ)
store_all b sz [] = ok (b, sz)
store_all b sz (p ∷ ps) = store b sz p >>= λ b'. store_all b' (add32 sz (length p)) ps

-- The second loop.
pub write_value : Block → ℕ → List ℕ → Run (Block × ℕ)
unfolding store_all escape_char
write_value b sz [] = ok (b, sz)
write_value b sz (c ∷ val) = do (b', sz') ← store_all b sz (escape_char c); write_value b' sz' val

module _ (a : Allocator) where
  -- `val` is null or a text without its end.
  pub automem_append_field : Automem → List ℕ → Option (List ℕ) → Run (Automem × ℕ)
  automem_append_field m field none = ok (m, m.size)
  automem_append_field m field (some val) = do
    let t = measure_value 4 val
    (m', _) ← automem_append_voidp a m field
    m'' ← automem_ensure_newspace a m' t
    b ← deref m''.pdata
    (b', sz) ← store_all b m''.size ((b'=' ∷ []) ∷ (34 ∷ []) ∷ [])
    (b'', sz') ← write_value b' sz val
    b''' ← store b'' sz' (34 ∷ 32 ∷ [])
    ok (record m'' { pdata = some b'''; size = add32 sz' 2 }, add32 sz' 2)

  -- `v_len` is 0, for the whole text, or the number of bytes to take: `val` is those bytes.
  pub automem_append_field_fast : Automem → List ℕ → Option (List ℕ) → Run (Automem × ℕ)
  automem_append_field_fast m field none = ok (m, m.size)
  automem_append_field_fast m field (some []) = ok (m, m.size)
  automem_append_field_fast m field (some (c ∷ val)) = do
    (m1, _) ← automem_append_voidp a m field
    m2 ← automem_ensure_newspace a m1 (add32 (length (c ∷ val)) 5)
    m3 ← push_byte m2 b'='
    m4 ← push_byte m3 34
    (m5, _) ← automem_append_voidp a m4 (c ∷ val)
    m6 ← push_byte m5 34
    m7 ← push_byte m6 32
    ok (m7, m7.size)

  -- `automem_append_field_int` and `automem_append_field_ulong`: the same code around
  -- `_itoa` and `_ultoa`.
  pub automem_append_field_number :
      {N : Type 0} → (N → List ℕ) → Automem → List ℕ → N → Run (Automem × ℕ)
  automem_append_field_number digits m field val = do
    (m1, _) ← automem_append_voidp a m field
    m2 ← automem_ensure_newspace a m1 (add32 (length (digits val)) 4)
    m3 ← push_byte m2 b'='
    m4 ← push_byte m3 34
    (m5, _) ← automem_append_voidp a m4 (digits val)
    m6 ← push_byte m5 34
    m7 ← push_byte m6 32
    ok (m7, m7.size)
