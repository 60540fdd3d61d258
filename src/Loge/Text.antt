-- ===== src/Loge/Text.antt =====
-- `rfind_utf8_leading_byte_index`, `write_str` and `write_bin` of loge/loge.c: writes between two
-- offsets of the bytes behind a log item.
use uvx.Prelude.{
  ℕ, zero, suc, ◌+◌, ◌-◌, ◌/◌, ◌^◌, min, Bool, ◌||◌, List, [], ◌∷◌, ◌++◌, Option, none, some,
  length, take, get_or, ltb, leb, ◌==◌, if◌then◌else◌,
}
use uvx.Memory.{Block, Run, ok, ◌>>=◌, ◌>>◌, assert, store}

-- 0-, 110-, 1110-, 11110-
unfoldable pub is_leading : ℕ → Bool
is_leading c = c / 2 ^ 7 == 0 || c / 2 ^ 5 == 6 || c / 2 ^ 4 == 14 || c / 2 ^ 3 == 30

-- `rfind_utf8_leading_byte_index(b + p, from)`: at 0 both ways out return 0.
unfoldable pub rfind : Block → ℕ → ℕ → ℕ
rfind b p zero = 0
rfind b p (suc from) =
    let rest = rfind b p from in if is_leading (get_or b (p + suc from) 0) then suc from else rest

-- `buf` is `p`, and `buf_end` is `end`.
unfoldable pub write_str : Block → ℕ → ℕ → Option (List ℕ) → Run (Block × ℕ)
unfolding rfind
write_str b p end none = do
  assert (leb p end)
  if p == end then ok (b, end) else (store b p (0 ∷ []) >>= λ b'. ok (b', p + 1))
write_str b p end (some []) = do
  assert (leb p end)
  if p == end then ok (b, end) else (store b p (0 ∷ []) >>= λ b'. ok (b', p + 1))
write_str b p end (some (c ∷ str)) = do
  assert (leb p end)
  if p == end then ok (b, end) else (do
    let n = min (length (c ∷ str) + 1) (end - p)
    b' ← store b p (take n ((c ∷ str) ++ 0 ∷ []))
    let k = rfind b' p (n - 1)
    b'' ← store b' (p + k) (0 ∷ [])
    ok (b'', p + k + 1))

-- A null result says that the data were cut.
unfoldable pub write_bin : Block → ℕ → ℕ → Option (List ℕ) → ℕ → Run (Block × Option ℕ)
write_bin b p end none beyond = do
  assert (leb p end)
  if p == end then ok (b, some end) else (store b p (0 ∷ []) >>= λ b'. ok (b', some (p + 1)))
write_bin b p end (some d) beyond = do
  assert (leb p end)
  if p == end then ok (b, some end) else (do
    let n = min (length d + 1) (end - p)
    b' ← store b p (take n (d ++ beyond ∷ []))
    b'' ← store b' (p + n - 1) (0 ∷ [])
    ok (b'', if ltb n (length d + 1) then none else some (p + n)))
