-- ===== src/Automem/History.antt =====
-- Any row of operations of utils/automem.c on one buffer, against the bytes that it should hold.
use uvx.Prelude.{ℕ, ◌+◌, ◌^◌, ◌≤◌, ◌<◌, refl, List, [], ◌∷◌, ◌++◌, some, arith, length, drop}
use uvx.Prelude.Word.{bytes32, bytes64}
use uvx.Memory.{Run, ok, ◌>>=◌, Allocator, Succeeds, Returns}
use uvx.Memory.Laws.{bind-Returns}
use uvx.Automem.{
  Automem, automem_init, automem_uninit, automem_clean, automem_reset, automem_append_voidp,
  automem_append_int, automem_append_pchar, automem_append_char, automem_append_byte, automem_erase,
  automem_erase_ex,
}
use uvx.Automem.Contents.{Holds, Holds-reset, init-Holds, append-Appended}
use uvx.Automem.Erase.{erase-Holds, erase_ex-Holds}
use uvx.Automem.Field.{automem_append_field}
use uvx.Automem.Field.Escape.{escape}
use uvx.Automem.Field.Append.{quoted, append_field-Holds}

-- The operations that keep the block with the buffer.
pub data Op : Type 0 where
  reset clean : Op
  append : List ℕ → Op
  append_int append_pchar append_char append_byte : ℕ → Op
  append_field : List ℕ → List ℕ → Op
  erase : ℕ → Op
  erase_ex : ℕ → ℕ → Op

-- The bytes after an operation.
abbrev pub contents : Op → List ℕ → List ℕ
contents reset xs = []
contents clean xs = []
contents (append p) xs = xs ++ p
contents (append_int n) xs = xs ++ bytes32 n
contents (append_pchar address) xs = xs ++ bytes64 address
contents (append_char c) xs = xs ++ c ∷ []
contents (append_byte c) xs = xs ++ c ∷ []
contents (append_field field val) xs = (xs ++ field) ++ quoted val
contents (erase n) xs = drop n xs
contents (erase_ex n limit) xs = drop n xs

-- What is used of the block stays within 2 ^ 31 bytes, and what `automem_erase_ex` is to keep free within a word.
abbrev pub Roomy : Op → List ℕ → Type 0
Roomy (append p) xs = length xs + length p ≤ 2 ^ 31
Roomy (append_int n) xs = length xs + 4 ≤ 2 ^ 31
Roomy (append_pchar address) xs = length xs + 8 ≤ 2 ^ 31
Roomy (append_char c) xs = length xs + 1 ≤ 2 ^ 31
Roomy (append_byte c) xs = length xs + 1 ≤ 2 ^ 31
Roomy (append_field field val) xs = length xs + length field + length (escape val) + 4 ≤ 2 ^ 31
Roomy (erase_ex n limit) xs = length xs + limit < 2 ^ 32
Roomy _ xs = Unit

abbrev pub contents_all : List Op → List ℕ → List ℕ
contents_all [] xs = xs
contents_all (op ∷ ops) xs = contents_all ops (contents op xs)

abbrev pub AllRoomy : List Op → List ℕ → Type 0
AllRoomy [] xs = Unit
AllRoomy (op ∷ ops) xs = Roomy op xs × AllRoomy ops (contents op xs)

module _ (a : Allocator) where
  -- The operation by its function, without the function's result.
  unfoldable pub perform : Op → Automem → Run Automem
  unfolding automem_reset automem_clean automem_append_voidp automem_append_int automem_append_pchar
      automem_append_char automem_append_byte automem_erase automem_erase_ex
  perform reset m = ok (automem_reset m)
  perform clean m = ok (automem_clean a m)
  perform (append p) m = do (m', _) ← automem_append_voidp a m p; ok m'
  perform (append_int n) m = automem_append_int a m n
  perform (append_pchar address) m = automem_append_pchar a m address
  perform (append_char c) m = automem_append_char a m c
  perform (append_byte c) m = automem_append_byte a m c
  perform (append_field field val) m = do (m', _) ← automem_append_field a m field (some val); ok m'
  perform (erase n) m = do (m', _) ← automem_erase m n; ok m'
  perform (erase_ex n limit) m = do (m', _) ← automem_erase_ex a m n limit; ok m'

  unfoldable pub perform_all : List Op → Automem → Run Automem
  unfolding perform
  perform_all [] m = ok m
  perform_all (op ∷ ops) m = perform op m >>= perform_all ops

  module _ (succeeds : Succeeds a) where
    appended :
        (m : Automem) (xs p : List ℕ)
        → Holds m xs
        → length xs + length p ≤ 2 ^ 31
        → Returns (automem_append_voidp a m p >>= λ r. ok r.0) λ m'. Holds m' (xs ++ p)
    appended m xs p h room =
        bind-Returns (append-Appended a succeeds m xs p h room) (λ r w. (r.0, refl, w.0.holds))

    performed :
        (op : Op) (m : Automem) (xs : List ℕ)
        → Holds m xs
        → Roomy op xs
        → Returns (perform op m) λ m'. Holds m' (contents op xs)
    unfolding perform automem_clean automem_append_int automem_append_pchar automem_append_char
        automem_append_byte
    performed reset m xs h room = (automem_reset m, refl, Holds-reset h)
    performed clean m xs h room =
        (automem_clean a m, refl, (init-Holds a succeeds (automem_uninit m) 128 (omega arith)).0)
    performed (append p) m xs h room = appended m xs p h room
    performed (append_int n) m xs h room = appended m xs (bytes32 n) h room
    performed (append_pchar address) m xs h room = appended m xs (bytes64 address) h room
    performed (append_char c) m xs h room = appended m xs (c ∷ []) h room
    performed (append_byte c) m xs h room = appended m xs (c ∷ []) h room
    performed (append_field field val) m xs h room =
        bind-Returns (append_field-Holds a succeeds m xs field val h room) (λ r w. (r.0, refl, w.0))
    performed (erase n) m xs h room = bind-Returns (erase-Holds h n) (λ r w. (r.0, refl, w.0))
    performed (erase_ex n limit) m xs h room =
        bind-Returns (erase_ex-Holds a succeeds h n limit room) (λ r w. (r.0, refl, w.0))

    all_performed :
        (ops : List Op) (m : Automem) (xs : List ℕ)
        → Holds m xs
        → AllRoomy ops xs
        → Returns (perform_all ops m) λ m'. Holds m' (contents_all ops xs)
    unfolding perform_all
    all_performed [] m xs h room = (m, refl, h)
    all_performed (op ∷ ops) m xs h (room, rest) =
        bind-Returns (performed op m xs h room)
          (λ m' h'. all_performed ops m' (contents op xs) h' rest)

    -- On a buffer from `automem_init`, any row of resets, appends of every kind and erases, as long as the
    -- allocator gives memory and no append goes beyond 2 ^ 31 bytes, ends without a fault and
    -- leaves exactly the bytes that the same row leaves of a list that is empty at first.
    pub history-Holds :
        (m : Automem) (initial : ℕ) (ops : List Op)
        → initial < 2 ^ 32
        → AllRoomy ops []
        → Returns (perform_all ops (automem_init a m initial)) λ m'. Holds m' (contents_all ops [])
    history-Holds m initial ops word room =
        all_performed ops (automem_init a m initial) [] (init-Holds a succeeds m initial word).0
          room
