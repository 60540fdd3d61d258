-- ===== src/Automem/Tests.antt =====
-- The theorems on `automem_t` at concrete buffers.
use uvx.Prelude.{◌++◌, ℕ, none, ◌≡◌, refl, List, [], ◌∷◌, some, arith}
use uvx.Memory.{Returns, fault, out_of_bounds}
use uvx.Memory.Plain.{plain, plain-Succeeds}
use uvx.Automem.{Automem, grow_loop, automem_init, automem_erase_ex, automem_attach}
use uvx.Automem.Grow.{Grown, grow_loop-Grown}
use uvx.Automem.Contents.{Holds}
use uvx.Automem.History.{
  Op, append, append_int, append_field, erase, erase_ex, perform_all, history-Holds,
}
use uvx.Automem.Erase.{erase_ex-Holds}
use uvx.Automem.Attach.{attach_overflow}
use uvx.Automem.Field.{automem_append_field}
use uvx.Automem.Field.Escape.{escape, entity}
use uvx.Automem.Field.Reader.{read_value, append_field-read}
use uvx.Automem.Field.Append.{quoted}

abbrev buffer : Automem
buffer = record { size = 3; buffersize = 4; pdata = some (5 ∷ 6 ∷ 7 ∷ 0 ∷ []) }

buffer-Holds : Holds buffer (5 ∷ 6 ∷ 7 ∷ [])
buffer-Holds = record {
  block = 5 ∷ 6 ∷ 7 ∷ 0 ∷ [];
  held = refl;
  room = refl;
  counted = refl;
  fits = omega arith;
  word = omega arith;
  positive = omega arith;
  bytes = refl;
}

grow_loop-Grown_example : Returns (grow_loop 3 4 3 12) (Grown 4 3 12)
grow_loop-Grown_example =
    grow_loop-Grown 2 4 3 12 (omega arith) (omega arith) (omega arith) (omega arith)

-- Seven bytes, the first two dropped, a field behind the others, and one more dropped.
abbrev some_work : List Op
some_work =
    append (5 ∷ 6 ∷ 7 ∷ [])
    ∷ append_int 258
    ∷ erase 2
    ∷ append_field (b'i' ∷ []) (b'&' ∷ [])
    ∷ erase_ex 1 8
    ∷ []

history-Holds_example :
    Returns
      (perform_all plain some_work (automem_init plain buffer 4))
      λ m. Holds m (2 ∷ 1 ∷ 0 ∷ 0 ∷ b'i' ∷ quoted (b'&' ∷ []))
history-Holds_example = history-Holds plain plain-Succeeds buffer 4 some_work (omega arith) (
    unfold escape entity quoted in
    (omega arith, (omega arith, (tt, (omega arith, (omega arith, tt))))))

erase_ex-Holds_example :
    Returns
      (automem_erase_ex plain buffer 2 2)
      λ r. Holds r.0 (7 ∷ []) × (r.1 ≡ 1) × (r.0.buffersize ≡ 3)
erase_ex-Holds_example = erase_ex-Holds plain plain-Succeeds buffer-Holds 2 2 (omega arith)

attach_overflow_example : automem_attach plain buffer (1 ∷ 2 ∷ 3 ∷ 4 ∷ 5 ∷ []) ≡ fault out_of_bounds
attach_overflow_example =
    attach_overflow plain buffer-Holds (1 ∷ 2 ∷ 3 ∷ 4 ∷ 5 ∷ []) (omega arith) (omega arith)

-- The value "a>&", whose entities are written out here.
append_field-read_example :
    Returns (automem_append_field plain buffer (b'i' ∷ []) (some (b'a' ∷ b'>' ∷ b'&' ∷ []))) λ r.
      (written : List ℕ) × Holds r.0 ((5 ∷ 6 ∷ 7 ∷ b'i' ∷ []) ++ b'=' ∷ 34 ∷ written)
      × (read_value none written ≡ b'a' ∷ b'>' ∷ b'&' ∷ [])
append_field-read_example =
    append_field-read plain plain-Succeeds buffer (5 ∷ 6 ∷ 7 ∷ []) (b'i' ∷ [])
      (b'a' ∷ b'>' ∷ b'&' ∷ []) buffer-Holds (unfold escape entity in omega arith)

escape_test :
    escape (b'a' ∷ b'>' ∷ b'&' ∷ [])
    ≡ b'a' ∷ b'&' ∷ b'g' ∷ b't' ∷ b';' ∷ b'&' ∷ b'a' ∷ b'm' ∷ b'p' ∷ b';' ∷ []
unfolding escape entity
escape_test = refl
