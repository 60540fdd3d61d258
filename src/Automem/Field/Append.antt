-- ===== src/Automem/Field/Append.antt =====
-- `automem_append_field` as a whole.
use uvx.Prelude.{
  ℕ, ◌+◌, ◌^◌, ◌≤◌, ◌<◌, ◌≡◌, refl, ap, ◌∙◌, arith, List, [], ◌∷◌, ◌++◌, some, length, take,
  length-append,
}
use uvx.Prelude.Word.{add32}
use uvx.Memory.{Block, ok, ◌>>=◌, store, Allocator, Succeeds, Returns}
use uvx.Automem.{Automem, automem_append_voidp, automem_ensure_newspace}
use uvx.Automem.Contents.{Holds, ensure-Ensured, append-Appended}
use uvx.Automem.Field.{measure_value, store_all, write_value, automem_append_field}
use uvx.Automem.Field.Escape.{
  escape, measure_value-escape, Wrote, Wrote-append, store_all-Wrote, write_value-Wrote,
  store-Wrote,
}

-- `="…" ` around the escaped value.
unfoldable pub quoted : List ℕ → List ℕ
quoted val = (b'=' ∷ 34 ∷ []) ++ (escape val ++ (34 ∷ 32 ∷ []))

length-quoted : (val : List ℕ) → length (quoted val) ≡ length (escape val) + 4
unfolding quoted
length-quoted val = omega (arith, length-append (escape val) (34 ∷ 32 ∷ []))

-- The three writes behind the field name, in one block.
record Quoted (b : Block) (sz : ℕ) (val : List ℕ) : Type 0 where
  b1 : Block × ℕ
  b2 : Block × ℕ
  b3 : Block
  run1 : store_all b sz ((b'=' ∷ []) ∷ (34 ∷ []) ∷ []) ≡ ok b1
  run2 : write_value b1.0 b1.1 val ≡ ok b2
  run3 : store b2.0 b2.1 (34 ∷ 32 ∷ []) ≡ ok b3
  wrote : Wrote b sz (quoted val) (b3, add32 b2.1 2)

quoted-Quoted :
    (b : Block) (sz : ℕ) (val : List ℕ)
    → sz + length (quoted val) ≤ length b
    → length b < 2 ^ 32
    → Quoted b sz val
unfolding quoted
quoted-Quoted b sz val room word =
    let count = length-quoted val in
    let (b1, run1, w1) =
      store_all-Wrote b sz ((b'=' ∷ []) ∷ (34 ∷ []) ∷ []) (omega (arith, count)) word in
    let (b2, run2, w2) =
      write_value-Wrote b1.0 b1.1 val (omega (arith, count, w1.same, w1.moved))
        (omega (arith, w1.same)) in
    let (b3, run3, w3) =
      store-Wrote b2.0 b2.1 (34 ∷ 32 ∷ [])
        (omega (arith, count, w1.same, w1.moved, w2.same, w2.moved))
        (omega (arith, w1.same, w2.same)) in
    record {
      b1 = b1;
      b2 = b2;
      b3 = b3;
      run1 = run1;
      run2 = run2;
      run3 = run3;
      wrote =
          Wrote-append b sz (b'=' ∷ 34 ∷ []) (escape val ++ (34 ∷ 32 ∷ [])) b1 _ w1
            (Wrote-append b1.0 b1.1 (escape val) (34 ∷ 32 ∷ []) b2 _ w2 w3);
    }

-- Bytes written behind the contents extend them.
Wrote-Holds :
    {m : Automem} {xs : List ℕ} (p : List ℕ) (c : Block) (sz : ℕ)
    → (h : Holds m xs) → length xs + length p ≤ m.buffersize
    → Wrote h.block m.size p (c, sz)
    → Holds (record m { pdata = some c; size = sz }) (xs ++ p)
Wrote-Holds {m} {xs} p c sz h room w = record {
  block = c;
  held = refl;
  room = w.same ∙ h.room;
  counted = omega (arith, w.moved, h.counted, length-append xs p);
  fits = omega (arith, length-append xs p);
  word = h.word;
  positive = h.positive;
  bytes =
      let e : length (xs ++ p) ≡ m.size + length p = omega (arith, length-append xs p, h.counted) in
      ap (λ k. take k c) e
      ∙ w.bytes
      ∙ ap (λ ys. ys ++ p) (ap (λ k. take k h.block) h.counted ∙ h.bytes);
}

field_run :
    (a : Allocator) (m m' : Automem) (r : Automem × ℕ) (field val : List ℕ) (t : ℕ) (b : Block)
    → automem_append_voidp a m field ≡ ok r
    → measure_value 4 val ≡ t
    → automem_ensure_newspace a r.0 t ≡ ok m'
    → m'.pdata ≡ some b
    → (q : Quoted b m'.size val)
    → automem_append_field a m field (some val)
      ≡ ok (record m' { pdata = some q.b3; size = add32 q.b2.1 2 }, add32 q.b2.1 2)
unfolding automem_append_field
field_run a m m' r field val t b run count run' held q =
    rw (run, ◌>>=◌, count, run', held) (rw (q.run1, ◌>>=◌) (rw (q.run2, ◌>>=◌) (rw q.run3)))

module _ (a : Allocator) (succeeds : Succeeds a) where
  -- With a value, the contents grow by the field name and the quoted, escaped value; the size that
  -- the first pass counts is enough for the second, which so stays inside the block.
  pub append_field-Holds :
      (m : Automem) (xs field val : List ℕ)
      → Holds m xs
      → length xs + length field + length (escape val) + 4 ≤ 2 ^ 31
      → Returns
          (automem_append_field a m field (some val))
          λ r. Holds r.0 ((xs ++ field) ++ quoted val) × (r.1 ≡ r.0.size)
  append_field-Holds m xs field val h small =
      let (r, run, (w, _)) = append-Appended a succeeds m xs field h (omega arith) in
      let t = measure_value-escape 4 val (omega arith) in
      let (m', run', e) =
        ensure-Ensured a succeeds r.0 (xs ++ field) (4 + length (escape val)) w.holds
          (omega (arith, length-append xs field)) in
      let room : length (xs ++ field) + length (quoted val) ≤ m'.buffersize =
        omega (arith, e.enough, length-quoted val) in
      let q =
        quoted-Quoted e.holds.block m'.size val (omega (arith, room, e.holds.room, e.holds.counted))
          (omega (arith, e.holds.room, e.holds.word)) in
      (
        (record m' { pdata = some q.b3; size = add32 q.b2.1 2 }, add32 q.b2.1 2),
        field_run a m m' r field val _ e.holds.block run t run' e.holds.held q,
        (Wrote-Holds (quoted val) q.b3 _ e.holds room q.wrote, refl),
      )
