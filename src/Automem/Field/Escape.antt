-- ===== src/Automem/Field/Escape.antt =====
-- What `automem_append_field` writes, against the text ` field="escaped value" `.
use uvx.Prelude.{
  ℕ, ◌+◌, ◌^◌, ◌≤◌, ◌<◌, ◌≡◌, refl, sym, ap, ◌∙◌, arith, List, [], ◌∷◌, ◌++◌, length, take, subst,
  ◌==◌, if◌then◌else◌, length-append, append-nil, append_assoc,
}
use uvx.Prelude.Word.{add32}
use uvx.Memory.{Block, ok, ◌>>=◌, store, Returns}
use uvx.Memory.Laws.{store-Returns}
use uvx.Automem.Field.{escape_char, escaped_size, measure_value, store_all, write_value}

abbrev pub flatten : List (List ℕ) → List ℕ
flatten [] = []
flatten (p ∷ ps) = p ++ flatten ps

-- XML's predefined entities, by their names, and all other characters as they are.
unfoldable pub entity : ℕ → List ℕ
entity c =
    if c == b'&'
    then b'&' ∷ b'a' ∷ b'm' ∷ b'p' ∷ b';' ∷ []
    else if c == b'<'
    then b'&' ∷ b'l' ∷ b't' ∷ b';' ∷ []
    else if c == b'>'
    then b'&' ∷ b'g' ∷ b't' ∷ b';' ∷ []
    else if c == 34
    then b'&' ∷ b'q' ∷ b'u' ∷ b'o' ∷ b't' ∷ b';' ∷ []
    else if c == 39
    then b'&' ∷ b'a' ∷ b'p' ∷ b'o' ∷ b's' ∷ b';' ∷ []
    else c ∷ []

-- A value in XML.
unfoldable pub escape : List ℕ → List ℕ
escape [] = []
escape (c ∷ val) = entity c ++ escape val

-- The stores for a character are its entity.
escape_char-entity : (c : ℕ) → flatten (escape_char c) ≡ entity c
unfolding escape_char entity
escape_char-entity c = ground arith

length-entity : (c : ℕ) → length (entity c) ≡ escaped_size c
unfolding entity escaped_size
length-entity c = ground arith

-- The first pass counts the bytes that the second writes.
pub measure_value-escape :
    (t : ℕ) (val : List ℕ)
    → t + length (escape val) < 2 ^ 32
    → measure_value t val ≡ t + length (escape val)
unfolding measure_value escape
measure_value-escape t [] small = omega arith
measure_value-escape t (c ∷ val) small =
    let count = length-append (entity c) (escape val) in
    let step : add32 t (escaped_size c) ≡ t + escaped_size c =
      omega (arith, count, length-entity c) in
    rw step (
      measure_value-escape (t + escaped_size c) val (omega (arith, count, length-entity c))
      ∙ omega (arith, count, length-entity c))

-- A row of writes from `sz` on left the bytes `p` there and moved `sz` behind them.
pub record Wrote (b : Block) (sz : ℕ) (p : List ℕ) (r : Block × ℕ) : Type 0 where
  pub same : length r.0 ≡ length b
  pub moved : r.1 ≡ sz + length p
  pub bytes : take (sz + length p) r.0 ≡ take sz b ++ p

pub Wrote-append :
    (b : Block) (sz : ℕ) (p q : List ℕ) (r s : Block × ℕ)
    → Wrote b sz p r
    → Wrote r.0 r.1 q s
    → Wrote b sz (p ++ q) s
Wrote-append b sz p q r s w v = record {
  same = v.same ∙ w.same;
  moved = omega (arith, v.moved, w.moved, length-append p q);
  bytes =
      let e : sz + length (p ++ q) ≡ r.1 + length q = omega (arith, w.moved, length-append p q) in
      ap (λ k. take k s.0) e
      ∙ v.bytes
      ∙ ap (λ ys. ys ++ q) (ap (λ k. take k r.0) w.moved ∙ w.bytes)
      ∙ append_assoc (take sz b) p q;
}

pub Wrote-nil : (b : Block) (sz : ℕ) → Wrote b sz [] (b, sz)
Wrote-nil b sz = record {
  same = refl;
  moved = omega arith;
  bytes = let e : sz + 0 ≡ sz = omega arith in ap (λ k. take k b) e ∙ sym (append-nil (take sz b));
}

pub store-Wrote :
    (b : Block) (sz : ℕ) (p : List ℕ)
    → sz + length p ≤ length b
    → length b < 2 ^ 32
    → (c : Block) × (store b sz p ≡ ok c) × Wrote b sz p (c, add32 sz (length p))
store-Wrote b sz p room word =
    let (c, run, (same, prefix)) = store-Returns b sz p room in
    (c, run, record { same = same; moved = omega arith; bytes = prefix })

pub store_all-Wrote :
    (b : Block) (sz : ℕ) (ps : List (List ℕ))
    → sz + length (flatten ps) ≤ length b
    → length b < 2 ^ 32
    → Returns (store_all b sz ps) (Wrote b sz (flatten ps))
unfolding store_all
store_all-Wrote b sz [] room word = ((b, sz), refl, Wrote-nil b sz)
store_all-Wrote b sz (p ∷ ps) room word =
    let count = length-append p (flatten ps) in
    let (c, run, w) = store-Wrote b sz p (omega (arith, count)) word in
    let (r, run', v) =
      store_all-Wrote c (add32 sz (length p)) ps (omega (arith, count, w.same, w.moved))
        (omega (arith, w.same)) in
    (r, rw (run, ◌>>=◌) run', Wrote-append b sz p (flatten ps) _ r w v)

pub write_value-Wrote :
    (b : Block) (sz : ℕ) (val : List ℕ)
    → sz + length (escape val) ≤ length b
    → length b < 2 ^ 32
    → Returns (write_value b sz val) (Wrote b sz (escape val))
unfolding write_value escape
write_value-Wrote b sz [] room word = ((b, sz), refl, Wrote-nil b sz)
write_value-Wrote b sz (c ∷ val) room word =
    let count = length-append (entity c) (escape val) in
    let same = escape_char-entity c in
    let (r, run, w) =
      store_all-Wrote b sz (escape_char c) (omega (arith, count, ap length same)) word in
    let (s, run', v) =
      write_value-Wrote r.0 r.1 val (omega (arith, count, ap length same, w.same, w.moved))
        (omega (arith, w.same)) in
    (
      s,
      rw (run, ◌>>=◌) run',
      Wrote-append b sz (entity c) (escape val) r s (subst (λ q. Wrote b sz q r) same w) v,
    )
