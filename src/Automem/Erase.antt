-- ===== src/Automem/Erase.antt =====
-- `automem_erase` and `automem_erase_ex`: both drop bytes from the front.
use uvx.Prelude.{
  true, if◌then◌else◌, min, ◌==◌, ℕ, zero, suc, ◌+◌, ◌-◌, ◌^◌, ◌≤◌, ◌<◌, ◌≡◌, refl, ap, ◌∙◌, inl,
  inr, arith, ltb, Bool-cases, List, [], ◌∷◌, some, length, take, drop, length-drop, take-drop,
}
use uvx.Prelude.Word.{add32, sub32}
use uvx.Memory.{◌>>=◌, Allocator, Succeeds, Block, ok, store, load, Returns}
use uvx.Memory.Laws.{store_front, load_lem}
use uvx.Automem.{
  automem_reset, automem_erase_ex, automem_init, automem_uninit, Automem, automem_erase, move_down,
}
use uvx.Automem.Contents.{init-Holds, Holds-reset, Holds}

drop_all : (n : ℕ) (xs : List ℕ) → length xs ≤ n → drop n xs ≡ []
drop_all zero [] h = refl
drop_all zero (x ∷ xs) h = absurd (omega arith)
drop_all (suc n) [] h = refl
drop_all (suc n) (x ∷ xs) h = drop_all n xs (omega arith)

-- The bytes behind the first `n`, read from a block that starts with `xs`.
kept_bytes :
    (b : Block) (xs : List ℕ) (n : ℕ)
    → take (length xs) b ≡ xs
    → n ≤ length xs
    → take (length xs - n) (drop n b) ≡ drop n xs
kept_bytes b xs n e h =
    let sum : n + (length xs - n) ≡ length xs = omega arith in
    take-drop (length xs - n) n b ∙ ap (λ k. drop n (take k b)) sum ∙ ap (drop n) e

module _ {m : Automem} {xs : List ℕ} (h : Holds m xs) where
  sub_size : (n : ℕ) → n < length xs → sub32 m.size n ≡ length xs - n
  sub_size n less = omega (arith, h.counted, h.fits, h.word)

  -- Any block of `size` bytes that starts with the kept bytes makes a buffer that holds them.
  kept-Holds :
      (n size : ℕ) (c : Block)
      → n < length xs
      → length c ≡ size
      → length xs - n ≤ size
      → size < 2 ^ 32
      → take (length (drop n xs)) c ≡ drop n xs
      → Holds (record { size = length xs - n; buffersize = size; pdata = some c }) (drop n xs)
  kept-Holds n size c less len room word prefix = record {
    block = c;
    held = refl;
    room = len;
    counted = omega (arith, length-drop n xs);
    fits = omega (arith, length-drop n xs);
    word = word;
    positive = omega arith;
    bytes = prefix;
  }

  load_kept : (n : ℕ) → n < length xs → load h.block n (length xs - n) ≡ ok (drop n xs)
  load_kept n less =
      load_lem h.block n (length xs - n) (omega (arith, h.room, h.fits))
      ∙ ap ok (kept_bytes h.block xs n h.bytes (omega arith))

  move_down_kept :
      (n : ℕ)
      → n < length xs
      → Returns
          (move_down h.block n (length xs - n))
          λ c. (length c ≡ m.buffersize) × (take (length (drop n xs)) c ≡ drop n xs)
  unfolding move_down
  move_down_kept n less =
      let (c, run, (same, prefix)) =
        store_front h.block (drop n xs) (omega (arith, length-drop n xs, h.room, h.fits)) in
      (c, rw (load_kept n less) run, (same ∙ h.room, prefix))

  -- `automem_erase` drops the first `n` bytes, all of them if there are no more, keeps the block
  -- and returns the new size.
  pub erase-Holds :
      (n : ℕ)
      → Returns
          (automem_erase m n)
          λ r. Holds r.0 (drop n xs) × (r.1 ≡ length xs - n) × (r.0.buffersize ≡ m.buffersize)
  unfolding automem_erase
  erase-Holds n = elim (Bool-cases (ltb n m.size)) [
    | inl less ↦
        let below : n < length xs = ground (arith, h.counted) in
        let (c, run, (same, prefix)) = move_down_kept n below in
        (
          (record m { size = length xs - n; pdata = some c }, length xs - n),
          rw (less, h.held, sub_size n below) (rw run),
          (
            kept-Holds n m.buffersize c below same (omega (arith, h.fits)) h.word prefix,
            refl,
            refl,
          ),
        )
    | inr more ↦
        let all : length xs ≤ n = ground (arith, h.counted) in
        (
          (record m { size = 0 }, 0),
          rw more,
          (
            record {
              block = h.block;
              held = h.held;
              room = h.room;
              counted = rw (drop_all n xs all);
              fits = rw (drop_all n xs all) (omega arith);
              word = h.word;
              positive = h.positive;
              bytes = rw (drop_all n xs all);
            },
            omega arith,
            refl,
          ),
        )
  ]

module _ (a : Allocator) (succeeds : Succeeds a) {m : Automem} {xs : List ℕ} (h : Holds m xs) where
  -- The branch that moves what it keeps to a smaller block.
  shrink_run :
      (n limit : ℕ) (buffer c : Block)
      → n < length xs
      → length xs + limit < 2 ^ 32
      → length xs - n + limit < m.buffersize
      → a.malloc (length xs - n + limit) ≡ some buffer
      → store buffer 0 (drop n xs) ≡ ok c
      → automem_erase_ex a m n limit
        ≡ ok (
          record { size = length xs - n; buffersize = length xs - n + limit; pdata = some c },
          length xs - n,
        )
  unfolding automem_erase_ex
  shrink_run n limit buffer c below small smaller got run =
      let less : ltb n m.size ≡ true = ground (arith, h.counted) in
      let sum : add32 (length xs - n) limit ≡ length xs - n + limit = omega arith in
      let test : ltb (length xs - n + limit) m.buffersize ≡ true = ground arith in
      rw (less, sub_size h n below, sum, test, got, h.held, ◌>>=◌)
        (rw (load_kept h n below) (rw run))

  -- `automem_erase_ex` drops the same bytes and returns the new size. What it keeps stands in a
  -- block of at most `limit` bytes more than are used; an emptied buffer of more than `limit`
  -- bytes is made anew.
  pub erase_ex-Holds :
      (n limit : ℕ)
      → length xs + limit < 2 ^ 32
      → Returns (automem_erase_ex a m n limit) λ r.
        Holds r.0 (drop n xs)
        × (r.1 ≡ length xs - n)
        × (r.0.buffersize ≡ (
            if ltb n (length xs)
            then min m.buffersize (length xs - n + limit)
            else (if ltb limit m.buffersize
                then (if limit == 0 then 128 else limit)
                else m.buffersize)))
  unfolding automem_erase_ex automem_reset
  erase_ex-Holds n limit small = elim (Bool-cases (ltb n m.size)) [
    | inl less ↦
        let below : n < length xs = ground (arith, h.counted) in
        let sum : add32 (length xs - n) limit ≡ length xs - n + limit = omega arith in
        elim (Bool-cases (ltb (length xs - n + limit) m.buffersize)) [
          | inl smaller ↦
              let size : ℕ = length xs - n + limit in
              let (buffer, got) = succeeds.mallocs size in
              let len = a.malloc_size size buffer got in
              let (c, run, (same, prefix)) =
                store_front buffer (drop n xs) (omega (arith, length-drop n xs, len)) in
              (
                (record { size = length xs - n; buffersize = size; pdata = some c }, length xs - n),
                shrink_run n limit buffer c below small (ground arith) got run,
                (
                  kept-Holds h n size c below (same ∙ len) (omega arith) (omega arith) prefix,
                  refl,
                  ground arith,
                ),
              )
          | inr larger ↦
              let (c, run, (same, prefix)) = move_down_kept h n below in
              (
                (record m { size = length xs - n; pdata = some c }, length xs - n),
                rw (less, sub_size h n below, sum, larger, h.held, ◌>>=◌) (rw run),
                (
                  kept-Holds h n m.buffersize c below same (omega (arith, h.fits)) h.word prefix,
                  refl,
                  ground arith,
                ),
              )
        ]
    | inr more ↦
        let all : length xs ≤ n = ground (arith, h.counted) in
        elim (Bool-cases (ltb limit m.buffersize)) [
          | inl large ↦
              let (fresh, size) =
                init-Holds a succeeds (automem_uninit (record m { size = 0 })) limit
                  (omega arith) in
              (
                (automem_init a (automem_uninit (record m { size = 0 })) limit, 0),
                rw (more, large),
                (rw (drop_all n xs all) fresh, omega arith, size ∙ ground arith),
              )
          | inr small' ↦ (
            (record m { size = 0 }, 0),
            rw (more, small'),
            (rw (drop_all n xs all) (Holds-reset h), omega arith, ground arith),
          )
        ]
  ]
