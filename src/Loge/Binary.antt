-- ===== src/Loge/Binary.antt =====
-- What `write_bin` of loge/loge.c leaves in the buffer.
use uvx.Prelude.{
  ℕ, ◌+◌, ◌-◌, ◌≤◌, ◌<◌, ◌≡◌, refl, sym, ap, ◌∙◌, min, List, [], ◌∷◌, ◌++◌, Option, none, some,
  arith, length, take, ltb, ◌==◌, leb, if◌then◌else◌, true, false, length-append, length-take,
  take-take, take-append_le, append_assoc, append-nil, take-append_right, take-length, ◌⊎◌, inl,
  inr, take-drop, drop, drop-append, get_or,
}
use uvx.Memory.{Block, ok, ◌>>=◌, store, Returns}
use uvx.Memory.Laws.{store-Returns}
use uvx.Loge.Text.{write_bin, is_leading}
use uvx.Loge.Piece.{Piece}

-- The block after `d` was written between `p` and `end`: the block and the result.
pub record Copied (b : Block) (p end : ℕ) (d : List ℕ) (r : Block × Option ℕ) : Type 0 where
  pub size : length r.0 ≡ length b
  pub before : take p r.0 ≡ take p b
  pub whole :
      p + length d + 1 ≤ end
      → (r.1 ≡ some (p + length d + 1)) × (take (p + length d + 1) r.0 ≡ take p b ++ (d ++ 0 ∷ []))
  pub cut : end < p + length d + 1 → r.1 ≡ none

bin_run :
    (b b' b'' : Block) (p end beyond n : ℕ) (d : List ℕ)
    → p < end
    → n ≡ min (length d + 1) (end - p)
    → store b p (take n (d ++ beyond ∷ [])) ≡ ok b'
    → store b' (p + n - 1) (0 ∷ []) ≡ ok b''
    → write_bin b p end (some d) beyond
      ≡ ok (b'', if ltb n (length d + 1) then none else some (p + n))
unfolding write_bin
bin_run b b' b'' p end beyond n d h e run run' =
    let in_order : leb p end ≡ true = ground arith in
    let room : (p == end) ≡ false = ground arith in rw (in_order, room, sym e, run, ◌>>=◌) (rw run')

-- The block `b'` after the copy of `n` bytes, and `b''` after the zero.
module _ (b b' b'' : Block) (p beyond n : ℕ) (d : List ℕ) (some_room : 0 < n)
    (few : n ≤ length d + 1) (front : length (take p b) ≡ p)
    (copied : take (p + n) b' ≡ take p b ++ take n (d ++ beyond ∷ []))
    (ended : take (p + n - 1 + 1) b'' ≡ take (p + n - 1) b' ++ 0 ∷ []) where
  kept : take (p + (n - 1)) b' ≡ take p b ++ take (n - 1) d
  kept =
      sym (take-take (p + (n - 1)) (p + n) b' (omega arith))
      ∙ ap (take (p + (n - 1))) copied
      ∙ take-append_right (take p b) (take n (d ++ beyond ∷ [])) (p + (n - 1)) (n - 1)
          (omega (arith, front))
      ∙ ap (λ l. take p b ++ l)
          (take-take (n - 1) n (d ++ beyond ∷ []) (omega arith)
            ∙ take-append_le (n - 1) d (beyond ∷ []) (omega arith))

  written : take (p + n) b'' ≡ take p b ++ (take (n - 1) d ++ 0 ∷ [])
  written =
      ap (λ j. take j b'') (omega arith)
      ∙ ended
      ∙ ap (λ j. take j b' ++ 0 ∷ []) (omega arith)
      ∙ ap (λ l. l ++ 0 ∷ []) kept
      ∙ append_assoc (take p b) (take (n - 1) d) (0 ∷ [])

  before_kept : take p b'' ≡ take p b
  before_kept =
      sym (take-take p (p + n) b'' (omega arith))
      ∙ ap (take p) written
      ∙ take-append_right (take p b) (take (n - 1) d ++ 0 ∷ []) p 0 (omega (arith, front))
      ∙ append-nil (take p b)

  written_whole : n ≡ length d + 1 → take (p + length d + 1) b'' ≡ take p b ++ (d ++ 0 ∷ [])
  written_whole exact =
      ap (λ j. take j b'') (omega (arith, exact))
      ∙ written
      ∙ ap (λ l. take p b ++ (l ++ 0 ∷ []))
          (ap (λ j. take j d) (omega (arith, exact)) ∙ take-length d)

  result_whole :
      n ≡ length d + 1
      → (if ltb n (length d + 1) then none else some (p + n)) ≡ some (p + length d + 1)
  result_whole exact =
      let enough : ltb n (length d + 1) ≡ false = ground arith in
      rw enough (ap some (omega (arith, exact)))

result_cut :
    (p n : ℕ) (d : List ℕ)
    → n < length d + 1
    → (if ltb n (length d + 1) then none else some (p + n)) ≡ none
result_cut p n d h = let few : ltb n (length d + 1) ≡ true = ground arith in rw few

-- `write_bin` of some data with room for a byte ends normally. Data that fit are written whole, with a
-- zero behind them, and the result is the next place; for data that do not fit it is null. The bytes before
-- `p` stay.
pub write_bin-Copied :
    (b : Block) (p end beyond : ℕ) (d : List ℕ)
    → p < end
    → end ≤ length b
    → Returns (write_bin b p end (some d) beyond) (Copied b p end d)
write_bin-Copied b p end beyond d h room =
    let n = min (length d + 1) (end - p) in
    let wide : length (take n (d ++ beyond ∷ [])) ≡ n =
      omega (arith, length-take n (d ++ beyond ∷ []), length-append d (beyond ∷ [])) in
    let (b', run, (size, bytes)) =
      store-Returns b p (take n (d ++ beyond ∷ [])) (omega (arith, wide)) in
    let (b'', run', (size', bytes')) =
      store-Returns b' (p + n - 1) (0 ∷ []) (omega (arith, size)) in
    let front : length (take p b) ≡ p = omega (arith, length-take p b) in
    let copied : take (p + n) b' ≡ take p b ++ take n (d ++ beyond ∷ []) =
      ap (λ j. take (p + j) b') (sym wide) ∙ bytes in
    (
      (b'', if ltb n (length d + 1) then none else some (p + n)),
      bin_run b b' b'' p end beyond n d h refl run run',
      record {
        size = size' ∙ size;
        before = before_kept b b' b'' p beyond n d (omega arith) (omega arith) front copied bytes';
        whole = λ fits. (
          result_whole b b' b'' p beyond n d (omega arith) (omega arith) front copied bytes'
              (omega arith),
          written_whole b b' b'' p beyond n d (omega arith) (omega arith) front copied bytes'
              (omega arith),
        );
        cut = λ long. result_cut p n d (omega arith);
      },
    )

get_or-end : (s : List ℕ) → get_or (s ++ 0 ∷ []) (length s) 0 ≡ 0
get_or-end [] = refl
get_or-end (c ∷ s) = get_or-end s

-- Data that were written whole are a piece.
Copied-Piece :
    (b : Block) (p end : ℕ) (d : List ℕ) (r : Block × Option ℕ)
    → p ≤ length b
    → p + length d + 1 ≤ end
    → Copied b p end d r
    → Piece b p end d (r.0, p + length d + 1)
unfolding is_leading
Copied-Piece b p end d r inside fits c = record {
  piece = d ++ 0 ∷ [];
  kept = length d;
  shape = inr (omega arith, ap (λ q. q ++ 0 ∷ []) (sym (take-length d)));
  cut = omega arith;
  stop = omega (arith, length-append d (0 ∷ []));
  bound = fits;
  size = c.size;
  bytes = (c.whole fits).1;
  whole = λ h. refl;
  boundary = inr (rw (get_or-end d) refl);
}

-- `write_bin` of some data leaves them whole, or says that it cut them.
pub write_bin-Piece :
    (b : Block) (p end beyond : ℕ) (d : List ℕ)
    → p < end
    → end ≤ length b
    → Returns (write_bin b p end (some d) beyond) λ r.
      ((r.1 ≡ none) × (end < p + length d + 1))
      ⊎ ((r.1 ≡ some (p + length d + 1)) × Piece b p end d (r.0, p + length d + 1))
write_bin-Piece b p end beyond d h room =
    let (r, run, c) = write_bin-Copied b p end beyond d h room in
    (
      r,
      run,
      elim (fits_cases (p + length d + 1) end) [
        | inl fits ↦ inr ((c.whole fits).0, Copied-Piece b p end d r (omega arith) fits c)
        | inr long ↦ inl (c.cut long, long)
      ],
    )
  where
    fits_cases : (n end : ℕ) → (n ≤ end) ⊎ (end < n)
    fits_cases n end = ground arith

-- A piece at the end of what was written is read back by its length.
pub piece_data :
    (n : ℕ) (b pre s piece : List ℕ) (kept p end : ℕ)
    → length pre ≡ p
    → p < end
    → ((p ≡ end) × (piece ≡ [])) ⊎ ((p < end) × (piece ≡ take kept s ++ 0 ∷ []))
    → kept ≤ length s
    → p + kept ≤ n
    → take n b ≡ pre ++ piece
    → take kept (drop p b) ≡ take kept s
piece_data n b pre s piece kept p end at lt (inl (e, _)) cut few h = absurd (omega arith)
piece_data n b pre s piece kept p end at lt (inr (_, e)) cut few h =
    let front : take (p + kept) b ≡ pre ++ take kept s =
      sym (take-take (p + kept) n b few)
      ∙ ap (take (p + kept)) (h ∙ ap (◌++◌ pre) e)
      ∙ take-append_right pre (take kept s ++ 0 ∷ []) (p + kept) kept (omega (arith, at))
      ∙ ap (◌++◌ pre) (
          take-append_le kept (take kept s) (0 ∷ []) (omega (arith, length-take kept s))
          ∙ take-take kept kept s (omega arith)) in
    take-drop kept p b ∙ ap (drop p) front ∙ drop-append pre (take kept s) p (sym at)
