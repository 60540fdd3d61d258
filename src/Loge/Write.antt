-- ===== src/Loge/Write.antt =====
-- What `write_str` of loge/loge.c leaves in the buffer.
use uvx.Prelude.{
  ℕ, zero, suc, ◌+◌, ◌-◌, ◌≤◌, ◌<◌, ◌≡◌, refl, sym, ap, ◌∙◌, inl, inr, ◌⊎◌, min, List, [], ◌∷◌,
  ◌++◌, Option, none, some, arith, length, take, get_or, ◌==◌, leb, true, false, Bool-cases,
  length-append, length-take, take-take, take-append_le, append_assoc, get_or-take,
  get_or-append_right, take-append_right,
}
use uvx.Memory.{Block, ok, ◌>>=◌, store, Returns}
use uvx.Memory.Laws.{store-Returns}
use uvx.Loge.Text.{is_leading, rfind, write_str}

-- Either no leading byte was found or one is there, and a leading byte at the start is found.
rfind_lem :
    (b : Block) (p from : ℕ)
    → (rfind b p from ≤ from)
      × ((rfind b p from ≡ 0) ⊎ (is_leading (get_or b (p + rfind b p from) 0) ≡ true))
      × (is_leading (get_or b (p + from) 0) ≡ true → rfind b p from ≡ from)
unfolding rfind
rfind_lem b p zero = (omega arith, inl refl, λ e. refl)
rfind_lem b p (suc from) =
    let (below, found, _) = rfind_lem b p from in
    elim (Bool-cases (is_leading (get_or b (p + suc from) 0))) [
      | inl here ↦ rw here (omega arith, inr here, λ e. refl)
      | inr not_here ↦ rw not_here (omega arith, found, λ e. absurd (cc))
    ]

abbrev pub text_of : Option (List ℕ) → List ℕ
text_of none = []
text_of (some s) = s

-- The block after a text was written between `p` and `end`: the block and the next place.
pub record Written (b : Block) (p end : ℕ) (s : List ℕ) (r : Block × ℕ) : Type 0 where
  pub kept : ℕ
  pub cut : kept ≤ length s
  pub stop : r.1 ≡ p + kept + 1
  pub bound : r.1 ≤ end
  pub size : length r.0 ≡ length b
  pub bytes : take (p + kept + 1) r.0 ≡ take p b ++ (take kept s ++ 0 ∷ [])
  pub whole : p + length s + 1 ≤ end → kept ≡ length s
  pub boundary : (kept ≡ 0) ⊎ (is_leading (get_or (s ++ 0 ∷ []) kept 0) ≡ true)

is_leading-zero : is_leading 0 ≡ true
unfolding is_leading
is_leading-zero = refl

end_byte : (s : List ℕ) → get_or (s ++ 0 ∷ []) (length s) 0 ≡ 0
end_byte s = get_or-append_right s (0 ∷ []) (length s) 0 0 (omega arith)

-- An empty text, or none.
nothing_run :
    (b b' : Block) (p end : ℕ) (str : Option (List ℕ))
    → text_of str ≡ []
    → p < end
    → store b p (0 ∷ []) ≡ ok b'
    → write_str b p end str ≡ ok (b', p + 1)
unfolding write_str
nothing_run b b' p end none e h run =
    let in_order : leb p end ≡ true = ground arith in
    let room : (p == end) ≡ false = ground arith in rw (in_order, room, run)
nothing_run b b' p end (some []) e h run =
    let in_order : leb p end ≡ true = ground arith in
    let room : (p == end) ≡ false = ground arith in rw (in_order, room, run)
nothing_run b b' p end (some (c ∷ s)) e h run = absurd (cc)

nothing-Written :
    (b : Block) (p end : ℕ) (str : Option (List ℕ))
    → text_of str ≡ []
    → p < end
    → end ≤ length b
    → Returns (write_str b p end str) (Written b p end (text_of str))
nothing-Written b p end str e h room =
    let (b', run, (size, bytes)) = store-Returns b p (0 ∷ []) (omega arith) in
    (
      (b', p + 1),
      nothing_run b b' p end str e h run,
      record {
        kept = 0;
        cut = omega arith;
        stop = omega arith;
        bound = omega arith;
        size = size;
        bytes = ap (λ k. take k b') (omega arith) ∙ bytes;
        whole = λ _. sym (ap length e);
        boundary = inl refl;
      },
    )

some_run :
    (b b' b'' : Block) (p end c : ℕ) (s : List ℕ)
    → p < end
    → store b p (take (min (length (c ∷ s) + 1) (end - p)) ((c ∷ s) ++ 0 ∷ [])) ≡ ok b'
    → store b' (p + rfind b' p (min (length (c ∷ s) + 1) (end - p) - 1)) (0 ∷ []) ≡ ok b''
    → write_str b p end (some (c ∷ s))
      ≡ ok (b'', p + rfind b' p (min (length (c ∷ s) + 1) (end - p) - 1) + 1)
unfolding write_str
some_run b b' b'' p end c s h run run' =
    let in_order : leb p end ≡ true = ground arith in
    let room : (p == end) ≡ false = ground arith in rw (in_order, room, run, ◌>>=◌) (rw run')

some-Written :
    (b : Block) (p end c : ℕ) (s : List ℕ)
    → p < end
    → end ≤ length b
    → Returns (write_str b p end (some (c ∷ s))) (Written b p end (c ∷ s))
some-Written b p end c s h room =
    let str = c ∷ s in
    let n = min (length str + 1) (end - p) in
    let full = length-append str (0 ∷ []) in
    let wide : length (take n (str ++ 0 ∷ [])) ≡ n =
      omega (arith, length-take n (str ++ 0 ∷ []), full) in
    let (b', run, (size, bytes)) =
      store-Returns b p (take n (str ++ 0 ∷ [])) (omega (arith, wide)) in
    let k = rfind b' p (n - 1) in
    let (below, found, exact) = rfind_lem b' p (n - 1) in
    let (b'', run', (size', bytes')) = store-Returns b' (p + k) (0 ∷ []) (omega (arith, size)) in
    let front : length (take p b) ≡ p = omega (arith, length-take p b) in
    let copied : take (p + n) b' ≡ take p b ++ take n (str ++ 0 ∷ []) =
      ap (λ j. take (p + j) b') (sym wide) ∙ bytes in
    let byte : (i : ℕ) → i < n → get_or b' (p + i) 0 ≡ get_or (str ++ 0 ∷ []) i 0 = λ i lt.
      sym (get_or-take (p + n) b' (p + i) 0 (omega arith))
      ∙ ap (λ l. get_or l (p + i) 0) copied
      ∙ get_or-append_right (take p b) (take n (str ++ 0 ∷ [])) (p + i) i 0 (omega (arith, front))
      ∙ get_or-take n (str ++ 0 ∷ []) i 0 lt in
    (
      (b'', p + k + 1),
      some_run b b' b'' p end c s h run run',
      record {
        kept = k;
        cut = omega (arith, below);
        stop = refl;
        bound = omega (arith, below);
        size = size' ∙ size;
        bytes =
            bytes'
            ∙ ap (λ l. l ++ 0 ∷ [])
                (sym (take-take (p + k) (p + n) b' (omega (arith, below)))
                  ∙ ap (take (p + k)) copied
                  ∙ take-append_right (take p b) (take n (str ++ 0 ∷ [])) (p + k) k
                      (omega (arith, front))
                  ∙ ap (λ l. take p b ++ l)
                      (take-take k n (str ++ 0 ∷ []) (omega (arith, below))
                        ∙ take-append_le k str (0 ∷ []) (omega (arith, below))))
            ∙ append_assoc (take p b) (take k str) (0 ∷ []);
        whole = λ fits.
            (let last : n - 1 ≡ length str = omega arith in
              let zero_byte : get_or b' (p + (n - 1)) 0 ≡ 0 =
                byte (n - 1) (omega arith)
                ∙ ap (λ i. get_or (str ++ 0 ∷ []) i 0) last
                ∙ end_byte str in
              exact (ap is_leading zero_byte ∙ is_leading-zero) ∙ last);
        boundary = elim found [
          | inl z ↦ inl z
          | inr lead ↦ inr (ap is_leading (sym (byte k (omega (arith, below)))) ∙ lead)
        ];
      },
    )

-- `write_str` with room for a byte ends normally. It writes the text up to some byte and a zero, and
-- returns the next place, which is at most `end`; the bytes before `p` stay. A text that fits
-- is written whole, and one that does not is cut where a character of UTF-8 begins.
pub write_str-Written :
    (b : Block) (p end : ℕ) (str : Option (List ℕ))
    → p < end
    → end ≤ length b
    → Returns (write_str b p end str) (Written b p end (text_of str))
write_str-Written b p end none h room = nothing-Written b p end none refl h room
write_str-Written b p end (some []) h room = nothing-Written b p end (some []) refl h room
write_str-Written b p end (some (c ∷ s)) h room = some-Written b p end c s h room
