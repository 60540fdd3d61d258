-- ===== src/Loge/Piece.antt =====
-- Texts that `write_str` of loge/loge.c wrote, as they are read back.
use uvx.Prelude.{
  get_or, ℕ, zero, suc, ◌+◌, ◌≤◌, ◌<◌, ◌≡◌, ◌≢◌, refl, sym, ap, ◌∙◌, inl, inr, true, false, List,
  [], ◌∷◌, ◌++◌, Option, none, some, arith, length, take, drop, leb, ◌==◌, if◌then◌else◌,
  length-append, length-take, append_assoc, subst, ◌⊎◌, append-nil,
}
use uvx.Memory.{Block, ok, Returns}
use uvx.Loge.Text.{write_str, is_leading}
use uvx.Loge.Write.{text_of, Written, write_str-Written}

-- The text at a `char*`: the bytes before the first zero.
unfoldable pub text_at : Block → List ℕ
text_at [] = []
text_at (c ∷ b) = if c == 0 then [] else c ∷ text_at b

-- The bytes of a text: none is zero.
abbrev pub IsText : List ℕ → Type 0
IsText [] = Unit
IsText (c ∷ s) = (c ≢ 0) × IsText s

pub IsText-take : (n : ℕ) (s : List ℕ) → IsText s → IsText (take n s)
IsText-take zero s t = tt
IsText-take (suc n) [] t = tt
IsText-take (suc n) (c ∷ s) (ne, t) = (ne, IsText-take n s t)

pub text_at_start :
    (n : ℕ) (b s post : List ℕ) → IsText s → take n b ≡ s ++ 0 ∷ post → text_at b ≡ s
unfolding text_at
text_at_start zero b [] post t e = absurd (cc)
text_at_start zero b (c ∷ s) post t e = absurd (cc)
text_at_start (suc n) [] [] post t e = absurd (cc)
text_at_start (suc n) [] (c ∷ s) post t e = absurd (cc)
text_at_start (suc n) (d ∷ b) [] post t e = let f : d ≡ 0 = cc in rw f
text_at_start (suc n) (d ∷ b) (c ∷ s) post (ne, t) e =
    let f : d ≡ c = cc in
    let g : take n b ≡ s ++ 0 ∷ post = cc in
    let h : (c == 0) ≡ false = ground arith in rw (f, h) (ap (◌∷◌ c) (text_at_start n b s post t g))

-- A text that stands in a block behind `pre` is read there.
pub text_at-drop :
    (n : ℕ) (b pre s post : List ℕ)
    → IsText s
    → take n b ≡ pre ++ (s ++ 0 ∷ post)
    → text_at (drop (length pre) b) ≡ s
text_at-drop n b [] s post t e = text_at_start n b s post t e
text_at-drop zero b (c ∷ pre) s post t e = absurd (cc)
text_at-drop (suc n) [] (c ∷ pre) s post t e = absurd (cc)
text_at-drop (suc n) (d ∷ b) (c ∷ pre) s post t e =
    text_at-drop n b pre s post t (let f : take n b ≡ pre ++ (s ++ 0 ∷ post) = cc in f)

-- What `write_str` wrote: nothing at the end, or a part of the text and its zero.
pub record Piece (b : Block) (p end : ℕ) (s : List ℕ) (r : Block × ℕ) : Type 0 where
  pub piece : List ℕ
  pub kept : ℕ
  pub shape : ((p ≡ end) × (piece ≡ [])) ⊎ ((p < end) × (piece ≡ take kept s ++ 0 ∷ []))
  pub cut : kept ≤ length s
  pub stop : r.1 ≡ p + length piece
  pub bound : r.1 ≤ end
  pub size : length r.0 ≡ length b
  pub bytes : take r.1 r.0 ≡ take p b ++ piece
  pub whole : p + length s + 1 ≤ end → kept ≡ length s
  pub boundary : (kept ≡ 0) ⊎ (is_leading (get_or (s ++ 0 ∷ []) kept 0) ≡ true)

full_run : (b : Block) (p : ℕ) (str : Option (List ℕ)) → write_str b p p str ≡ ok (b, p)
unfolding write_str
full_run b p none =
    let e : leb p p ≡ true = ground arith in let f : (p == p) ≡ true = ground arith in rw (e, f)
full_run b p (some []) =
    let e : leb p p ≡ true = ground arith in let f : (p == p) ≡ true = ground arith in rw (e, f)
full_run b p (some (c ∷ s)) =
    let e : leb p p ≡ true = ground arith in let f : (p == p) ≡ true = ground arith in rw (e, f)

full-Piece :
    (b : Block) (p : ℕ) (str : Option (List ℕ))
    → Returns (write_str b p p str) (Piece b p p (text_of str))
full-Piece b p str = (
  (b, p),
  full_run b p str,
  record {
    piece = [];
    kept = 0;
    shape = inl (refl, refl);
    cut = omega arith;
    stop = omega arith;
    bound = omega arith;
    size = refl;
    bytes = sym (append-nil (take p b));
    whole = λ h. absurd (omega arith);
    boundary = inl refl;
  },
)

Written-Piece :
    (b : Block) (p end : ℕ) (s : List ℕ) (r : Block × ℕ)
    → p < end
    → Written b p end s r
    → Piece b p end s r
Written-Piece b p end s r h w =
    let n : length (take w.kept s ++ 0 ∷ []) ≡ w.kept + 1 =
      omega (arith, length-append (take w.kept s) (0 ∷ []), length-take w.kept s, w.cut) in
    record {
      piece = take w.kept s ++ 0 ∷ [];
      kept = w.kept;
      shape = inr (h, refl);
      cut = w.cut;
      stop = omega (arith, n, w.stop);
      bound = w.bound;
      size = w.size;
      bytes = ap (λ k. take k r.0) w.stop ∙ w.bytes;
      whole = w.whole;
      boundary = w.boundary;
    }

pub write_str-Piece :
    (b : Block) (p end : ℕ) (str : Option (List ℕ))
    → p ≤ end
    → end ≤ length b
    → Returns (write_str b p end str) (Piece b p end (text_of str))
write_str-Piece b p end str h room = elim (le_cases p end h) [
  | inl e ↦
      subst (λ q. Returns (write_str b p q str) (Piece b p q (text_of str))) e (full-Piece b p str)
  | inr lt ↦
      let (r, run, w) = write_str-Written b p end str lt room in
      (r, run, Written-Piece b p end (text_of str) r lt w)
]
  where
    le_cases : (p end : ℕ) → p ≤ end → (p ≡ end) ⊎ (p < end)
    le_cases p end h = ground arith

-- A piece in a block that was written further is read back as the part of the text that it holds.
pub piece_text :
    (n : ℕ) (b pre s post piece : List ℕ) (kept p end : ℕ)
    → IsText s
    → length pre ≡ p
    → p < end
    → ((p ≡ end) × (piece ≡ [])) ⊎ ((p < end) × (piece ≡ take kept s ++ 0 ∷ []))
    → take n b ≡ pre ++ (piece ++ post)
    → text_at (drop p b) ≡ take kept s
piece_text n b pre s post piece kept p end t at lt (inl (e, _)) h = absurd (omega arith)
piece_text n b pre s post piece kept p end t at lt (inr (_, e)) h =
    let laid : take n b ≡ pre ++ (take kept s ++ 0 ∷ post) =
      h
      ∙ ap (λ q. pre ++ (q ++ post)) e
      ∙ ap (λ q. pre ++ q) (append_assoc (take kept s) (0 ∷ []) post) in
    subst (λ q. text_at (drop q b) ≡ take kept s) at
      (text_at-drop n b pre (take kept s) post (IsText-take kept s t) laid)

-- The end of a piece that is not at the end of the room.
pub piece_stop :
    {piece : List ℕ} {p q : ℕ} (end : ℕ) (s : List ℕ) (k : ℕ)
    → p < end
    → q ≡ p + length piece
    → ((p ≡ end) × (piece ≡ [])) ⊎ ((p < end) × (piece ≡ take k s ++ 0 ∷ []))
    → k ≤ length s
    → q ≡ p + k + 1
piece_stop end s k lt e (inl (f, _)) h = absurd (omega arith)
piece_stop {piece} end s k lt e (inr (_, f)) h =
    omega (arith, ap length f, length-append (take k s) (0 ∷ []), length-take k s)
