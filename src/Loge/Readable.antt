-- ===== src/Loge/Readable.antt =====
-- The texts of an item in UTF-8, the end of a path in UTF-8 among them.
use uvx.Prelude.{
  take, ℕ, zero, suc, ◌+◌, ◌-◌, ◌≤◌, ◌<◌, ◌≡◌, ◌≢◌, refl, sym, ap, ◌∙◌, subst, inl, inr, ◌⊎◌, true,
  List, [], ◌∷◌, ◌++◌, Option, none, some, arith, length, drop, get_or,
}
use uvx.Memory.{Returns}
use uvx.Loge.{Loge, Buffer, item_size, loge_item}
use uvx.Loge.Text.{is_leading}
use uvx.Loge.Path.{strrchr, strrchr_from, shorten_loop, last_slash, shorten_path}
use uvx.Loge.Write.{text_of}
use uvx.Loge.Piece.{text_at, IsText}
use uvx.Loge.Laid.{Laid}
use uvx.Loge.Naming.{Named}
use uvx.Loge.Layout.{item-Laid}
use uvx.Loge.Utf8.{Utf8, empty, char, followers, past-Following, get_past, take-Utf8}

drop_past :
    (rest s : List ℕ) (k : ℕ) → length rest ≤ k → drop k (rest ++ s) ≡ drop (k - length rest) s
drop_past [] s k h = ap (λ n. drop n s) (omega arith)
drop_past (c ∷ rest) s zero h = absurd (omega arith)
drop_past (c ∷ rest) s (suc k) h =
    drop_past rest s k (omega arith) ∙ ap (λ n. drop n s) (omega arith)

ascii_leads : (c : ℕ) → c < 128 → (is_leading c ≡ true) × (followers c ≡ 0)
unfolding is_leading
ascii_leads c h = ground arith

none_follow : (c : ℕ) (rest : List ℕ) → c < 128 → length rest ≡ followers c → rest ≡ []
none_follow c [] h e = refl
none_follow c (d ∷ rest) h e = absurd (omega (arith, (ascii_leads c h).1, e))

-- What stands behind a byte below 128 of a text is a text.
drop-Utf8 :
    (s : List ℕ) (k d : ℕ) → Utf8 s → d < 128 → 0 < d → get_or s k 0 ≡ d → Utf8 (drop (suc k) s)
drop-Utf8 s k d empty small pos e = absurd (omega arith)
drop-Utf8 s zero d (char c rest s' w l n f u) small pos e =
    let same : c ≡ d = sym (ap (λ q. get_or q 0 0) w) ∙ e in
    let nothing = none_follow c rest (omega (arith, same)) n in
    subst Utf8 (sym (ap (drop 1) (w ∙ ap (λ q. c ∷ (q ++ s')) nothing))) u
drop-Utf8 s (suc k) d (char c rest s' w l n f u) small pos e =
    let e' : get_or (rest ++ s') k 0 ≡ d = sym (ap (λ q. get_or q (suc k) 0) w) ∙ e in
    let past = past-Following rest s' k f (ap is_leading e' ∙ (ascii_leads d small).0) in
    let again = drop-Utf8 s' (k - length rest) d u small pos (sym (get_past rest s' k past) ∙ e') in
    let shift : suc k - length rest ≡ suc (k - length rest) = omega (arith, past) in
    subst Utf8
      (sym (
        ap (drop (suc (suc k))) w
        ∙ drop_past rest s' (suc k) (omega (arith, past))
        ∙ ap (λ n. drop n s') shift))
      again

Option-cases : (o : Option ℕ) → (o ≡ none) ⊎ ((j : ℕ) × (o ≡ some j))
Option-cases none = inl refl
Option-cases (some j) = inr (j, refl)

strrchr_finds : (s : List ℕ) (c i : ℕ) → strrchr s c ≡ some i → get_or s i 0 ≡ c
unfolding strrchr
strrchr_finds [] c i e = absurd (cc)
strrchr_finds (d ∷ s) c i e = elim (Option-cases (strrchr s c)) [
  | inl f ↦ ground (arith, f)
  | inr (j, f) ↦ ground (arith, strrchr_finds s c j f, f)
]

strrchr_from_finds : (s : List ℕ) (from c i : ℕ) → strrchr_from s from c ≡ some i → get_or s i 0 ≡ c
unfolding strrchr_from
strrchr_from_finds s zero c i e = ground arith
strrchr_from_finds s (suc from) c i e = ground (arith, strrchr_from_finds s from c i)

shorten_loop_finds :
    (count : ℕ) (s : List ℕ) (slash : ℕ) (o : Option ℕ) (i : ℕ)
    → ((j : ℕ) → o ≡ some j → get_or s j 0 ≡ slash)
    → shorten_loop count s o slash ≡ some i
    → get_or s i 0 ≡ slash
unfolding shorten_loop
shorten_loop_finds count s slash none i h e = absurd (cc)
shorten_loop_finds count s slash (some zero) i h e = h i e
shorten_loop_finds zero s slash (some (suc j)) i h e = h i e
shorten_loop_finds (suc count) s slash (some (suc j)) i h e =
    shorten_loop_finds count s slash (strrchr_from s j slash) i
      (λ k. strrchr_from_finds s j slash k) e

last_slash_finds :
    (s : List ℕ) (j : ℕ)
    → (last_slash s).1 ≡ some j
    → (get_or s j 0 ≡ (last_slash s).0) × ((last_slash s).0 < 128) × (0 < (last_slash s).0)
unfolding last_slash
last_slash_finds s j e = elim (Option-cases (strrchr s b'/')) [
  | inl f ↦ ground (arith, f, strrchr_finds s 92 j)
  | inr (i, f) ↦ ground (arith, f, strrchr_finds s b'/' j)
]

slash_small : (s : List ℕ) → ((last_slash s).0 < 128) × (0 < (last_slash s).0)
unfolding last_slash
slash_small s = elim (Option-cases (strrchr s b'/')) [
  | inl f ↦ ground (arith, f)
  | inr (i, f) ↦ ground (arith, f)
]

shortened :
    (s : List ℕ)
    → (shorten_path (some s) ≡ some s)
      ⊎ ((i : ℕ) × (shorten_loop 2 s (last_slash s).1 (last_slash s).0 ≡ some i)
          × (shorten_path (some s) ≡ some (drop (suc i) s)))
unfolding shorten_path
shortened s = elim (Option-cases (shorten_loop 2 s (last_slash s).1 (last_slash s).0)) [
  | inl f ↦ inl (ground (arith, f))
  | inr (zero, f) ↦ inl (ground (arith, f))
  | inr (suc i, f) ↦ inr (suc i, f, ground (arith, f))
]

-- The end of a path in UTF-8 is in UTF-8.
pub shorten_path-Utf8 :
    (file : Option (List ℕ)) → Utf8 (text_of file) → Utf8 (text_of (shorten_path file))
unfolding shorten_path text_of
shorten_path-Utf8 none u = u
shorten_path-Utf8 (some s) u = elim (shortened s) [
  | inl e ↦ subst (λ o. Utf8 (text_of o)) (sym e) u
  | inr (i, f, e) ↦
      let found =
        shorten_loop_finds 2 s (last_slash s).0 (last_slash s).1 i
          (λ j e. (last_slash_finds s j e).0) f in
      let (small, pos) = slash_small s in
      subst (λ o. Utf8 (text_of o)) (sym e) (drop-Utf8 s i (last_slash s).0 u small pos found)
]

-- The texts that a reader finds are in UTF-8; the file's only where the tags leave it a byte.
pub record Readable (r : ℕ × Buffer) : Type 0 where
  pub tags_read : Utf8 (text_at (drop r.1.item.tags_offset r.1.extra))
  pub file_read : r.1.item.file_offset ≢ 255 → Utf8 (text_at (drop r.1.item.file_offset r.1.extra))
  pub msg_read : Utf8 (text_at (drop r.1.item.msg_offset r.1.extra))

pub Laid-Readable :
    {name tags file msg : List ℕ} {bound : ℕ} {r : ℕ × Buffer}
    → (l : Laid name tags file msg bound r) → Utf8 tags
    → Utf8 file
    → IsText msg
    → Utf8 (take l.msg_kept msg)
    → Readable r
Laid-Readable {tags = tags} {file} l t f mt m = record {
  tags_read = subst Utf8 (sym l.tags_text) (take-Utf8 tags l.tags_kept t l.tags_boundary);
  file_read =
      λ ne. subst Utf8 (sym (l.file_text ne)) (take-Utf8 file l.file_kept f l.file_boundary);
  msg_read = subst Utf8 (sym (l.msg_text mt)) m;
}

-- The tags, the end of the file's path and the message in an item of an enabled log are in UTF-8 when the
-- arguments were, whole or cut, in every buffer with room for 256 bytes of texts.
pub item-Readable :
    (l : Loge) (buf : Buffer) (bufsize level line now tid : ℕ) (tags msg file : Option (List ℕ))
    (name : List ℕ)
    → Named l name
    → l.enabled ≢ 0
    → length buf.extra + item_size ≡ bufsize
    → item_size + 256 ≤ bufsize
    → IsText (text_of tags) × Utf8 (text_of tags)
    → IsText (text_of (shorten_path file)) × Utf8 (text_of file)
    → IsText (text_of msg) × Utf8 (text_of msg)
    → Returns (loge_item l buf bufsize level tags msg file line now tid) Readable
item-Readable l buf bufsize level line now tid tags msg file name n on size room (tt', tu) (ft, fu)
      (mt, mu) =
    let (r, run, laid) =
      item-Laid l buf bufsize level line now tid tags msg file name n on size room tt' ft in
    (
      r,
      run,
      Laid-Readable laid tu (shorten_path-Utf8 file fu) mt
          (take-Utf8 (text_of msg) laid.msg_kept mu laid.msg_boundary),
    )
