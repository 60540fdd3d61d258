-- ===== src/Loge/Tests.antt =====
-- `write_str` where five bytes of six are left, the last two of them one character.
use uvx.Prelude.{
  ◌<◌, ◌+◌, none, take, drop, ◌⊎◌, ℕ, suc, ◌≡◌, ◌≢◌, refl, List, [], ◌∷◌, ◌++◌, some, arith,
  replicate,
}
use uvx.Memory.{fault, out_of_bounds, Returns, ok, store}
use uvx.Loge.Text.{write_str, rfind, is_leading}
use uvx.Loge.Path.{shorten_path, shorten_loop, last_slash, strrchr, strrchr_from}
use uvx.Loge.{Loge, Buffer, LogeItem, loge_item, loge_item_bin, text, bin}
use uvx.Loge.Piece.{IsText}
use uvx.Loge.Laid.{Laid}
use uvx.Loge.Small.{tags_overrun}
use uvx.Loge.Naming.{Named}
use uvx.Loge.Layout.{item_bin-Laid, item-Laid}
use uvx.Loge.Utf8.{Utf8, empty, char}
use uvx.Loge.Readable.{Readable, item-Readable}
use uvx.Loge.Write.{text_of}

abbrev six_bytes : List ℕ
six_bytes = 9 ∷ 9 ∷ 9 ∷ 9 ∷ 9 ∷ 9 ∷ []

-- "abc" and the two bytes of U+00E9
abbrev accented : List ℕ
accented = 97 ∷ 98 ∷ 99 ∷ 195 ∷ 169 ∷ []

write_str_test : write_str six_bytes 1 6 (some accented) ≡ ok (9 ∷ 97 ∷ 98 ∷ 99 ∷ 0 ∷ 169 ∷ [], 5)
unfolding write_str store rfind is_leading
write_str_test = refl

-- "/a/b/c/d" becomes "b/c/d".
shorten_path_test :
    shorten_path (some (47 ∷ 97 ∷ 47 ∷ 98 ∷ 47 ∷ 99 ∷ 47 ∷ 100 ∷ []))
    ≡ some (98 ∷ 47 ∷ 99 ∷ 47 ∷ 100 ∷ [])
unfolding shorten_path shorten_loop last_slash strrchr strrchr_from
shorten_path_test = refl

-- A log before it has a name, and with the name "log".
abbrev unnamed : Loge
unnamed = record { name = replicate 16 0; enabled = 1; pid = 42; name_len = 0 }

abbrev log_text : List ℕ
log_text = b'l' ∷ b'o' ∷ b'g' ∷ []

abbrev log_named : Loge
log_named = record unnamed { name = log_text ++ replicate 13 0; name_len = 3 }

suc_ne : {n : ℕ} → suc n ≢ 0
suc_ne e = absurd (omega arith)

log-IsText : IsText log_text
log-IsText = (suc_ne, (suc_ne, (suc_ne, tt)))

log_named-Named : Named log_named log_text
log_named-Named = record {
  stored = refl;
  counted = refl;
  short = omega arith;
  width = refl;
  readable = log-IsText;
}

abbrev blank : LogeItem
blank = record {
  version = 0;
  magic1 = 0;
  magic2 = 0;
  level = 0;
  time = 0;
  pid = 0;
  tid = 0;
  line = 0;
  name_offset = 0;
  tags_offset = 0;
  file_offset = 0;
  msg_offset = 0;
  msg_len = 0;
  extra_offset = 0;
  flags = 0;
}

-- "/a/b/c/d"
abbrev path : List ℕ
path = 47 ∷ 97 ∷ 47 ∷ 98 ∷ 47 ∷ 99 ∷ 47 ∷ 100 ∷ []

path-IsText : IsText (text_of (shorten_path (some path)))
unfolding shorten_path shorten_loop last_slash strrchr strrchr_from
path-IsText = (suc_ne, (suc_ne, (suc_ne, (suc_ne, (suc_ne, tt)))))

accented-IsText : IsText accented
accented-IsText = (suc_ne, (suc_ne, (suc_ne, (suc_ne, (suc_ne, tt)))))

abbrev output : Buffer
output = record { item = blank; extra = replicate 300 7 }

item-Laid_example :
    Returns
      (loge_item log_named output 328 3 (some log_text) (some accented) (some path) 10 99 1)
      (Laid log_text log_text (text_of (shorten_path (some path))) accented 328)
item-Laid_example =
    item-Laid log_named output 328 3 10 99 1 (some log_text) (some accented) (some path) log_text
      log_named-Named suc_ne refl (omega arith) log-IsText path-IsText

log-Utf8 : Utf8 log_text
unfolding is_leading
log-Utf8 =
    char b'l' [] (b'o' ∷ b'g' ∷ []) refl refl refl tt
      (char b'o' [] (b'g' ∷ []) refl refl refl tt (char b'g' [] [] refl refl refl tt empty))

accented-Utf8 : Utf8 accented
unfolding is_leading
accented-Utf8 = char 97 [] (98 ∷ 99 ∷ 195 ∷ 169 ∷ []) refl refl refl tt (
    char 98 [] (99 ∷ 195 ∷ 169 ∷ []) refl refl refl tt (
      char 99 [] (195 ∷ 169 ∷ []) refl refl refl tt
        (char 195 (169 ∷ []) [] refl refl refl (refl, tt) empty)))

path-Utf8 : Utf8 path
unfolding is_leading
path-Utf8 = char 47 [] (97 ∷ 47 ∷ 98 ∷ 47 ∷ 99 ∷ 47 ∷ 100 ∷ []) refl refl refl tt (
    char 97 [] (47 ∷ 98 ∷ 47 ∷ 99 ∷ 47 ∷ 100 ∷ []) refl refl refl tt (
      char 47 [] (98 ∷ 47 ∷ 99 ∷ 47 ∷ 100 ∷ []) refl refl refl tt (
        char 98 [] (47 ∷ 99 ∷ 47 ∷ 100 ∷ []) refl refl refl tt (
          char 47 [] (99 ∷ 47 ∷ 100 ∷ []) refl refl refl tt (
            char 99 [] (47 ∷ 100 ∷ []) refl refl refl tt (
              char 47 [] (100 ∷ []) refl refl refl tt (char 100 [] [] refl refl refl tt empty)))))))

item-Readable_example :
    Returns
      (loge_item log_named output 328 3 (some log_text) (some accented) (some path) 10 99 1)
      Readable
item-Readable_example =
    item-Readable log_named output 328 3 10 99 1 (some log_text) (some accented) (some path)
      log_text log_named-Named suc_ne refl (omega arith) (log-IsText, log-Utf8)
      (path-IsText, path-Utf8) (accented-IsText, accented-Utf8)

-- Three bytes that are no text.
abbrev three_bytes : List ℕ
three_bytes = 0 ∷ 200 ∷ 0 ∷ []

none-IsText : IsText (text_of (shorten_path none))
unfolding shorten_path
none-IsText = tt

item_bin-Laid_example :
    Returns
      (loge_item_bin log_named output 328 3 none (bin (some three_bytes) 77) none 10 99 1)
      λ r.
        ((r.0 ≡ 0) × (328 < r.1.item.msg_offset + 3 + 29))
        ⊎ ((r.1.item.msg_len ≡ 3)
            × (take 3 (drop r.1.item.msg_offset r.1.extra) ≡ three_bytes)
            × Laid log_text [] (text_of (shorten_path none)) three_bytes 328 r)
item_bin-Laid_example =
    item_bin-Laid log_named output 328 3 10 99 1 77 none none three_bytes log_text log_named-Named
      suc_ne refl (omega arith) tt none-IsText

-- A buffer of 50 bytes, which leaves 22 for the texts.
tags_overrun_example :
    loge_item_bin log_named
      (record output { extra = replicate 22 7 })
      50
      3
      (some (replicate 20 b'x'))
      (text none)
      none
      10
      99
      1
    ≡ fault out_of_bounds
tags_overrun_example =
    tags_overrun log_named (record output { extra = replicate 22 7 }) 50 3 10 99 1 b'x'
      (replicate 19 b'x') (text none) none log_text log_named-Named suc_ne refl (omega arith)
      (omega arith) (omega arith)
