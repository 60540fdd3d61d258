-- ===== src/Loge/Path.antt =====
-- `shorten_path` of loge/loge.c, with `strrchr_from` and the C library's `strrchr`. A pointer into the
-- path is an index.
use uvx.Prelude.{
  ℕ, zero, suc, ◌+◌, List, [], ◌∷◌, Option, none, some, get_or, drop, ◌==◌, if◌then◌else◌,
}

-- `strrchr`: the last index of a character.
unfoldable pub strrchr : List ℕ → ℕ → Option ℕ
strrchr [] c = none
strrchr (d ∷ s) c = elim (strrchr s c) [
  | some i ↦ some (suc i)
  | none ↦ if d == c then some 0 else none
]

unfoldable pub strrchr_from : List ℕ → ℕ → ℕ → Option ℕ
strrchr_from s zero c = if get_or s 0 0 == c then some 0 else none
strrchr_from s (suc from) c =
    let rest = strrchr_from s from c in if get_or s (suc from) 0 == c then some (suc from) else rest

-- The loop, with `count` rounds left; index 0 is the start of the path.
unfoldable pub shorten_loop : ℕ → List ℕ → Option ℕ → ℕ → Option ℕ
unfolding strrchr_from
shorten_loop count s none slash = none
shorten_loop count s (some zero) slash = some zero
shorten_loop zero s (some (suc i)) slash = some (suc i)
shorten_loop (suc count) s (some (suc i)) slash =
    shorten_loop count s (strrchr_from s i slash) slash

-- The slash that the path uses, and its last index.
unfoldable pub last_slash : List ℕ → ℕ × Option ℕ
unfolding strrchr
last_slash s = elim (strrchr s b'/') [ some i ↦ (b'/', some i) | none ↦ (92, strrchr s 92) ]

unfoldable pub shorten_path : Option (List ℕ) → Option (List ℕ)
unfolding shorten_loop last_slash
shorten_path none = none
shorten_path (some s) =
    let (slash, last) = last_slash s in
    elim (shorten_loop 2 s last slash) [ some (suc i) ↦ some (drop (suc i + 1) s) | _ ↦ some s ]
