-- ===== src/Loge/Utf8.antt =====
-- Texts in UTF-8, and where loge/loge.c cuts them.
use uvx.Prelude.{
  subst, refl, ◌<◌, ℕ, zero, suc, ◌-◌, ◌/◌, ◌^◌, ◌≤◌, ◌≡◌, sym, ap, ◌∙◌, inl, inr, ◌⊎◌, true, false,
  List, [], ◌∷◌, ◌++◌, arith, length, take, get_or, ◌==◌, append_assoc, get_or-take, take-take,
  if◌then◌else◌,
}
use uvx.Loge.Text.{is_leading}

-- How many bytes 10- follow a leading byte.
abbrev pub followers : ℕ → ℕ
followers c =
    if c / 2 ^ 7 == 0 then 0 else if c / 2 ^ 5 == 6 then 1 else if c / 2 ^ 4 == 14 then 2 else 3

abbrev pub Following : List ℕ → Type 0
Following [] = Unit
Following (c ∷ cs) = (c / 2 ^ 6 ≡ 2) × Following cs

-- A text is empty, or a character and a text.
pub data Utf8 : List ℕ → Type 0 where
  empty : Utf8 []
  char :
      {t : List ℕ} (c : ℕ) (rest s : List ℕ)
      → t ≡ c ∷ (rest ++ s)
      → is_leading c ≡ true
      → length rest ≡ followers c
      → Following rest
      → Utf8 s
      → Utf8 t

following_no_lead : (c : ℕ) → c / 2 ^ 6 ≡ 2 → is_leading c ≡ false
unfolding is_leading
following_no_lead c e = ground arith

-- A place where a leading byte stands, or the end, lies behind the bytes that follow a leading byte.
pub past-Following :
    (rest s : List ℕ) (k : ℕ)
    → Following rest
    → is_leading (get_or (rest ++ s) k 0) ≡ true
    → length rest ≤ k
past-Following [] s k f e = omega arith
past-Following (c ∷ rest) s zero (g, f) e =
    absurd (let h = following_no_lead c g in let x = sym e ∙ h in cc)
past-Following (c ∷ rest) s (suc k) (g, f) e = omega (arith, past-Following rest s k f e)

take_past :
    (rest s : List ℕ) (k : ℕ)
    → length rest ≤ k
    → take k (rest ++ s) ≡ rest ++ take (k - length rest) s
take_past [] s k h = ap (λ n. take n s) (omega arith)
take_past (c ∷ rest) s zero h = absurd (omega arith)
take_past (c ∷ rest) s (suc k) h =
    ap (◌∷◌ c) (take_past rest s k (omega arith) ∙ ap (λ n. rest ++ take n s) (omega arith))

pub get_past :
    (rest s : List ℕ) (k : ℕ)
    → length rest ≤ k
    → get_or (rest ++ s) k 0 ≡ get_or s (k - length rest) 0
get_past [] s k h = ap (λ n. get_or s n 0) (omega arith)
get_past (c ∷ rest) s zero h = absurd (omega arith)
get_past (c ∷ rest) s (suc k) h =
    get_past rest s k (omega arith) ∙ ap (λ n. get_or s n 0) (omega arith)

-- A text that is cut where a character begins is a text.
pub take-Utf8 :
    (s : List ℕ) (k : ℕ)
    → Utf8 s
    → (k ≡ 0) ⊎ (is_leading (get_or (s ++ 0 ∷ []) k 0) ≡ true)
    → Utf8 (take k s)
take-Utf8 s zero u b = empty
take-Utf8 s (suc k) u (inl e) = absurd (omega arith)
take-Utf8 s (suc k) empty (inr e) = empty
take-Utf8 s (suc k) (char c rest s' e l n f u) (inr b) =
    let whole : s ++ 0 ∷ [] ≡ c ∷ (rest ++ (s' ++ 0 ∷ [])) =
      ap (λ q. q ++ 0 ∷ []) e ∙ ap (◌∷◌ c) (append_assoc rest s' (0 ∷ [])) in
    let b' : is_leading (get_or (rest ++ (s' ++ 0 ∷ [])) k 0) ≡ true =
      sym (ap (λ q. is_leading (get_or q (suc k) 0)) whole) ∙ b in
    let past = past-Following rest (s' ++ 0 ∷ []) k f b' in
    let there = sym (ap is_leading (get_past rest (s' ++ 0 ∷ []) k past)) ∙ b' in
    char c rest (take (k - length rest) s')
      (ap (take (suc k)) e ∙ ap (◌∷◌ c) (take_past rest s' k past)) l n f
      (take-Utf8 s' (k - length rest) u (inr there))

get_or-zero : (s : List ℕ) (k : ℕ) → get_or (s ++ 0 ∷ []) k 0 ≡ get_or s k 0
get_or-zero [] zero = refl
get_or-zero [] (suc k) = refl
get_or-zero (c ∷ s) zero = refl
get_or-zero (c ∷ s) (suc k) = get_or-zero s k

-- A text that was cut anywhere, and then again before that where a character begins, is a text.
pub cut-Utf8 :
    (s : List ℕ) (n k : ℕ)
    → k < n
    → Utf8 s
    → (k ≡ 0) ⊎ (is_leading (get_or (take n s ++ 0 ∷ []) k 0) ≡ true)
    → Utf8 (take k (take n s))
cut-Utf8 s n k h u b =
    let same : get_or (take n s ++ 0 ∷ []) k 0 ≡ get_or (s ++ 0 ∷ []) k 0 =
      get_or-zero (take n s) k ∙ get_or-take n s k 0 h ∙ sym (get_or-zero s k) in
    subst Utf8 (sym (take-take k n s (omega arith)))
      (take-Utf8 s k u (elim b [ inl e ↦ inl e | inr e ↦ inr (sym (ap is_leading same) ∙ e) ]))
