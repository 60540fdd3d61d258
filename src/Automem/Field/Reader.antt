-- ===== src/Automem/Field/Reader.antt =====
-- A reader of the quoted values that `automem_append_field` writes.
use uvx.Prelude.{
  ℕ, ◌+◌, ◌^◌, ◌≤◌, ◌≡◌, refl, ap, ◌∙◌, inl, inr, Bool, true, false, Bool-cases, ==_iff, List, [],
  ◌∷◌, ◌++◌, some, length, ◌==◌, ◌&&◌, append_assoc, if◌then◌else◌, Option, none,
}
use uvx.Memory.{Allocator, Succeeds, Returns}
use uvx.Automem.{Automem}
use uvx.Automem.Contents.{Holds}
use uvx.Automem.Field.{automem_append_field}
use uvx.Automem.Field.Escape.{escape, entity}
use uvx.Automem.Field.Append.{quoted, append_field-Holds}

abbrev same_text : List ℕ → List ℕ → Bool
same_text [] [] = true
same_text (c ∷ s) (d ∷ t) = (c == d) && same_text s t
same_text _ _ = false

-- The character that a name stands for.
abbrev named : List ℕ → ℕ
named name =
    if same_text name (b'a' ∷ b'm' ∷ b'p' ∷ [])
    then b'&'
    else if same_text name (b'l' ∷ b't' ∷ [])
    then b'<'
    else if same_text name (b'g' ∷ b't' ∷ [])
    then b'>'
    else if same_text name (b'q' ∷ b'u' ∷ b'o' ∷ b't' ∷ [])
    then 34
    else if same_text name (b'a' ∷ b'p' ∷ b'o' ∷ b's' ∷ [])
    then 39
    else 0

-- A value up to its closing quote; inside an entity with the part of its name that was read.
unfoldable pub read_value : Option (List ℕ) → List ℕ → List ℕ
read_value state [] = []
read_value none (c ∷ s) = elim (c == 34) [
  | true ↦ []
  | false ↦ elim (c == b'&') [ true ↦ read_value (some []) s | false ↦ c ∷ read_value none s ]
]
read_value (some name) (c ∷ s) = elim (c == b';') [
  | true ↦ named name ∷ read_value none s
  | false ↦ read_value (some (name ++ c ∷ [])) s
]

read_plain :
    (c : ℕ) (s : List ℕ)
    → (c == 34) ≡ false
    → (c == b'&') ≡ false
    → read_value none (c ∷ s) ≡ c ∷ read_value none s
unfolding read_value
read_plain c s quot amp = rw (read_value, quot, amp) refl

read-entity : (c : ℕ) (s : List ℕ) → read_value none (entity c ++ s) ≡ c ∷ read_value none s
unfolding read_value entity
read-entity c s = elim (Bool-cases (c == b'&')) [
  | inl e ↦ let same = (==_iff c b'&').0 e in rw same refl
  | inr amp ↦ elim (Bool-cases (c == b'<')) [
    | inl e ↦ let same = (==_iff c b'<').0 e in rw same refl
    | inr lt ↦ elim (Bool-cases (c == b'>')) [
      | inl e ↦ let same = (==_iff c b'>').0 e in rw same refl
      | inr gt ↦ elim (Bool-cases (c == 34)) [
        | inl e ↦ let same = (==_iff c 34).0 e in rw same refl
        | inr quot ↦ elim (Bool-cases (c == 39)) [
          | inl e ↦ let same = (==_iff c 39).0 e in rw same refl
          | inr apos ↦ rw (amp, lt, gt, quot, apos) (read_plain c s quot amp)
        ]
      ]
    ]
  ]
]

read-escape : (val : List ℕ) → read_value none (escape val ++ (34 ∷ 32 ∷ [])) ≡ val
unfolding read_value escape
read-escape [] = refl
read-escape (c ∷ val) =
    ap (read_value none) (append_assoc (entity c) (escape val) (34 ∷ 32 ∷ []))
    ∙ read-entity c (escape val ++ (34 ∷ 32 ∷ []))
    ∙ ap (◌∷◌ c) (read-escape val)

-- `automem_append_field` with a value, on a buffer that holds `xs` and with an allocator that gives memory, ends
-- normally and leaves `xs`, the name of the field, `="` and bytes in which a reader of XML, who
-- replaces the entities by their characters and stops at the first quote, finds exactly the value.
pub append_field-read :
    (a : Allocator) (succeeds : Succeeds a) (m : Automem) (xs field val : List ℕ)
    → Holds m xs
    → length xs + length field + length (escape val) + 4 ≤ 2 ^ 31
    → Returns (automem_append_field a m field (some val)) λ r.
      (written : List ℕ) × Holds r.0 ((xs ++ field) ++ b'=' ∷ 34 ∷ written)
      × (read_value none written ≡ val)
append_field-read a succeeds m xs field val h small =
    let (r, run, (holds, _)) = append_field-Holds a succeeds m xs field val h small in
    (r, run, (escape val ++ (34 ∷ 32 ∷ []), unfold quoted in holds, read-escape val))
