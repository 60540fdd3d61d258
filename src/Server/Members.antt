-- ===== src/Server/Members.antt =====
-- Which connections a list has.
use uvx.Prelude.{
  ℕ, ◌≡◌, refl, sym, ap, ◌∙◌, inl, inr, Bool, true, false, ◌||◌, List, [], ◌∷◌, ◌++◌, Option, none,
  some, arith, ◌==◌, Bool-cases, ==_iff, subst,
}
use uvx.Linkhash.Nodes.{Node}
use uvx.Linkhash.Rep.{Other, DistinctKeys}
use uvx.Server.{Server, Conn}
use uvx.Server.Connections.{Among, Absent, Live, Serves, without}
use uvx.Server.Visits.{keys, keys-entries}
use uvx.Server.Pending.{Different}

abbrev pub member : ℕ → List ℕ → Bool
member c [] = false
member c (d ∷ ds) = d == c || member c ds

pub Among-member : (c : ℕ) (cs : List ℕ) → Among c cs → member c cs ≡ true
Among-member c [] m = elim m [ ]
Among-member c (d ∷ ds) (inl e) = ground arith
Among-member c (d ∷ ds) (inr m) = ground (arith, Among-member c ds m)

pub member-Among : (c : ℕ) (cs : List ℕ) → member c cs ≡ true → Among c cs
member-Among c [] m = absurd (cc)
member-Among c (d ∷ ds) m = elim (Bool-cases (d == c)) [
  | inl e ↦ inl ((==_iff d c).0 e)
  | inr e ↦ inr (member-Among c ds (rw e at m))
]

pub member-Absent : (c : ℕ) (cs : List ℕ) → member c cs ≡ false → Absent c cs
member-Absent c [] m = tt
member-Absent c (d ∷ ds) m = elim (Bool-cases (d == c)) [
  | inl e ↦ absurd (let f : true ≡ false = rw e at m in cc)
  | inr e ↦ ((λ f. absurd (ground arith)), member-Absent c ds (rw e at m))
]

pub Absent-member : (c : ℕ) (cs : List ℕ) → Absent c cs → member c cs ≡ false
Absent-member c [] a = refl
Absent-member c (d ∷ ds) (ne, a) = ground (arith, Absent-member c ds a)

-- A freed object is no connection of a list of allocated ones.
pub Live-free : (h : ℕ → Option Conn) (c : ℕ) (cs : List ℕ) → Live h cs → h c ≡ none → Absent c cs
Live-free h c [] l e = tt
Live-free h c (d ∷ ds) ((conn, f), l) e = (
  (λ p. absurd (let g : some conn ≡ none = sym f ∙ ap h (sym p) ∙ e in cc)),
  Live-free h c ds l e,
)

pub member-snoc_self : (c : ℕ) (cs : List ℕ) → member c (cs ++ c ∷ []) ≡ true
member-snoc_self c [] = ground arith
member-snoc_self c (d ∷ ds) = ground (arith, member-snoc_self c ds)

pub member-snoc_other :
    (c d : ℕ) (cs : List ℕ) → (c == d) ≡ false → member d (cs ++ c ∷ []) ≡ member d cs
member-snoc_other c d [] e = rw e
member-snoc_other c d (b ∷ bs) e = ap (λ m. b == d || m) (member-snoc_other c d bs e)

pub member-without_other :
    (c d : ℕ) (cs : List ℕ) → (c == d) ≡ false → member d (without c cs) ≡ member d cs
unfolding without
member-without_other c d [] e = refl
member-without_other c d (b ∷ bs) e = elim (Bool-cases (b == c)) [
  | inl same ↦ let other : (b == d) ≡ false = ground arith in rw (same, other)
  | inr apart ↦ rw apart (ap (λ m. b == d || m) (member-without_other c d bs e))
]

pub Different-without : (c : ℕ) (cs : List ℕ) → Different cs → Absent c (without c cs)
unfolding without
Different-without c [] d = tt
Different-without c (b ∷ bs) (a, d) = elim (Bool-cases (b == c)) [
  | inl same ↦ rw same (subst (λ k. Absent k bs) ((==_iff b c).0 same) a)
  | inr apart ↦ rw apart ((λ f. absurd (ground arith)), Different-without c bs d)
]

Absent-keys : (k : ℕ) (ns : List (Node ℕ ℕ)) → Other k ns → Absent k (keys ns)
Absent-keys k [] o = tt
Absent-keys k (x ∷ ns) (ne, o) = (ne, Absent-keys k ns o)

Different-keys : (ns : List (Node ℕ ℕ)) → DistinctKeys ns → Different (keys ns)
Different-keys [] d = tt
Different-keys (x ∷ ns) (o, d) = (Absent-keys x.k ns o, Different-keys ns d)

pub Serves-Different : {s : Server} (cs : List ℕ) → Serves s cs → Different cs
Serves-Different cs v =
    subst Different (keys-entries v.holds.nodes cs v.holds.stored)
      (Different-keys v.holds.nodes v.holds.rep.keys)
