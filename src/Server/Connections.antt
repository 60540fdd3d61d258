-- ===== src/Server/Connections.antt =====
-- The connections of a server, oldest first, as its table and its heap hold them.
use mathlib.Core.List.{map-append}
use uvx.Prelude.{
  ℕ, ◌≡◌, ◌≢◌, refl, sym, ap, ◌∙◌, inl, inr, List, [], ◌∷◌, ◌++◌, Option, none, some, arith, ◌==◌,
  if◌then◌else◌, false, subst, Bool-cases, map, ==_iff, ◌⊎◌,
}
use uvx.Linkhash.{Table, success}
use uvx.Linkhash.Keys.{Key, ptr_key}
use uvx.Linkhash.Nodes.{Node}
use uvx.Linkhash.Rep.{Other, DistinctKeys}
use uvx.Linkhash.Delete.{code_of}
use uvx.Linkhash.Insert.{contents}
use uvx.Linkhash.Store.{Holds, NotIn, find, remove}
use uvx.Server.{Server, Conn, put}

module _ {ℓ} {K V : Type ℓ} ⦃fns : Key K⦄ where
  Other-NotIn : (k : K) (ns : List (Node K V)) → Other k ns → NotIn k (contents ns)
  Other-NotIn k [] o = tt
  Other-NotIn k (x ∷ ns) (ne, o) = (ne, Other-NotIn k ns o)

  remove-contents-NotIn :
      (k : K) (ns : List (Node K V)) → DistinctKeys ns → NotIn k (remove k (contents ns))
  unfolding remove
  remove-contents-NotIn k [] d = tt
  remove-contents-NotIn k (x ∷ ns) (o, d) = elim (Bool-cases (fns.equal_fn x.k k)) [
    | inl same ↦
        let e = (fns.equal_iff x.k k).0 same in
        rw same (subst (λ j. NotIn j (contents ns)) e (Other-NotIn x.k ns o))
    | inr other ↦ rw other (
      (λ e. absurd (let f = (fns.equal_iff x.k k).1 (sym e) in cc)),
      remove-contents-NotIn k ns d,
    )
  ]

  -- A key that is removed is gone.
  pub remove-NotIn :
      {t : Table K V} {kvs : List (K × Option V)} (k : K) → Holds t kvs → NotIn k (remove k kvs)
  remove-NotIn k h =
      subst (λ l. NotIn k (remove k l)) h.stored (remove-contents-NotIn k h.nodes h.rep.keys)

-- A connection is its own key and value.
abbrev pub entry : ℕ → ℕ × Option ℕ
entry c = (c, some c)

abbrev pub entries : List ℕ → List (ℕ × Option ℕ)
entries cs = map entry cs

unfoldable pub without : ℕ → List ℕ → List ℕ
without c [] = []
without c (d ∷ ds) = if d == c then ds else d ∷ without c ds

abbrev pub Among : ℕ → List ℕ → Type 0
Among c [] = ⊥
Among c (d ∷ ds) = (d ≡ c) ⊎ Among c ds

-- No connection of the list is `c`.
abbrev pub Absent : ℕ → List ℕ → Type 0
Absent c [] = Unit
Absent c (d ∷ ds) = (c ≢ d) × Absent c ds

pub Absent-NotIn : (c : ℕ) (cs : List ℕ) → Absent c cs → NotIn {V = ℕ} c (entries cs)
Absent-NotIn c [] a = tt
Absent-NotIn c (d ∷ cs) (ne, a) = (ne, Absent-NotIn c cs a)

pub NotIn-Absent : (c : ℕ) (cs : List ℕ) → NotIn {V = ℕ} c (entries cs) → Absent c cs
NotIn-Absent c [] a = tt
NotIn-Absent c (d ∷ cs) (ne, a) = (ne, NotIn-Absent c cs a)

pub remove-entries : (c : ℕ) (cs : List ℕ) → remove c (entries cs) ≡ entries (without c cs)
unfolding remove without
remove-entries c [] = refl
remove-entries c (d ∷ cs) = elim (Bool-cases (d == c)) [
  | inl same ↦ rw same
  | inr other ↦ rw other (ap (◌∷◌ (entry d)) (remove-entries c cs))
]

pub find-entries-Among :
    (c : ℕ) (cs : List ℕ) → Among c cs → code_of (find c (entries cs)) ≡ success
unfolding find
find-entries-Among c [] a = elim a [ ]
find-entries-Among c (d ∷ cs) (inl e) = rw ((==_iff d c).1 e)
find-entries-Among c (d ∷ cs) (inr a) = elim (Bool-cases (d == c)) [
  | inl same ↦ rw same
  | inr other ↦ rw other (find-entries-Among c cs a)
]

pub find-entries-Absent : (c : ℕ) (cs : List ℕ) → Absent c cs → find c (entries cs) ≡ none
unfolding find
find-entries-Absent c [] a = refl
find-entries-Absent c (d ∷ cs) (ne, a) =
    let other : (d == c) ≡ false = ground arith in rw other (find-entries-Absent c cs a)

-- The objects of a list of connections are allocated.
abbrev pub Live : (ℕ → Option Conn) → List ℕ → Type 0
Live h [] = Unit
Live h (c ∷ cs) = ((conn : Conn) × (h c ≡ some conn)) × Live h cs

pub Live-Among :
    (h : ℕ → Option Conn) (c : ℕ) (cs : List ℕ)
    → Live h cs
    → Among c cs
    → (conn : Conn) × (h c ≡ some conn)
Live-Among h c [] l a = elim a [ ]
Live-Among h c (d ∷ cs) ((conn, e), l) (inl f) = (conn, ap h (sym f) ∙ e)
Live-Among h c (d ∷ cs) (a, l) (inr f) = Live-Among h c cs l f

pub Live-put :
    (h : ℕ → Option Conn) (c : ℕ) (conn : Conn) (cs : List ℕ)
    → Live h cs
    → Live (put h c (some conn)) cs
Live-put h c conn [] l = tt
Live-put h c conn (d ∷ cs) ((old, e), l) = elim (Bool-cases (c == d)) [
  | inl same ↦ ((conn, rw same), Live-put h c conn cs l)
  | inr other ↦ ((old, rw other e), Live-put h c conn cs l)
]

-- What happens to an absent connection leaves the others.
pub Live-Absent :
    (h : ℕ → Option Conn) (c : ℕ) (v : Option Conn) (cs : List ℕ)
    → Absent c cs
    → Live h cs
    → Live (put h c v) cs
Live-Absent h c v [] a l = tt
Live-Absent h c v (d ∷ cs) (ne, a) ((old, e), l) =
    let other : (c == d) ≡ false = ground arith in ((old, rw other e), Live-Absent h c v cs a l)

pub Live-without : (h : ℕ → Option Conn) (c : ℕ) (cs : List ℕ) → Live h cs → Live h (without c cs)
unfolding without
Live-without h c [] l = tt
Live-without h c (d ∷ cs) (a, l) = elim (Bool-cases (d == c)) [
  | inl same ↦ rw same l
  | inr other ↦ rw other (a, Live-without h c cs l)
]

pub Live-snoc :
    (h : ℕ → Option Conn) (c : ℕ) (conn : Conn) (cs : List ℕ)
    → h c ≡ some conn
    → Live h cs
    → Live h (cs ++ c ∷ [])
Live-snoc h c conn [] e l = ((conn, e), tt)
Live-snoc h c conn (d ∷ cs) e (a, l) = (a, Live-snoc h c conn cs e l)

pub put_same : (h : ℕ → Option Conn) (c : ℕ) (v : Option Conn) → put h c v c ≡ v
put_same h c v = rw ((==_iff c c).1 refl)

-- The server's table is open and holds the connections `cs`, the one that was heard of last at the
-- end; each of them is allocated.
pub record Serves (s : Server) (cs : List ℕ) : Type 0 where
  pub table : Table ℕ ℕ
  pub opened : s.conns ≡ some table
  pub holds : Holds table (entries cs)
  pub live : Live s.heap cs

pub entries-snoc : (cs : List ℕ) (c : ℕ) → entries (cs ++ c ∷ []) ≡ entries cs ++ entry c ∷ []
entries-snoc cs c = map-append entry cs (c ∷ [])
