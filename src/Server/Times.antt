-- ===== src/Server/Times.antt =====
-- The order of a server's list: the connections that are read stand in the order in which they were
-- last heard of.
use uvx.Prelude.{
  ℕ, ◌+◌, ◌≤◌, ◌<◌, ◌^◌, ◌≡◌, refl, inl, inr, Bool, true, List, [], ◌∷◌, ◌++◌, Option, none, some,
  arith, ◌==◌, Bool-cases,
}
use uvx.Server.{Conn}
use uvx.Server.Connections.{Among, Live, without}
use uvx.Server.Timeouts.{silence, Within, Ordered}

-- When a connection was last heard of.
abbrev pub since : (ℕ → Option Conn) → ℕ → ℕ
since h c = elim (h c) [ none ↦ 0 | some conn ↦ conn.last_comm_time ]

abbrev pub Later : (ℕ → Option Conn) → (ℕ → Bool) → ℕ → List ℕ → Type 0
Later h reading t [] = Unit
Later h reading t (d ∷ ds) = (reading d ≡ true → t ≤ since h d) × Later h reading t ds

abbrev pub Rising : (ℕ → Option Conn) → (ℕ → Bool) → ℕ → List ℕ → Type 0
Rising h reading clock [] = Unit
Rising h reading clock (c ∷ cs) =
    (reading c ≡ true → (since h c ≤ clock) × Later h reading (since h c) cs)
    × Rising h reading clock cs

-- Of the connections of a list, no more are read, and these were heard of when they were.
abbrev pub Keeps : (ℕ → Option Conn) → (ℕ → Bool) → (ℕ → Option Conn) → (ℕ → Bool) → List ℕ → Type 0
Keeps h reading h' reading' cs =
    (d : ℕ) → Among d cs → reading' d ≡ true → (reading d ≡ true) × (since h' d ≡ since h d)

module _ (h : ℕ → Option Conn) (reading : ℕ → Bool) (h' : ℕ → Option Conn)
    (reading' : ℕ → Bool) where
  Later-mono :
      (t : ℕ) (cs : List ℕ)
      → Keeps h reading h' reading' cs
      → Later h reading t cs
      → Later h' reading' t cs
  Later-mono t [] k l = tt
  Later-mono t (d ∷ ds) k (a, l) = (
    (λ r. let (q, e) = k d (inl refl) r in omega (arith, a q, e)),
    Later-mono t ds (λ c m. k c (inr m)) l,
  )

  pub Rising-mono :
      (clock clock' : ℕ) (cs : List ℕ)
      → clock ≤ clock'
      → Keeps h reading h' reading' cs
      → Rising h reading clock cs
      → Rising h' reading' clock' cs
  Rising-mono clock clock' [] le k l = tt
  Rising-mono clock clock' (c ∷ cs) le k (a, l) = (
    (λ r.
        let (q, e) = k c (inl refl) r in
        let (x, y) = a q in
        (omega (arith, x, e), Later-mono (since h' c) cs (λ d m. k d (inr m)) (rw e y))),
    Rising-mono clock clock' cs le (λ d m. k d (inr m)) l,
  )

module _ (h : ℕ → Option Conn) (reading : ℕ → Bool) where
  Later-without : (c t : ℕ) (cs : List ℕ) → Later h reading t cs → Later h reading t (without c cs)
  unfolding without
  Later-without c t [] l = tt
  Later-without c t (d ∷ ds) (a, l) = elim (Bool-cases (d == c)) [
    | inl same ↦ rw same l
    | inr other ↦ rw other (a, Later-without c t ds l)
  ]

  pub Rising-without :
      (c clock : ℕ) (cs : List ℕ)
      → Rising h reading clock cs
      → Rising h reading clock (without c cs)
  unfolding without
  Rising-without c clock [] l = tt
  Rising-without c clock (d ∷ ds) (a, l) = elim (Bool-cases (d == c)) [
    | inl same ↦ rw same l
    | inr other ↦ rw other (
      (λ r. let (x, y) = a r in (x, Later-without c (since h d) ds y)),
      Rising-without c clock ds l,
    )
  ]

  Later-snoc :
      (c t : ℕ) (cs : List ℕ)
      → Later h reading t cs
      → (reading c ≡ true → t ≤ since h c)
      → Later h reading t (cs ++ c ∷ [])
  Later-snoc c t [] l e = (e, tt)
  Later-snoc c t (d ∷ ds) (a, l) e = (a, Later-snoc c t ds l e)

  -- The connection that was heard of now comes last.
  pub Rising-snoc :
      (c clock : ℕ) (cs : List ℕ)
      → Rising h reading clock cs
      → (reading c ≡ true → since h c ≡ clock)
      → Rising h reading clock (cs ++ c ∷ [])
  Rising-snoc c clock [] l e = ((λ r. (omega (arith, e r), tt)), tt)
  Rising-snoc c clock (d ∷ ds) (a, l) e = (
    (λ r. let (x, y) = a r in (x, Later-snoc c (since h d) ds y (λ q. omega (arith, e q)))),
    Rising-snoc c clock ds l e,
  )

-- The clock does not go back behind a connection.
pub silence-since :
    (h : ℕ → Option Conn) (now c : ℕ) (conn : Conn)
    → now < 2 ^ 64
    → h c ≡ some conn
    → since h c ≤ now
    → silence h now c + since h c ≡ now
silence-since h now c conn small e le =
    let le' : conn.last_comm_time ≤ now = rw (since, e) at le in
    rw (silence, since, e) (omega arith)

Later-Within :
    (h : ℕ → Option Conn) (reading : ℕ → Bool) (now t most : ℕ) (cs : List ℕ)
    → now < 2 ^ 64
    → most + t ≡ now
    → Live h cs
    → ((d : ℕ) → Among d cs → reading d ≡ true)
    → Rising h reading now cs
    → Later h reading t cs
    → Within h now most cs
Later-Within h reading now t most [] small e live all r l = tt
Later-Within h reading now t most (d ∷ ds) small e ((conn, alive), live) all (a, r) (b, l) =
    let q = all d (inl refl) in
    (
      omega (arith, silence-since h now d conn small alive (a q).0, b q),
      Later-Within h reading now t most ds small e live (λ c m. all c (inr m)) r l,
    )

-- When all connections are read, they are ordered by their silence.
pub Rising-Ordered :
    (h : ℕ → Option Conn) (reading : ℕ → Bool) (now : ℕ) (cs : List ℕ)
    → now < 2 ^ 64
    → Live h cs
    → ((d : ℕ) → Among d cs → reading d ≡ true)
    → Rising h reading now cs
    → Ordered h now cs
Rising-Ordered h reading now [] small live all r = tt
Rising-Ordered h reading now (c ∷ cs) small ((conn, alive), live) all (a, r) =
    let (le, l) = a (all c (inl refl)) in
    (
      Later-Within h reading now (since h c) (silence h now c) cs small
          (silence-since h now c conn small alive le) live (λ d m. all d (inr m)) r l,
      Rising-Ordered h reading now cs small live (λ d m. all d (inr m)) r,
    )
