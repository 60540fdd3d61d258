-- ===== src/Server/Sound.antt =====
-- What holds of a server, of its connections and of what is pending between two turns of the loop.
use uvx.Prelude.{
  ℕ, ◌+◌, ◌<◌, ◌^◌, ◌≡◌, ◌≢◌, refl, sym, ap, ◌∙◌, inl, inr, Bool, true, false, ◌||◌, ◌&&◌, List, [],
  ◌∷◌, Option, none, some, arith, ◌==◌, Bool-cases, ==_iff, subst,
}
use uvx.Server.{Server, Conn}
use uvx.Server.Connections.{Among, Absent, Serves}
use uvx.Server.Members.{member}
use uvx.Server.Times.{Rising, Keeps}
use uvx.Server.Loop.{System, quiet}

abbrev pub refs : Option Conn → ℕ
refs none = 0
refs (some conn) = conn.refcount

abbrev pub bit : Bool → ℕ
bit true = 1
bit false = 0

-- One address: what lies there, whether it is read and is closing, the references of the user, and
-- whether it is on the table.
pub record At (o : Option Conn) (reading closing : Bool) (held : ℕ) (listed : Bool) : Type 0 where
  pub counted : refs o ≡ held + bit listed
  pub freed : refs o ≡ 0 → o ≡ none
  pub placed : listed ≡ (reading || closing)
  pub apart : (reading && closing) ≡ false
  pub few : held + 1 < 2 ^ 31

abbrev pub AtOf : System → List ℕ → ℕ → Type 0
AtOf s cs c =
    At (s.server.heap c) (s.pending.reading c) (s.pending.closing c) (s.held c) (member c cs)

pub record Sound (s : System) (cs : List ℕ) : Type 0 where
  pub serves : Serves s.server cs
  pub at : (c : ℕ) → AtOf s cs c
  pub times : Rising s.server.heap s.pending.reading s.clock cs
  pub small : s.clock < 2 ^ 64

pub Serves-quiet : {s : Server} {cs : List ℕ} → Serves s cs → Serves (quiet s) cs
Serves-quiet v = record { table = v.table; opened = v.opened; holds = v.holds; live = v.live }

pub At-congr :
    {o o' : Option Conn} {r r' k k' m m' : Bool} {n n' : ℕ}
    → o' ≡ o
    → r' ≡ r
    → k' ≡ k
    → n' ≡ n
    → m' ≡ m
    → At o r k n m
    → At o' r' k' n' m'
At-congr a b c d e at = record {
  counted = rw (a, d, e) at.counted;
  freed = rw a at.freed;
  placed = rw (b, c, e) at.placed;
  apart = rw (b, c) at.apart;
  few = rw d at.few;
}

-- Two systems that agree outside `c`.
pub record Elsewhere (s t : System) (cs ds : List ℕ) (c : ℕ) : Type 0 where
  pub heap : (d : ℕ) → (c == d) ≡ false → t.server.heap d ≡ s.server.heap d
  pub reading : (d : ℕ) → (c == d) ≡ false → t.pending.reading d ≡ s.pending.reading d
  pub closing : (d : ℕ) → (c == d) ≡ false → t.pending.closing d ≡ s.pending.closing d
  pub held : (d : ℕ) → (c == d) ≡ false → t.held d ≡ s.held d
  pub listed : (d : ℕ) → (c == d) ≡ false → member d ds ≡ member d cs

-- A turn on `c`: what lies at the other addresses stays sound.
pub at-Elsewhere :
    {s t : System} {cs ds : List ℕ} {c : ℕ}
    → Elsewhere s t cs ds c
    → ((d : ℕ) → AtOf s cs d)
    → AtOf t ds c
    → (d : ℕ) → AtOf t ds d
at-Elsewhere {s} {t} {cs} {ds} {c} e at here d = elim (Bool-cases (c == d)) [
  | inl same ↦ subst (AtOf t ds) ((==_iff c d).0 same) here
  | inr other ↦
      At-congr (e.heap d other) (e.reading d other) (e.closing d other) (e.held d other)
        (e.listed d other) (at d)
]

-- The connection at an address with references.
pub At-alive :
    {o : Option Conn} {r k m : Bool} {n : ℕ}
    → At o r k n m
    → (r || k) ≡ true
    → (conn : Conn) × (o ≡ some conn)
At-alive {o = none} at e = absurd (ground (arith, at))
At-alive {o = some conn} at e = (conn, refl)

-- A held reference is one to an allocated object.
pub held_alive :
    {o : Option Conn} {r k m : Bool} {n : ℕ}
    → At o r k n m
    → 0 < n
    → (conn : Conn) × (o ≡ some conn)
held_alive {o = none} at h = absurd (omega (arith, at.counted))
held_alive {o = some conn} at h = (conn, refl)

pub Absent-apart : (c d : ℕ) (cs : List ℕ) → Absent c cs → Among d cs → (c == d) ≡ false
Absent-apart c d [] a m = elim m [ ]
Absent-apart c d (b ∷ bs) (ne, a) (inl e) = ground arith
Absent-apart c d (b ∷ bs) (ne, a) (inr m) = Absent-apart c d bs a m

-- Where `c` is none of a list, a turn on `c` keeps the times of the list.
pub Keeps-Elsewhere :
    {s t : System} {cs ds : List ℕ} {c : ℕ} (bs : List ℕ)
    → Elsewhere s t cs ds c
    → Absent c bs
    → Keeps s.server.heap s.pending.reading t.server.heap t.pending.reading bs
Keeps-Elsewhere {c} bs e a d m r =
    let other = Absent-apart c d bs a m in
    (
      sym (e.reading d other) ∙ r,
      ap (λ o. elim o [ none ↦ 0 | some conn ↦ conn.last_comm_time ]) (e.heap d other),
    )

-- Different numbers, for the lemmas on the handlers.
pub apart_of : (c d : ℕ) → (c == d) ≡ false → c ≢ d
apart_of c d e f = ground arith
