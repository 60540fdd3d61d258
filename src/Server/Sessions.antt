-- ===== src/Server/Sessions.antt =====
-- What a server promises, without its table and its heap: a list of sessions, the one that was heard of
-- last at the end, and what each move does to it.
use uvx.Prelude.{
  ℕ, zero, suc, ◌-◌, ◌≡◌, refl, ap, ◌∙◌, inl, inr, Bool, true, false, not, ◌||◌, ◌&&◌, List, [],
  ◌∷◌, ◌++◌, Option, ltb, ◌==◌, if◌then◌else◌, Bool-cases,
}
use uvx.Server.{Conn, bytes, read_error}
use uvx.Server.Connections.{Among, without}
use uvx.Server.Times.{since}
use uvx.Server.Loop.{
  System, Move, connection, no_connection, beat, read, closed, retain, release, tick,
}

-- A connection, the time at which it was last heard of, and whether it is being closed.
pub record Session : Type 0 where
  pub id : ℕ
  pub heard : ℕ
  pub closing : Bool

abbrev pub without_id : ℕ → List Session → List Session
without_id c [] = []
without_id c (x ∷ xs) = if x.id == c then xs else x ∷ without_id c xs

abbrev pub close_id : ℕ → List Session → List Session
close_id c [] = []
close_id c (x ∷ xs) = (if x.id == c then record x { closing = true } else x) ∷ close_id c xs

-- The sessions that were silent for longer than the timeout are closed; a timeout of 0 is none.
abbrev pub close_silent : ℕ → ℕ → List Session → List Session
close_silent timeout now [] = []
close_silent timeout now (x ∷ xs) =
    record x { closing = x.closing || (ltb 0 timeout && ltb timeout (now - x.heard)) }
    ∷ close_silent timeout now xs

-- The sessions after a move.
abbrev pub follow : ℕ → ℕ → Move → List Session → List Session
follow timeout now (connection c accepted) xs =
    xs ++ record { id = c; heard = if accepted then now else 0; closing = not accepted } ∷ []
follow timeout now (read c (bytes (suc n))) xs =
    without_id c xs ++ record { id = c; heard = now; closing = false } ∷ []
follow timeout now (read c (bytes zero)) xs = xs
follow timeout now (read c read_error) xs = close_id c xs
follow timeout now (closed c) xs = without_id c xs
follow timeout now beat xs = close_silent timeout now xs
follow timeout now no_connection xs = xs
follow timeout now (retain c) xs = xs
follow timeout now (release c) xs = xs
follow timeout now (tick later) xs = xs

abbrev pub session : (ℕ → Option Conn) → (ℕ → Bool) → ℕ → Session
session h closing c = record { id = c; heard = since h c; closing = closing c }

-- The sessions of some connections.
abbrev pub view : (ℕ → Option Conn) → (ℕ → Bool) → List ℕ → List Session
view h closing [] = []
view h closing (c ∷ cs) = session h closing c ∷ view h closing cs

abbrev pub sessions : System → List ℕ → List Session
sessions s cs = view s.server.heap s.pending.closing cs

pub view-append :
    (h : ℕ → Option Conn) (k : ℕ → Bool) (cs ds : List ℕ)
    → view h k (cs ++ ds) ≡ view h k cs ++ view h k ds
view-append h k [] ds = refl
view-append h k (c ∷ cs) ds = ap (◌∷◌ (session h k c)) (view-append h k cs ds)

pub view-without :
    (h : ℕ → Option Conn) (k : ℕ → Bool) (c : ℕ) (cs : List ℕ)
    → view h k (without c cs) ≡ without_id c (view h k cs)
unfolding without
view-without h k c [] = refl
view-without h k c (d ∷ cs) = elim (Bool-cases (d == c)) [
  | inl same ↦ rw same refl
  | inr other ↦ rw other (ap (◌∷◌ (session h k d)) (view-without h k c cs))
]

-- Equal sessions in front of equal lists.
pub session_cons :
    (c : ℕ) {t t' : ℕ} {b b' : Bool} {xs ys : List Session}
    → t ≡ t'
    → b ≡ b'
    → xs ≡ ys
    → record { id = c; heard = t; closing = b } ∷ xs
      ≡ record { id = c; heard = t'; closing = b' } ∷ ys
session_cons c e f g = λ i. record { id = c; heard = e i; closing = f i } ∷ g i

module _ (h h' : ℕ → Option Conn) (k k' : ℕ → Bool) where
  -- Connections that a move leaves as they are.
  pub view-congr :
      (cs : List ℕ)
      → ((d : ℕ) → Among d cs → (since h' d ≡ since h d) × (k' d ≡ k d))
      → view h' k' cs ≡ view h k cs
  view-congr [] same = refl
  view-congr (c ∷ cs) same =
      let (a, b) = same c (inl refl) in session_cons c a b (view-congr cs (λ d m. same d (inr m)))

  pub view-close :
      (c : ℕ) (cs : List ℕ)
      → ((d : ℕ) → Among d cs → (since h' d ≡ since h d) × (k' d ≡ (if d == c then true else k d)))
      → view h' k' cs ≡ close_id c (view h k cs)
  view-close c [] same = refl
  view-close c (d ∷ cs) same =
      let (a, b) = same d (inl refl) in
      let rest = view-close c cs (λ e m. same e (inr m)) in
      elim (Bool-cases (d == c)) [
        | inl here ↦ rw here (session_cons d a (b ∙ rw here refl) rest)
        | inr other ↦ rw other (session_cons d a (b ∙ rw other refl) rest)
      ]

  pub view-silent :
      (timeout now : ℕ) (cs : List ℕ)
      → ((d : ℕ)
          → Among d cs
          → (since h' d ≡ since h d)
            × (k' d ≡ (k d || (ltb 0 timeout && ltb timeout (now - since h d)))))
      → view h' k' cs ≡ close_silent timeout now (view h k cs)
  view-silent timeout now [] same = refl
  view-silent timeout now (c ∷ cs) same =
      let (a, b) = same c (inl refl) in
      session_cons c a b (view-silent timeout now cs (λ d m. same d (inr m)))
