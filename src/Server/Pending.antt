-- ===== src/Server/Pending.antt =====
-- What the turns of a server leave pending.
use uvx.Prelude.{
  ℕ, ◌≡◌, refl, sym, ap, ◌∙◌, inl, inr, ◌⊎◌, Bool, true, false, List, [], ◌∷◌, ◌++◌, Option, arith,
  ltb, ◌==◌, Bool-cases, append-nil,
}
use uvx.Server.{Conn, Config, Event, calls, disconnect_events, read_stop, uv_close, conn_closing}
use uvx.Server.Connections.{Among, Absent}
use uvx.Server.Timeouts.{silence, closes}
use uvx.Server.Loop.{Pending, mark, Proper, asked, all_asked, AllProper}

-- The call of a user's callback is no call of libuv.
abbrev pub Outside : Event → Type 0
Outside e = (p : Pending) → (asked p e ≡ p) × Proper p e

pub all_asked-calls :
    (b : Bool) (e : Event) (p : Pending) (es : List Event)
    → Outside e
    → all_asked p (calls b e ++ es) ≡ all_asked p es
all_asked-calls true e p es o = ap (λ q. all_asked q es) (o p).0
all_asked-calls false e p es o = refl

pub calls-AllProper :
    (b : Bool) (e : Event) (p : Pending) (es : List Event)
    → Outside e
    → AllProper p es
    → AllProper p (calls b e ++ es)
calls-AllProper true e p es o q = ((o p).1, rw (o p).0 q)
calls-AllProper false e p es o q = q

pub all_asked-append :
    (p : Pending) (xs ys : List Event) → all_asked p (xs ++ ys) ≡ all_asked (all_asked p xs) ys
all_asked-append p [] ys = refl
all_asked-append p (x ∷ xs) ys = all_asked-append (asked p x) xs ys

pub AllProper-append :
    (p : Pending) (xs ys : List Event)
    → AllProper p xs
    → AllProper (all_asked p xs) ys
    → AllProper p (xs ++ ys)
AllProper-append p [] ys a b = b
AllProper-append p (x ∷ xs) ys (a, rest) b = (a, AllProper-append (asked p x) xs ys rest b)

-- One connection stops being read and is closing.
abbrev pub dropping : Pending → ℕ → Pending
dropping p c = record {
  reading = mark (mark p.reading c false) c false;
  closing = mark p.closing c true;
}

pub disconnect_asked :
    (config : Config) (c : ℕ) (p : Pending) (es : List Event)
    → all_asked p (disconnect_events config c ++ es) ≡ all_asked (dropping p c) es
disconnect_asked config c p es =
    all_asked-append p (disconnect_events config c) es
    ∙ ap (λ q. all_asked q es)
        (all_asked-calls config.on_conn_closing (conn_closing c) (asked p (read_stop c))
          (uv_close c ∷ []) (λ q. (refl, tt)))

pub disconnect-AllProper :
    (config : Config) (c : ℕ) (p : Pending) (es : List Event)
    → p.closing c ≡ false
    → AllProper (dropping p c) es
    → AllProper p (disconnect_events config c ++ es)
disconnect-AllProper config c p es open_yet q =
    AllProper-append p (disconnect_events config c) es
      (
        tt,
        calls-AllProper config.on_conn_closing (conn_closing c) (asked p (read_stop c))
            (uv_close c ∷ []) (λ q. (refl, tt)) (open_yet, tt),
      )
      (rw
        (sym (ap (λ l. all_asked p l) (append-nil (disconnect_events config c)))
          ∙ disconnect_asked config c p [])
        q)

-- Some connections of a list that were read stop being read and are closing.
pub record Drops (p : Pending) (cs : List ℕ) (p' : Pending) : Type 0 where
  pub fewer : (d : ℕ) → p'.reading d ≡ true → p.reading d ≡ true
  pub still : (d : ℕ) → p.closing d ≡ true → p'.closing d ≡ true
  pub new : (d : ℕ) → p'.closing d ≡ true → (p.closing d ≡ true) ⊎ Among d cs
  pub moved : (d : ℕ) → p.reading d ≡ true → (p'.reading d ≡ true) ⊎ (p'.closing d ≡ true)
  pub apart :
      ((d : ℕ) → p.reading d ≡ true → p.closing d ≡ false)
      → (d : ℕ) → p'.reading d ≡ true
      → p'.closing d ≡ false

pub Drops-refl : (p : Pending) (cs : List ℕ) → Drops p cs p
Drops-refl p cs = record {
  fewer = λ d r. r;
  still = λ d r. r;
  new = λ d r. inl r;
  moved = λ d r. inl r;
  apart = λ a. a;
}

pub dropping-Drops : (p : Pending) (c : ℕ) → Drops p (c ∷ []) (dropping p c)
dropping-Drops p c = record {
  fewer = λ d r. ground arith;
  still = λ d r. ground arith;
  new = λ d r. ground arith;
  moved = λ d r. ground arith;
  apart = λ a d r. ground (arith, a d);
}

-- The connections of a list are different ones.
abbrev pub Different : List ℕ → Type 0
Different [] = Unit
Different (c ∷ cs) = Absent c cs × Different cs

closes-Proper_step :
    (p : Pending) (c : ℕ) (cs : List ℕ)
    → Absent c cs
    → ((d : ℕ) → Among d cs → p.closing d ≡ false)
    → (d : ℕ) → Among d cs
    → (dropping p c).closing d ≡ false
closes-Proper_step p c (e ∷ cs) (ne, a) open_yet d (inl f) =
    let other : (c == d) ≡ false = ground (arith) in rw other (open_yet d (inl f))
closes-Proper_step p c (e ∷ cs) (ne, a) open_yet d (inr m) =
    closes-Proper_step p c cs a (λ k n. open_yet k (inr n)) d m
closes-Proper_step p c [] a open_yet d m = elim m [ ]

-- The calls of a heartbeat that closes the silent ones.
module _ (h : ℕ → Option Conn) (now : ℕ) (config : Config) where
  pub closes-AllProper :
      (p : Pending) (cs : List ℕ)
      → Different cs
      → ((d : ℕ) → Among d cs → p.closing d ≡ false)
      → AllProper p (closes h now config cs)
  unfolding closes
  closes-AllProper p [] d o = tt
  closes-AllProper p (c ∷ cs) (a, d) o =
      elim (Bool-cases (ltb config.conn_timeout (silence h now c))) [
        | inl silent ↦ rw silent (
            disconnect-AllProper config c p (closes h now config cs) (o c (inl refl)) (
              closes-AllProper (dropping p c) cs d
                (closes-Proper_step p c cs a (λ k m. o k (inr m)))))
        | inr heard ↦ rw heard (closes-AllProper p cs d (λ k m. o k (inr m)))
      ]

  Drops-step :
      (p p' : Pending) (c : ℕ) (cs : List ℕ) → Drops (dropping p c) cs p' → Drops p (c ∷ cs) p'
  Drops-step p p' c cs t =
      let s = dropping-Drops p c in
      record {
        fewer = λ d r. s.fewer d (t.fewer d r);
        still = λ d r. t.still d (s.still d r);
        new = λ d r. elim (t.new d r) [
          | inl q ↦ elim (s.new d q) [
            | inl x ↦ inl x
            | inr (inl x) ↦ inr (inl x)
            | inr (inr x) ↦ elim x [ ]
          ]
          | inr q ↦ inr (inr q)
        ];
        moved = λ d r. elim (s.moved d r) [ inl q ↦ t.moved d q | inr q ↦ inr (t.still d q) ];
        apart = λ a. t.apart (s.apart a);
      }

  Drops-other : (p p' : Pending) (c : ℕ) (cs : List ℕ) → Drops p cs p' → Drops p (c ∷ cs) p'
  Drops-other p p' c cs t = record {
    fewer = t.fewer;
    still = t.still;
    new = λ d r. elim (t.new d r) [ inl q ↦ inl q | inr q ↦ inr (inr q) ];
    moved = t.moved;
    apart = t.apart;
  }

  pub closes-Drops : (p : Pending) (cs : List ℕ) → Drops p cs (all_asked p (closes h now config cs))
  unfolding closes
  closes-Drops p [] = Drops-refl p []
  closes-Drops p (c ∷ cs) = elim (Bool-cases (ltb config.conn_timeout (silence h now c))) [
    | inl silent ↦
        rw (silent, disconnect_asked config c p (closes h now config cs))
          (Drops-step p _ c cs (closes-Drops (dropping p c) cs))
    | inr heard ↦ rw heard (Drops-other p _ c cs (closes-Drops p cs))
  ]
