-- ===== src/Server/Silence.antt =====
-- Which connections a heartbeat closes.
use uvx.Prelude.{
  ℕ, ◌<◌, ◌≡◌, refl, sym, ap, ◌∙◌, inl, inr, Bool, true, false, not, ◌||◌, ◌&&◌, List, [], ◌∷◌,
  ◌++◌, Option, arith, ltb, ◌==◌, if◌then◌else◌, Bool-cases, ==_iff,
}
use uvx.Memory.{Returns}
use uvx.Server.{Conn, Config, calls, heartbeat}
use uvx.Server.Timeouts.{silence, closes}
use uvx.Server.Loop.{Pending, all_asked, System, beat, handle, quiet, Reach}
use uvx.Server.Pending.{all_asked-calls, disconnect_asked, dropping}
use uvx.Server.Members.{member}
use uvx.Server.Moves.Beaten.{beat_run, beat_closes, in_order}
use uvx.Server.Safety.{Reach-Sound}

dropped_closing :
    (e m y k : Bool)
    → (e ≡ true → y ≡ true)
    → ((if e then true else k) || (m && y)) ≡ (k || ((e || m) && y))
dropped_closing e m y k h = ground (arith, h)

dropped_reading :
    (e m y r : Bool)
    → (e ≡ true → y ≡ true)
    → ((if e then false else (if e then false else r)) && not (m && y)) ≡ (r && not ((e || m) && y))
dropped_reading e m y r h = ground (arith, h)

kept_closing : (e m y k : Bool) → (e ≡ true → y ≡ false) → (k || (m && y)) ≡ (k || ((e || m) && y))
kept_closing e m y k h = ground (arith, h)

kept_reading :
    (e m y r : Bool) → (e ≡ true → y ≡ false) → (r && not (m && y)) ≡ (r && not ((e || m) && y))
kept_reading e m y r h = ground (arith, h)

module _ (h : ℕ → Option Conn) (now : ℕ) (config : Config) where
  abbrev pub silent : ℕ → Bool
  silent c = ltb config.conn_timeout (silence h now c)

  pub closes_at :
      (p : Pending) (cs : List ℕ) (d : ℕ)
      → ((all_asked p (closes h now config cs)).closing d
          ≡ (p.closing d || (member d cs && silent d)))
        × ((all_asked p (closes h now config cs)).reading d
            ≡ (p.reading d && not (member d cs && silent d)))
  unfolding closes
  closes_at p [] d = ground arith
  closes_at p (c ∷ cs) d = elim (Bool-cases (silent c)) [
    | inl long ↦
        let same : (c == d) ≡ true → silent d ≡ true =
          λ e. ap silent (sym ((==_iff c d).0 e)) ∙ long in
        let (closing, reading) = closes_at (dropping p c) cs d in
        rw (long, disconnect_asked config c p (closes h now config cs))
          (
            closing ∙ dropped_closing (c == d) (member d cs) (silent d) (p.closing d) same,
            reading ∙ dropped_reading (c == d) (member d cs) (silent d) (p.reading d) same,
          )
    | inr short ↦
        let same : (c == d) ≡ true → silent d ≡ false =
          λ e. ap silent (sym ((==_iff c d).0 e)) ∙ short in
        let (closing, reading) = closes_at p cs d in
        rw short (
          closing ∙ kept_closing (c == d) (member d cs) (silent d) (p.closing d) same,
          reading ∙ kept_reading (c == d) (member d cs) (silent d) (p.reading d) same,
        )
  ]

limited_closes :
    (h : ℕ → Option Conn) (now : ℕ) (config : Config) (cs : List ℕ)
    → 0 < config.conn_timeout
    → beat_closes h now config cs ≡ closes h now config cs
unfolding beat_closes
limited_closes h now config cs limited = ground arith

settled : (r k m y : Bool) → k ≡ false → m ≡ (r || k) → (k || (m && y)) ≡ (r && y)
settled r k m y e f = ground arith

settled_reading : (r k m y : Bool) → k ≡ false → m ≡ (r || k) → (r && not (m && y)) ≡ (r && not y)
settled_reading r k m y e f = ground arith

-- A heartbeat with a timeout, in any state that a server can come to and in which no close callback is to
-- come, ends normally. Afterwards a connection is closing exactly if it was read and silent for longer
-- than the timeout; the others are read as before.
pub beat_closes_silent :
    {s : System}
    → Reach s
    → ((c : ℕ) → s.pending.closing c ≡ false)
    → 0 < s.server.config.conn_timeout
    → Returns (handle beat s.clock (quiet s.server)) λ server.
      (c : ℕ)
      → ((all_asked s.pending server.trace).closing c
          ≡ (s.pending.reading c && silent s.server.heap s.clock s.server.config c))
        × ((all_asked s.pending server.trace).reading c
            ≡ (s.pending.reading c && not (silent s.server.heap s.clock s.server.config c)))
unfolding handle
beat_closes_silent {s} r none_closes limited =
    let (cs, v) = Reach-Sound r in
    let config = s.server.config in
    let h = s.server.heap in
    let first = heartbeat s.server.heartbeat_index in
    let pending : all_asked s.pending
          (calls config.on_heartbeat first ++ beat_closes h s.clock config cs)
        ≡ all_asked s.pending (closes h s.clock config cs) =
      all_asked-calls config.on_heartbeat first s.pending (beat_closes h s.clock config cs)
        (λ q. (refl, tt))
      ∙ ap (all_asked s.pending) (limited_closes h s.clock config cs limited) in
    (
      _,
      beat_run s.server cs s.clock v.serves (in_order s cs v none_closes),
      λ c.
          (let (closing, reading) = closes_at h s.clock config s.pending cs c in
            let y = silent h s.clock config c in
            let m = member c cs in
            let r = s.pending.reading c in
            let k = s.pending.closing c in
            (
              ap (λ (p : Pending). p.closing c) pending
                  ∙ closing
                  ∙ settled r k m y (none_closes c) (v.at c).placed,
              ap (λ (p : Pending). p.reading c) pending
                  ∙ reading
                  ∙ settled_reading r k m y (none_closes c) (v.at c).placed,
            )),
    )
