-- ===== src/Client/Protocol.antt =====
-- The order in which the user of a client sees its callbacks.
use uvx.Prelude.{
  ℕ, zero, suc, ◌≡◌, refl, ap, ◌∙◌, Bool, true, false, List, [], ◌∷◌, ◌++◌, Option, some, none,
  subst,
}
use uvx.Client.{
  Config, Event, bytes, read_error, conn_ok, conn_fail, conn_closing, conn_close, recv, heartbeat,
}
use uvx.Client.Loop.{
  System, Move, beat, connected, read, closed, timer_closed, disconnect, shutdown, Enabled, Reach,
  start, next as extend, turn,
}
use uvx.Client.Phases.{Phase, Line, refused, dialing, talking, down, hanging_up, next, told}
use uvx.Client.Standing.{pending_in}
use uvx.Client.Refinement.{settings, phases, reports, heard, Reach-In}

-- No connection, a connection that failed, an open one, and one that is being closed.
pub data Seen : Type 0 where
  nothing failed live ending : Seen

-- `on_conn_ok` or `on_conn_fail` opens a round, `on_conn_closing` and `on_conn_close` end it, once each and in
-- this order; bytes come while the connection is open, and heartbeats until it is closed.
abbrev pub sees : Seen → Event → Option Seen
sees nothing conn_ok = some live
sees nothing conn_fail = some failed
sees failed conn_closing = some ending
sees live conn_closing = some ending
sees live (recv n) = some live
sees live (heartbeat n) = some live
sees ending (heartbeat n) = some ending
sees ending conn_close = some nothing
sees _ _ = none

abbrev pub sees_all : Option Seen → List Event → Option Seen
sees_all none es = none
sees_all (some x) [] = some x
sees_all (some x) (e ∷ es) = sees_all (sees x e) es

-- The callbacks of a configuration are all set.
pub record AllSet (config : Config) : Type 0 where
  pub ok_set : config.on_conn_ok ≡ true
  pub fail_set : config.on_conn_fail ≡ true
  pub closing_set : config.on_conn_closing ≡ true
  pub close_set : config.on_conn_close ≡ true
  pub recv_set : config.on_recv ≡ true
  pub heartbeat_set : config.on_heartbeat ≡ true

abbrev seen_in : Line → Seen
seen_in talking = live
seen_in (hanging_up _) = ending
seen_in _ = nothing

sees_all-append :
    (o : Option Seen) (es fs : List Event) → sees_all o (es ++ fs) ≡ sees_all (sees_all o es) fs
sees_all-append none es [] = refl
sees_all-append none es (f ∷ fs) = refl
sees_all-append (some x) [] fs = refl
sees_all-append (some x) (e ∷ es) fs = sees_all-append (sees x e) es fs

module _ (config : Config) (set : AllSet config) (beating : Bool) (beats : ℕ) where
  abbrev phase : Line → Phase
  phase line = record { line = line; beating = beating; beats = beats }

  abbrev Allowed : Move → Line → Type 0
  Allowed m line =
      sees_all (some (seen_in line)) (told config m (phase line))
      ≡ some (seen_in (next m (phase line)).line)

  beat-Allowed : (accepted : Bool) (line : Line) → Allowed (beat accepted) line
  beat-Allowed accepted refused = refl
  beat-Allowed accepted dialing = refl
  beat-Allowed true down = refl
  beat-Allowed false down = refl
  beat-Allowed accepted talking = rw set.heartbeat_set refl
  beat-Allowed accepted (hanging_up true) = rw set.heartbeat_set refl
  beat-Allowed accepted (hanging_up false) = refl

  hang_up-Allowed : (line : Line) → Allowed disconnect line
  hang_up-Allowed refused = refl
  hang_up-Allowed dialing = refl
  hang_up-Allowed down = refl
  hang_up-Allowed talking = rw set.closing_set refl
  hang_up-Allowed (hanging_up b) = refl

  allowed :
      (m : Move) (line : Line)
      → (u v : Bool) → Enabled m (pending_in (phase line) u v)
      → Allowed m line
  allowed (beat accepted) line u v e = beat-Allowed accepted line
  allowed (connected true) dialing u v e = rw set.ok_set refl
  allowed (connected false) dialing u v e = rw (set.fail_set, set.closing_set) refl
  allowed (connected b) refused u v e = absurd (cc)
  allowed (connected b) talking u v e = absurd (cc)
  allowed (connected b) down u v e = absurd (cc)
  allowed (connected b) (hanging_up c) u v e = absurd (cc)
  allowed (read (bytes zero)) line u v e = refl
  allowed (read (bytes (suc n))) talking u v e = rw set.recv_set refl
  allowed (read (bytes (suc n))) refused u v e = absurd (cc)
  allowed (read (bytes (suc n))) dialing u v e = absurd (cc)
  allowed (read (bytes (suc n))) down u v e = absurd (cc)
  allowed (read (bytes (suc n))) (hanging_up b) u v e = absurd (cc)
  allowed (read read_error) line u v e = hang_up-Allowed line
  allowed closed (hanging_up b) u v e = rw set.close_set refl
  allowed closed refused u v e = absurd (cc)
  allowed closed dialing u v e = absurd (cc)
  allowed closed talking u v e = absurd (cc)
  allowed closed down u v e = absurd (cc)
  allowed timer_closed line u v e = refl
  allowed disconnect line u v e = hang_up-Allowed line
  allowed shutdown line u v e = hang_up-Allowed line

reports_allowed :
    {s : System} (r : Reach s)
    → AllSet (settings r)
    → sees_all (some nothing) (reports r) ≡ some (seen_in (phases r).line)
unfolding settings phases reports
reports_allowed (start c config colon true) set = refl
reports_allowed (start c config colon false) set = refl
reports_allowed (extend {s} r (turn m e run)) set =
    let i = (Reach-In r).0 in
    let p = phases r in
    sees_all-append (some nothing) (reports r) (told (settings r) m p)
    ∙ ap (λ o. sees_all o (told (settings r) m p)) (reports_allowed r set)
    ∙ allowed (settings r) set p.beating p.beats m p.line i.timer_used i.timer_closing
        (subst (λ (s' : System). Enabled m s'.handles) i.same e)

-- A client all of whose callbacks are set, and whose user does not disconnect or shut down while a close is
-- pending and shuts down once, calls them in this order, in every state that it can come to:
-- `on_conn_ok` or `on_conn_fail`, then `on_conn_closing` once, then `on_conn_close` once, and again;
-- `on_recv` only after `on_conn_ok` and before `on_conn_closing`, and `on_heartbeat` only after
-- `on_conn_ok` or `on_conn_fail` and before `on_conn_close`.
pub heard_in_order :
    {s : System} (r : Reach s)
    → AllSet (settings r)
    → (x : Seen) × (sees_all (some nothing) (heard r) ≡ some x)
heard_in_order r set =
    (seen_in (phases r).line, ap (sees_all (some nothing)) (Reach-In r).1 ∙ reports_allowed r set)
