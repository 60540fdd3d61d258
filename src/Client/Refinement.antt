-- ===== src/Client/Refinement.antt =====
-- Every move of a client does to its connection what the phases say, and its user sees it.
use uvx.Prelude.{◌≡◌, refl, sym, ap, ◌∙◌, Bool, true, false, List, [], ◌++◌, subst}
use uvx.Memory.{ok, Returns}
use uvx.Client.{Client, Config, Event, client_reconnect, uvx_client_connect}
use uvx.Client.Loop.{
  System, Move, Enabled, taken, handle, quiet, after, turn, started, Reach, start, next as extend,
}
use uvx.Client.Phases.{Phase, dialed, next, told, spoken}
use uvx.Client.Standing.{In}
use uvx.Client.Turns.{Moves, moved}

-- When a client is in a phase, each move that libuv or the user can make, as long as the user does not
-- disconnect or shut down while a close is pending and shuts down only once, ends normally, leaves the
-- client in the next phase and calls exactly the callbacks that the phase says, in that order.
pub client_simulates :
    {config : Config} {s : System} {p : Phase} (m : Move)
    → In config s p
    → Enabled m s.handles
    → Returns
        (handle m (quiet s.client))
        λ c. In config (after (taken m s.handles) c) (next m p) × (spoken c.trace ≡ told config m p)
client_simulates {config} {s} {p} m i e =
    subst (λ s'. Moves config s' m p) (sym i.same)
      (moved config p.beating p.beats i.timer_used i.timer_closing i.attached i.trace m p.line
        (subst (λ (s' : System). Enabled m s'.handles) i.same e) i.answered)

started-In :
    (c : Client) (config : Config) (colon accepted : Bool)
    → In config
        (started c config colon accepted)
        (record { line = dialed accepted; beating = true; beats = 0 })
unfolding uvx_client_connect client_reconnect
started-In c config true true = record {
  timer_used = _;
  timer_closing = _;
  attached = c.attached;
  trace = _;
  answered = tt;
  same = refl;
}
started-In c config true false = record {
  timer_used = _;
  timer_closing = _;
  attached = c.attached;
  trace = _;
  answered = tt;
  same = refl;
}
started-In c config false true = record {
  timer_used = _;
  timer_closing = _;
  attached = c.attached;
  trace = _;
  answered = tt;
  same = refl;
}
started-In c config false false = record {
  timer_used = _;
  timer_closing = _;
  attached = c.attached;
  trace = _;
  answered = tt;
  same = refl;
}

-- The configuration of a client, its phase and the callbacks that its user saw, after the moves by which it
-- came to its state.
unfoldable pub settings : {s : System} → Reach s → Config
settings (start c config colon accepted) = config
settings (extend r (turn m e run)) = settings r

unfoldable pub phases : {s : System} → Reach s → Phase
phases (start c config colon accepted) = record {
  line = dialed accepted;
  beating = true;
  beats = 0;
}
phases (extend r (turn m e run)) = next m (phases r)

unfoldable pub reports : {s : System} → Reach s → List Event
unfolding settings phases
reports (start c config colon accepted) = []
reports (extend r (turn m e run)) = reports r ++ told (settings r) m (phases r)

-- The callbacks that the handlers called.
unfoldable pub heard : {s : System} → Reach s → List Event
heard (start c config colon accepted) = []
heard (extend r (turn m {c} e run)) = heard r ++ spoken c.trace

ok-injective : {a b : Client} → ok a ≡ ok b → a ≡ b
ok-injective e = cc

-- In every state that a client can come to it is in the phase to which the same moves lead, and its
-- handlers called since the start exactly the callbacks that the phases say, in that order.
pub Reach-In : {s : System} (r : Reach s) → In (settings r) s (phases r) × (heard r ≡ reports r)
unfolding settings phases reports heard
Reach-In (start c config colon accepted) = (started-In c config colon accepted, refl)
Reach-In (extend {s} r (turn m {c} e run)) =
    let (i, said) = Reach-In r in
    let (c', run', (i', words)) = client_simulates m i e in
    let same : c' ≡ c = ok-injective (sym run' ∙ run) in
    (
      subst (λ (x : Client). In (settings r) (after (taken m s.handles) x) (next m (phases r))) same
          i',
      ap (λ q. q ++ spoken c.trace) said
          ∙ ap (◌++◌ (reports r)) (sym (ap (λ (x : Client). spoken x.trace) same) ∙ words),
    )
