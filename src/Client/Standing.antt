-- ===== src/Client/Standing.antt =====
-- When a client is in a phase: its fields, and what is pending.
use uvx.Prelude.{◌≡◌, Bool, true, false, List}
use uvx.Client.{Config, Event}
use uvx.Client.Loop.{Handles, System}
use uvx.Client.Phases.{Phase, Line, dialing, talking, down, hanging_up, is_up}

-- What is in use and pending in a phase.
-- The timer is in use, or its close is pending, beside the phase.
abbrev pub pending_in : Phase → Bool → Bool → Handles
pending_in p timer_used timer_closing = record {
  used = elim p.line [ down ↦ false | _ ↦ true ];
  connecting = elim p.line [ dialing ↦ true | _ ↦ false ];
  reading = elim p.line [ talking ↦ true | _ ↦ false ];
  closing = elim p.line [ hanging_up _ ↦ true | _ ↦ false ];
  timer = p.beating;
  timer_used = timer_used;
  timer_closing = timer_closing;
}

-- A client in a phase.
abbrev pub in_phase : Config → Phase → Bool → Bool → Bool → List Event → System
in_phase config p timer_used timer_closing attached trace = record {
  client = record {
    config = config;
    uvserver = is_up p.line;
    attached = attached;
    heartbeat_index = p.beats;
    connection_closed = elim p.line [ down ↦ true | _ ↦ false ];
    trace = trace;
  };
  handles = pending_in p timer_used timer_closing;
}

-- Once the line was answered, the socket's `data` points to the client.
abbrev pub Answered : Line → Bool → Type 0
Answered talking attached = attached ≡ true
Answered (hanging_up _) attached = attached ≡ true
Answered _ attached = Unit

-- A client with this configuration is in this phase.
pub record In (config : Config) (s : System) (p : Phase) : Type 0 where
  pub timer_used : Bool
  pub timer_closing : Bool
  pub attached : Bool
  pub trace : List Event
  pub answered : Answered p.line attached
  pub same : s ≡ in_phase config p timer_used timer_closing attached trace
