-- ===== src/Client/Phases.antt =====
-- What a client promises, without its pointer, its flags and its handles: the phases of its connection,
-- the moves between them, and the callbacks that its user sees.
use uvx.Prelude.{ℕ, zero, suc, Bool, true, false, List, [], ◌∷◌, ◌++◌, if◌then◌else◌}
use uvx.Prelude.Word.{add32}
use uvx.Client.{
  Config, Event, bytes, read_error, calls, conn_ok, conn_fail, conn_closing, conn_close, recv,
  heartbeat,
}
use uvx.Client.Loop.{Move, beat, connected, read, closed, timer_closed, disconnect, shutdown}

-- A connection that libuv refused to try, that is tried, that is open, that is being closed, after it was
-- talking or not, and that is closed.
pub data Line : Type 0 where
  refused dialing talking down : Line
  hanging_up : Bool → Line

-- The line, whether the heart beats, and the number of the next heartbeat.
pub record Phase : Type 0 where
  pub line : Line
  pub beating : Bool
  pub beats : ℕ

abbrev pub dialed : Bool → Line
dialed accepted = if accepted then dialing else refused

-- A line that was opened is up until it is down.
abbrev pub is_up : Line → Bool
is_up talking = true
is_up (hanging_up was_open) = was_open
is_up _ = false

abbrev pub hang_up : Line → Line
hang_up talking = hanging_up true
hang_up line = line

abbrev pub redial : Bool → Line → Line
redial accepted down = dialed accepted
redial accepted line = line

abbrev pub next : Move → Phase → Phase
next (beat accepted) p = record p {
  line = redial accepted p.line;
  beats = if is_up p.line then add32 p.beats 1 else p.beats;
}
next (connected status_ok) p = record p { line = if status_ok then talking else hanging_up false }
next (read (bytes n)) p = p
next (read read_error) p = record p { line = hang_up p.line }
next closed p = record p { line = down }
next timer_closed p = p
next disconnect p = record p { line = hang_up p.line }
next shutdown p = record p { line = hang_up p.line; beating = false }

abbrev pub bye : Config → Line → List Event
bye config talking = calls config.on_conn_closing conn_closing
bye config _ = []

-- The callbacks of the configuration that a move calls, in order.
abbrev pub told : Config → Move → Phase → List Event
told config (beat _) p = if is_up p.line then calls config.on_heartbeat (heartbeat p.beats) else []
told config (connected true) p = calls config.on_conn_ok conn_ok
told config (connected false) p =
    calls config.on_conn_fail conn_fail ++ calls config.on_conn_closing conn_closing
told config (read (bytes zero)) p = []
told config (read (bytes (suc n))) p = calls config.on_recv (recv (suc n))
told config (read read_error) p = bye config p.line
told config timer_closed p = []
told config closed p = calls config.on_conn_close conn_close
told config disconnect p = bye config p.line
told config shutdown p = bye config p.line

-- The calls of callbacks among those that a client makes.
abbrev pub spoken : List Event → List Event
spoken [] = []
spoken (conn_ok ∷ es) = conn_ok ∷ spoken es
spoken (conn_fail ∷ es) = conn_fail ∷ spoken es
spoken (conn_closing ∷ es) = conn_closing ∷ spoken es
spoken (conn_close ∷ es) = conn_close ∷ spoken es
spoken (recv n ∷ es) = recv n ∷ spoken es
spoken (heartbeat n ∷ es) = heartbeat n ∷ spoken es
spoken (_ ∷ es) = spoken es
