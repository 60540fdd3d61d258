-- ===== src/Client/Turns.antt =====
-- What each handler of a client does in each phase: the next phase, and the callbacks that it calls.
use uvx.Prelude.{
  ℕ, ◌≡◌, refl, ap, ◌∙◌, Bool, true, false, zero, suc, List, [], ◌∷◌, ◌++◌, append-nil,
  append_assoc,
}
use uvx.Memory.{ok, Returns}
use uvx.Client.{
  Config, Event, Nread, bytes, read_error, calls, on_heartbeat_timer, client_reconnect, on_connect,
  on_client_read, after_close_client, client_close, uvx_client_disconnect, uvx_client_shutdown,
  conn_ok, conn_fail, conn_closing, conn_close, recv, heartbeat, read_start, read_stop, uv_close,
  free_base,
}
use uvx.Client.Loop.{
  Handles, System, Move, beat, connected, read, closed, timer_closed, disconnect, shutdown, Enabled,
  taken, asked, all_asked, handle, quiet, after,
}
use uvx.Client.Invariant.{Outside, all_asked-calls}
use uvx.Client.Phases.{Phase, Line, refused, dialing, talking, down, hanging_up, next, told, spoken}
use uvx.Client.Standing.{In, in_phase, pending_in, Answered}

-- A turn that ends with this client, in the next phase, after these calls of callbacks.
abbrev pub Moves : Config → System → Move → Phase → Type 0
Moves config s m p =
    Returns (handle m (quiet s.client))
      λ c. In config (after (taken m s.handles) c) (next m p) × (spoken c.trace ≡ told config m p)

-- Some calls of callbacks, and extend others.
spoken-calls :
    (b : Bool) (e : Event) (es : List Event)
    → spoken (e ∷ es) ≡ e ∷ spoken es
    → spoken (calls b e ++ es) ≡ calls b e ++ spoken es
spoken-calls true e es f = f
spoken-calls false e es f = refl

spoken_call : (b : Bool) (e : Event) → spoken (e ∷ []) ≡ e ∷ [] → spoken (calls b e) ≡ calls b e
spoken_call true e f = f
spoken_call false e f = refl

asked_call : (b : Bool) (e : Event) (l : Handles) → Outside e → all_asked l (calls b e) ≡ l
asked_call true e l o = (o l).0
asked_call false e l o = refl

module _ (config : Config) (beating : Bool) (beats : ℕ) (u v a : Bool) (t : List Event) where
  abbrev phase : Line → Phase
  phase line = record { line = line; beating = beating; beats = beats }

  abbrev at : Line → System
  at line = in_phase config (phase line) u v a t

  abbrev Ends : Move → Line → Type 0
  Ends m line = Moves config (at line) m (phase line)

  -- The client and the pending requests after the handler, and what it called.
  ends :
      {timer_used timer_closing : Bool} (m : Move) (line : Line) (attached : Bool)
      (trace : List Event)
      → handle m (quiet (at line).client)
        ≡ ok (in_phase config (next m (phase line)) timer_used timer_closing attached trace).client
      → Answered (next m (phase line)).line attached
      → all_asked (taken m (at line).handles) trace
        ≡ pending_in (next m (phase line)) timer_used timer_closing
      → spoken trace ≡ told config m (phase line)
      → Ends m line
  ends {timer_used} {timer_closing} m line attached trace run w pending words = (
    _,
    run,
    (
      record {
        timer_used = timer_used;
        timer_closing = timer_closing;
        attached = attached;
        trace = trace;
        answered = w;
        same = λ i. record {
          client =
              (in_phase config (next m (phase line)) timer_used timer_closing attached
                trace).client;
          handles = pending i;
        };
      },
      words,
    ),
  )

  beat-Ends : (accepted : Bool) (line : Line) → Answered line a → Ends (beat accepted) line
  unfolding handle on_heartbeat_timer client_reconnect
  beat-Ends accepted refused w = ends (beat accepted) refused a _ refl w refl refl
  beat-Ends accepted dialing w = ends (beat accepted) dialing a _ refl w refl refl
  beat-Ends accepted (hanging_up false) w =
      ends (beat accepted) (hanging_up false) a _ refl w refl refl
  beat-Ends true down w = ends (beat true) down a _ refl w refl refl
  beat-Ends false down w = ends (beat false) down a _ refl w refl refl
  beat-Ends accepted (hanging_up true) w =
      ends (beat accepted) (hanging_up true) a _ refl w
        (asked_call config.on_heartbeat (heartbeat beats) _ (λ l. (refl, tt)))
        (spoken_call config.on_heartbeat (heartbeat beats) refl)
  beat-Ends accepted talking w =
      ends (beat accepted) talking a _ refl w
        (asked_call config.on_heartbeat (heartbeat beats) _ (λ l. (refl, tt)))
        (spoken_call config.on_heartbeat (heartbeat beats) refl)

  -- The end of a connection, and what is called after it.
  hung_up-asked :
      (l : Handles) (es : List Event)
      → all_asked l ((calls config.on_conn_closing conn_closing ++ uv_close ∷ []) ++ es)
        ≡ all_asked (asked l uv_close) es
  hung_up-asked l es =
      ap (all_asked l) (append_assoc (calls config.on_conn_closing conn_closing) (uv_close ∷ []) es)
      ∙ all_asked-calls config.on_conn_closing conn_closing l (uv_close ∷ es) (λ l. (refl, tt))

  hung_up-spoken :
      (es : List Event)
      → spoken es ≡ []
      → spoken ((calls config.on_conn_closing conn_closing ++ uv_close ∷ []) ++ es)
        ≡ calls config.on_conn_closing conn_closing
  hung_up-spoken es f =
      ap spoken (append_assoc (calls config.on_conn_closing conn_closing) (uv_close ∷ []) es)
      ∙ spoken-calls config.on_conn_closing conn_closing (uv_close ∷ es) refl
      ∙ ap (◌++◌ (calls config.on_conn_closing conn_closing)) f
      ∙ append-nil _

  connected-Ends : (status_ok : Bool) → Ends (connected status_ok) dialing
  unfolding handle on_connect client_close
  connected-Ends true =
      ends (connected true) dialing true _ refl refl
        (all_asked-calls config.on_conn_ok conn_ok _ (read_start ∷ []) (λ l. (refl, tt)))
        (spoken-calls config.on_conn_ok conn_ok (read_start ∷ []) refl ∙ append-nil _)
  connected-Ends false =
      ends (connected false) dialing true _ refl refl
        (all_asked-calls config.on_conn_fail conn_fail _ _ (λ l. (refl, tt))
          ∙ all_asked-calls config.on_conn_closing conn_closing _ (uv_close ∷ []) (λ l. (refl, tt)))
        (spoken-calls config.on_conn_fail conn_fail _ refl
          ∙ ap (◌++◌ (calls config.on_conn_fail conn_fail)) (
              spoken-calls config.on_conn_closing conn_closing (uv_close ∷ []) refl ∙ append-nil _))

  read-Ends : (nread : Nread) → a ≡ true → Ends (read nread) talking
  unfolding handle on_client_read client_close
  read-Ends (bytes zero) w =
      ends (read (bytes zero)) talking a (free_base ∷ []) (rw w refl) w refl refl
  read-Ends (bytes (suc n)) w =
      ends (read (bytes (suc n))) talking a (calls config.on_recv (recv (suc n)) ++ free_base ∷ [])
        (rw w refl) w
        (all_asked-calls config.on_recv (recv (suc n)) _ (free_base ∷ []) (λ l. (refl, tt)))
        (spoken-calls config.on_recv (recv (suc n)) (free_base ∷ []) refl ∙ append-nil _)
  read-Ends read_error w =
      ends (read read_error) talking a
        (read_stop
          ∷ ((calls config.on_conn_closing conn_closing ++ uv_close ∷ []) ++ free_base ∷ []))
        (rw w refl) w (hung_up-asked _ (free_base ∷ [])) (hung_up-spoken (free_base ∷ []) refl)

  closed-Ends : (was_open : Bool) → a ≡ true → Ends closed (hanging_up was_open)
  unfolding handle after_close_client
  closed-Ends was_open w =
      ends closed (hanging_up was_open) a (calls config.on_conn_close conn_close) (rw w refl) tt
        (asked_call config.on_conn_close conn_close _ (λ l. (refl, tt)))
        (spoken_call config.on_conn_close conn_close refl)

  closes-asked :
      (l : Handles)
      → all_asked l (calls config.on_conn_closing conn_closing ++ uv_close ∷ []) ≡ asked l uv_close
  closes-asked l =
      all_asked-calls config.on_conn_closing conn_closing l (uv_close ∷ []) (λ l. (refl, tt))

  closes-spoken :
      spoken (calls config.on_conn_closing conn_closing ++ uv_close ∷ [])
      ≡ calls config.on_conn_closing conn_closing
  closes-spoken =
      spoken-calls config.on_conn_closing conn_closing (uv_close ∷ []) refl ∙ append-nil _

  disconnect-Ends :
      (line : Line) → Enabled disconnect (at line).handles → Answered line a → Ends disconnect line
  unfolding handle uvx_client_disconnect client_close
  disconnect-Ends talking e w = ends disconnect talking a _ refl w (closes-asked _) closes-spoken
  disconnect-Ends refused e w = ends disconnect refused a _ refl w refl refl
  disconnect-Ends dialing e w = ends disconnect dialing a _ refl w refl refl
  disconnect-Ends down e w = ends disconnect down a _ refl w refl refl
  disconnect-Ends (hanging_up b) e w = absurd (cc)

  shutdown-Ends :
      (line : Line) → Enabled shutdown (at line).handles → Answered line a → Ends shutdown line
  unfolding handle uvx_client_shutdown uvx_client_disconnect client_close
  shutdown-Ends talking e w = ends shutdown talking a _ refl w (closes-asked _) closes-spoken
  shutdown-Ends refused e w = ends shutdown refused a _ refl w refl refl
  shutdown-Ends dialing e w = ends shutdown dialing a _ refl w refl refl
  shutdown-Ends down e w = ends shutdown down a _ refl w refl refl
  shutdown-Ends (hanging_up b) e w = absurd (cc)

  timer_closed-Ends : (line : Line) → Answered line a → Ends timer_closed line
  unfolding handle
  timer_closed-Ends line w = ends timer_closed line a [] refl w refl refl

  pub moved : (m : Move) (line : Line) → Enabled m (at line).handles → Answered line a → Ends m line
  moved (beat accepted) line e w = beat-Ends accepted line w
  moved (connected status_ok) dialing e w = connected-Ends status_ok
  moved (connected status_ok) refused e w = absurd (cc)
  moved (connected status_ok) talking e w = absurd (cc)
  moved (connected status_ok) down e w = absurd (cc)
  moved (connected status_ok) (hanging_up b) e w = absurd (cc)
  moved (read nread) talking e w = read-Ends nread w
  moved (read nread) refused e w = absurd (cc)
  moved (read nread) dialing e w = absurd (cc)
  moved (read nread) down e w = absurd (cc)
  moved (read nread) (hanging_up b) e w = absurd (cc)
  moved closed (hanging_up b) e w = closed-Ends b w
  moved closed refused e w = absurd (cc)
  moved closed dialing e w = absurd (cc)
  moved closed talking e w = absurd (cc)
  moved closed down e w = absurd (cc)
  moved timer_closed line e w = timer_closed-Ends line w
  moved disconnect line e w = disconnect-Ends line e w
  moved shutdown line e w = shutdown-Ends line e w
