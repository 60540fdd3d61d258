-- ===== src/Client/Invariant.antt =====
-- What holds of a client and its handles between two turns of the loop.
use uvx.Prelude.{
  zero, suc, ◌≡◌, refl, sym, ap, ◌∙◌, Bool, true, false, List, [], ◌∷◌, ◌++◌, arith, append-nil,
  append_assoc, subst, inl, inr, Bool-cases,
}
use uvx.Memory.{ok, Returns}
use uvx.Client.{
  Client, Config, Event, Nread, bytes, read_error, calls, client_reconnect, on_heartbeat_timer,
  uvx_client_connect, after_close_client, client_close, on_client_read, on_connect,
  uvx_client_disconnect, uvx_client_shutdown, conn_ok, conn_fail, conn_closing, conn_close, recv,
  heartbeat, free_base, uv_close, read_start, read_stop, timer_stop, timer_close,
}
use uvx.Client.Loop.{
  Handles, none_used, Proper, asked, all_asked, AllProper, Move, beat, connected, read, closed,
  timer_closed, disconnect, shutdown, Enabled, taken, handle, System, quiet, after, turn, Reach,
  start, next,
}

-- The pointer `uvserver`, the flag `connection_closed` and the pending requests fit one another.
pub record Fits (s : System) : Type 0 where
  pub up :
      s.client.uvserver ≡ true
      → (s.handles.used ≡ true) × (s.handles.connecting ≡ false) × (s.client.attached ≡ true)
  pub down :
      s.client.connection_closed ≡ true → (s.handles.used ≡ false) × (s.client.uvserver ≡ false)
  pub unused :
      s.handles.used ≡ false
      → (s.handles.connecting ≡ false)
        × (s.handles.reading ≡ false)
        × (s.handles.closing ≡ false)
        × (s.client.connection_closed ≡ true)
  pub connecting :
      s.handles.connecting ≡ true
      → (s.client.uvserver ≡ false) × (s.handles.reading ≡ false) × (s.handles.closing ≡ false)
  pub reading : s.handles.reading ≡ true → (s.client.uvserver ≡ true) × (s.handles.closing ≡ false)
  pub closing : s.handles.closing ≡ true → s.client.attached ≡ true
  pub running :
      s.handles.timer ≡ true → (s.handles.timer_used ≡ true) × (s.handles.timer_closing ≡ false)

-- What a turn asks of libuv is proper, and it leaves the system as it should be.
pub record Good (l : Handles) (c : Client) : Type 0 where
  pub proper : AllProper l c.trace
  pub fits : Fits (after l c)

-- The call of a user's callback is no call of libuv.
abbrev pub Outside : Event → Type 0
Outside e = (l : Handles) → (asked l e ≡ l) × Proper l e

pub all_asked-calls :
    (b : Bool) (e : Event) (l : Handles) (es : List Event)
    → Outside e
    → all_asked l (calls b e ++ es) ≡ all_asked l es
all_asked-calls true e l es o = ap (λ k. all_asked k es) (o l).0
all_asked-calls false e l es o = refl

calls-AllProper :
    (b : Bool) (e : Event) (l : Handles) (es : List Event)
    → Outside e
    → AllProper l es
    → AllProper l (calls b e ++ es)
calls-AllProper true e l es o p = ((o l).1, rw (o l).0 p)
calls-AllProper false e l es o p = p

-- The first call of a callback in a trace may be left out.
Good-calls :
    (b : Bool) (e : Event) (l : Handles) (c : Client) (es : List Event)
    → Outside e
    → c.trace ≡ calls b e ++ es
    → Good l (record c { trace = es })
    → Good l c
Good-calls b e l c es o f g = record {
  proper = rw f (calls-AllProper b e l es o g.proper);
  fits =
      let pending : all_asked l c.trace ≡ all_asked l es =
        ap (all_asked l) f ∙ all_asked-calls b e l es o in
      record {
        up = rw pending g.fits.up;
        down = rw pending g.fits.down;
        unused = rw pending g.fits.unused;
        connecting = rw pending g.fits.connecting;
        reading = rw pending g.fits.reading;
        closing = rw pending g.fits.closing;
        running = rw pending g.fits.running;
      };
}

-- A turn that asks for nothing.
Good-none : (l : Handles) (c : Client) → c.trace ≡ [] → Fits (after l (quiet c)) → Good l c
Good-none l c e f =
    Good-calls false free_base l c [] (λ l. (refl, tt)) e (record { proper = tt; fits = f })

-- A call of libuv, and the rest of the turn.
Good-asks :
    (e : Event) (l : Handles) (c : Client) (es : List Event)
    → c.trace ≡ e ∷ es
    → Proper l e
    → Good (asked l e) (record c { trace = es })
    → Good l c
Good-asks e l c es f p g = record {
  proper = rw f (p, g.proper);
  fits =
      let pending : all_asked l c.trace ≡ all_asked (asked l e) es = ap (all_asked l) f in
      record {
        up = rw pending g.fits.up;
        down = rw pending g.fits.down;
        unused = rw pending g.fits.unused;
        connecting = rw pending g.fits.connecting;
        reading = rw pending g.fits.reading;
        closing = rw pending g.fits.closing;
        running = rw pending g.fits.running;
      };
}

-- A socket that is in use and is closed at the end of the turn.
close-Good :
    (l : Handles) (c : Client) (last : List Event)
    → l.used ≡ true
    → l.closing ≡ false
    → l.connecting ≡ false
    → c.attached ≡ true
    → c.connection_closed ≡ false
    → (l.timer ≡ true → (l.timer_used ≡ true) × (l.timer_closing ≡ false))
    → AllProper (asked l uv_close) last
    → ((k : Handles) → all_asked k last ≡ k)
    → c.trace ≡ (calls c.config.on_conn_closing conn_closing ++ uv_close ∷ []) ++ last
    → Good l c
close-Good l c last used not_closing idle attached up runs p o e =
    Good-calls c.config.on_conn_closing conn_closing l c (uv_close ∷ last) (λ l. (refl, tt))
      (e ∙ append_assoc (calls c.config.on_conn_closing conn_closing) (uv_close ∷ []) last)
      (Good-asks uv_close l _ last refl (used, not_closing)
        (record { proper = p; fits = rw (o (asked l uv_close)) (ground arith) }))

module _ (s : System) (f : Fits s) where
  beat-Good :
      (accepted : Bool)
      → s.handles.timer ≡ true
      → Good s.handles (on_heartbeat_timer (quiet s.client) accepted)
  unfolding on_heartbeat_timer client_reconnect
  beat-Good accepted e = elim (Bool-cases s.client.uvserver) [
    | inl up ↦ rw up (
        Good-calls s.client.config.on_heartbeat (heartbeat s.client.heartbeat_index) _ _ []
          (λ l. (refl, tt)) (sym (append-nil _))
          (record { proper = tt; fits = ground (arith, f, up) }))
    | inr not_up ↦ elim (Bool-cases s.client.connection_closed) [
      | inl down ↦
          rw (not_up, down)
            (record { proper = ground (arith, f, down); fits = ground (arith, f, down) })
      | inr not_down ↦
          rw (not_up, not_down) (record { proper = tt; fits = ground (arith, f, not_up, not_down) })
    ]
  ]

  connected-Good :
      (status_ok : Bool)
      → s.handles.connecting ≡ true
      → Good (taken (connected status_ok) s.handles) (on_connect (quiet s.client) status_ok)
  unfolding on_connect client_close
  connected-Good true e =
      Good-calls s.client.config.on_conn_ok conn_ok _ _ (read_start ∷ []) (λ l. (refl, tt)) refl
        (record { proper = ground (arith, f); fits = ground (arith, f) })
  connected-Good false e =
      Good-calls s.client.config.on_conn_fail conn_fail _ _
        (calls s.client.config.on_conn_closing conn_closing ++ uv_close ∷ []) (λ l. (refl, tt)) refl
        (Good-calls s.client.config.on_conn_closing conn_closing _ _ (uv_close ∷ [])
          (λ l. (refl, tt)) refl (record { proper = ground (arith, f); fits = ground (arith, f) }))

  closed-Good :
      s.handles.closing ≡ true
      → Returns (after_close_client (quiet s.client)) (Good (taken closed s.handles))
  unfolding after_close_client
  closed-Good e = (
    record s.client {
      uvserver = false;
      connection_closed = true;
      trace = calls s.client.config.on_conn_close conn_close;
    },
    rw (f.closing e),
    Good-calls s.client.config.on_conn_close conn_close _ _ [] (λ l. (refl, tt))
        (sym (append-nil (calls s.client.config.on_conn_close conn_close)))
        (record { proper = tt; fits = ground (arith, f) }),
  )

  read-Good :
      (nread : Nread)
      → s.handles.reading ≡ true
      → Returns (on_client_read (quiet s.client) nread) (Good s.handles)
  unfolding on_client_read client_close
  read-Good (bytes zero) e =
      let attached : s.client.attached ≡ true = ground (arith, f) in
      (
        record s.client { trace = free_base ∷ [] },
        rw attached,
        record { proper = (tt, tt); fits = ground (arith, f) },
      )
  read-Good (bytes (suc n)) e =
      let attached : s.client.attached ≡ true = ground (arith, f) in
      let up : s.client.uvserver ≡ true = ground (arith, f) in
      (
        record s.client { trace = calls s.client.config.on_recv (recv (suc n)) ++ free_base ∷ [] },
        rw (attached, up),
        Good-calls s.client.config.on_recv (recv (suc n)) _ _ (free_base ∷ []) (λ l. (refl, tt))
            refl (record { proper = (tt, tt); fits = ground (arith, f) }),
      )
  read-Good read_error e =
      let attached : s.client.attached ≡ true = ground (arith, f) in
      (
        record s.client {
          trace =
              read_stop
              ∷ ((calls s.client.config.on_conn_closing conn_closing ++ uv_close ∷ [])
                  ++ free_base ∷ []);
        },
        rw attached,
        Good-asks read_stop _ _ _ refl (ground (arith, f)) (
            close-Good _ _ (free_base ∷ []) (ground (arith, f)) (ground (arith, f))
              (ground (arith, f)) attached (ground (arith, f)) f.running (tt, tt) (λ k. refl) refl),
      )

  disconnect-Good :
      (l : Handles) (c : Client)
      → l.closing ≡ false
      → l.used ≡ s.handles.used
      → l.connecting ≡ s.handles.connecting
      → l.reading ≡ s.handles.reading
      → (l.timer ≡ true → (l.timer_used ≡ true) × (l.timer_closing ≡ false))
      → c ≡ quiet s.client
      → Good l (uvx_client_disconnect c).1
  unfolding uvx_client_disconnect client_close
  disconnect-Good l c not_closing used idle reading runs e =
      rw e (elim (Bool-cases s.client.uvserver) [
        | inl up ↦ rw up (
            close-Good l _ [] (ground (arith, f)) not_closing (ground (arith, f))
              (ground (arith, f)) (ground (arith, f)) runs tt (λ k. refl) (sym (append-nil _)))
        | inr down ↦ rw down (record { proper = tt; fits = ground (arith, f) })
      ])

  shutdown-Good :
      s.handles.closing ≡ false
      → s.handles.timer ≡ true
      → Good s.handles (uvx_client_shutdown (quiet s.client)).1
  unfolding uvx_client_shutdown uvx_client_disconnect client_close
  shutdown-Good e runs = elim (Bool-cases s.client.uvserver) [
    | inl up ↦ rw up (
        Good-asks timer_stop _ _ _ refl (ground (arith, f, runs)) (
          Good-asks timer_close _ _ _ refl (ground (arith, f, runs)) (
            close-Good _ _ [] (ground (arith, f)) e (ground (arith, f)) (ground (arith, f))
              (ground (arith, f)) (λ r. absurd (cc)) tt (λ k. refl) (sym (append-nil _)))))
    | inr down ↦ rw down (record { proper = ground (arith, f, runs); fits = ground (arith, f) })
  ]

  -- Each move that may come next is handled to its end, without a failed assertion, and as it should.
  pub handle-Good :
      (m : Move)
      → Enabled m s.handles
      → Returns (handle m (quiet s.client)) (Good (taken m s.handles))
  unfolding handle
  handle-Good (beat accepted) e = (_, refl, beat-Good accepted e)
  handle-Good (connected status_ok) e = (_, refl, connected-Good status_ok e)
  handle-Good (read nread) e = read-Good nread e
  handle-Good closed e = closed-Good e
  handle-Good disconnect e = (_, refl, disconnect-Good s.handles _ e refl refl refl f.running refl)
  handle-Good timer_closed e = (_, refl, record { proper = tt; fits = ground (arith, f) })
  handle-Good shutdown (e, runs) = (_, refl, shutdown-Good e runs)

-- The first turn, `uvx_client_connect`.
pub connect-Good :
    (c : Client) (config : Config) (colon accepted : Bool)
    → Good none_used (uvx_client_connect (quiet c) config colon accepted).1
unfolding uvx_client_connect client_reconnect
connect-Good c config true true = record { proper = ground arith; fits = ground arith }
connect-Good c config true false = record { proper = ground arith; fits = ground arith }
connect-Good c config false true = record { proper = ground arith; fits = ground arith }
connect-Good c config false false = record { proper = ground arith; fits = ground arith }

ok-injective : {c d : Client} → ok c ≡ ok d → c ≡ d
ok-injective e = cc

-- Every state that a client can come to fits.
pub Reach-Fits : {s : System} → Reach s → Fits s
Reach-Fits (start c config colon accepted) = (connect-Good c config colon accepted).fits
Reach-Fits (next {s} r (turn m e run)) =
    let (c, run', good) = handle-Good s (Reach-Fits r) m e in
    let same : c ≡ _ = ok-injective (sym run' ∙ run) in
    subst (λ d. Fits (after (taken m s.handles) d)) same good.fits
