-- ===== src/Client/Safety.antt =====
-- What a client never does in any state that it can come to, and what its user must not do.
use uvx.Prelude.{◌≡◌, refl, sym, ap, ◌∙◌, Bool, true, false, [], ◌∷◌, ◌++◌, arith, subst}
use uvx.Memory.{ok, Returns}
use uvx.Client.{Client, calls, client_close, uvx_client_disconnect, uv_close, conn_closing}
use uvx.Client.Loop.{
  Handles, all_asked, AllProper, Move, disconnect, Enabled, taken, handle, System, quiet, after,
  turn, Reach, next, turns,
}
use uvx.Client.Reconnect.{turns_next, turns_none}
use uvx.Client.Invariant.{handle-Good, Reach-Fits}

-- Whatever libuv calls back or the user calls in a state that a client can come to, as long as the user
-- neither disconnects nor shuts down while a close is pending, and shuts down only once: the handler ends
-- normally, no assertion fails, and all that it asks of libuv is proper. The socket is initialised once
-- until it is closed, connected when it is initialised and idle, stopped only when it is initialised, read
-- only when it is not closing either, and closed once; the timer is stopped and closed once, while it is in
-- use.
pub handled_properly :
    {s : System} (m : Move)
    → Reach s
    → Enabled m s.handles
    → Returns
        (handle m (quiet s.client))
        λ c. AllProper (taken m s.handles) c.trace × Reach (after (taken m s.handles) c)
handled_properly {s} m r e =
    let (c, run, good) = handle-Good s (Reach-Fits r) m e in
    (c, run, (good.proper, next r (turn m e run)))

-- In a state that a client can come to, `uvserver` is set only while the socket is open and no connect
-- request is pending, `connection_closed` only while the socket is closed and nothing is pending, and what
-- is read, connecting or closing is in use and excludes the other two.
pub reached_consistent :
    {s : System}
    → Reach s
    → (s.client.uvserver ≡ true → (s.handles.used ≡ true) × (s.handles.connecting ≡ false))
      × (s.client.connection_closed ≡ true
          → (s.client.uvserver ≡ false)
            × (s.handles.used ≡ false)
            × (s.handles.connecting ≡ false)
            × (s.handles.reading ≡ false)
            × (s.handles.closing ≡ false))
      × (s.handles.reading ≡ true
          → (s.client.uvserver ≡ true) × (s.handles.used ≡ true) × (s.handles.closing ≡ false))
      × (s.handles.connecting ≡ true → (s.client.uvserver ≡ false) × (s.handles.closing ≡ false))
reached_consistent r = let f = Reach-Fits r in ground (arith, f)

closing_improper :
    (b : Bool) (l : Handles)
    → l.closing ≡ true
    → ¬ AllProper l (calls b conn_closing ++ uv_close ∷ [])
closing_improper true l e (_, ((_, f), _)) = cc
closing_improper false l e ((_, f), _) = cc

-- A client with an open connection is closed by `uvx_client_disconnect`.
disconnect_up : (c : Client) → c.uvserver ≡ true → (uvx_client_disconnect c).1 ≡ client_close c
unfolding uvx_client_disconnect
disconnect_up c up = rw up

close_pending :
    (b : Bool) (l : Handles) → (all_asked l (calls b conn_closing ++ uv_close ∷ [])).closing ≡ true
close_pending true l = refl
close_pending false l = refl

close_twice :
    (c : Client) (l : Handles)
    → ¬ AllProper (all_asked l (client_close (quiet c)).trace) (client_close (quiet c)).trace
unfolding client_close
close_twice c l =
    closing_improper c.config.on_conn_closing _ (close_pending c.config.on_conn_closing l)

closed_up : (c : Client) → c.uvserver ≡ true → (quiet (client_close (quiet c))).uvserver ≡ true
unfolding client_close
closed_up c up = up

closed_quiet : (c : Client) → quiet (client_close (quiet c)) ≡ quiet c
unfolding client_close
closed_quiet c = refl

disconnect_run :
    (s : System)
    → s.client.uvserver ≡ true
    → handle disconnect (quiet s.client) ≡ ok (client_close (quiet s.client))
unfolding handle
disconnect_run s up = ap ok (disconnect_up (quiet s.client) up)

-- `uvx_client_disconnect` leaves `uvserver` set until the close callback has run: a second call before
-- that asks to close the socket again, which libuv does not allow, in every state with an open connection.
pub disconnect_twice :
    {s : System}
    → Reach s
    → s.client.uvserver ≡ true
    → s.handles.closing ≡ false
    → Returns
        (turns s (disconnect ∷ []))
        λ t. Reach t × ¬ AllProper t.handles (uvx_client_disconnect (quiet t.client)).1.trace
disconnect_twice {s} r up not_closing =
    let c = client_close (quiet s.client) in
    let run = disconnect_run s up in
    (
      after s.handles c,
      turns_next s disconnect [] c run ∙ turns_none _,
      (
        next r (turn disconnect not_closing run),
        subst (λ (d : Client). ¬ AllProper (all_asked s.handles c.trace) d.trace)
            (sym (
              disconnect_up (quiet c) (closed_up s.client up)
              ∙ ap client_close (closed_quiet s.client)))
            (close_twice s.client s.handles),
      ),
    )
