-- ===== src/Client/Reentry/Tests.antt =====
-- An open connection whose user disconnects in `on_conn_closing`, and one whose user connects in
-- `on_conn_close`.
use uvx.Prelude.{◌≡◌, refl, true, false, List, [], ◌∷◌}
use uvx.Memory.{fault, diverges, Returns}
use uvx.Client.{
  uvx_client_shutdown, uvx_client_disconnect, client_close, on_connect, uvx_client_connect,
  client_reconnect,
}
use uvx.Client.Loop.{
  System, Reach, next, turn, beat, closed, timer_closed, connected, disconnect, shutdown, after,
  taken, quiet, handle, AllProper,
}
use uvx.Client.Hooks.{
  Hook, Act, in_conn_closing, in_conn_close, disconnecting, connecting_to, handle_in,
}
use uvx.Client.Reentry.{closing_never_ends, connect_in_close}
use uvx.Client.Tests.{connecting, connecting-Reach, config, connected_system, connected_reading}

abbrev hanging_up : Hook → List Act
hanging_up in_conn_closing = disconnecting ∷ []
hanging_up _ = []

abbrev calling_again : Hook → List Act
calling_again in_conn_close = connecting_to config false true ∷ []
calling_again _ = []

closing_never_ends_example :
    handle_in hanging_up 1000 disconnect connected_system.client ≡ fault diverges
unfolding on_connect uvx_client_connect
closing_never_ends_example =
    closing_never_ends hanging_up [] connected_system.client 1000 refl refl connected_reading.3

-- A client that is shut down while it connects, whose timer is gone then, that is connected all the same, and
-- whose user disconnects it at last.
abbrev shut_system : System
shut_system = after connecting.handles (uvx_client_shutdown (quiet connecting.client)).1

abbrev timeless : System
timeless = after (taken timer_closed shut_system.handles) (quiet shut_system.client)

abbrev opened : System
opened = after (taken (connected true) timeless.handles) (on_connect (quiet timeless.client) true)

abbrev hung_up : System
hung_up = after opened.handles (uvx_client_disconnect (quiet opened.client)).1

shut-Reach : Reach shut_system
unfolding handle uvx_client_connect client_reconnect
shut-Reach = next connecting-Reach (turn shutdown (refl, refl) refl)

timeless-Reach : Reach timeless
unfolding handle uvx_client_shutdown uvx_client_disconnect client_close uvx_client_connect
    client_reconnect
timeless-Reach = next shut-Reach (turn timer_closed refl refl)

opened-Reach : Reach opened
unfolding handle uvx_client_shutdown uvx_client_disconnect client_close uvx_client_connect
    client_reconnect
opened-Reach = next timeless-Reach (turn (connected true) refl refl)

hung_up-Reach : Reach hung_up
unfolding handle on_connect uvx_client_shutdown uvx_client_disconnect client_close
    uvx_client_connect client_reconnect
hung_up-Reach = next opened-Reach (turn disconnect refl refl)

hung_up_fields :
    (hung_up.handles.closing ≡ true)
    × (hung_up.handles.timer_used ≡ false)
    × (hung_up.handles.timer_closing ≡ false)
    × (hung_up.client.config.on_conn_close ≡ true)
unfolding on_connect uvx_client_shutdown uvx_client_disconnect client_close uvx_client_connect
    client_reconnect
hung_up_fields = (refl, refl, refl, refl)

connect_in_close_example : Returns (handle_in calling_again 1 closed (quiet hung_up.client)) λ c.
    let t = after (taken closed hung_up.handles) c in
    AllProper (taken closed hung_up.handles) c.trace
    × (t.handles.connecting ≡ true)
    × (t.handles.timer ≡ true)
    × Returns (handle_in calling_again 1 (beat true) (quiet c)) λ d. ¬ AllProper t.handles d.trace
connect_in_close_example =
    connect_in_close calling_again config false true 1 hung_up-Reach hung_up_fields.0
      hung_up_fields.1 hung_up_fields.2 hung_up_fields.3 refl
