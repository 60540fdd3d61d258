-- ===== src/Stream/Tests.antt =====
-- Sends of the data at 5, of the user, by the request at 9.
use uvx.Prelude.{◌≡◌, refl, true, false, none, some}
use uvx.Memory.{Returns}
use uvx.Stream.{uvx_send_to_stream}
use uvx.Stream.Owners.{
  System, obtain, send, handle, is_allocated, after, allocate, Reach, From, started, turn, here,
  then_to,
}
use uvx.Stream.Safety.{sent_safely, live_iff, refused_leaks}

abbrev holding : System
holding = after (obtain 5) (started λ _. none) (allocate (started λ _. none).heap 5)

holding-Reach : Reach holding
unfolding handle
holding-Reach = ((λ _. none), then_to here (turn (obtain 5) refl refl))

sent_safely_example :
    Returns
      (handle (send false 1 5 3 9 0) holding.heap)
      λ h. Reach (after (send false 1 5 3 9 0) holding h)
sent_safely_example = sent_safely (send false 1 5 3 9 0) holding-Reach (refl, refl)

live_iff_example : holding.heap.live 5 ≡ is_allocated (holding.owner 5)
live_iff_example = live_iff holding-Reach 5

refused_leaks_example :
    Returns (uvx_send_to_stream holding.heap (some 1) (some 5) 3 (some 9) 4294967292) λ r.
      (r.0 ≡ 0)
      × ((t : System)
          → From (after (send false 1 5 3 9 4294967292) holding r.1) t
          → (t.heap.live 5 ≡ true) × (t.heap.live 9 ≡ true))
refused_leaks_example = refused_leaks 1 5 3 9 4294967292 holding-Reach refl refl refl
