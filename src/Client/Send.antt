-- ===== src/Client/Send.antt =====
-- What becomes of the data that a client sends.
use uvx.Prelude.{ℕ, ◌≡◌, refl, ◌∙◌, Bool, true, false, ◌==◌, some, if◌then◌else◌}
use uvx.Memory.{ok, Returns}
use uvx.Client.{Client, uvx_client_send}
use uvx.Stream.{Heap, free, uvx_send_to_stream}
use uvx.Stream.Owners.{free_memory, user, lost, carried, System, release, send, after, Reach}
use uvx.Stream.Safety.{stream_send, released}

-- The system after `uvx_client_send`.
abbrev pub given : Bool → ℕ → ℕ → ℕ → ℕ → ℕ → System → Heap → System
given true uvclient d size w status s h = after (send false uvclient d size w status) s h
given false uvclient d size w status s h = after (release d) s h

sends :
    (c : Client) (h : Heap) (uvclient d size w status : ℕ)
    → c.uvserver ≡ true
    → uvx_client_send c h uvclient (some d) size (some w) status
      ≡ uvx_send_to_stream h (some uvclient) (some d) size (some w) status
unfolding uvx_client_send
sends c h uvclient d size w status e = rw e refl

frees :
    (c : Client) (h h' : Heap) (uvclient d size w status : ℕ)
    → c.uvserver ≡ false
    → free h (some d) ≡ ok h'
    → uvx_client_send c h uvclient (some d) size (some w) status ≡ ok (0, h')
unfolding uvx_client_send
frees c h h' uvclient d size w status e run = rw (e, run) refl

by_state :
    (s : System) (b : Bool) (c : Client) (uvclient d size w status : ℕ)
    → c.uvserver ≡ b
    → Reach s
    → s.owner d ≡ user
    → s.heap.live w ≡ false
    → Returns (uvx_client_send c s.heap uvclient (some d) size (some w) status) λ r.
      let t = given b uvclient d size w status s r.1 in
      Reach t
      × (r.0 ≡ (if b then (if status == 0 then 1 else 0) else 0))
      × (t.owner d ≡ (if b then (if status == 0 then carried w else lost) else free_memory))
by_state s true c uvclient d size w status g r e f =
    let (res, run, facts) = stream_send uvclient d size w status r e f in
    (res, sends c s.heap uvclient d size w status g ∙ run, facts)
by_state s false c uvclient d size w status g r e f =
    let (h, run, (reached, gone)) = released d r e in
    ((0, h), frees c s.heap h uvclient d size w status g run, (reached, refl, gone))

-- `uvx_client_send` of data of the user ends normally and takes the data over. Where the client is connected
-- and libuv accepts the request, it returns 1 and the data are freed after the callback of the request; where
-- it is connected and libuv refuses, it returns 0 and the data are lost; where it is not connected, it
-- returns 0 and the data are freed at once.
pub client_send-Given :
    {s : System} (c : Client) (uvclient d size w status : ℕ)
    → Reach s
    → s.owner d ≡ user
    → s.heap.live w ≡ false
    → Returns (uvx_client_send c s.heap uvclient (some d) size (some w) status) λ r.
      let t = given c.uvserver uvclient d size w status s r.1 in
      Reach t
      × (r.0 ≡ (if c.uvserver then (if status == 0 then 1 else 0) else 0))
      × (t.owner d
          ≡ (if c.uvserver then (if status == 0 then carried w else lost) else free_memory))
client_send-Given {s} c uvclient d size w status r e f =
    by_state s c.uvserver c uvclient d size w status refl r e f
