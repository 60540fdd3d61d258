-- ===== src/Stream/Safety.antt =====
-- What becomes of the memory that is sent on streams.
use uvx.Prelude.{
  ◌⊎◌, inl, inr, if◌then◌else◌, ℕ, ◌≡◌, refl, sym, ap, ◌∙◌, subst, Option, true, false, arith, ◌==◌,
  some,
}
use uvx.Memory.{ok, Returns}
use uvx.Stream.{Heap, free, uvx_send_to_stream, write_request}
use uvx.Stream.Owners.{
  Owner, free_memory, user, lost, carried, is_allocated, System, Move, obtain, release, send,
  written, Enabled, handle, owners, after, turn, started, From, here, then_to, Reach,
}
use uvx.Stream.Sound.{Sound, handle-Sound, send_run}

started-Sound : (data_of : ℕ → Option ℕ) → Sound (started data_of).heap (started data_of).owner
started-Sound data_of = record {
  held = λ a. refl;
  filled = λ w d e. absurd (cc);
  carries = λ w d e. absurd (cc);
  asked = λ w d e. absurd (cc);
}

ok-injective : {a b : Heap} → ok a ≡ ok b → a ≡ b
ok-injective e = cc

From-Sound : {s t : System} → Sound s.heap s.owner → From s t → Sound t.heap t.owner
From-Sound v here = v
From-Sound {s} v (then_to {t} f (turn m e run)) =
    let (h, run', u) = handle-Sound t m (From-Sound v f) e in
    subst (λ g. Sound g (owners m t.owner)) (ok-injective (sym run' ∙ run)) u

-- Whatever is sent and called back in a state that a program can come to, no memory is freed that was
-- freed before, and no request is used that was: every handler ends normally.
pub sent_safely :
    {s : System} (m : Move)
    → Reach s
    → Enabled m s
    → Returns (handle m s.heap) λ h. Reach (after m s h)
sent_safely {s} m r e =
    let (h, run, _) = handle-Sound s m (From-Sound (started-Sound r.0) r.1) e in
    (h, run, (r.0, then_to r.1 (turn m e run)))

-- In every state that a program can come to, an address is allocated exactly if somebody holds it: the
-- user, libuv as a request or its data until the callback of the request, or nobody since a refused write.
pub live_iff : {s : System} → Reach s → (a : ℕ) → s.heap.live a ≡ is_allocated (s.owner a)
live_iff r a = (From-Sound (started-Sound r.0) r.1).held a

lost_stays :
    (s : System) (m : Move) (a : ℕ)
    → Sound s.heap s.owner
    → Enabled m s
    → s.owner a ≡ lost
    → owners m s.owner a ≡ lost
lost_stays s (obtain b) a v e f = ground (arith, v.held a)
lost_stays s (release b) a v e f = ground arith
lost_stays s (send mem stream d size w status) a v (e, g) f = ground (arith, v.held a)
lost_stays s (written mem w d) a v e f = ground (arith, v.carries w d e)

From-lost :
    {s t : System} (a : ℕ) → Sound s.heap s.owner → s.owner a ≡ lost → From s t → t.owner a ≡ lost
From-lost a v e here = e
From-lost a v e (then_to {t} f (turn m g run)) =
    lost_stays t m a (From-Sound v f) g (From-lost a v e f)

send_result :
    (h : Heap) (stream d size w status : ℕ)
    → (status == 0) ≡ false
    → Returns
        (uvx_send_to_stream h (some stream) (some d) size (some w) status)
        λ r. (r.0 ≡ 0) × (handle (send false stream d size w status) h ≡ ok r.1)
unfolding uvx_send_to_stream write_request
send_result h stream d size w status e =
    (_, refl, (rw e refl, send_run h false stream d size w status))

-- `uvx_send_to_stream` says by 0 that `uv_write` refused the data; both the data, which the caller gave away,
-- and the request then stay allocated, whatever happens later.
pub refused_leaks :
    {s : System} (stream d size w status : ℕ)
    → Reach s
    → s.owner d ≡ user
    → s.heap.live w ≡ false
    → (status == 0) ≡ false
    → Returns (uvx_send_to_stream s.heap (some stream) (some d) size (some w) status) λ r.
      (r.0 ≡ 0)
      × ((t : System)
          → From (after (send false stream d size w status) s r.1) t
          → (t.heap.live d ≡ true) × (t.heap.live w ≡ true))
refused_leaks {s} stream d size w status r e f g =
    let (res, run, (zero_result, run')) = send_result s.heap stream d size w status g in
    let m = send false stream d size w status in
    let v = From-Sound (From-Sound (started-Sound r.0) r.1) (then_to here (turn m (e, f) run')) in
    (
      res,
      run,
      (
        zero_result,
        λ t later.
            let u = From-Sound v later in
            let lost_d = From-lost d v (ground arith) later in
            let lost_w = From-lost w v (ground arith) later in
            (u.held d ∙ ap is_allocated lost_d, u.held w ∙ ap is_allocated lost_w),
      ),
    )

apart : (a b : ℕ) → (a ≡ b) ⊎ ((a == b) ≡ false)
apart a b = ground arith

sent_owner :
    (o : ℕ → Owner) (stream d size w status : ℕ)
    → (w == d) ≡ false
    → owners (send false stream d size w status) o d ≡ (if status == 0 then carried w else lost)
sent_owner o stream d size w status e = ground arith

-- What a send to a stream comes to.
pub stream_send :
    {s : System} (stream d size w status : ℕ)
    → Reach s
    → s.owner d ≡ user
    → s.heap.live w ≡ false
    → Returns (uvx_send_to_stream s.heap (some stream) (some d) size (some w) status) λ r.
      Reach (after (send false stream d size w status) s r.1)
      × (r.0 ≡ (if status == 0 then 1 else 0))
      × (owners (send false stream d size w status) s.owner d
          ≡ (if status == 0 then carried w else lost))
unfolding uvx_send_to_stream write_request
stream_send {s} stream d size w status r e f =
    let v = From-Sound (started-Sound r.0) r.1 in
    let distinct : (w == d) ≡ false = elim (apart w d) [
      | inl g ↦
          absurd (let k = sym (v.held d ∙ ap is_allocated e) ∙ ap s.heap.live (sym g) ∙ f in cc)
      | inr g ↦ g
    ] in
    (
      _,
      refl,
      (
        (
          r.0,
          then_to r.1 (
              turn (send false stream d size w status) (e, f)
                (send_run s.heap false stream d size w status)),
        ),
        refl,
        sent_owner s.owner stream d size w status distinct,
      ),
    )

-- What the release of data comes to.
pub released :
    {s : System} (d : ℕ)
    → Reach s
    → s.owner d ≡ user
    → Returns
        (free s.heap (some d))
        λ h. Reach (after (release d) s h) × (owners (release d) s.owner d ≡ free_memory)
unfolding handle
released {s} d r e = let (h, run, t) = sent_safely (release d) r e in (h, run, (t, ground arith))
