-- ===== src/Stream/Sound.antt =====
-- What holds between the memory and its holders, and that every move keeps it.
use uvx.Prelude.{
  ℕ, [], ◌∷◌, ◌++◌, ◌≡◌, ◌≢◌, refl, ◌⊎◌, sym, ap, ◌∙◌, subst, Bool, true, false, some, inl, inr,
  arith, ◌==◌, if◌then◌else◌,
}
use uvx.Memory.{ok, ◌>>=◌, Returns}
use uvx.Stream.{
  Heap, set_at, free, write_request, uvx_send_to_stream, after_send_to_stream, uvx_send_mem,
  after_send_mem, uv_write,
}
use uvx.Stream.Owners.{
  Owner, free_memory, user, lost, request, carried, is_allocated, System, Move, obtain, release,
  send, written, Enabled, allocate, handle, owners,
}

pub record Sound (h : Heap) (o : ℕ → Owner) : Type 0 where
  pub held : (a : ℕ) → h.live a ≡ is_allocated (o a)
  pub filled : (w d : ℕ) → o w ≡ request d → h.data_of w ≡ some d
  pub carries : (w d : ℕ) → o w ≡ request d → o d ≡ carried w
  pub asked : (w d : ℕ) → o d ≡ carried w → o w ≡ request d

-- Neither side of a request.
abbrev pub Idle : Owner → Type 0
Idle x = (d : ℕ) → (x ≢ request d) × (x ≢ carried d)

same_or : (a b : ℕ) → (a ≡ b) ⊎ ((a == b) ≡ false)
same_or a b = ground arith

-- One address changes hands.
one-Sound :
    (h h' : Heap) (o : ℕ → Owner) (a : ℕ) (x : Owner)
    → Sound h o
    → Idle (o a)
    → Idle x
    → ((b : ℕ) → h'.live b ≡ set_at h.live a (is_allocated x) b)
    → ((b : ℕ) → (a == b) ≡ false → h'.data_of b ≡ h.data_of b)
    → Sound h' (set_at o a x)
one-Sound h h' o a x v was now live data_same = record {
  held = λ b. ground (arith, v.held b, live b);
  filled = λ w d f. ground (arith, v.filled w d, now d, data_same w);
  carries = λ w d f. ground (arith, v.carries w d, now d, was w, was d);
  asked = λ w d f. ground (arith, v.asked w d, now w, was w, was d);
}

-- Two idle addresses become a request and its data.
link-Sound :
    (h h' : Heap) (o : ℕ → Owner) (d w : ℕ)
    → Sound h o
    → Idle (o d)
    → Idle (o w)
    → (w == d) ≡ false
    → h.live d ≡ true
    → ((b : ℕ) → h'.live b ≡ set_at h.live w true b)
    → ((b : ℕ) → h'.data_of b ≡ set_at h.data_of w (some d) b)
    → Sound h' (set_at (set_at o d (carried w)) w (request d))
link-Sound h h' o d w v was_d was_w apart alive live data_now = record {
  held = λ b. ground (arith, v.held b, live b);
  filled = λ w' d' f. ground (arith, v.filled w' d', data_now w');
  carries = λ w' d' f. ground (arith, v.carries w' d', was_w w', was_d w');
  asked = λ w' d' f. ground (arith, v.asked w' d', was_w d', was_d d');
}

-- A request and its data are given up.
unlink-Sound :
    (h h' : Heap) (o : ℕ → Owner) (d w : ℕ)
    → Sound h o
    → o w ≡ request d
    → ((b : ℕ) → h'.live b ≡ set_at (set_at h.live d false) w false b)
    → ((b : ℕ) → h'.data_of b ≡ h.data_of b)
    → Sound h' (set_at (set_at o d free_memory) w free_memory)
unlink-Sound h h' o d w v was live data_same = record {
  held = λ b. ground (arith, v.held b, live b);
  filled = λ w' d' f. ground (arith, v.filled w' d', data_same w');
  carries = λ w' d' f. ground (arith, v.carries w' d', v.carries w d was);
  asked = λ w' d' f. ground (arith, v.asked w' d', v.carries w d was);
}

set_at_same : (f : ℕ → Bool) (a : ℕ) (v : Bool) → set_at f a v a ≡ v
set_at_same f a v = ground arith

free_run :
    (h : Heap) (a : ℕ)
    → h.live a ≡ true
    → free h (some a) ≡ ok (record h { live = set_at h.live a false })
unfolding free
free_run h a e = rw e

-- The heap after a request was accepted or refused.
abbrev pub requested : Heap → ℕ → ℕ → ℕ → ℕ → Heap
requested h stream d size w = record {
  live = set_at h.live w true;
  data_of = set_at h.data_of w (some d);
  trace = h.trace ++ uv_write stream w d size ∷ [];
}

pub send_run :
    (h : Heap) (mem : Bool) (stream d size w status : ℕ)
    → handle (send mem stream d size w status) h ≡ ok (requested h stream d size w)
unfolding handle uvx_send_to_stream uvx_send_mem write_request
send_run h true stream d size w status = refl
send_run h false stream d size w status = refl

abbrev given_up : Heap → ℕ → ℕ → Heap
given_up h d w = record h { live = set_at (set_at h.live d false) w false }

written_run :
    (h : Heap) (mem : Bool) (d w : ℕ)
    → h.live w ≡ true
    → h.live d ≡ true
    → h.data_of w ≡ some d
    → (d == w) ≡ false
    → handle (written mem w d) h ≡ ok (given_up h d w)
unfolding handle after_send_to_stream after_send_mem
written_run h true d w e f g apart =
    let k : set_at h.live d false w ≡ true = ground arith in
    rw (e, g, free_run h d f, ◌>>=◌) (free_run (record h { live = set_at h.live d false }) w k)
written_run h false d w e f g apart =
    let k : set_at h.live d false w ≡ true = ground arith in
    rw (e, g, free_run h d f, ◌>>=◌) (free_run (record h { live = set_at h.live d false }) w k)

not_live : {o : ℕ → Owner} {h : Heap} {a : ℕ} → Sound h o → h.live a ≡ false → o a ≡ free_memory
not_live {o} {h} {a} v e = ground (arith, v.held a)

user-Idle : Idle user
user-Idle d = ((λ e. cc), (λ e. cc))

free-Idle : Idle free_memory
free-Idle d = ((λ e. cc), (λ e. cc))

lost-Idle : Idle lost
lost-Idle d = ((λ e. cc), (λ e. cc))

at-Idle : {x y : Owner} → x ≡ y → Idle y → Idle x
at-Idle e i = subst Idle (sym e) i

refused-Sound :
    (h : Heap) (o : ℕ → Owner) (stream d size w : ℕ)
    → Sound h o
    → o d ≡ user
    → h.live w ≡ false
    → Sound (requested h stream d size w) (set_at (set_at o d lost) w lost)
refused-Sound h o stream d size w v e f =
    let middle = record h { live = set_at h.live d true } in
    let u =
      one-Sound h middle o d lost v (at-Idle e user-Idle) lost-Idle (λ b. refl) (λ b g. refl) in
    let new : set_at o d lost w ≡ free_memory = ground (arith, v.held w) in
    one-Sound middle (requested h stream d size w) (set_at o d lost) w lost u
      (at-Idle new free-Idle) lost-Idle (λ b. ground (arith, v.held d)) (λ b g. ground (arith))

accepted-Sound :
    (h : Heap) (o : ℕ → Owner) (stream d size w : ℕ)
    → Sound h o
    → o d ≡ user
    → h.live w ≡ false
    → Sound (requested h stream d size w) (set_at (set_at o d (carried w)) w (request d))
accepted-Sound h o stream d size w v e f =
    let alive : h.live d ≡ true = v.held d ∙ ap is_allocated e in
    let apart : (w == d) ≡ false = elim (same_or w d) [
      | inl g ↦ absurd (let k = sym alive ∙ ap h.live (sym g) ∙ f in cc)
      | inr g ↦ g
    ] in
    link-Sound h (requested h stream d size w) o d w v (at-Idle e user-Idle)
      (at-Idle (not_live v f) free-Idle) apart alive (λ b. refl) (λ b. refl)

sent-Sound :
    (h : Heap) (o : ℕ → Owner) (stream d size w : ℕ) (accepted : Bool)
    → Sound h o
    → o d ≡ user
    → h.live w ≡ false
    → Sound (requested h stream d size w) (
        if accepted
        then set_at (set_at o d (carried w)) w (request d)
        else set_at (set_at o d lost) w lost)
sent-Sound h o stream d size w true v e f = accepted-Sound h o stream d size w v e f
sent-Sound h o stream d size w false v e f = refused-Sound h o stream d size w v e f

-- Every move ends normally and keeps the agreement.
pub handle-Sound :
    (s : System) (m : Move)
    → Sound s.heap s.owner
    → Enabled m s
    → Returns (handle m s.heap) λ h. Sound h (owners m s.owner)
unfolding handle
handle-Sound s (obtain a) v e = (
  allocate s.heap a,
  refl,
  one-Sound s.heap (allocate s.heap a) s.owner a user v (at-Idle (not_live v e) free-Idle) user-Idle
      (λ b. refl) (λ b f. refl),
)
handle-Sound s (release a) v e = (
  record s.heap { live = set_at s.heap.live a false },
  free_run s.heap a (v.held a ∙ ap is_allocated e),
  one-Sound s.heap (record s.heap { live = set_at s.heap.live a false }) s.owner a free_memory v
      (at-Idle e user-Idle) free-Idle (λ b. refl) (λ b f. refl),
)
handle-Sound s (send mem stream d size w status) v (e, f) = (
  requested s.heap stream d size w,
  send_run s.heap mem stream d size w status,
  sent-Sound s.heap s.owner stream d size w (status == 0) v e f,
)
handle-Sound s (written mem w d) v e =
    let other = v.carries w d e in
    let apart : (d == w) ≡ false = ground (arith, other) in
    (
      given_up s.heap d w,
      written_run s.heap mem d w (v.held w ∙ ap is_allocated e) (v.held d ∙ ap is_allocated other)
          (v.filled w d e) apart,
      unlink-Sound s.heap (given_up s.heap d w) s.owner d w v e (λ b. refl) (λ b. refl),
    )
