-- ===== src/Stream/Owners.antt =====
-- Who holds the memory that is sent on streams, and the moves of libuv and of the user. libuv calls the
-- callback of an accepted request once, and none of a refused one.
use uvx.Prelude.{ℕ, ◌≡◌, Bool, true, false, Option, some, [], ◌==◌, if◌then◌else◌}
use uvx.Memory.{Run, ok, ◌>>=◌}
use uvx.Stream.{
  Heap, set_at, free, uvx_send_to_stream, after_send_to_stream, uvx_send_mem, after_send_mem,
}

-- The holder of an address: none, the user, libuv as a request with its data or as the data of a request,
-- and nobody for what was allocated and can no longer be freed.
pub data Owner : Type 0 where
  free_memory user lost : Owner
  request carried : ℕ → Owner

abbrev pub is_allocated : Owner → Bool
is_allocated free_memory = false
is_allocated _ = true

pub record System : Type 0 where
  pub heap : Heap
  pub owner : ℕ → Owner

-- The user allocates and frees; data are sent, by `uvx_send_mem` if the first argument says so; a
-- callback runs for a request and its data.
pub data Move : Type 0 where
  obtain release : ℕ → Move
  send : Bool → ℕ → ℕ → ℕ → ℕ → ℕ → Move
  written : Bool → ℕ → ℕ → Move

abbrev pub Enabled : Move → System → Type 0
Enabled (obtain a) s = s.heap.live a ≡ false
Enabled (release a) s = s.owner a ≡ user
Enabled (send mem stream d size w status) s = (s.owner d ≡ user) × (s.heap.live w ≡ false)
Enabled (written mem w d) s = s.owner w ≡ request d

abbrev pub allocate : Heap → ℕ → Heap
allocate h a = record h { live = set_at h.live a true }

unfoldable pub handle : Move → Heap → Run Heap
unfolding free uvx_send_to_stream after_send_to_stream uvx_send_mem after_send_mem
handle (obtain a) h = ok (allocate h a)
handle (release a) h = free h (some a)
handle (send true stream d size w status) h =
    uvx_send_mem h (some d) size (some stream) (some w) status >>= λ r. ok r.1
handle (send false stream d size w status) h =
    uvx_send_to_stream h (some stream) (some d) size (some w) status >>= λ r. ok r.1
handle (written true w d) h = after_send_mem h w
handle (written false w d) h = after_send_to_stream h w

abbrev pub owners : Move → (ℕ → Owner) → ℕ → Owner
owners (obtain a) o = set_at o a user
owners (release a) o = set_at o a free_memory
owners (send mem stream d size w status) o =
    if status == 0
    then set_at (set_at o d (carried w)) w (request d)
    else set_at (set_at o d lost) w lost
owners (written mem w d) o = set_at (set_at o d free_memory) w free_memory

abbrev pub after : Move → System → Heap → System
after m s h = record { heap = h; owner = owners m s.owner }

pub data Step (s : System) : System → Type 0 where
  turn : (m : Move) {h : Heap} → Enabled m s → handle m s.heap ≡ ok h → Step s (after m s h)

-- A program that has sent nothing, whatever the requests of its memory hold.
abbrev pub started : (ℕ → Option ℕ) → System
started data_of = record {
  heap = record { live = λ _. false; data_of = data_of; trace = [] };
  owner = λ _. free_memory;
}

-- The states that a state can lead to.
pub data From (s : System) : System → Type 0 where
  here : From s s
  then_to : {t u : System} → From s t → Step t u → From s u

-- The states that a program can come to.
abbrev pub Reach : System → Type 0
Reach t = (data_of : ℕ → Option ℕ) × From (started data_of) t
