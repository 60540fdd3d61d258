-- ===== src/Udp/Requests.antt =====
-- The send requests of datagrams: libuv reads the bytes of an accepted request until it calls its callback,
-- once, and none of a refused one. Meanwhile the caller may do with its own data what it likes.
use uvx.Prelude.{ℕ, ◌≡◌, ◌≤◌, List, [], none, some, ◌==◌, if◌then◌else◌, length, take}
use uvx.Memory.{Block, Run, ok, ◌>>=◌}
use uvx.Address.{Sockaddr}
use uvx.Stream.{set_at}
use uvx.Udp.{Heap, uvx_udp_send_to_addr, after_udp_send}

-- What an address is for: a request that libuv sends, or one that it refused, with the datagram.
pub data Use : Type 0 where
  unused : Use
  sending lost : List ℕ → Use

pub record System : Type 0 where
  pub heap : Heap
  pub uses : ℕ → Use

pub data Move : Type 0 where
  send : Sockaddr → Block → ℕ → ℕ → Block → ℕ → Move
  sent : ℕ → Move

-- The data have the bytes that are sent, and `malloc` returns memory that is free and wide enough.
abbrev pub Enabled : Move → System → Type 0
Enabled (send addr payload datalen req fresh status) s =
    (s.heap.behind req ≡ none) × (length fresh ≡ datalen) × (datalen ≤ length payload)
Enabled (sent req) s = (datagram : List ℕ) × (s.uses req ≡ sending datagram)

unfoldable pub handle : Move → Heap → Run Heap
unfolding uvx_udp_send_to_addr after_udp_send
handle (send addr payload datalen req fresh status) h =
    uvx_udp_send_to_addr h addr payload datalen (some req) fresh status >>= λ r. ok r.1
handle (sent req) h = after_udp_send h req

abbrev pub uses_after : Move → (ℕ → Use) → ℕ → Use
uses_after (send addr payload datalen req fresh status) u =
    set_at u req
      (if status == 0 then sending (take datalen payload) else lost (take datalen payload))
uses_after (sent req) u = set_at u req unused

abbrev pub after : Move → System → Heap → System
after m s h = record { heap = h; uses = uses_after m s.uses }

pub data Step (s : System) : System → Type 0 where
  turn : (m : Move) {h : Heap} → Enabled m s → handle m s.heap ≡ ok h → Step s (after m s h)

abbrev pub started : System
started = record { heap = record { behind = λ _. none; trace = [] }; uses = λ _. unused }

-- The states that a program can come to.
pub data Reach : System → Type 0 where
  start : Reach started
  next : {s t : System} → Reach s → Step s t → Reach t
