-- ===== src/Udp.antt =====
-- uvx_udp.c: sending and receiving datagrams. What the code asks of libuv and which callbacks of the
-- configuration it calls is recorded in `trace`, in order; what libuv answers is an argument. Diagnostics are
-- left out.
pub mod Requests
pub mod Sends
mod Tests
use uvx.Prelude.{
  ℕ, zero, suc, ◌+◌, Bool, true, false, List, [], ◌∷◌, ◌++◌, Option, none, some, ◌==◌,
  if◌then◌else◌,
}
use uvx.Memory.{Block, Run, ok, fault, ◌>>=◌, store, load, null_pointer, freed_pointer}
use uvx.Address.{Sockaddr}
use uvx.Stream.{set_at}

-- `uvx_udp_config_t`: whether `on_recv` is set.
pub record Config : Type 0 where
  pub on_recv : Bool

-- Calls of libuv and of the configuration's callback.
pub data Event : Type 0 where
  udp_init recv_start recv_stop uv_close free_base : Event
  bind : Sockaddr → Event
  recv : ℕ → Sockaddr → ℕ → Event
  udp_send : ℕ → Sockaddr → ℕ → Event
  set_broadcast : ℕ → Event

-- `uvx_udp_t`
pub record Udp : Type 0 where
  pub config : Config
  pub trace : List Event

-- The requests that were allocated and not freed, with the bytes behind each, and what is asked.
pub record Heap : Type 0 where
  pub behind : ℕ → Option Block
  pub trace : List Event

-- `nread`: a number of bytes or an error.
pub data Nread : Type 0 where
  bytes : ℕ → Nread
  read_error : Nread

-- `uvx__on_udp_recv`; `free_base` is `free(buf->base)`.
unfoldable pub on_udp_recv : Udp → Nread → Sockaddr → ℕ → Udp
on_udp_recv u (bytes (suc n)) addr flags = record u {
  trace =
      u.trace
      ++ ((if u.config.on_recv then recv (suc n) addr flags ∷ [] else []) ++ free_base ∷ []);
}
on_udp_recv u (bytes zero) addr flags = record u { trace = u.trace ++ free_base ∷ [] }
on_udp_recv u read_error addr flags = record u { trace = u.trace ++ free_base ∷ [] }

abbrev pub uvx_udp_default_config : Config
uvx_udp_default_config = record { on_recv = false }

-- `strchr(ip, ':')`
unfoldable pub has_colon : List ℕ → Bool
has_colon [] = false
has_colon (c ∷ ip) = let rest = has_colon ip in if c == b':' then true else rest

-- `uv_ip4_addr` and `uv_ip6_addr`.
pub record Resolver : Type 0 where
  pub ip4_addr : List ℕ → ℕ → Sockaddr
  pub ip6_addr : List ℕ → ℕ → Sockaddr

unfoldable pub address_of : Resolver → List ℕ → ℕ → Sockaddr
unfolding has_colon
address_of r ip port = if has_colon ip then r.ip6_addr ip port else r.ip4_addr ip port

-- `bound` says that `uv_udp_bind` returns no error.
unfoldable pub uvx_udp_start : Resolver → Udp → Option (List ℕ) → ℕ → Config → Bool → ℕ × Udp
unfolding address_of
uvx_udp_start r u none port config bound =
    (1, record { config = config; trace = u.trace ++ udp_init ∷ recv_start ∷ [] })
uvx_udp_start r u (some ip) port config true = (
  1,
  record {
    config = config;
    trace = u.trace ++ udp_init ∷ bind (address_of r ip port) ∷ recv_start ∷ [];
  },
)
uvx_udp_start r u (some ip) port config false = (
  0,
  record {
    config = config;
    trace = u.trace ++ udp_init ∷ bind (address_of r ip port) ∷ uv_close ∷ [];
  },
)

-- `uv_after_udp_send`
unfoldable pub after_udp_send : Heap → ℕ → Run Heap
after_udp_send h req = elim (h.behind req) [
  | none ↦ fault freed_pointer
  | some _ ↦ ok (record h { behind = set_at h.behind req none })
]

-- `malloc` returned `req` with `fresh` behind the request; `status` is the result of `uv_udp_send`.
unfoldable pub uvx_udp_send_to_addr :
    Heap → Sockaddr → Block → ℕ → Option ℕ → Block → ℕ → Run (ℕ × Heap)
uvx_udp_send_to_addr h addr payload datalen none fresh status = fault null_pointer
uvx_udp_send_to_addr h addr payload datalen (some req) fresh status = do
  copy ← load payload 0 datalen
  base ← store fresh 0 copy
  ok (
    (if status == 0 then 1 else 0),
    record {
      behind = set_at h.behind req (some base);
      trace = h.trace ++ udp_send req addr datalen ∷ [];
    },
  )

unfoldable pub uvx_udp_send_to_ip :
    Resolver → Heap → List ℕ → ℕ → Block → ℕ → Option ℕ → Block → ℕ → Run (ℕ × Heap)
unfolding address_of uvx_udp_send_to_addr
uvx_udp_send_to_ip r h ip port payload datalen req fresh status =
    uvx_udp_send_to_addr h (address_of r ip port) payload datalen req fresh status

unfoldable pub uvx_udp_set_broadcast : Udp → ℕ → ℕ → ℕ × Udp
uvx_udp_set_broadcast u on status =
    ((if status == 0 then 1 else 0), record u { trace = u.trace ++ set_broadcast on ∷ [] })

unfoldable pub uvx_udp_shutdown : Udp → ℕ × Udp
uvx_udp_shutdown u = (1, record u { trace = u.trace ++ recv_stop ∷ uv_close ∷ [] })
