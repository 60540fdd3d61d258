-- ===== src/Udp/Tests.antt =====
-- Three of four bytes are sent, by the request at 9.
use uvx.Prelude.{ℕ, ◌≡◌, refl, [], ◌∷◌, some, arith, replicate, false}
use uvx.Memory.{Returns, Block}
use uvx.Address.{Sockaddr, inet}
use uvx.Udp.{
  Resolver, uvx_udp_start, uvx_udp_default_config, udp_init, uv_close, bind, address_of, has_colon,
}
use uvx.Udp.Requests.{Move, send, handle, after, uses_after, started, Reach, start}
use uvx.Udp.Sends.{held, datagrams_kept}

abbrev target : Sockaddr
target = record { family = inet; bytes = replicate 16 0 }

abbrev four_bytes : Block
four_bytes = 1 ∷ 2 ∷ 3 ∷ 4 ∷ []

abbrev three_bytes : Move
three_bytes = send target four_bytes 3 9 (7 ∷ 7 ∷ 7 ∷ []) 0

datagrams_kept_example : Returns (handle three_bytes started.heap) λ h.
    Reach (after three_bytes started h)
    × ((a : ℕ) → h.behind a ≡ held (uses_after three_bytes started.uses a))
datagrams_kept_example = datagrams_kept three_bytes start (refl, refl, omega arith)

abbrev resolver : Resolver
resolver = record { ip4_addr = λ ip port. target; ip6_addr = λ ip port. target }

start_test :
    uvx_udp_start resolver
      (record { config = uvx_udp_default_config; trace = [] })
      (some (49 ∷ []))
      80
      uvx_udp_default_config
      false
    ≡ (
      0,
      record { config = uvx_udp_default_config; trace = udp_init ∷ bind target ∷ uv_close ∷ [] },
    )
unfolding uvx_udp_start address_of has_colon
start_test = refl
