-- ===== src/Address/Tests.antt =====
-- The addresses 127.0.0.1:80 and [::1]:80.
use uvx.Prelude.{◌∷◌, ◌++◌, ◌≡◌, none, some, arith, take, drop, replicate}
use uvx.Memory.{fault, out_of_bounds, Returns, Block}
use uvx.Address.{inet6, Ntop, uvx_get_raw_ip_port, uvx_get_tcp_ip_port}
use uvx.Address.Copies.{Copied, get_raw_ip_port-Copied, tcp_ip6_overrun}

abbrev loopback : Block
loopback = 2 ∷ 0 ∷ 0 ∷ 80 ∷ 127 ∷ 0 ∷ 0 ∷ 1 ∷ replicate 8 0

abbrev loopback6 : Block
loopback6 = 10 ∷ 0 ∷ 0 ∷ 80 ∷ replicate 19 0 ++ 1 ∷ replicate 4 0

-- A stand-in for the text of an address: its first bytes.
abbrev first_bytes : Ntop
first_bytes address buflen ipbuf = take buflen (address ++ drop 4 ipbuf)

get_raw_ip_port-Copied_example :
    Returns
      (uvx_get_raw_ip_port
        (record { family = inet6; bytes = loopback6 })
        (some (replicate 20 9))
        (some 0))
      (Copied (record { family = inet6; bytes = loopback6 }) (replicate 20 9) (some 0))
get_raw_ip_port-Copied_example =
    get_raw_ip_port-Copied (record { family = inet6; bytes = loopback6 }) (replicate 20 9) (some 0)
      (omega arith) (omega arith) (omega arith)

tcp_ip6_overrun_example :
    uvx_get_tcp_ip_port first_bytes
      (some (record { family = inet6; bytes = loopback6 }))
      (some (replicate 40 0))
      40
      none
    ≡ fault out_of_bounds
tcp_ip6_overrun_example = tcp_ip6_overrun first_bytes loopback6 (replicate 40 0) 40 none
