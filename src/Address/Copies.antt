-- ===== src/Address/Copies.antt =====
-- What the functions on addresses copy, and the address that does not fit.
use uvx.Prelude.{
  ℕ, ◌+◌, ◌≤◌, ◌≡◌, refl, sym, ap, ◌∙◌, true, List, Option, some, arith, take, drop, length, ◌++◌,
  ◌<◌, take-take, take-drop, length-take, length-drop, leb,
}
use uvx.Memory.{Block, ok, fault, ◌>>=◌, load, store, out_of_bounds, Returns}
use uvx.Memory.Laws.{load_lem}
use uvx.Address.{
  Family, inet, inet6, other_family, Sockaddr, sockaddr_size, copy_out, put_port, ntohs, raw_at,
  uvx_get_raw_ip_port, Ntop, text_of_address, uvx_get_ip_port, uvx_get_tcp_ip_port,
}

-- Where an address is, and its size.
abbrev pub place_of : Family → ℕ
place_of inet = 4
place_of inet6 = 8
place_of other_family = 0

abbrev pub size_of : Family → ℕ
size_of inet = 4
size_of inet6 = 16
size_of other_family = 0

abbrev pub port_of : Family → Block → ℕ
port_of other_family b = 0
port_of _ b = ntohs (take 2 (drop 2 b))

-- What a caller finds after a call with `ipbuf` and `port`: the size of the address, the address in front
-- of the buffer, whose other bytes stay, and the port.
pub record Copied (addr : Sockaddr) (ipbuf : Block) (port : Option ℕ)
    (r : ℕ × Option Block × Option ℕ) : Type 0 where
  pub counted : r.0 ≡ size_of addr.family
  pub buffer : r.1 ≡ some (take r.0 (drop (place_of addr.family) addr.bytes) ++ drop r.0 ipbuf)
  pub port_put : r.2 ≡ put_port port (port_of addr.family addr.bytes)

store_whole :
    (b p : List ℕ) (n : ℕ) → length p ≡ n → n ≤ length b → store b 0 p ≡ ok (p ++ drop n b)
unfolding store
store_whole b p n e h =
    let fits : leb (0 + length p) (length b) ≡ true = ground arith in
    let end : 0 + length p ≡ n = omega (arith, e) in rw fits (ap (λ k. ok (p ++ drop k b)) end)

raw_at_lem :
    (b ipbuf : Block) (at size : ℕ) (port : Option ℕ)
    → 4 ≤ length b
    → at + size ≤ length b
    → size ≤ length ipbuf
    → raw_at b at size (some ipbuf) port
      ≡ ok (
        size,
        some (take size (drop at b) ++ drop size ipbuf),
        put_port port (ntohs (take 2 (drop 2 b))),
      )
unfolding raw_at copy_out
raw_at_lem b ipbuf at size port h h' room =
    let wide : length (take size (drop at b)) ≡ size =
      omega (arith, length-take size (drop at b), length-drop at b) in
    rw
      (
        load_lem b at size h',
        ◌>>=◌,
        store_whole ipbuf (take size (drop at b)) size wide room,
        ◌>>=◌,
        load_lem b 2 2 h,
      )
      refl

-- `uvx_get_raw_ip_port` of an address with all its bytes and a buffer with room ends normally: 4 bytes of an
-- IPv4 address or 16 of an IPv6 address, or none of another, come to the front of the buffer, whose other
-- bytes stay; their number is returned, and the port is set to that of the address, or to 0.
pub get_raw_ip_port-Copied :
    (addr : Sockaddr) (ipbuf : Block) (port : Option ℕ)
    → 4 ≤ length addr.bytes
    → place_of addr.family + size_of addr.family ≤ length addr.bytes
    → size_of addr.family ≤ length ipbuf
    → Returns (uvx_get_raw_ip_port addr (some ipbuf) port) (Copied addr ipbuf port)
unfolding uvx_get_raw_ip_port
get_raw_ip_port-Copied addr ipbuf port h h' room = by_family addr.family addr.bytes h h' room
  where
    by_family :
        (f : Family) (b : Block)
        → 4 ≤ length b
        → place_of f + size_of f ≤ length b
        → size_of f ≤ length ipbuf
        → Returns
            (uvx_get_raw_ip_port (record { family = f; bytes = b }) (some ipbuf) port)
            (Copied (record { family = f; bytes = b }) ipbuf port)
    by_family inet b h h' room = (
      _,
      raw_at_lem b ipbuf 4 4 port h h' room,
      record { counted = refl; buffer = refl; port_put = refl },
    )
    by_family inet6 b h h' room = (
      _,
      raw_at_lem b ipbuf 8 16 port h h' room,
      record { counted = refl; buffer = refl; port_put = refl },
    )
    by_family other_family b h h' room =
        (_, refl, record { counted = refl; buffer = refl; port_put = refl })

load-fault :
    (b : Block) (offset n : ℕ) → length b < offset + n → load b offset n ≡ fault out_of_bounds
unfolding load
load-fault b offset n h = ground arith

-- `uvx_get_tcp_ip_port` has room for an IPv4 peer only: it reads an IPv6 address beyond its structure of 16
-- bytes whenever the caller asks for the text.
pub tcp_ip6_overrun :
    (ntop : Ntop) (bytes ipbuf : Block) (buflen : ℕ) (port : Option ℕ)
    → uvx_get_tcp_ip_port ntop
        (some (record { family = inet6; bytes = bytes }))
        (some ipbuf)
        buflen
        port
      ≡ fault out_of_bounds
unfolding uvx_get_tcp_ip_port uvx_get_ip_port text_of_address
tcp_ip6_overrun ntop bytes ipbuf buflen port =
    rw (load-fault (take sockaddr_size bytes) 8 16 (omega (arith, length-take sockaddr_size bytes)))
      refl

-- For an IPv4 peer `uvx_get_tcp_ip_port` gives the text of the 4 bytes of the peer's address, the port, and
-- a result that is not null.
pub tcp_ip4_text :
    (ntop : Ntop) (bytes ipbuf : Block) (buflen : ℕ) (port : Option ℕ)
    → sockaddr_size ≤ length bytes
    → uvx_get_tcp_ip_port ntop
        (some (record { family = inet; bytes = bytes }))
        (some ipbuf)
        buflen
        port
      ≡ ok (
        true,
        some (ntop (take 4 (drop 4 bytes)) buflen ipbuf),
        put_port port (ntohs (take 2 (drop 2 bytes))),
      )
unfolding uvx_get_tcp_ip_port uvx_get_ip_port text_of_address
tcp_ip4_text ntop bytes ipbuf buflen port h =
    let wide : length (take sockaddr_size bytes) ≡ 16 =
      omega (arith, length-take sockaddr_size bytes) in
    rw
      (
        load_lem (take sockaddr_size bytes) 4 4 (omega (arith, wide)),
        ◌>>=◌,
        load_lem (take sockaddr_size bytes) 2 2 (omega (arith, wide)),
        ◌>>=◌,
        part 4 4 (omega arith),
        part 2 2 (omega arith),
      )
      refl
  where
    part :
        (n at : ℕ)
        → at + n ≤ 16
        → take n (drop at (take sockaddr_size bytes)) ≡ take n (drop at bytes)
    part n at h =
        take-drop n at (take sockaddr_size bytes)
        ∙ ap (drop at) (take-take (at + n) sockaddr_size bytes h)
        ∙ sym (take-drop n at bytes)
