-- ===== src/Address.antt =====
-- uvx.c: the addresses of sockets, as text and as bytes. A socket address is its family and the bytes of
-- its structure, with the port at 2, an IPv4 address at 4 and an IPv6 address at 8. An output buffer, or
-- an output number, is an argument and a result, and `none` is a null pointer.
pub mod Copies
mod Tests
use uvx.Prelude.{ℕ, zero, ◌+◌, ◌*◌, ◌^◌, Bool, true, false, List, Option, none, some, get_or, take}
use uvx.Memory.{Block, Run, ok, ◌>>=◌, store, load}

-- `sa_family`: `AF_INET`, `AF_INET6` or another.
pub data Family : Type 0 where
  inet inet6 other_family : Family

-- `struct sockaddr_in` or `struct sockaddr_in6`
pub record Sockaddr : Type 0 where
  pub family : Family
  pub bytes : Block

-- `sizeof(struct sockaddr)`
abbrev pub sockaddr_size : ℕ
sockaddr_size = 16

-- `if(ipbuf) memcpy(ipbuf, address, size)`
pub copy_out : Option Block → List ℕ → Run (Option Block)
copy_out none address = ok none
copy_out (some b) address = do b' ← store b 0 address; ok (some b')

-- `if(port) *port = value`
abbrev pub put_port : Option ℕ → ℕ → Option ℕ
put_port none value = none
put_port (some _) value = some value

-- `ntohs`
abbrev pub ntohs : List ℕ → ℕ
ntohs p = get_or p 0 0 * 2 ^ 8 + get_or p 1 0

-- `if(ipbuf)` with the address of `size` bytes at `at`
pub raw_at : Block → ℕ → ℕ → Option Block → Option ℕ → Run (ℕ × Option Block × Option ℕ)
unfolding copy_out
raw_at b at size none port = do p ← load b 2 2; ok (size, none, put_port port (ntohs p))
raw_at b at size (some ipbuf) port = do
  address ← load b at size
  ipbuf' ← copy_out (some ipbuf) address
  p ← load b 2 2
  ok (size, ipbuf', put_port port (ntohs p))

pub uvx_get_raw_ip_port : Sockaddr → Option Block → Option ℕ → Run (ℕ × Option Block × Option ℕ)
unfolding raw_at
uvx_get_raw_ip_port addr ipbuf port = elim addr.family [
  | inet ↦ raw_at addr.bytes 4 4 ipbuf port
  | inet6 ↦ raw_at addr.bytes 8 16 ipbuf port
  | other_family ↦ ok (0, ipbuf, put_port port 0)
]

-- `uv_inet_ntop` of libuv, which writes the text of an address into a buffer of some length.
abbrev pub Ntop : Type 0
Ntop = List ℕ → ℕ → Block → Block

-- `if(ipbuf) uv_inet_ntop(...)` and `if(port) *port = ...`; a result says whether it is not null.
pub text_of_address :
    Ntop → Block → ℕ → ℕ → Option Block → ℕ → Option ℕ → Run (Bool × Option Block × Option ℕ)
text_of_address ntop b at size none buflen port = do
  p ← load b 2 2
  ok (false, none, put_port port (ntohs p))
text_of_address ntop b at size (some ipbuf) buflen port = do
  address ← load b at size
  p ← load b 2 2
  ok (true, some (ntop address buflen ipbuf), put_port port (ntohs p))

pub uvx_get_ip_port :
    Ntop → Sockaddr → Option Block → ℕ → Option ℕ → Run (Bool × Option Block × Option ℕ)
unfolding text_of_address
uvx_get_ip_port ntop addr ipbuf buflen port = elim addr.family [
  | inet ↦ text_of_address ntop addr.bytes 4 4 ipbuf buflen port
  | inet6 ↦ text_of_address ntop addr.bytes 8 16 ipbuf buflen port
  | other_family ↦ ok (false, ipbuf, put_port port 0)
]

-- `uv_tcp_getpeername` fails with `none`, or fills as much of `struct sockaddr` as fits.
pub uvx_get_tcp_ip_port :
    Ntop → Option Sockaddr → Option Block → ℕ → Option ℕ → Run (Bool × Option Block × Option ℕ)
unfolding uvx_get_ip_port
uvx_get_tcp_ip_port ntop none ipbuf buflen port = ok (false, ipbuf, port)
uvx_get_tcp_ip_port ntop (some peer) ipbuf buflen port =
    uvx_get_ip_port ntop (record peer { bytes = take sockaddr_size peer.bytes }) ipbuf buflen port
