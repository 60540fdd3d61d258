-- ===== src/Log.antt =====
-- uvx_log.c: log items sent as datagrams. `image` gives the bytes of a `loge_item_t`, in the order that the
-- compiler lays them out; a buffer on the stack has whatever is in its memory, and `fresh` what `malloc` leaves
-- in memory of some size.
pub mod Sends
pub mod Macros
mod Tests
use uvx.Prelude.{ℕ, List, ◌++◌, Option, none, true}
use uvx.Memory.{Block, Run, ok, ◌>>=◌}
use uvx.Address.{Sockaddr}
use uvx.Loge.{
  Loge, LogeItem, Buffer, Message, maxbuf, loge_init, loge_enable, loge_item, loge_item_bin,
}
use uvx.Udp.{
  Udp, Heap, Resolver, address_of, uvx_udp_start, uvx_udp_default_config, uvx_udp_send_to_addr,
}

-- `uvx_log_t`
pub record Log : Type 0 where
  pub loge : Loge
  pub xudp : Udp
  pub target_addr : Sockaddr

unfoldable pub uvx_log_init : Resolver → Log → List ℕ → ℕ → Option (List ℕ) → ℕ → Run (ℕ × Log)
uvx_log_init r xlog target_ip target_port name getpid = do
  l ← loge_init xlog.loge name getpid
  let (ret, u) = uvx_udp_start r xlog.xudp none 0 uvx_udp_default_config true
  ok (ret, record { loge = l; xudp = u; target_addr = address_of r target_ip target_port })

unfoldable pub uvx_log_enable : Log → ℕ → Log
uvx_log_enable xlog enabled = record xlog { loge = loge_enable xlog.loge enabled }

-- The first bytes of a buffer, handed over as a datagram.
abbrev pub bytes_of : (LogeItem → List ℕ) → Buffer → Block
bytes_of image out = image out.item ++ out.extra

module _ (image : LogeItem → List ℕ) (fresh : ℕ → Block) where
  unfoldable pub uvx_log_serialize :
      Log
      → Buffer
      → ℕ
      → ℕ
      → Option (List ℕ)
      → Option (List ℕ)
      → Option (List ℕ)
      → ℕ
      → ℕ
      → ℕ
      → Run (ℕ × Buffer)
  uvx_log_serialize xlog buf bufsize level tags msg file line now tid =
      loge_item xlog.loge buf bufsize level tags msg file line now tid

  unfoldable pub uvx_log_serialize_bin :
      Log
      → Buffer
      → ℕ
      → ℕ
      → Option (List ℕ)
      → Message
      → Option (List ℕ)
      → ℕ
      → ℕ
      → ℕ
      → Run (ℕ × Buffer)
  uvx_log_serialize_bin xlog buf bufsize level tags msg file line now tid =
      loge_item_bin xlog.loge buf bufsize level tags msg file line now tid

  unfoldable pub uvx_log_send_serialized : Log → Heap → Block → ℕ → Option ℕ → ℕ → Run (ℕ × Heap)
  uvx_log_send_serialized xlog h payload datalen req status =
      uvx_udp_send_to_addr h xlog.target_addr payload datalen req (fresh datalen) status

  unfoldable pub uvx_log_send :
      Log
      → Heap
      → Buffer
      → ℕ
      → Option (List ℕ)
      → Option (List ℕ)
      → Option (List ℕ)
      → ℕ
      → ℕ
      → ℕ
      → Option ℕ
      → ℕ
      → Run (ℕ × Heap)
  uvx_log_send xlog h buf level tags msg file line now tid req status = do
    (size, out) ← loge_item xlog.loge buf maxbuf level tags msg file line now tid
    uvx_udp_send_to_addr h xlog.target_addr (bytes_of image out) size req (fresh size) status

  unfoldable pub uvx_log_send_bin :
      Log
      → Heap
      → Buffer
      → ℕ
      → Option (List ℕ)
      → Message
      → Option (List ℕ)
      → ℕ
      → ℕ
      → ℕ
      → Option ℕ
      → ℕ
      → Run (ℕ × Heap)
  uvx_log_send_bin xlog h buf level tags msg file line now tid req status = do
    (size, out) ← loge_item_bin xlog.loge buf maxbuf level tags msg file line now tid
    uvx_udp_send_to_addr h xlog.target_addr (bytes_of image out) size req (fresh size) status
