-- ===== src/Log/Sends.antt =====
-- The datagrams of a log.
use uvx.Prelude.{
  ◌∷◌, [], ◌++◌, ℕ, ◌+◌, ◌≤◌, ◌≡◌, ◌≢◌, refl, List, [], Option, some, length, take, arith, ◌==◌,
  if◌then◌else◌, length-append, length-take,
}
use uvx.Memory.{Block, ok, ◌>>=◌, Returns}
use uvx.Loge.{LogeItem, Buffer, item_size, maxbuf, loge_item}
use uvx.Loge.Path.{shorten_path}
use uvx.Loge.Write.{text_of}
use uvx.Loge.Piece.{IsText}
use uvx.Loge.Laid.{Laid}
use uvx.Loge.Naming.{Named}
use uvx.Loge.Layout.{item-Laid, item_disabled}
use uvx.Address.{Sockaddr}
use uvx.Udp.{Heap, udp_send}
use uvx.Udp.Sends.{send_run, handed}
use uvx.Log.{Log, bytes_of, uvx_log_send}

-- What was handed over: the result, the one call of `uv_udp_send` with its request, address and size, and the
-- datagram behind the request.
pub record Sent (image : LogeItem → List ℕ) (h : Heap) (addr : Sockaddr) (req status size : ℕ)
    (out : Buffer) (r : ℕ × Heap) : Type 0 where
  pub asked : r.1.trace ≡ h.trace ++ udp_send req addr size ∷ []
  pub result : r.0 ≡ (if status == 0 then 1 else 0)
  pub datagram : r.1.behind req ≡ some (take size (bytes_of image out))
  pub whole : length (take size (bytes_of image out)) ≡ size

module _ (image : LogeItem → List ℕ) (fresh : ℕ → Block) where
  send_via :
      (x : Log) (h : Heap) (buf out : Buffer) (level line now tid req status size : ℕ)
      (tags msg file : Option (List ℕ))
      → ((n : ℕ) → length (fresh n) ≡ n)
      → loge_item x.loge buf maxbuf level tags msg file line now tid ≡ ok (size, out)
      → size ≤ length (bytes_of image out)
      → Returns
          (uvx_log_send image fresh x h buf level tags msg file line now tid (some req) status)
          (Sent image h x.target_addr req status size out)
  unfolding uvx_log_send
  send_via x h buf out level line now tid req status size tags msg file f run room = (
    ((if status == 0 then 1 else 0), handed h x.target_addr (bytes_of image out) size req),
    rw (run, ◌>>=◌)
        (send_run h x.target_addr (bytes_of image out) size req (fresh size) status (f size) room),
    record {
      asked = refl;
      result = refl;
      datagram = ground arith;
      whole = omega (arith, length-take size (bytes_of image out));
    },
  )

-- `uvx_log_send` of an enabled log ends normally. It calls `uv_udp_send` once, with the target's address and
-- with the size of the datagram; the datagram is an item of at most 1024 bytes, in which the name of the
-- log, the tags, the end of the file's path and the message are found as they were given, whole or cut at
-- the end; the result says whether libuv accepted it.
pub log_send-Sent :
    (image : LogeItem → List ℕ) (fresh : ℕ → Block) (x : Log) (h : Heap) (buf : Buffer)
    (level line now tid req status : ℕ) (tags msg file : Option (List ℕ)) (name : List ℕ)
    → ((item : LogeItem) → length (image item) ≡ item_size)
    → ((n : ℕ) → length (fresh n) ≡ n)
    → length buf.extra + item_size ≡ maxbuf
    → Named x.loge name
    → x.loge.enabled ≢ 0
    → IsText (text_of tags)
    → IsText (text_of (shorten_path file))
    → (out : ℕ × Buffer) × Laid name
        (text_of tags)
        (text_of (shorten_path file))
        (text_of msg)
        maxbuf
        out
      × Returns
          (uvx_log_send image fresh x h buf level tags msg file line now tid (some req) status)
          (Sent image h x.target_addr req status out.0 out.1)
log_send-Sent image fresh x h buf level line now tid req status tags msg file name i f size n on tt'
      ft =
    let (out, run, laid) =
      item-Laid x.loge buf maxbuf level line now tid tags msg file name n on size (omega arith) tt'
        ft in
    (
      out,
      laid,
      send_via image fresh x h buf out.1 level line now tid req status out.0 tags msg file f run
          (omega (arith, laid.inside, i out.1.item, length-append (image out.1.item) out.1.extra)),
    )

-- `uvx_log_send` of a disabled log ends normally and still hands a datagram to libuv, one without bytes.
pub disabled_sends :
    (image : LogeItem → List ℕ) (fresh : ℕ → Block) (x : Log) (h : Heap) (buf : Buffer)
    (level line now tid req status : ℕ) (tags msg file : Option (List ℕ))
    → ((n : ℕ) → length (fresh n) ≡ n)
    → x.loge.enabled ≡ 0
    → Returns
        (uvx_log_send image fresh x h buf level tags msg file line now tid (some req) status)
        (λ r.
          (r.1.trace ≡ h.trace ++ udp_send req x.target_addr 0 ∷ []) × (r.1.behind req ≡ some []))
disabled_sends image fresh x h buf level line now tid req status tags msg file f off =
    let (r, run, s) =
      send_via image fresh x h buf buf level line now tid req status 0 tags msg file f
        (item_disabled x.loge buf maxbuf level line now tid tags msg file off (omega arith))
        (omega arith) in
    (r, run, (s.asked, s.datagram))
