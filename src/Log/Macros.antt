-- ===== src/Log/Macros.antt =====
-- The macros UVX_LOG and UVX_LOG_SERIALIZE of uvx.h. What the format and its values denote is `formatted`; the
-- text that `snprintf` leaves in a buffer of some size is a parameter.
use uvx.Prelude.{ℕ, ◌+◌, ◌-◌, ◌<◌, ◌≡◌, ◌≢◌, subst, List, Option, some, arith, length, take}
use uvx.Memory.{Block, Run, Returns}
use uvx.Loge.{LogeItem, Buffer, item_size, maxbuf}
use uvx.Loge.Path.{shorten_path}
use uvx.Loge.Write.{text_of}
use uvx.Loge.Piece.{IsText, IsText-take}
use uvx.Loge.Laid.{Laid}
use uvx.Loge.Naming.{Named}
use uvx.Loge.Utf8.{Utf8, cut-Utf8}
use uvx.Loge.Readable.{Readable, Laid-Readable, shorten_path-Utf8}
use uvx.Udp.{Heap}
use uvx.Log.{Log, uvx_log_send, uvx_log_serialize}
use uvx.Log.Sends.{Sent, log_send-Sent}

module _ (snprintf : ℕ → List ℕ → List ℕ) (image : LogeItem → List ℕ) (fresh : ℕ → Block) where
  unfoldable pub uvx_log_macro :
      Log
      → Heap
      → Buffer
      → ℕ
      → Option (List ℕ)
      → List ℕ
      → List ℕ
      → ℕ
      → ℕ
      → ℕ
      → Option ℕ
      → ℕ
      → Run (ℕ × Heap)
  uvx_log_macro xlog h buf level tags formatted file line now tid req status =
      uvx_log_send image fresh xlog h buf level tags (some (snprintf maxbuf formatted)) (some file)
        line now tid req status

  -- The new value of `bufsize`, with the buffer.
  unfoldable pub uvx_log_serialize_macro :
      Log → Buffer → ℕ → ℕ → Option (List ℕ) → List ℕ → List ℕ → ℕ → ℕ → ℕ → Run (ℕ × Buffer)
  uvx_log_serialize_macro xlog buf bufsize level tags formatted file line now tid =
      uvx_log_serialize image fresh xlog buf bufsize level tags (some (snprintf maxbuf formatted))
        (some file) line now tid

-- What is left of a text that `snprintf` cut and that a log item cut again is in UTF-8.
formatted-Readable :
    {name tags file : List ℕ} {r : ℕ × Buffer} (formatted : List ℕ)
    → Laid name tags file (take 1023 formatted) maxbuf r
    → Utf8 tags
    → Utf8 file
    → IsText formatted
    → Utf8 formatted
    → Readable r
formatted-Readable formatted l t f ft m = Laid-Readable l t f (IsText-take 1023 formatted ft) (
    cut-Utf8 formatted 1023 l.msg_kept (omega (arith, l.within, l.end, l.counted, l.header)) m
      l.msg_boundary)

-- UVX_LOG on an enabled log ends normally. It calls `uv_udp_send` once, with the address of the target and the
-- size of the datagram; the datagram is an item of at most 1024
-- bytes with the name of the log, the tags, the end of the path of the file and the first 1023 bytes of the
-- formatted text, whole or cut at the end. They are in UTF-8 when the arguments and the formatted text
-- were, although `snprintf` can cut inside a character.
pub log_macro-Sent :
    (snprintf : ℕ → List ℕ → List ℕ) (image : LogeItem → List ℕ) (fresh : ℕ → Block) (x : Log)
    (h : Heap) (buf : Buffer) (level line now tid req status : ℕ) (tags : Option (List ℕ))
    (formatted file name : List ℕ)
    → ((n : ℕ) (s : List ℕ) → 0 < n → IsText s → snprintf n s ≡ take (n - 1) s)
    → ((item : LogeItem) → length (image item) ≡ item_size)
    → ((n : ℕ) → length (fresh n) ≡ n)
    → length buf.extra + item_size ≡ maxbuf
    → Named x.loge name
    → x.loge.enabled ≢ 0
    → IsText (text_of tags) × Utf8 (text_of tags)
    → IsText (text_of (shorten_path (some file))) × Utf8 file
    → IsText formatted × Utf8 formatted
    → (out : ℕ × Buffer) × Laid name
        (text_of tags)
        (text_of (shorten_path (some file)))
        (take 1023 formatted)
        maxbuf
        out
      × Readable out
      × Returns
          (uvx_log_macro snprintf image fresh x h buf level tags formatted file line now tid
            (some req)
            status)
          (Sent image h x.target_addr req status out.0 out.1)
unfolding uvx_log_macro text_of
log_macro-Sent snprintf image fresh x h buf level line now tid req status tags formatted file name
      print i f size n on (tt', tu) (ft, fu) (mt, mu) =
    let printed = print maxbuf formatted (omega arith) mt in
    let (out, laid, sent) =
      log_send-Sent image fresh x h buf level line now tid req status tags
        (some (snprintf maxbuf formatted)) (some file) name i f size n on tt' ft in
    let laid' : Laid name (text_of tags) (text_of (shorten_path (some file))) (take 1023 formatted)
        maxbuf out =
      subst (λ m. Laid name (text_of tags) (text_of (shorten_path (some file))) m maxbuf out)
        printed laid in
    (
      out,
      laid',
      formatted-Readable formatted laid' tu (shorten_path-Utf8 (some file) fu) mt mu,
      sent,
    )
