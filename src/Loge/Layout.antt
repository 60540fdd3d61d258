-- ===== src/Loge/Layout.antt =====
-- What `loge_item` leaves in the buffer, as a reader of the item finds it.
use uvx.Prelude.{
  ℕ, ◌+◌, ◌-◌, ◌≤◌, ◌<◌, ◌≡◌, ◌≢◌, refl, sym, ap, ◌∙◌, min, take-length, true, List, Option, some,
  arith, length, take, ltb, ◌==◌, drop, ◌⊎◌, inl, inr,
}
use uvx.Memory.{ok, Returns}
use uvx.Loge.{Loge, Buffer, item_size, maxbuf, loge_item_bin, loge_item, text, bin}
use uvx.Loge.Laid.{Laid}
use uvx.Loge.Binary.{write_bin-Piece}
use uvx.Loge.Path.{shorten_path}
use uvx.Loge.Write.{text_of}
use uvx.Loge.Piece.{IsText, write_str-Piece}
use uvx.Loge.Naming.{Named}
use uvx.Loge.Items.{texts, room_left, message-Laid, message_cut, text_run, data_run}

-- `loge_item` of an enabled log into a buffer with room for 256 bytes of texts ends normally, and its
-- item is within the buffer and within 1024 bytes. A reader of the item finds the name of the log, the
-- tags, the end of the file's path and the message at the offsets that the item holds, each whole or cut
-- at its end; the file is an exception where the tags leave it no byte, its offset 255. Tags, file
-- and message that fit are whole. `msg_len` is the length of the message, and the item ends behind it.
pub item-Laid :
    (l : Loge) (buf : Buffer) (bufsize level line now tid : ℕ) (tags msg file : Option (List ℕ))
    (name : List ℕ)
    → Named l name
    → l.enabled ≢ 0
    → length buf.extra + item_size ≡ bufsize
    → item_size + 256 ≤ bufsize
    → IsText (text_of tags)
    → IsText (text_of (shorten_path file))
    → Returns
        (loge_item l buf bufsize level tags msg file line now tid)
        (Laid name (text_of tags) (text_of (shorten_path file)) (text_of msg) (min bufsize maxbuf))
item-Laid l buf bufsize level line now tid tags msg file name n on size room tt' ft =
    let t = texts l buf bufsize level line now tid tags file name n on size room in
    let (few, left) = room_left l buf bufsize level line now tid tags file name n on size room in
    let ((e4, p4), r4, w4) =
      write_str-Piece t.e3 t.p3 (min bufsize maxbuf - item_size) msg (omega arith) left in
    let (r, run, (laid, _)) =
      message-Laid l buf bufsize level line now tid tags file name n on size room (text msg)
        (text_of msg) e4 p4 tt' ft
        (text_run msg t.e3 e4 t.p3 (min bufsize maxbuf - item_size) p4 r4) w4 in
    (r, unfold loge_item in run, laid)

-- `loge_item_bin` with a binary message, of an enabled log and into a buffer with room for 256 bytes of texts,
-- ends normally. It returns 0 where the message does not fit; else the whole message stands, with its
-- length, at the offset that the item holds, and the texts are laid out as by `loge_item`.
pub item_bin-Laid :
    (l : Loge) (buf : Buffer) (bufsize level line now tid beyond : ℕ) (tags file : Option (List ℕ))
    (msg name : List ℕ)
    → Named l name
    → l.enabled ≢ 0
    → length buf.extra + item_size ≡ bufsize
    → item_size + 256 ≤ bufsize
    → IsText (text_of tags)
    → IsText (text_of (shorten_path file))
    → Returns
        (loge_item_bin l buf bufsize level tags (bin (some msg) beyond) file line now tid)
        λ r.
          ((r.0 ≡ 0) × (min bufsize maxbuf < r.1.item.msg_offset + length msg + 29))
          ⊎ ((r.1.item.msg_len ≡ length msg)
              × (take (length msg) (drop r.1.item.msg_offset r.1.extra) ≡ msg)
              × Laid name (text_of tags) (text_of (shorten_path file)) msg (min bufsize maxbuf) r)
item_bin-Laid l buf bufsize level line now tid beyond tags file msg name n on size room tt' ft =
    let t = texts l buf bufsize level line now tid tags file name n on size room in
    let (few, left) = room_left l buf bufsize level line now tid tags file name n on size room in
    let (w, r4, piece) =
      write_bin-Piece t.e3 t.p3 (min bufsize maxbuf - item_size) beyond msg (omega arith) left in
    let run4 = data_run msg beyond t.e3 t.p3 (min bufsize maxbuf - item_size) w r4 in
    elim piece [
      | inl (nothing, long) ↦
          let (r, run, (zero, at)) =
            message_cut l buf bufsize level line now tid tags file name n on size room
              (bin (some msg) beyond) w.0 (run4 ∙ ap (λ o. ok (w.0, o)) nothing) in
          (r, run, inl (zero, omega (arith, at)))
      | inr (end, whole) ↦
          let (r, run, (laid, at)) =
            message-Laid l buf bufsize level line now tid tags file name n on size room
              (bin (some msg) beyond) msg w.0 (t.p3 + length msg + 1) tt' ft
              (run4 ∙ ap (λ o. ok (w.0, o)) end) whole in
          let kept : laid.msg_kept ≡ length msg = laid.msg_whole (omega (arith, at, whole.bound)) in
          (
            r,
            run,
            inr (
              laid.counted ∙ kept,
              ap (λ k. take k (drop r.1.item.msg_offset r.1.extra)) (sym (laid.counted ∙ kept))
                  ∙ laid.msg_data
                  ∙ ap (λ k. take k msg) kept
                  ∙ take-length msg,
              laid,
            ),
          )
    ]

-- A disabled log writes nothing and reports the size 0.
pub item_disabled :
    (l : Loge) (buf : Buffer) (bufsize level line now tid : ℕ) (tags msg file : Option (List ℕ))
    → l.enabled ≡ 0
    → item_size < bufsize
    → loge_item l buf bufsize level tags msg file line now tid ≡ ok (0, buf)
unfolding loge_item loge_item_bin
item_disabled l buf bufsize level line now tid tags msg file off room =
    let wide : ltb item_size bufsize ≡ true = ground arith in
    let disabled : (l.enabled == 0) ≡ true = ground arith in rw (wide, disabled) refl
