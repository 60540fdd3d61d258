-- ===== src/Loge/Items.antt =====
-- What `loge_item_bin` writes, text by text, and what it returns.
use uvx.Prelude.{
  ℕ, ◌+◌, ◌-◌, ◌≤◌, ◌%◌, ◌^◌, ◌≡◌, ◌≢◌, refl, sym, ap, ◌∙◌, min, true, false, List, [], ◌∷◌, ◌++◌,
  Option, some, arith, length, take, ltb, ◌==◌, length-append, subst, none,
}
use uvx.Memory.{Block, ok, ◌>>=◌, store, Returns}
use uvx.Memory.Laws.{store_front}
use uvx.Loge.{
  Loge, Buffer, item_size, maxbuf, name_size, start_item, write_message, loge_item_bin, Message,
  text, bin,
}
use uvx.Loge.Laid.{Laid, result-Laid}
use uvx.Loge.Text.{write_str, write_bin}
use uvx.Loge.Path.{shorten_path}
use uvx.Loge.Write.{text_of}
use uvx.Loge.Piece.{Piece, IsText, write_str-Piece}
use uvx.Loge.Naming.{Named}

-- The result of `loge_item_bin`: 0 for a message that was cut.
abbrev written : Loge → Buffer → ℕ → ℕ → ℕ → ℕ → ℕ → ℕ → ℕ → Block → Option ℕ → ℕ × Buffer
written l buf level line now tid p1 p2 p3 e4 result =
    let item = record (start_item l buf.item level now tid line) {
      tags_offset = p1 % 2 ^ 8;
      file_offset = p2 % 2 ^ 8;
      msg_offset = p3 % 2 ^ 8;
    } in
    elim result [
      | none ↦ (0, record { item = item; extra = e4 })
      | some p ↦ (
        p + item_size,
        record {
          item = record item { msg_len = (p + 2 ^ 16 - item.msg_offset - 1) % 2 ^ 16 };
          extra = e4;
        },
      )
    ]

roomy :
    (bufsize : ℕ)
    → item_size + 256 ≤ bufsize
    → ltb name_size (min 255 (min bufsize maxbuf - item_size)) ≡ true
roomy bufsize h = ground arith

item_run :
    (l : Loge) (buf : Buffer) (bufsize level line now tid p2 p3 : ℕ) (tags : Option (List ℕ))
    (msg : Message) (file : Option (List ℕ)) (e1 e2 e3 e4 : Block) (result : Option ℕ)
    → l.enabled ≢ 0
    → item_size + 256 ≤ bufsize
    → store buf.extra 0 (take (l.name_len + 1) l.name) ≡ ok e1
    → write_str e1 (l.name_len + 1) 255 tags ≡ ok (e2, p2)
    → write_str e2 p2 255 (shorten_path file) ≡ ok (e3, p3)
    → write_message e3 p3 (min bufsize maxbuf - item_size) msg ≡ ok (e4, result)
    → loge_item_bin l buf bufsize level tags msg file line now tid
      ≡ ok (written l buf level line now tid (l.name_len + 1) p2 p3 e4 result)
unfolding loge_item_bin
item_run l buf bufsize level line now tid p2 p3 tags msg file e1 e2 e3 e4 none on room r1 r2 r3 r4 =
    let wide : ltb item_size bufsize ≡ true = ground (arith, room) in
    let enabled : (l.enabled == 0) ≡ false = ground (arith, on) in
    rw (wide, enabled, roomy bufsize room, r1, ◌>>=◌, r2, ◌>>=◌) (rw (r3, ◌>>=◌, r4))
item_run l buf bufsize level line now tid p2 p3 tags msg file e1 e2 e3 e4 (some p4) on room r1 r2 r3
      r4 =
    let wide : ltb item_size bufsize ≡ true = ground (arith, room) in
    let enabled : (l.enabled == 0) ≡ false = ground (arith, on) in
    rw (wide, enabled, roomy bufsize room, r1, ◌>>=◌, r2, ◌>>=◌) (rw (r3, ◌>>=◌, r4))

-- The texts in front of the message, and the block with them.
pub record Fronted (l : Loge) (buf : Buffer) (name tags file : List ℕ)
    (tags_arg file_arg : Option (List ℕ)) : Type 0 where
  pub e1 : Block
  pub e2 : Block
  pub e3 : Block
  pub p2 : ℕ
  pub p3 : ℕ
  pub named_run : store buf.extra 0 (take (l.name_len + 1) l.name) ≡ ok e1
  pub tags_run : write_str e1 (l.name_len + 1) 255 tags_arg ≡ ok (e2, p2)
  pub file_run : write_str e2 p2 255 (shorten_path file_arg) ≡ ok (e3, p3)
  pub size : length e1 ≡ length buf.extra
  pub front : take (length name + 1) e1 ≡ name ++ 0 ∷ []
  pub tags_piece : Piece e1 (length name + 1) 255 tags (e2, p2)
  pub file_piece : Piece e2 p2 255 file (e3, p3)

fronts :
    (l : Loge) (buf : Buffer) (tags file : Option (List ℕ)) (name : List ℕ)
    → Named l name
    → 256 ≤ length buf.extra
    → Fronted l buf name (text_of tags) (text_of (shorten_path file)) tags file
fronts l buf tags file name n room =
    let wide : length (take (l.name_len + 1) l.name) ≡ length name + 1 =
      ap length n.stored ∙ length-append name (0 ∷ []) in
    let (e1, r1, (s1, b1)) =
      store_front buf.extra (take (l.name_len + 1) l.name)
        (omega (arith, wide, n.counted, n.short)) in
    let start : l.name_len + 1 ≡ length name + 1 = ap (λ k. k + 1) n.counted in
    let ((e2, p2), r2, w2) =
      write_str-Piece e1 (length name + 1) 255 tags (omega (arith, n.counted, n.short))
        (omega (arith, s1)) in
    let ((e3, p3), r3, w3) =
      write_str-Piece e2 p2 255 (shorten_path file) w2.bound (omega (arith, s1, w2.size)) in
    record {
      e1 = e1;
      e2 = e2;
      e3 = e3;
      p2 = p2;
      p3 = p3;
      named_run = r1;
      tags_run = subst (λ p. write_str e1 p 255 tags ≡ ok (e2, p2)) (sym start) r2;
      file_run = r3;
      size = s1;
      front = ap (λ k. take k e1) (sym wide) ∙ b1 ∙ n.stored;
      tags_piece = w2;
      file_piece = w3;
    }

module _ (l : Loge) (buf : Buffer) (bufsize level line now tid : ℕ) (tags file : Option (List ℕ))
    (name : List ℕ) (n : Named l name) (on : l.enabled ≢ 0)
    (size : length buf.extra + item_size ≡ bufsize) (room : item_size + 256 ≤ bufsize) where
  pub texts : Fronted l buf name (text_of tags) (text_of (shorten_path file)) tags file
  texts = fronts l buf tags file name n (omega arith)

  -- The room for the message.
  pub room_left : (texts.p3 ≤ 255) × (min bufsize maxbuf - item_size ≤ length texts.e3)
  room_left = (
    texts.file_piece.bound,
    omega (arith, texts.size, texts.tags_piece.size, texts.file_piece.size),
  )

  -- An item with a message of which a piece was written.
  pub message-Laid :
      (msg : Message) (m : List ℕ) (e4 : Block) (p4 : ℕ)
      → IsText (text_of tags)
      → IsText (text_of (shorten_path file))
      → write_message texts.e3 texts.p3 (min bufsize maxbuf - item_size) msg ≡ ok (e4, some p4)
      → Piece texts.e3 texts.p3 (min bufsize maxbuf - item_size) m (e4, p4)
      → Returns (loge_item_bin l buf bufsize level tags msg file line now tid) λ r.
        Laid name (text_of tags) (text_of (shorten_path file)) m (min bufsize maxbuf) r
        × (r.1.item.msg_offset ≡ texts.p3)
  message-Laid msg m e4 p4 tt' ft r4 w4 =
      let t = texts in
      (
        _,
        item_run l buf bufsize level line now tid t.p2 t.p3 tags msg file t.e1 t.e2 t.e3 e4
            (some p4) on room t.named_run t.tags_run t.file_run r4,
        (
          subst
              (λ p.
                Laid name (text_of tags) (text_of (shorten_path file)) m (min bufsize maxbuf)
                  (written l buf level line now tid p t.p2 t.p3 e4 (some p4)))
              (sym (ap (λ k. k + 1) n.counted))
              (result-Laid name (text_of tags) (text_of (shorten_path file)) m t.p2 t.p3 p4
                (min bufsize maxbuf) t.e1 t.e2 t.e3 e4 n.readable tt' ft
                (omega (arith, n.counted, n.short)) (omega arith) (omega arith)
                (omega (arith, t.size)) t.front t.tags_piece t.file_piece w4 l buf.item level line
                now tid),
          omega (arith, room_left),
        ),
      )

  -- An item whose message was cut.
  pub message_cut :
      (msg : Message) (e4 : Block)
      → write_message texts.e3 texts.p3 (min bufsize maxbuf - item_size) msg ≡ ok (e4, none)
      → Returns
          (loge_item_bin l buf bufsize level tags msg file line now tid)
          λ r. (r.0 ≡ 0) × (r.1.item.msg_offset ≡ texts.p3)
  message_cut msg e4 r4 =
      let t = texts in
      (
        _,
        item_run l buf bufsize level line now tid t.p2 t.p3 tags msg file t.e1 t.e2 t.e3 e4 none on
            room t.named_run t.tags_run t.file_run r4,
        (refl, omega (arith, room_left)),
      )

pub text_run :
    (msg : Option (List ℕ)) (b e4 : Block) (p end p4 : ℕ)
    → write_str b p end msg ≡ ok (e4, p4)
    → write_message b p end (text msg) ≡ ok (e4, some p4)
unfolding write_message
text_run msg b e4 p end p4 r = rw r

pub data_run :
    (d : List ℕ) (beyond : ℕ) (b : Block) (p end : ℕ) (r : Block × Option ℕ)
    → write_bin b p end (some d) beyond ≡ ok r
    → write_message b p end (bin (some d) beyond) ≡ ok r
unfolding write_message
data_run d beyond b p end r run = run
