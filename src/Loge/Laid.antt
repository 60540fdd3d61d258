-- ===== src/Loge/Laid.antt =====
-- The texts of an item in the buffer that `loge_item` wrote, as a reader finds them.
use uvx.Prelude.{
  refl, get_or, true, ◌⊎◌, ℕ, ◌+◌, ◌-◌, ◌≤◌, ◌%◌, ◌^◌, ◌≡◌, ◌≢◌, sym, ap, ◌∙◌, List, [], ◌∷◌, ◌++◌,
  arith, length, take, drop, length-append, append_assoc, append-nil,
}
use uvx.Memory.{Block}
use uvx.Loge.{Loge, LogeItem, Buffer, item_size, maxbuf, start_item}
use uvx.Loge.Text.{is_leading}
use uvx.Loge.Binary.{piece_data}
use uvx.Loge.Piece.{text_at, IsText, Piece, piece_text, piece_stop, text_at_start}

-- A text is cut where a character begins, or nothing of it is kept.
abbrev pub Boundary : List ℕ → ℕ → Type 0
Boundary s kept = (kept ≡ 0) ⊎ (is_leading (get_or (s ++ 0 ∷ []) kept 0) ≡ true)

-- What a reader of an item finds: the texts at the offsets that the item holds, each whole or cut, and
-- the sizes. `bound` is the room for the item and the texts.
pub record Laid (name tags file msg : List ℕ) (bound : ℕ) (r : ℕ × Buffer) : Type 0 where
  pub tags_kept : ℕ
  pub file_kept : ℕ
  pub msg_kept : ℕ
  pub tags_cut : tags_kept ≤ length tags
  pub file_cut : file_kept ≤ length file
  pub msg_cut : msg_kept ≤ length msg
  pub tags_boundary : Boundary tags tags_kept
  pub file_boundary : Boundary file file_kept
  pub msg_boundary : Boundary msg msg_kept
  pub within : r.0 ≤ bound
  pub inside : r.0 ≤ length r.1.extra + item_size
  pub end : r.0 ≡ r.1.item.extra_offset + r.1.item.msg_offset + r.1.item.msg_len + 1
  pub header : r.1.item.extra_offset ≡ item_size
  pub counted : r.1.item.msg_len ≡ msg_kept
  pub name_text : text_at (drop r.1.item.name_offset r.1.extra) ≡ name
  pub tags_text : text_at (drop r.1.item.tags_offset r.1.extra) ≡ take tags_kept tags
  pub file_text :
      r.1.item.file_offset ≢ 255
      → text_at (drop r.1.item.file_offset r.1.extra) ≡ take file_kept file
  pub msg_data : take r.1.item.msg_len (drop r.1.item.msg_offset r.1.extra) ≡ take msg_kept msg
  pub msg_text : IsText msg → text_at (drop r.1.item.msg_offset r.1.extra) ≡ take msg_kept msg
  pub tags_whole : length name + length tags + 2 ≤ 255 → tags_kept ≡ length tags
  pub file_whole : length name + length tags + length file + 3 ≤ 255 → file_kept ≡ length file
  pub msg_whole : r.1.item.msg_offset + length msg + 29 ≤ bound → msg_kept ≡ length msg

-- The four texts in the block, one behind the other.
chain :
    (n p1 p2 p3 p4 : ℕ) (e1 e2 e3 e4 a t f m : List ℕ)
    → take p1 e1 ≡ a
    → take p2 e2 ≡ take p1 e1 ++ t
    → take p3 e3 ≡ take p2 e2 ++ f
    → take p4 e4 ≡ take p3 e3 ++ m
    → take p4 e4 ≡ a ++ (t ++ (f ++ m))
chain n p1 p2 p3 p4 e1 e2 e3 e4 a t f m r1 r2 r3 r4 =
    r4
    ∙ ap (λ q. q ++ m) (r3 ∙ ap (λ q. q ++ f) (r2 ∙ ap (λ q. q ++ t) r1))
    ∙ append_assoc (a ++ t) f m
    ∙ append_assoc a t (f ++ m)

short_word : (p : ℕ) → p ≤ 255 → p % 2 ^ 8 ≡ p
short_word p h = omega arith

msg_len_lem :
    (p3 p4 k : ℕ)
    → p3 ≤ 255
    → p4 ≡ p3 + k + 1
    → p4 ≤ maxbuf
    → (p4 + 2 ^ 16 - p3 % 2 ^ 8 - 1) % 2 ^ 16 ≡ k
msg_len_lem p3 p4 k h e f = let g : p3 % 2 ^ 8 ≡ p3 = short_word p3 h in rw (g, e) (omega arith)

end_lem :
    (p3 p4 k at len : ℕ)
    → at ≡ p3
    → len ≡ k
    → p4 ≡ p3 + k + 1
    → p4 + item_size ≡ item_size + at + len + 1
end_lem p3 p4 k at len e f g = omega arith

module _ (name tags file msg : List ℕ) (p2 p3 p4 bound : ℕ) (e1 e2 e3 e4 : Block)
    (name_IsText : IsText name) (tags_IsText : IsText tags) (file_IsText : IsText file)
    (few : length name ≤ 15) (room : 284 ≤ bound) (most : bound ≤ maxbuf)
    (wide : bound ≤ length e1 + item_size) (front : take (length name + 1) e1 ≡ name ++ 0 ∷ [])
    (w2 : Piece e1 (length name + 1) 255 tags (e2, p2)) (w3 : Piece e2 p2 255 file (e3, p3))
    (w4 : Piece e3 p3 (bound - item_size) msg (e4, p4)) where
  whole_block : take p4 e4 ≡ (name ++ 0 ∷ []) ++ (w2.piece ++ (w3.piece ++ w4.piece))
  whole_block =
      chain 0 (length name + 1) p2 p3 p4 e1 e2 e3 e4 (name ++ 0 ∷ []) w2.piece w3.piece w4.piece
        front w2.bytes w3.bytes w4.bytes

  name_end : length (name ++ 0 ∷ []) ≡ length name + 1
  name_end = length-append name (0 ∷ [])

  tags_end : length ((name ++ 0 ∷ []) ++ w2.piece) ≡ p2
  tags_end = omega (arith, length-append (name ++ 0 ∷ []) w2.piece, name_end, w2.stop)

  file_end : length (((name ++ 0 ∷ []) ++ w2.piece) ++ w3.piece) ≡ p3
  file_end = omega (arith, length-append ((name ++ 0 ∷ []) ++ w2.piece) w3.piece, tags_end, w3.stop)

  name_read : text_at e4 ≡ name
  name_read =
      text_at_start p4 e4 name (w2.piece ++ (w3.piece ++ w4.piece)) name_IsText
        (whole_block ∙ append_assoc name (0 ∷ []) (w2.piece ++ (w3.piece ++ w4.piece)))

  tags_read : text_at (drop (length name + 1) e4) ≡ take w2.kept tags
  tags_read =
      piece_text p4 e4 (name ++ 0 ∷ []) tags (w3.piece ++ w4.piece) w2.piece w2.kept
        (length name + 1) 255 tags_IsText name_end (omega arith) w2.shape whole_block

  file_read : p2 ≢ 255 → text_at (drop p2 e4) ≡ take w3.kept file
  file_read ne =
      piece_text p4 e4 ((name ++ 0 ∷ []) ++ w2.piece) file w4.piece w3.piece w3.kept p2 255
        file_IsText tags_end (omega (arith, w2.bound)) w3.shape
        (whole_block ∙ sym (append_assoc (name ++ 0 ∷ []) w2.piece (w3.piece ++ w4.piece)))

  msg_read : IsText msg → text_at (drop p3 e4) ≡ take w4.kept msg
  msg_read msg_IsText =
      piece_text p4 e4 (((name ++ 0 ∷ []) ++ w2.piece) ++ w3.piece) msg [] w4.piece w4.kept p3
        (bound - item_size) msg_IsText file_end (omega (arith, w3.bound)) w4.shape
        (whole_block
          ∙ sym (append_assoc (name ++ 0 ∷ []) w2.piece (w3.piece ++ w4.piece))
          ∙ sym (append_assoc ((name ++ 0 ∷ []) ++ w2.piece) w3.piece w4.piece)
          ∙ ap (λ q. (((name ++ 0 ∷ []) ++ w2.piece) ++ w3.piece) ++ q) (sym (append-nil w4.piece)))

  tags_stop : p2 ≡ length name + 1 + w2.kept + 1
  tags_stop = piece_stop 255 tags w2.kept (omega arith) w2.stop w2.shape w2.cut

  msg_stop : p4 ≡ p3 + w4.kept + 1
  msg_stop =
      piece_stop (bound - item_size) msg w4.kept (omega (arith, w3.bound)) w4.stop w4.shape w4.cut

  msg_bytes : take w4.kept (drop p3 e4) ≡ take w4.kept msg
  msg_bytes =
      piece_data p4 e4 (((name ++ 0 ∷ []) ++ w2.piece) ++ w3.piece) msg w4.piece w4.kept p3
        (bound - item_size) file_end (omega (arith, w3.bound)) w4.shape w4.cut
        (omega (arith, msg_stop))
        (whole_block
          ∙ sym (append_assoc (name ++ 0 ∷ []) w2.piece (w3.piece ++ w4.piece))
          ∙ sym (append_assoc ((name ++ 0 ∷ []) ++ w2.piece) w3.piece w4.piece))

  -- The item that `loge_item` wrote, with the block.
  pub result-Laid :
      (l : Loge) (old : LogeItem) (level line now tid : ℕ)
      → Laid name tags file msg bound (
        p4 + item_size,
        record {
          item = record (start_item l old level now tid line) {
            tags_offset = (length name + 1) % 2 ^ 8;
            file_offset = p2 % 2 ^ 8;
            msg_offset = p3 % 2 ^ 8;
            msg_len = (p4 + 2 ^ 16 - p3 % 2 ^ 8 - 1) % 2 ^ 16;
          };
          extra = e4;
        },
      )
  unfolding start_item
  result-Laid l old level line now tid =
      let tags_at = short_word (length name + 1) (omega arith) in
      let file_at = short_word p2 w2.bound in
      let msg_at = short_word p3 w3.bound in
      let len = msg_len_lem p3 p4 w4.kept w3.bound msg_stop (omega (arith, w4.bound)) in
      record {
        tags_kept = w2.kept;
        file_kept = w3.kept;
        msg_kept = w4.kept;
        tags_cut = w2.cut;
        file_cut = w3.cut;
        msg_cut = w4.cut;
        tags_boundary = w2.boundary;
        file_boundary = w3.boundary;
        msg_boundary = w4.boundary;
        within = omega (arith, w4.bound);
        inside = omega (arith, w4.bound, w4.size, w3.size, w2.size);
        end = end_lem p3 p4 w4.kept _ _ msg_at len msg_stop;
        header = refl;
        counted = len;
        name_text = name_read;
        tags_text = rw tags_at tags_read;
        file_text = rw file_at file_read;
        msg_data = rw (len, msg_at) msg_bytes;
        msg_text = rw msg_at msg_read;
        tags_whole = λ h. w2.whole (omega arith);
        file_whole = λ h. whole_file h;
        msg_whole = rw msg_at (λ h. w4.whole (omega arith));
      }
    where
      whole_file : length name + length tags + length file + 3 ≤ 255 → w3.kept ≡ length file
      whole_file h = let k = w2.whole (omega arith) in w3.whole (omega (arith, tags_stop, k))
