-- ===== src/Loge/Small.antt =====
-- `loge_item_bin` of loge/loge.c with a buffer that is smaller than its texts may become.
use uvx.Prelude.{
  ℕ, ◌+◌, ◌-◌, ◌<◌, ◌≡◌, ◌≢◌, ap, ◌∙◌, min, true, false, List, [], ◌∷◌, ◌++◌, Option, some, arith,
  length, take, ltb, leb, ◌==◌, length-append, length-take,
}
use uvx.Memory.{Block, fault, out_of_bounds, ◌>>=◌}
use uvx.Memory.Laws.{store_front, store-fault}
use uvx.Loge.{Loge, Buffer, Message, item_size, maxbuf, name_size, loge_item_bin}
use uvx.Loge.Text.{write_str}
use uvx.Loge.Naming.{Named}

-- A text for which the block has no room, but the bound that `write_str` is given has.
write_str-fault :
    (b : Block) (p end c : ℕ) (s : List ℕ)
    → p < end
    → length b < end
    → length b < p + length (c ∷ s) + 1
    → write_str b p end (some (c ∷ s)) ≡ fault out_of_bounds
unfolding write_str
write_str-fault b p end c s h near long =
    let in_order : leb p end ≡ true = ground arith in
    let room : (p == end) ≡ false = ground arith in
    let n = min (length (c ∷ s) + 1) (end - p) in
    let wide : length (take n ((c ∷ s) ++ 0 ∷ [])) ≡ n =
      omega (arith, length-take n ((c ∷ s) ++ 0 ∷ []), length-append (c ∷ s) (0 ∷ [])) in
    rw (in_order, room, store-fault b p (take n ((c ∷ s) ++ 0 ∷ [])) (omega (arith, wide)))

named_room :
    (bufsize : ℕ)
    → item_size + name_size < bufsize
    → bufsize < item_size + 255
    → ltb name_size (min 255 (min bufsize maxbuf - item_size)) ≡ true
named_room bufsize h small = ground arith

-- `loge_item_bin` of an enabled log overruns a buffer of less than 283 bytes, although it passes the
-- assertions on its size, with any tags that do not fit it behind the name.
pub tags_overrun :
    (l : Loge) (buf : Buffer) (bufsize level line now tid c : ℕ) (tags : List ℕ) (msg : Message)
    (file : Option (List ℕ)) (name : List ℕ)
    → Named l name
    → l.enabled ≢ 0
    → length buf.extra + item_size ≡ bufsize
    → item_size + name_size < bufsize
    → bufsize < item_size + 255
    → bufsize < item_size + length name + 1 + length (c ∷ tags) + 1
    → loge_item_bin l buf bufsize level (some (c ∷ tags)) msg file line now tid
      ≡ fault out_of_bounds
unfolding loge_item_bin
tags_overrun l buf bufsize level line now tid c tags msg file name n on size room small long =
    let wide : length (take (l.name_len + 1) l.name) ≡ length name + 1 =
      ap length n.stored ∙ length-append name (0 ∷ []) in
    let (e1, r1, (s1, b1)) =
      store_front buf.extra (take (l.name_len + 1) l.name)
        (omega (arith, wide, n.counted, n.short)) in
    let above : ltb item_size bufsize ≡ true = ground (arith, room) in
    let enabled : (l.enabled == 0) ≡ false = ground (arith, on) in
    rw (
      above,
      enabled,
      named_room bufsize room small,
      r1,
      ◌>>=◌,
      write_str-fault e1 (l.name_len + 1) 255 c tags (omega (arith, n.short)) (omega (arith, s1))
          (omega (arith, s1, n.counted)),
    )
