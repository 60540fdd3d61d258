-- ===== src/Automem/Attach.antt =====
-- `automem_attach`: correct where the bytes fit the block, an overflow of the block where they do
-- not, since it makes room behind the old bytes for the excess only.
use uvx.Prelude.{
  ℕ, ◌+◌, ◌*◌, ◌-◌, ◌^◌, ◌≤◌, ◌<◌, ◌≡◌, refl, ◌∙◌, arith, ltb, List, some, length, true, false,
}
use uvx.Prelude.Word.{sub32}
use uvx.Memory.{ok, fault, out_of_bounds, ◌>>=◌, Allocator, Returns}
use uvx.Memory.Laws.{store_front, store-fault}
use uvx.Automem.{Automem, grow_loop, automem_ensure_newspace, automem_attach}
use uvx.Automem.Contents.{Holds}

-- `automem_ensure_newspace` changes nothing where there is room.
pub ensure_roomy :
    (a : Allocator) (m : Automem) (len : ℕ)
    → m.size + len ≤ m.buffersize
    → m.buffersize < 2 ^ 32
    → automem_ensure_newspace a m len ≡ ok m
unfolding automem_ensure_newspace grow_loop
ensure_roomy a m len room word = ground arith

module _ (a : Allocator) {m : Automem} {xs : List ℕ} (h : Holds m xs) (p : List ℕ) where
  -- Bytes that fit the block replace its contents.
  pub attach-Holds :
      length p ≤ m.buffersize
      → Returns (automem_attach a m p) λ m'. Holds m' p × (m'.buffersize ≡ m.buffersize)
  unfolding automem_attach
  attach-Holds fits =
      let (c, run, (same, prefix)) = store_front h.block p (omega (arith, h.room)) in
      let test : ltb m.buffersize (length p) ≡ false = ground arith in
      (
        record m { pdata = some c; size = length p },
        rw (test, ◌>>=◌, h.held, run),
        (
          record {
            block = c;
            held = refl;
            room = same ∙ h.room;
            counted = refl;
            fits = fits;
            word = h.word;
            positive = h.positive;
            bytes = prefix;
          },
          refl,
        ),
      )

  -- Bytes that do not fit, by no more than what is free, overflow the block.
  pub attach_overflow :
      m.buffersize < length p
      → length p + m.size ≤ 2 * m.buffersize
      → automem_attach a m p ≡ fault out_of_bounds
  unfolding automem_attach
  attach_overflow large free =
      let test : ltb m.buffersize (length p) ≡ true = ground arith in
      let excess : sub32 (length p) m.buffersize ≡ length p - m.buffersize =
        omega (arith, h.word) in
      rw (
        test,
        excess,
        ensure_roomy a m (length p - m.buffersize) (omega arith) h.word,
        ◌>>=◌,
        h.held,
        store-fault h.block 0 p (omega (arith, h.room)),
      )
