-- ===== src/Loge/Naming.antt =====
-- `loge_name` of loge/loge.c: the name that a log holds.
use uvx.Prelude.{
  ℕ, ◌+◌, ◌-◌, ◌≤◌, ◌≡◌, refl, sym, ap, ◌∙◌, min, take-length, true, List, [], ◌∷◌, ◌++◌, some,
  arith, length, take, ltb, length-take, take-take,
}
use uvx.Memory.{Block, ok, ◌>>=◌, store, Returns}
use uvx.Memory.Laws.{store_front, store-Returns}
use uvx.Loge.{Loge, name_size, loge_name}
use uvx.Loge.Piece.{IsText, IsText-take}

-- The name of a log as `loge_name` leaves it.
pub record Named (l : Loge) (name : List ℕ) : Type 0 where
  pub stored : take (l.name_len + 1) l.name ≡ name ++ 0 ∷ []
  pub counted : l.name_len ≡ length name
  pub short : l.name_len + 1 ≤ name_size
  pub width : length l.name ≡ name_size
  pub readable : IsText name

name_run :
    (l : Loge) (name : List ℕ) (copied ended : Block) (n : ℕ)
    → n ≡ min (length name) (name_size - 1)
    → store l.name 0 (take n name) ≡ ok copied
    → store copied n (0 ∷ []) ≡ ok ended
    → loge_name l (some name) ≡ ok (record l { name = ended; name_len = n })
unfolding loge_name
name_run l name copied ended n e run run' =
    let small : ltb (min (length name) (name_size - 1)) name_size ≡ true = ground arith in
    rw (small, sym e, run, ◌>>=◌) (rw run')

-- `loge_name` keeps the first 15 bytes of the name, with a zero behind them, and nothing else changes.
pub loge_name-Named :
    (l : Loge) (name : List ℕ)
    → length l.name ≡ name_size
    → IsText name
    → Returns
        (loge_name l (some name))
        λ r. Named r (take 15 name) × (r.enabled ≡ l.enabled) × (r.pid ≡ l.pid)
loge_name-Named l name wide t =
    let n = min (length name) (name_size - 1) in
    let len : length (take n name) ≡ n = omega (arith, length-take n name) in
    let (copied, run, (size, bytes)) = store_front l.name (take n name) (omega (arith, len)) in
    let (ended, run', (size', bytes')) = store-Returns copied n (0 ∷ []) (omega (arith, size)) in
    let same : take n name ≡ take 15 name = take_min name in
    (
      record l { name = ended; name_len = n },
      name_run l name copied ended n refl run run',
      (
        record {
          stored =
              bytes' ∙ ap (λ q. q ++ 0 ∷ []) (ap (λ k. take k copied) (sym len) ∙ bytes ∙ same);
          counted = sym len ∙ ap length same;
          short = omega arith;
          width = size' ∙ size ∙ wide;
          readable = IsText-take 15 name t;
        },
        refl,
        refl,
      ),
    )
  where
    take_min : (s : List ℕ) → take (min (length s) (name_size - 1)) s ≡ take 15 s
    take_min s =
        let len : length (take 15 s) ≡ min (length s) 15 = omega (arith, length-take 15 s) in
        sym (take-take (min (length s) 15) 15 s (omega arith))
        ∙ ap (λ k. take k (take 15 s)) (sym len)
        ∙ take-length (take 15 s)
