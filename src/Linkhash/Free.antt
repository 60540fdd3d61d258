-- ===== src/Linkhash/Free.antt =====
-- `lh_table_free` of utils/linkhash.c.
use uvx.Prelude.{
  ℕ, zero, suc, ◌≤◌, ◌<◌, ◌≡◌, refl, ap, ◌∙◌, Bool, List, [], ◌∷◌, Option, none, some, arith,
  length, map, if◌then◌else◌,
}
use uvx.Memory.{Run, ok, fault, ◌>>=◌, diverges}
use uvx.Linkhash.{Table, Cell, key, entry_at}
use uvx.Linkhash.Keys.{Key}
use uvx.Linkhash.Nodes.{Node, first, linked, Linked, Below}
use uvx.Linkhash.Probe.{entry_at_lem}
use uvx.Linkhash.Insert.{contents}
use uvx.Linkhash.Store.{Holds}

module _ {ℓ} {K V : Type ℓ} where
  -- The loop over the list: what `free_fn` is called on, which leaves the list as it is.
  pub free_from : ℕ → Table K V → Option ℕ → Run (List (Cell K × Option V))
  unfolding entry_at
  free_from fuel t none = ok []
  free_from zero t (some c) = fault diverges
  free_from (suc fuel) t (some c) = do
    e ← entry_at t c
    rest ← free_from fuel t e.next
    ok ((e.k, e.v) ∷ rest)

  -- `free_fn` says whether the table has one. Afterwards the memory of the table is freed.
  pub lh_table_free : Table K V → Bool → Run (List (Cell K × Option V))
  unfolding free_from
  lh_table_free t free_fn = do
    entries ← free_from t.size t t.head
    ok (if free_fn then entries else [])

  abbrev pub cell_of : K × Option V → Cell K × Option V
  cell_of kv = (key kv.0, kv.1)

  free_nil : (fuel : ℕ) (t : Table K V) → free_from fuel t none ≡ ok []
  unfolding free_from
  free_nil zero t = refl
  free_nil (suc fuel) t = refl

  free_step :
      (fuel : ℕ) (t : Table K V) (p : Option ℕ) (x : Node K V) (rest : List (Node K V))
      (l : List (Cell K × Option V))
      → x.at < t.size
      → t.slots x.at ≡ linked x (first rest none) p
      → free_from fuel t (first rest none) ≡ ok l
      → free_from (suc fuel) t (some x.at) ≡ ok ((key x.k, x.v) ∷ l)
  unfolding free_from
  free_step fuel t p x rest l h e run = rw (entry_at_lem t x.at h, ◌>>=◌, e, run) refl

  free_from-contents :
      (fuel : ℕ) (t : Table K V) (p : Option ℕ) (rest : List (Node K V))
      → length rest ≤ fuel
      → Linked t.slots p rest none
      → Below t.size rest
      → free_from fuel t (first rest none) ≡ ok (map cell_of (contents rest))
  free_from-contents fuel t p [] few run below = free_nil fuel t
  free_from-contents zero t p (x ∷ rest) few run below = absurd (omega arith)
  free_from-contents (suc fuel) t p (x ∷ rest) few (e, run) (h, below) =
      free_step fuel t p x rest (map cell_of (contents rest)) h e
        (free_from-contents fuel t (some x.at) rest (omega arith) run below)

  free_run :
      (t : Table K V) (p : Option ℕ) (l : List (Cell K × Option V)) (free_fn : Bool)
      → t.head ≡ p
      → free_from t.size t p ≡ ok l
      → lh_table_free t free_fn ≡ ok (if free_fn then l else [])
  unfolding lh_table_free
  free_run t p l free_fn head run = rw (ap (free_from t.size t) head ∙ run) refl

module _ {ℓ} {K V : Type ℓ} ⦃fns : Key K⦄ where
  -- `lh_table_free` of a table ends normally and hands each of its entries to `free_fn` once, in the order
  -- of the list, or none where there is no `free_fn`.
  pub free-contents :
      (t : Table K V) (kvs : List (K × Option V)) (free_fn : Bool)
      → Holds t kvs
      → lh_table_free t free_fn ≡ ok (if free_fn then map cell_of kvs else [])
  free-contents t kvs free_fn h =
      free_run t (first h.nodes none) (map cell_of kvs) free_fn h.rep.head (
        free_from-contents t.size t none h.nodes (omega (arith, h.load, h.rep.positive)) h.rep.run
          h.rep.below
        ∙ ap (λ l. ok (map cell_of l)) h.stored)
