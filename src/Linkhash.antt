-- ===== src/Linkhash.antt =====
-- utils/linkhash.c and utils/linkhash.h: a hash table with open addressing whose entries are also a
-- doubly linked list in order of insertion. A pointer to an entry is the index of its slot. The
-- counters are unbounded. `free_fn` is null, as it is for the table of `uvx_server_t`.
pub mod Keys
pub mod Nodes
pub mod Probe
pub mod Rep
pub mod Lookup
pub mod Unlink
pub mod Delete
pub mod Place
pub mod Append
pub mod Insert
pub mod Store
pub mod Free
mod Tests
use uvx.Prelude.{
  ℕ, zero, suc, ◌+◌, ◌-◌, ◌*◌, ◌%◌, Option, none, some, Bool, true, false, ltb, ◌==◌, ◌&&◌,
  if◌then◌else◌,
}
use uvx.Memory.{
  Run, ok, fault, null_pointer, out_of_bounds, division_by_zero, sentinel_key, diverges, ◌>>=◌,
}
use Keys.{Key}

-- `lh_entry.k`: `LH_EMPTY`, `LH_FREED`, or a key, which is neither of these two pointers.
pub data Cell {ℓ} (K : Type ℓ) : Type ℓ where
  empty : Cell K
  freed : Cell K
  key : K → Cell K

-- `lh_entry`. A null value is `none`.
pub record Entry {ℓ} (K V : Type ℓ) : Type ℓ where
  pub k : Cell K
  pub v : Option V
  pub next : Option ℕ
  pub prev : Option ℕ

-- `lh_table`. `slots` is the array `table`, read and written below `size` only.
pub record Table {ℓ} (K V : Type ℓ) : Type ℓ where
  pub size : ℕ
  pub count : ℕ
  pub collisions : ℕ
  pub resizes : ℕ
  pub lookups : ℕ
  pub inserts : ℕ
  pub head : Option ℕ
  pub tail : Option ℕ
  pub slots : ℕ → Entry K V

-- What `lh_table_delete` and `lh_table_delete_entry` return: 0 or -1.
pub data Code : Type 0 where
  success failure : Code

-- `++n == t->size ? 0 : n`
abbrev pub next_slot : ℕ → ℕ → ℕ
next_slot size n = if n + 1 == size then 0 else n + 1

-- `size * 0.66 < count`, exact for every size below 2 ^ 46.
abbrev pub crowded : ℕ → ℕ → Bool
crowded size count = ltb (66 * size) (100 * count)

-- Whether a pointer is `&t->table[n]`.
abbrev pub points_to : Option ℕ → ℕ → Bool
points_to none n = false
points_to (some m) n = m == n

module _ {ℓ} {K V : Type ℓ} where
  abbrev pub update : (ℕ → Entry K V) → ℕ → Entry K V → ℕ → Entry K V
  update s n e m = if n == m then e else s m

  abbrev pub blank : Entry K V
  blank = record { k = empty; v = none; next = none; prev = none }

  pub lh_table_new : ℕ → Table K V
  lh_table_new size = record {
    size = size;
    count = 0;
    collisions = 0;
    resizes = 0;
    lookups = 0;
    inserts = 0;
    head = none;
    tail = none;
    slots = λ _. blank;
  }

  -- `t->table[n]`
  pub entry_at : Table K V → ℕ → Run (Entry K V)
  entry_at t n = if ltb n t.size then ok (t.slots n) else fault out_of_bounds

  -- `*p`, of a pointer to an entry.
  pub entry_of : Table K V → Option ℕ → Run (Entry K V)
  unfolding entry_at
  entry_of t none = fault null_pointer
  entry_of t (some n) = entry_at t n

  -- `p->next = q` and `p->prev = q`
  pub set_next : Table K V → Option ℕ → Option ℕ → Run (Table K V)
  unfolding entry_at
  set_next t none q = fault null_pointer
  set_next t (some n) q = do
    e ← entry_at t n
    ok (record t { slots = update t.slots n (record e { next = q }) })

  pub set_prev : Table K V → Option ℕ → Option ℕ → Run (Table K V)
  unfolding entry_at
  set_prev t none q = fault null_pointer
  set_prev t (some n) q = do
    e ← entry_at t n
    ok (record t { slots = update t.slots n (record e { prev = q }) })

  -- The four cases in which `lh_table_delete_entry` takes an entry out of the list.
  pub unlink : Table K V → ℕ → Run (Table K V)
  unfolding entry_of set_next set_prev
  unlink t n =
      if points_to t.tail n && points_to t.head n
      then ok (record t { head = none; tail = none })
      else if points_to t.head n
      then (do
        first ← entry_of t t.head
        t' ← set_prev t first.next none
        first' ← entry_of t' t'.head
        ok (record t' { head = first'.next }))
      else if points_to t.tail n
      then (do
        last ← entry_of t t.tail
        t' ← set_next t last.prev none
        last' ← entry_of t' t'.tail
        ok (record t' { tail = last'.prev }))
      else (do
        e ← entry_at t n
        t' ← set_next t e.prev e.next
        e' ← entry_at t' n
        set_prev t' e'.next e'.prev)

  pub lh_table_delete_entry : Table K V → ℕ → Run (Code × Table K V)
  unfolding entry_at unlink
  lh_table_delete_entry t n = do
    e ← entry_at t n
    elim e.k [
      | key _ ↦ do
        let t1 = record t {
          count = t.count - 1;
          slots = update t.slots n (record e { v = none; k = freed });
        }
        t2 ← unlink t1 n
        e2 ← entry_at t2 n
        ok (
          success,
          record t2 { slots = update t2.slots n (record e2 { next = none; prev = none }) },
        )
      | _ ↦ ok (failure, t)
    ]

  -- The end of `lh_table_insert`: the entry in slot `n` is filled and linked at the tail.
  pub append_entry : Table K V → ℕ → K → Option V → Run (Table K V)
  unfolding entry_at set_next
  append_entry t n k v = do
    e ← entry_at t n
    let t1 = record t {
      slots = update t.slots n (record e { k = key k; v = v });
      count = t.count + 1;
    }
    elim t1.head [
      | none ↦ ok (record t1 {
        head = some n;
        tail = some n;
        slots = update t1.slots n (record e { k = key k; v = v; next = none; prev = none });
      })
      | some _ ↦ do
        t2 ← set_next t1 t1.tail (some n)
        e2 ← entry_at t2 n
        ok (record t2 {
          slots = update t2.slots n (record e2 { prev = t2.tail; next = none });
          tail = some n;
        })
    ]

module _ {ℓ} {K V : Type ℓ} ⦃fns : Key K⦄ where
  -- `h % t->size`
  pub home_slot : Table K V → K → Run ℕ
  home_slot t k = if t.size == 0 then fault division_by_zero else ok (fns.hash_fn k % t.size)

  -- The loop of `lh_table_lookup_entry`: one unit of fuel for each value of `count`.
  pub lookup_from : ℕ → Table K V → K → ℕ → Run (Option ℕ)
  unfolding entry_at
  lookup_from zero t k n = ok none
  lookup_from (suc fuel) t k n =
      let rest = lookup_from fuel t k (next_slot t.size n) in
      entry_at t n >>= λ e. elim e.k [
        | empty ↦ ok none
        | freed ↦ rest
        | key k' ↦ if fns.equal_fn k' k then ok (some n) else rest
      ]

  pub lh_table_lookup_entry : Table K V → K → Run (Option ℕ × Table K V)
  unfolding lookup_from home_slot
  lh_table_lookup_entry t k = do
    n ← home_slot t k
    found ← lookup_from t.size (record t { lookups = t.lookups + 1 }) k n
    ok (found, record t { lookups = t.lookups + 1 })

  pub lh_table_lookup : Table K V → K → Run (Option V × Table K V)
  unfolding lh_table_lookup_entry entry_at
  lh_table_lookup t k = do
    (found, t') ← lh_table_lookup_entry t k
    elim found [ none ↦ ok (none, t') | some n ↦ do e ← entry_at t' n; ok (e.v, t') ]

  pub lh_table_delete : Table K V → K → Run (Code × Table K V)
  unfolding lh_table_lookup_entry lh_table_delete_entry
  lh_table_delete t k = do
    (found, t') ← lh_table_lookup_entry t k
    elim found [ none ↦ ok (failure, t') | some n ↦ lh_table_delete_entry t' n ]

  -- The loop of `lh_table_insert`. The fuel is the number of slots: past that, each slot was tried
  -- and the loop goes round for ever.
  pub probe_from : ℕ → Table K V → K → ℕ → Run (ℕ × Table K V)
  unfolding entry_at lh_table_delete_entry
  probe_from zero t k n = fault diverges
  probe_from (suc fuel) t k n =
      let rest =
        probe_from fuel (record t { collisions = t.collisions + 1 }) k (next_slot t.size n) in
      entry_at t n >>= λ e. elim e.k [
        | empty ↦ ok (n, t)
        | freed ↦ ok (n, t)
        | key k' ↦
            if fns.equal_fn k' k then (do (_, t') ← lh_table_delete_entry t n; ok (n, t')) else rest
      ]

  -- `lh_table_insert` behind its test of the load.
  pub place : Table K V → K → Option V → Run (Table K V)
  unfolding home_slot probe_from append_entry
  place t k v = do n ← home_slot t k; (n', t') ← probe_from t.size t k n; append_entry t' n' k v

  -- The loop of `lh_table_resize`, over the list from `p` on; `insert` is `lh_table_insert`. The
  -- fuel is the number of slots: the list has no more entries.
  pub copy_from :
      (Table K V → K → Option V → Run (Table K V))
      → ℕ
      → Table K V
      → Option ℕ
      → Table K V
      → Run (Table K V)
  unfolding entry_at
  copy_from insert fuel t none into = ok into
  copy_from insert zero t (some n) into = fault diverges
  copy_from insert (suc fuel) t (some n) into = entry_at t n >>= λ e. elim e.k [
    | key k ↦ insert into k e.v >>= λ into'. copy_from insert fuel t e.next into'
    | _ ↦ fault sentinel_key
  ]

  pub lh_table_resize :
      (Table K V → K → Option V → Run (Table K V)) → Table K V → ℕ → Run (Table K V)
  unfolding copy_from lh_table_new
  lh_table_resize insert t new_size = do
    new_t ← copy_from insert t.size t t.head (lh_table_new new_size)
    ok (record t {
      slots = new_t.slots;
      size = new_size;
      head = new_t.head;
      tail = new_t.tail;
      resizes = t.resizes + 1;
    })

  -- `lh_table_insert` and `lh_table_resize` call each other; the first argument bounds how deep.
  pub insert_within : ℕ → Table K V → K → Option V → Run (Table K V)
  unfolding lh_table_resize place
  insert_within zero t k v = fault diverges
  insert_within (suc depth) t k v = do
    let t1 = record t { inserts = t.inserts + 1 }
    t2 ←
        (if crowded t1.size t1.count
          then lh_table_resize (insert_within depth) t1 (t1.size * 2)
          else ok t1)
    place t2 k v

  pub lh_table_insert : Table K V → K → Option V → Run (Table K V)
  unfolding insert_within
  lh_table_insert t k v = insert_within 2 t k v
