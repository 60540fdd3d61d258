-- ===== src/Stream.antt =====
-- uvx.c: sending data on a stream of libuv, and the addresses of sockets. An object that `malloc` returned is
-- its address. What is handed to libuv is recorded in `trace`, in order; what libuv answers is an argument.
-- Diagnostics are left out.
pub mod Owners
pub mod Sound
pub mod Safety
mod Tests
use uvx.Prelude.{
  ℕ, ◌+◌, ◌*◌, ◌/◌, ◌%◌, Bool, true, false, ◌&&◌, List, [], ◌∷◌, ◌++◌, Option, none, some, ◌==◌,
  if◌then◌else◌,
}
use uvx.Memory.{
  Allocator, Block, Run, ok, fault, ◌>>=◌, ◌>>◌, assert, assertion, store, null_pointer,
  freed_pointer,
}

-- Calls of `uv_write`: the stream, the request, the data and its size.
pub data Event : Type 0 where
  uv_write : ℕ → ℕ → ℕ → ℕ → Event

-- The objects that were allocated and not freed, and the field `data` of a `uv_write_t`.
pub record Heap : Type 0 where
  pub live : ℕ → Bool
  pub data_of : ℕ → Option ℕ
  pub trace : List Event

abbrev pub set_at {ℓ} : {A : Type ℓ} → (ℕ → A) → ℕ → A → ℕ → A
set_at f a v b = if a == b then v else f b

-- `free`
pub free : Heap → Option ℕ → Run Heap
free h none = ok h
free h (some a) =
    if h.live a then ok (record h { live = set_at h.live a false }) else fault freed_pointer

-- `malloc(sizeof(uv_write_t))` returned `w`; the request is cleared, filled and handed to `uv_write`.
pub write_request : Heap → ℕ → ℕ → ℕ → Option ℕ → Run Heap
write_request h stream d size none = fault null_pointer
write_request h stream d size (some w) = ok (record {
  live = set_at h.live w true;
  data_of = set_at h.data_of w (some d);
  trace = h.trace ++ uv_write stream w d size ∷ [];
})

-- `status` is the result of `uv_write`.
pub uvx_send_to_stream : Heap → Option ℕ → Option ℕ → ℕ → Option ℕ → ℕ → Run (ℕ × Heap)
unfolding write_request
uvx_send_to_stream h (some stream) (some d) size w status = do
  h' ← write_request h stream d size w
  ok ((if status == 0 then 1 else 0), h')
uvx_send_to_stream h none d size w status = fault assertion
uvx_send_to_stream h (some stream) none size w status = fault assertion

-- `uvx_after_send_to_stream`, which reads `w->data`.
pub after_send_to_stream : Heap → ℕ → Run Heap
unfolding free
after_send_to_stream h w =
    if h.live w then (free h (h.data_of w) >>= λ h'. free h' (some w)) else fault freed_pointer

-- `pdata` and `size` of the `automem_t`.
pub uvx_send_mem : Heap → Option ℕ → ℕ → Option ℕ → Option ℕ → ℕ → Run (ℕ × Heap)
unfolding write_request
uvx_send_mem h (some pdata) size (some stream) w status = do
  h' ← write_request h stream pdata size w
  ok (status, h')
uvx_send_mem h none size stream w status = fault assertion
uvx_send_mem h (some pdata) size none w status = fault assertion

-- `uvx_after_send_mem`, where `automem_uninit` frees `pdata` unless it is null.
pub after_send_mem : Heap → ℕ → Run Heap
unfolding free
after_send_mem h w =
    if h.live w
    then (elim (h.data_of w) [ none ↦ ok h | some a ↦ free h (some a) ] >>= λ h'. free h' (some w))
    else fault freed_pointer

-- `uvx__on_alloc_buf`: `base` and `len` of the buffer that libuv reads into.
unfoldable pub on_alloc_buf : Allocator → ℕ → Option Block × ℕ
on_alloc_buf a suggested_size =
    let base = a.malloc suggested_size in (base, elim base [ none ↦ 0 | some _ ↦ suggested_size ])
