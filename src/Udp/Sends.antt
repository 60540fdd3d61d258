-- ===== src/Udp/Sends.antt =====
-- Datagrams are sent as they were when they were handed over.
use uvx.Prelude.{
  ℕ, zero, suc, ◌∷◌, append-nil, Bool-cases, inl, inr, ◌+◌, ◌≡◌, ◌≤◌, refl, sym, ap, ◌∙◌, subst,
  Bool, true, false, List, [], ◌++◌, Option, none, some, ◌==◌, if◌then◌else◌, length, take, drop,
  arith, leb, length-take,
}
use uvx.Memory.{Block, ok, ◌>>=◌, Returns, load, store}
use uvx.Address.{Sockaddr}
use uvx.Stream.{set_at}
use uvx.Udp.{Heap, udp_send, uvx_udp_send_to_addr, after_udp_send}
use uvx.Udp.Requests.{
  Use, unused, sending, lost, System, Move, send, sent, Enabled, handle, uses_after, after, turn,
  Reach, start, next,
}

abbrev pub held : Use → Option (List ℕ)
held unused = none
held (sending d) = some d
held (lost d) = some d

-- The bytes behind every request are its datagram.
abbrev Kept : Heap → (ℕ → Use) → Type 0
Kept h u = (a : ℕ) → h.behind a ≡ held (u a)

drop_all : (n : ℕ) (b : List ℕ) → length b ≤ n → drop n b ≡ []
drop_all zero [] h = refl
drop_all zero (c ∷ b) h = absurd (omega arith)
drop_all (suc n) [] h = refl
drop_all (suc n) (c ∷ b) h = drop_all n b (omega arith)

copy_whole :
    (payload fresh : Block) (n : ℕ)
    → length fresh ≡ n
    → n ≤ length payload
    → (load payload 0 n ≡ ok (take n payload))
      × (store fresh 0 (take n payload) ≡ ok (take n payload))
unfolding load store
copy_whole payload fresh n e h =
    let wide : length (take n payload) ≡ n = omega (arith, length-take n payload) in
    let some_room : leb (0 + n) (length payload) ≡ true = ground arith in
    let fits : leb (0 + length (take n payload)) (length fresh) ≡ true = ground (arith, wide) in
    let behind : drop (0 + length (take n payload)) fresh ≡ [] =
      drop_all _ fresh (omega (arith, wide)) in
    (
      rw some_room refl,
      rw fits (ap (λ q. ok (take n payload ++ q)) behind ∙ ap ok (append-nil (take n payload))),
    )

-- The heap after a datagram was handed over.
abbrev pub handed : Heap → Sockaddr → Block → ℕ → ℕ → Heap
handed h addr payload datalen req = record {
  behind = set_at h.behind req (some (take datalen payload));
  trace = h.trace ++ udp_send req addr datalen ∷ [];
}

pub send_run :
    (h : Heap) (addr : Sockaddr) (payload : Block) (datalen req : ℕ) (fresh : Block) (status : ℕ)
    → length fresh ≡ datalen
    → datalen ≤ length payload
    → uvx_udp_send_to_addr h addr payload datalen (some req) fresh status
      ≡ ok ((if status == 0 then 1 else 0), handed h addr payload datalen req)
unfolding uvx_udp_send_to_addr
send_run h addr payload datalen req fresh status e f =
    let (r1, r2) = copy_whole payload fresh datalen e f in rw (r1, ◌>>=◌, r2) refl

handle_sent :
    (h : Heap) (req : ℕ) (d : List ℕ)
    → h.behind req ≡ some d
    → handle (sent req) h ≡ ok (record h { behind = set_at h.behind req none })
unfolding handle after_udp_send
handle_sent h req d e = rw (handle, after_udp_send, e) refl

held_use : (d : List ℕ) (b : Bool) → held (if b then sending d else lost d) ≡ some d
held_use d true = refl
held_use d false = refl

set-Kept :
    (h : Heap) (u : ℕ → Use) (a : ℕ) (x : Use) (o : Option (List ℕ))
    → Kept h u
    → o ≡ held x
    → (b : ℕ) → set_at h.behind a o b ≡ held (set_at u a x b)
set-Kept h u a x o k e b = elim (Bool-cases (a == b)) [ inl f ↦ rw f e | inr f ↦ rw f (k b) ]

handle-Kept :
    (s : System) (m : Move)
    → Kept s.heap s.uses
    → Enabled m s
    → Returns (handle m s.heap) λ h. Kept h (uses_after m s.uses)
unfolding handle
handle-Kept s (send addr payload datalen req fresh status) k (_, e, f) = (
  handed s.heap addr payload datalen req,
  rw (send_run s.heap addr payload datalen req fresh status e f) refl,
  set-Kept s.heap s.uses req _ (some (take datalen payload)) k
      (sym (held_use (take datalen payload) (status == 0))),
)
handle-Kept s (sent req) k (d, e) = (
  record s.heap { behind = set_at s.heap.behind req none },
  handle_sent s.heap req d (k req ∙ ap held e),
  set-Kept s.heap s.uses req unused none k refl,
)

ok-injective : {a b : Heap} → ok a ≡ ok b → a ≡ b
ok-injective e = cc

Reach-Kept : {s : System} → Reach s → Kept s.heap s.uses
Reach-Kept start = λ a. refl
Reach-Kept (next {s} r (turn m e run)) =
    let (h, run', k) = handle-Kept s m (Reach-Kept r) e in
    subst (λ g. Kept g (uses_after m s.uses)) (ok-injective (sym run' ∙ run)) k

-- Whatever is sent and called back in a state that a program can come to, the handler ends normally: no
-- request is freed twice. Afterwards the bytes behind every request of libuv are the datagram as it
-- was handed over, a request whose callback ran is freed, and a refused one stays allocated.
pub datagrams_kept :
    {s : System} (m : Move)
    → Reach s
    → Enabled m s
    → Returns
        (handle m s.heap)
        λ h. Reach (after m s h) × ((a : ℕ) → h.behind a ≡ held (uses_after m s.uses a))
datagrams_kept {s} m r e =
    let (h, run, k) = handle-Kept s m (Reach-Kept r) e in (h, run, (next r (turn m e run), k))
