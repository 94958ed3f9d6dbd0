-- ===== src/Uring/Pending.antt =====
-- The entries that are pending for a descriptor.
use linux_command.Base.{
  ℕ, zero, suc, ◌+◌, ◌≡◌, refl, sym, ◌∙◌, ap, inl, inr, Bool, false, none, some, List, [], ◌∷◌,
  ◌++◌, ◌==◌, if◌then◌else◌, get_elem?, some_inj, Option-cases, arith,
}
use mathlib.Core.Path.{subst}
use linux_command.Base.Int.{ℤ, pos, negsuc}
use linux_command.Uring.{
  EventType, read, write, accept, Sqe, Ring, set_recv_event, set_send_event, set_accept_event, Cqe,
  handle_read, handle_as, handle, remove_entry, complete, start_ring,
}

abbrev pub same_fd : ℤ → ℤ → Bool
same_fd (pos a) (pos b) = a == b
same_fd (negsuc a) (negsuc b) = a == b
same_fd (pos a) (negsuc b) = false
same_fd (negsuc a) (pos b) = false

abbrev pub is_for : ℤ → Sqe → ℕ
is_for fd e = if same_fd fd e.info.connfd then 1 else 0

pub pending_for : ℤ → List Sqe → ℕ
pending_for fd [] = 0
pending_for fd (e ∷ es) = is_for fd e + pending_for fd es

-- 1 where the entry `k` is an accept and its result is the descriptor.
abbrev accepts : ℤ → ℤ → EventType → ℕ
accepts fd res accept = if same_fd fd res then 1 else 0
accepts fd res read = 0
accepts fd res write = 0

abbrev accepted_at : ℤ → ℕ → ℤ → Ring → ℕ
accepted_at fd k res ring = elim (get_elem? ring.pending k) [
  | none ↦ 0
  | some e ↦ accepts fd res e.info.type
]

module _ (fd : ℤ) (k : ℕ) (res : ℤ) (ring : Ring) where
  accepted_none : get_elem? ring.pending k ≡ none → accepted_at fd k res ring ≡ 0
  accepted_none at = rw (accepted_at, at) refl

  accepted_some :
      (e : Sqe)
      → get_elem? ring.pending k ≡ some e
      → accepted_at fd k res ring ≡ accepts fd res e.info.type
  accepted_some e at = rw (accepted_at, at) refl

-- A run of completions, and how many of them accept the descriptor.
unfoldable pub run : ℤ → List (ℕ × ℤ) → Ring → Ring
run listenfd [] ring = ring
run listenfd ((k, res) ∷ es) ring = run listenfd es (complete listenfd k res ring)

pub accepted : ℤ → ℤ → List (ℕ × ℤ) → Ring → ℕ
accepted listenfd fd [] ring = 0
accepted listenfd fd ((k, res) ∷ es) ring =
    accepted_at fd k res ring + accepted listenfd fd es (complete listenfd k res ring)

pending_for-append :
    (fd : ℤ) (es : List Sqe) (e : Sqe)
    → pending_for fd (es ++ e ∷ []) ≡ pending_for fd es + is_for fd e
unfolding pending_for
pending_for-append fd [] e = omega arith
pending_for-append fd (x ∷ es) e = omega (arith, pending_for-append fd es e)

pending_for-remove_entry :
    (fd : ℤ) (k : ℕ) (es : List Sqe) (e : Sqe)
    → get_elem? es k ≡ some e
    → pending_for fd es ≡ pending_for fd (remove_entry k es) + is_for fd e
unfolding pending_for
pending_for-remove_entry fd k [] e at = absurd (cc at)
pending_for-remove_entry fd zero (x ∷ es) e at =
    ap (λ y. is_for fd y + pending_for fd es) (some_inj x e at) ∙ omega arith
pending_for-remove_entry fd (suc k) (x ∷ es) e at =
    omega (arith, pending_for-remove_entry fd k es e at)

-- An accept waits on the listener.
abbrev ListensAs : EventType → ℤ → ℤ → Type 0
ListensAs accept listenfd fd = fd ≡ listenfd
ListensAs read listenfd fd = Unit {0}
ListensAs write listenfd fd = Unit {0}

abbrev Listens : ℤ → List Sqe → Type 0
Listens listenfd [] = Unit {0}
Listens listenfd (e ∷ es) = ListensAs e.info.type listenfd e.info.connfd × Listens listenfd es

module _ (listenfd : ℤ) where
  Listens-append :
      (es : List Sqe) (e : Sqe)
      → Listens listenfd es
      → ListensAs e.info.type listenfd e.info.connfd
      → Listens listenfd (es ++ e ∷ [])
  Listens-append [] e l h = (h, tt)
  Listens-append (x ∷ es) e l h = (l.0, Listens-append es e l.1 h)

  Listens-remove_entry :
      (k : ℕ) (es : List Sqe) (e : Sqe)
      → get_elem? es k ≡ some e
      → Listens listenfd es
      → ListensAs e.info.type listenfd e.info.connfd × Listens listenfd (remove_entry k es)
  Listens-remove_entry k [] e at l = absurd (cc at)
  Listens-remove_entry zero (x ∷ es) e at l =
      (subst (λ y. ListensAs y.info.type listenfd y.info.connfd) (some_inj x e at) l.0, l.1)
  Listens-remove_entry (suc k) (x ∷ es) e at l =
      let (h, rest) = Listens-remove_entry k es e at l.1 in (h, (l.0, rest))

  handle_read-pending :
      (fd connfd bytes_read : ℤ) (ring : Ring)
      → pending_for fd (handle_read connfd bytes_read ring).pending
        ≡ pending_for fd ring.pending + (if same_fd fd connfd then 1 else 0)
  unfolding handle_read set_send_event
  handle_read-pending fd connfd (pos zero) ring = pending_for-append fd ring.pending _
  handle_read-pending fd connfd (pos (suc n)) ring = pending_for-append fd ring.pending _
  handle_read-pending fd connfd (negsuc n) ring = pending_for-append fd ring.pending _

  handle_read-Listens :
      (connfd bytes_read : ℤ) (ring : Ring)
      → Listens listenfd ring.pending
      → Listens listenfd (handle_read connfd bytes_read ring).pending
  unfolding handle_read set_send_event
  handle_read-Listens connfd (pos zero) ring l = Listens-append ring.pending _ l tt
  handle_read-Listens connfd (pos (suc n)) ring l = Listens-append ring.pending _ l tt
  handle_read-Listens connfd (negsuc n) ring l = Listens-append ring.pending _ l tt

  handle_as-pending :
      (fd : ℤ) (k : EventType) (cqe : Cqe) (ring : Ring)
      → ListensAs k listenfd cqe.info.connfd
      → pending_for fd (handle_as k listenfd cqe ring).pending
        ≡ pending_for fd ring.pending
          + (if same_fd fd cqe.info.connfd then 1 else 0)
          + accepts fd cqe.res k
  unfolding handle_as set_recv_event set_accept_event
  handle_as-pending fd accept cqe ring l =
      pending_for-append fd
        (ring.pending
          ++ record { info = record { connfd = listenfd; type = accept }; len = pos 0 } ∷ [])
        _
      ∙ ap (λ n. n + accepts fd cqe.res accept)
          (pending_for-append fd ring.pending _
            ∙ ap (λ c. pending_for fd ring.pending + (if same_fd fd c then 1 else 0)) (sym l))
  handle_as-pending fd read cqe ring l =
      handle_read-pending fd cqe.info.connfd cqe.res ring ∙ omega arith
  handle_as-pending fd write cqe ring l = pending_for-append fd ring.pending _ ∙ omega arith

  handle_as-Listens :
      (k : EventType) (cqe : Cqe) (ring : Ring)
      → Listens listenfd ring.pending
      → Listens listenfd (handle_as k listenfd cqe ring).pending
  unfolding handle_as set_recv_event set_accept_event
  handle_as-Listens accept cqe ring l = Listens-append _ _ (Listens-append ring.pending _ l refl) tt
  handle_as-Listens read cqe ring l = handle_read-Listens cqe.info.connfd cqe.res ring l
  handle_as-Listens write cqe ring l = Listens-append ring.pending _ l tt

  complete-pending :
      (fd : ℤ) (k : ℕ) (res : ℤ) (ring : Ring)
      → Listens listenfd ring.pending
      → (pending_for fd (complete listenfd k res ring).pending
          ≡ pending_for fd ring.pending + accepted_at fd k res ring)
        × Listens listenfd (complete listenfd k res ring).pending
  unfolding complete handle
  complete-pending fd k res ring l = elim (Option-cases (get_elem? ring.pending k)) [
    | inl e ↦ rw (complete, e) (omega (arith, accepted_none fd k res ring e), l)
    | inr (e, at) ↦
        let ring' : Ring = record ring { pending = remove_entry k ring.pending } in
        let cqe : Cqe = record { info = e.info; res = res } in
        let (h, rest) = Listens-remove_entry k ring.pending e at l in
        let count = handle_as-pending fd e.info.type cqe ring' h in
        let listens = handle_as-Listens e.info.type cqe ring' rest in
        rw (complete, at)
          (
            omega (
              arith,
              count,
              accepted_some fd k res ring e at,
              pending_for-remove_entry fd k ring.pending e at,
            ),
            listens,
          )
  ]

  run-pending :
      (fd : ℤ) (es : List (ℕ × ℤ)) (ring : Ring)
      → Listens listenfd ring.pending
      → pending_for fd (run listenfd es ring).pending
        ≡ pending_for fd ring.pending + accepted listenfd fd es ring
  unfolding run accepted
  run-pending fd [] ring l = omega arith
  run-pending fd ((k, res) ∷ es) ring l =
      let (count, l') = complete-pending fd k res ring l in
      omega (arith, count, run-pending fd es (complete listenfd k res ring) l')

  -- In every run from the start, what is pending for a descriptor is one entry for each accept that
  -- returned it, and one more if it is the listener: no end of a stream, no error and no close takes
  -- a connection out of the loop.
  pub run-pending_for :
      (fd : ℤ) (es : List (ℕ × ℤ))
      → pending_for fd (run listenfd es (start_ring listenfd)).pending
        ≡ (if same_fd fd listenfd then 1 else 0) + accepted listenfd fd es (start_ring listenfd)
  unfolding start_ring set_accept_event pending_for
  run-pending_for fd es = run-pending fd es (start_ring listenfd) (refl, tt) ∙ omega arith
