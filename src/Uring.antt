-- ===== src/Uring.antt =====
-- mycode/io_uring/io_uring.c. liburing is not part of the repository: what it does is that an entry
-- which is pending completes, with a result. The buffer, which is one for all connections, is left out.
-- At most 20 entries are taken in a round, so that none of the 4096 is missing.
pub mod Pending
mod Tests
use linux_command.Base.{
  ℕ, zero, suc, ◌+◌, Bool, true, false, Option, none, some, List, [], ◌∷◌, ◌++◌, ◌==◌,
  if◌then◌else◌, get_elem?,
}
use linux_command.Base.Int.{ℤ, pos, negsuc}

-- READ, WRITE and ACCEPT.
pub data EventType : Type 0 where
  read write accept : EventType

pub record ConnInfo : Type 0 where
  pub connfd : ℤ
  pub type : EventType

-- An entry of the submission queue: its user data, and the length that it asks for.
pub record Sqe : Type 0 where
  pub info : ConnInfo
  pub len : ℤ

-- The entries that have not completed, and the descriptors that were closed.
pub record Ring : Type 0 where
  pub pending : List Sqe
  pub closed : List ℤ

submit : ConnInfo → ℤ → Ring → Ring
submit ci len ring = record ring { pending = ring.pending ++ record { info = ci; len = len } ∷ [] }

pub set_recv_event : ℤ → ℤ → Ring → Ring
unfolding submit
set_recv_event fd len ring = submit (record { connfd = fd; type = read }) len ring

pub set_send_event : ℤ → ℤ → Ring → Ring
unfolding submit
set_send_event fd len ring = submit (record { connfd = fd; type = write }) len ring

pub set_accept_event : ℤ → Ring → Ring
unfolding submit
set_accept_event fd ring = submit (record { connfd = fd; type = accept }) (pos 0) ring

-- A completion: the user data of its entry, and the result.
pub record Cqe : Type 0 where
  pub info : ConnInfo
  pub res : ℤ

pub handle_read : ℤ → ℤ → Ring → Ring
handle_read connfd (pos zero) ring =
    set_send_event connfd (pos zero) (record ring { closed = connfd ∷ ring.closed })
handle_read connfd bytes_read ring = set_send_event connfd bytes_read ring

handle_as : EventType → ℤ → Cqe → Ring → Ring
handle_as accept listenfd cqe ring =
    set_recv_event cqe.res (pos 1024) (set_accept_event listenfd ring)
handle_as read listenfd cqe ring = handle_read cqe.info.connfd cqe.res ring
handle_as write listenfd cqe ring = set_recv_event cqe.info.connfd (pos 1024) ring

pub handle : ℤ → Cqe → Ring → Ring
unfolding handle_as
handle listenfd cqe ring = handle_as cqe.info.type listenfd cqe ring

pub start_ring : ℤ → Ring
start_ring listenfd = set_accept_event listenfd (record { pending = []; closed = [] })

abbrev pub remove_entry : ℕ → List Sqe → List Sqe
remove_entry k [] = []
remove_entry zero (e ∷ es) = es
remove_entry (suc k) (e ∷ es) = e ∷ remove_entry k es

-- The entry number `k` completes with a result; nothing happens where there is none.
pub complete : ℤ → ℕ → ℤ → Ring → Ring
complete listenfd k res ring = elim (get_elem? ring.pending k) [
  | none ↦ ring
  | some e ↦
      handle listenfd (record { info = e.info; res = res })
        (record ring { pending = remove_entry k ring.pending })
]
