-- ===== src/Server/Loop.antt =====
-- The event loop of server_mulport_epoll.c: main accepts clients on its listening sockets, and
-- hands the data of a client to the thread pool or, after `nRun` is set, reads and answers it itself.
pub mod Reply
pub mod Conserve
use linux_command.Base.{
  ℕ, zero, suc, ◌-◌, Bool, true, false, ◌||◌, Option, none, some, List, [], ◌∷◌, ◌++◌, ◌==◌,
  if◌then◌else◌, ltb, ◌>>=◌, length, replicate, take, c_string,
}
use linux_command.Server.Io.{Recv, Poll, Received, n_recv, Sent, n_send, enotconn}
use linux_command.Server.Pool.{Pool, Action, init, step, run, add_job}
use linux_command.Base.Int.{ℤ, pos, incr, decr}

abbrev pub max_buffer : ℕ
max_buffer = 128

abbrev pub max_thread : ℕ
max_thread = 80

abbrev pub max_port : ℕ
max_port = 100

-- The calls on the client's sockets. `client_added` is the non-blocking socket with
-- EPOLLIN | EPOLLET | EPOLLOUT.
pub data ServerCall : Type 0 where
  listening : ℕ → ServerCall
  client_added : ℕ → ServerCall
  replied : ℕ → List ℕ → ServerCall
  closed_fd : ℕ → ServerCall

-- The globals `curfds` and `nRun`, the work queue and the calls made. A waiting job is the
-- descriptor in its client_t.
pub record ServerState : Type 0 where
  pub curfds : ℤ
  pub n_run : Bool
  pub workqueue : Pool
  pub calls : List ServerCall

abbrev pub log_call : ServerState → ServerCall → ServerState
log_call s c = record s { calls = s.calls ++ (c ∷ []) }

unfoldable pub starts_with_a : List ℕ → Bool
starts_with_a [] = false
starts_with_a (b ∷ bs) = b == b'a'

-- The rest of client_data_process after nRecv: strlen looks for a NUL in the array of 128 bytes,
-- `none` is a read behind its end.
pub respond : ServerState → ℕ → List (Poll × ℕ) → Received → List ℕ → Option ServerState
respond s fd rounds r [] = some (
    if r.ret_code == enotconn
    then log_call (record s { curfds = decr s.curfds }) (closed_fd fd)
    else s)
respond s fd rounds r (b ∷ bs) =
    let reply = (do
      text ← c_string ((b ∷ bs) ++ replicate (max_buffer - length (b ∷ bs)) 0)
      sent ← n_send rounds text
      some (log_call s (replied fd sent.out))) in
    if s.n_run || starts_with_a (b ∷ bs) then reply else some s

-- client_data_process, with what the socket answers to the rounds of nRecv and of nSend.
pub client_data_process :
    ServerState → ℕ → List (Recv × Poll) → List (Poll × ℕ) → Option ServerState
client_data_process s fd ins outs = do r ← n_recv ins max_buffer; respond s fd outs r r.stored

-- The job of the pool does the same to the descriptor in its client_t, which it then frees.
pub client_job : ServerState → ℕ → List (Recv × Poll) → List (Poll × ℕ) → Option ServerState
client_job s job ins outs = client_data_process s job ins outs

-- listenfd: the first of the listening sockets that is `fd`, or 0.
unfoldable pub listenfd : ℕ → List ℕ → ℕ
listenfd fd [] = 0
listenfd fd (x ∷ fds) = if fd == x then x else listenfd fd fds

-- main is running, or returned a code.
pub data Outcome : Type 0 where
  serving : ServerState → Outcome
  returned : ℕ → Outcome

-- A listening socket is ready; accept returned a descriptor or -1.
unfoldable pub accept_client : ServerState → Option ℕ → Outcome
accept_client s none = returned 4
accept_client s (some clientfd) = serving (
    log_call (record s { curfds = incr s.curfds; n_run = s.n_run || over s.curfds })
      (client_added clientfd))
  where
    -- curfds > 1000 * 1000
    over : ℤ → Bool
    over (pos n) = ltb 1000000 n
    over _ = false

-- An entry of `events`, with what accept, recv and send answer.
pub record Ready : Type 0 where
  pub fd : ℕ
  pub client : Option ℕ
  pub ins : List (Recv × Poll)
  pub outs : List (Poll × ℕ)

-- The body of the loop over the events.
unfoldable pub handle_ready : List ℕ → ServerState → Ready → Option Outcome
handle_ready fds s e =
    if listenfd e.fd fds == 0 then data_ready else some (accept_client s e.client)
  where
    data_ready : Option Outcome
    data_ready =
        if s.n_run
        then (do s' ← client_data_process s e.fd e.ins e.outs; some (serving s'))
        else (do q ← step s.workqueue (add_job e.fd); some (serving (record s { workqueue = q })))

-- One pass over the events of epoll_wait. Behind each event stand the steps that the threads of the
-- pool take before the next one, the mutex being free again.
unfoldable pub serve_ready : List ℕ → ServerState → List (Ready × List Action) → Option Outcome
serve_ready fds s [] = some (serving s)
serve_ready fds s ((e, steps) ∷ es) = do
  o ← handle_ready fds s e
  elim o [
    | returned code ↦ some (returned code)
    | serving s' ↦ do q ← run s'.workqueue steps; serve_ready fds (record s' { workqueue = q }) es
  ]

-- The start of main: what socket, bind and listen answer for each port. `none` is a failure.
pub record Port : Type 0 where
  pub socket : Option ℕ
  pub bound : Bool
  pub listens : Bool

pub open_port : ServerState → List ℕ → ℕ → Bool → Bool → Outcome
open_port s fds sockfd false listens = returned 2
open_port s fds sockfd true false = returned 3
open_port s fds sockfd true true = serving (log_call s (listening sockfd))

pub open_ports : ServerState → List ℕ → List Port → Outcome × List ℕ
open_ports s fds [] = (serving s, fds)
open_ports s fds (p ∷ ps) = elim p.socket [
  | none ↦ (returned 1, fds)
  | some sockfd ↦ elim (open_port s fds sockfd p.bound p.listens) [
    | returned code ↦ (returned code, fds)
    | serving s' ↦ open_ports s' (fds ++ (sockfd ∷ [])) ps
  ]
]

-- threadpool_init, which drops the result.
pub threadpool_init : ℕ → Pool
threadpool_init able = (init max_thread able).0

-- main up to its loop: the thread pool, then the ports.
pub start_server : ℕ → List Port → Outcome × List ℕ
start_server able ports =
    open_ports
      (record { curfds = pos 1; n_run = false; workqueue = threadpool_init able; calls = [] }) []
      (take max_port ports)
