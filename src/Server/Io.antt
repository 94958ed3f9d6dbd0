-- ===== src/Server/Io.antt =====
-- The loops of server_mulport_epoll.c that read and write a socket. What recv, poll and send answer
-- round after round is a list; at its end a loop would still be waiting, which is `none`.
pub mod Bounds
pub mod Sending
use linux_command.Base.{
  ℕ, zero, suc, ◌+◌, ◌-◌, Bool, true, false, Option, none, some, List, [], ◌∷◌, ◌++◌, ◌==◌,
  if◌then◌else◌, ltb, length, take, drop,
}

abbrev pub enotconn : ℕ
enotconn = 107

abbrev pub etimedout : ℕ
etimedout = 110

abbrev pub eintr : ℕ
eintr = 4

-- A recv: some bytes that came, EAGAIN, EWOULDBLOCK or EINTR, another errno, or the end.
pub data Recv : Type 0 where
  got : ℕ → List ℕ → Recv
  again : Recv
  failed : ℕ → Recv
  closed : Recv

-- A poll: POLLHUP, EINTR, another errno, no event in time, or an event.
pub data Poll : Type 0 where
  hup interrupted timeout ready : Poll
  broken : ℕ → Poll

-- errno != 0 ? errno : EINTR
abbrev pub errno_or : ℕ → ℕ
errno_or errno = if errno == 0 then eintr else errno

-- ret_code and the bytes that were stored.
pub record Received : Type 0 where
  pub ret_code : ℕ
  pub stored : List ℕ

-- The end of a round of nRecv without bytes: the code it ends with, or the one that it goes on with.
pub data Verdict : Type 0 where
  stop go_on : ℕ → Verdict

unfoldable pub after_poll : ℕ → Poll → Verdict
after_poll code hup = stop enotconn
after_poll code interrupted = go_on code
after_poll code (broken errno) = go_on (errno_or errno)
after_poll code timeout = stop etimedout
after_poll code ready = go_on code

-- After a recv that failed with another errno the loop goes on to poll, too.
unfoldable pub conclude : (ℕ → Option Received) → List ℕ → Verdict → Option Received
conclude next stored (stop code) = some (record { ret_code = code; stored = stored })
conclude next stored (go_on code) = next code

-- nRecv from some round on, with `left` bytes to go; left_bytes is an int, and all calls start it at
-- 128.
unfoldable pub recv_loop : List (Recv × Poll) → ℕ → ℕ → List ℕ → Option Received
recv_loop rounds zero code stored = some (record { ret_code = code; stored = stored })
recv_loop [] (suc left) code stored = none
recv_loop ((got b bs, poll) ∷ rounds) (suc left) code stored =
    recv_loop rounds (suc left - length (take (suc left) (b ∷ bs))) code
      (stored ++ take (suc left) (b ∷ bs))
recv_loop ((closed, poll) ∷ rounds) (suc left) code stored =
    some (record { ret_code = enotconn; stored = stored })
recv_loop ((again, poll) ∷ rounds) (suc left) code stored =
    conclude (λ c. recv_loop rounds (suc left) c stored) stored (after_poll code poll)
recv_loop ((failed errno, poll) ∷ rounds) (suc left) code stored =
    conclude (λ c. recv_loop rounds (suc left) c stored) stored (after_poll (errno_or errno) poll)

unfoldable pub n_recv : List (Recv × Poll) → ℕ → Option Received
n_recv rounds len = recv_loop rounds len 0 []

-- What nSend returned, `none` for -1, and the bytes that went out.
pub record Sent : Type 0 where
  pub result : Option ℕ
  pub out : List ℕ

-- One round of nSend is a poll and the number of bytes that send takes, 0 for a send that fails.
-- A `continue` goes to the test at the end of the loop. `out` is what the sends have taken.
unfoldable pub send_loop : List (Poll × ℕ) → List ℕ → ℕ → List ℕ → Option Sent
send_loop [] buffer wrote out = none
send_loop ((hup, n) ∷ rounds) buffer wrote out = some (record { result = none; out = out })
send_loop ((broken errno, n) ∷ rounds) buffer wrote out = some (record { result = none; out = out })
send_loop ((timeout, n) ∷ rounds) buffer wrote out = some (record { result = none; out = out })
send_loop ((interrupted, n) ∷ rounds) buffer wrote out =
    let rest = send_loop rounds buffer wrote out in
    if ltb wrote (length buffer) then rest else some (record { result = some wrote; out = out })
send_loop ((ready, n) ∷ rounds) buffer wrote out =
    let piece = take n (drop wrote buffer) in
    let rest = send_loop rounds buffer (wrote + length piece) (out ++ piece) in
    if length piece == 0
    then some (record { result = some wrote; out = out })
    else if ltb (wrote + length piece) (length buffer)
    then rest
    else some (record { result = some (wrote + length piece); out = out ++ piece })

unfoldable pub n_send : List (Poll × ℕ) → List ℕ → Option Sent
n_send rounds buffer = send_loop rounds buffer 0 []
