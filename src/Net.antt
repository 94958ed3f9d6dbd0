-- ===== src/Net.antt =====
-- What the servers see of the sockets layer, which is not part of the repository: the answers of
-- recv and accept are arguments of the handlers, and the calls that the handlers make are a log.
use linux_command.Base.{ℕ, List, [], ◌∷◌, Option, none, some, take}

-- EPOLLIN, EPOLLOUT and EPOLLIN | EPOLLET.
pub data Events : Type 0 where
  epollin epollout epollin_et : Events

-- The calls that a server makes, with the bytes that a send accepts.
pub data Call : Type 0 where
  ctl_add : ℕ → Events → Call
  ctl_mod : ℕ → Events → Call
  ctl_del : ℕ → Call
  close : ℕ → Call
  sent : ℕ → List ℕ → Call

-- What waits at a socket: some bytes, the end of the stream, or an error.
pub data Incoming : Type 0 where
  bytes : ℕ → List ℕ → Incoming
  eof : Incoming
  reset : Incoming

-- The bytes that recv copies into a buffer of `room` bytes, its count being their number;
-- `none` is the count -1.
unfoldable pub recv : Incoming → ℕ → Option (List ℕ)
recv (bytes b bs) room = some (take room (b ∷ bs))
recv eof room = some []
recv reset room = none
