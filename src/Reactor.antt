-- ===== src/Reactor.antt =====
-- NetwokDesign/multi-io/reactor.c, the same file as mycode/reactor/reactor.c: an echo server on
-- epoll with a callback for each connection. `none` is an access outside an array or a call through
-- a null pointer. What is printed is left out.
pub mod Echo
mod Tests
use linux_command.Base.{
  ℕ, zero, suc, ◌+◌, ◌-◌, ◌%◌, Bool, true, false, Option, none, some, List, [], ◌∷◌, ◌++◌, ◌==◌,
  if◌then◌else◌, ◌>>=◌, get_elem?, store, length, take, replicate, write_bytes, read_bytes,
}
use linux_command.Net.{
  Events, epollin, epollout, Call, ctl_add, ctl_mod, ctl_del, close, sent, Incoming, recv,
}

abbrev pub buffer_length : ℕ
buffer_length = 512

-- RCALLBACK: the functions that a connection's pointers can hold.
pub data Callback : Type 0 where
  on_accept on_recv on_send : Callback

-- struct conn_item; `recv_t` is the union of two pointers, `none` the null pointer.
pub record Conn : Type 0 where
  pub fd : ℕ
  pub rbuffer : List ℕ
  pub rlen : ℕ
  pub wbuffer : List ℕ
  pub wlen : ℕ
  pub recv_t : Option Callback
  pub send_callback : Option Callback

-- The globals `connlist` and `zvoice_king`, and the log of the calls made.
pub record Reactor : Type 0 where
  pub connlist : List Conn
  pub zvoice_king : ℕ
  pub calls : List Call

abbrev pub log : Reactor → List Call → Reactor
log r cs = record r { calls = r.calls ++ cs }

-- flag: 1 add, 0 mod
pub set_event : Reactor → ℕ → Events → Bool → Reactor
set_event r fd event true = log r (ctl_add fd event ∷ [])
set_event r fd event false = log r (ctl_mod fd event ∷ [])

-- The connection that accept_cb sets up.
pub fresh_conn : ℕ → Conn
fresh_conn clientfd = record {
  fd = clientfd;
  rbuffer = replicate buffer_length 0;
  rlen = 0;
  wbuffer = replicate buffer_length 0;
  wlen = 0;
  recv_t = some on_recv;
  send_callback = some on_send;
}

-- accept_cb, with the result of accept and the time: `none` is a negative descriptor.
pub accept_cb : Reactor → Option ℕ → ℕ → Option Reactor
accept_cb r none now = some r
accept_cb r (some clientfd) now = do
  let added = set_event r clientfd epollin true
  connlist ← store added.connlist clientfd (fresh_conn clientfd)
  let king = if clientfd % 1000 == 999 then now else r.zvoice_king
  some (record added { connlist = connlist; zvoice_king = king })

-- recv_cb after its recv, with `rlen` counted up: memcpy of `rlen` bytes to the other buffer.
pub echo : Reactor → ℕ → Conn → ℕ → Option Reactor
echo r fd c rlen = do
  copied ← read_bytes c.rbuffer 0 rlen
  wbuffer ← write_bytes c.wbuffer 0 copied
  connlist ← store r.connlist fd (record c { wbuffer = wbuffer; wlen = rlen; rlen = 0 })
  some (set_event (record r { connlist = connlist }) fd epollout false)

-- recv_cb of the bytes that recv copied. At the count -1 `rlen` goes down by one, and below 0 it
-- is a huge size for memcpy.
pub recv_count : Reactor → ℕ → Conn → Option (List ℕ) → Option Reactor
recv_count r fd c (some []) = some (log r (ctl_del fd ∷ close fd ∷ []))
recv_count r fd c (some (b ∷ bs)) = do
  rbuffer ← write_bytes c.rbuffer c.rlen (b ∷ bs)
  echo r fd (record c { rbuffer = rbuffer }) (c.rlen + length (b ∷ bs))
recv_count r fd c none = if c.rlen == 0 then none else echo r fd c (c.rlen - 1)

pub recv_cb : Reactor → ℕ → Incoming → Option Reactor
recv_cb r fd incoming = do
  c ← get_elem? r.connlist fd
  recv_count r fd c (recv incoming (buffer_length - c.rlen))

-- send_cb, where the socket accepts `room` bytes. What it does not accept is dropped.
pub send_cb : Reactor → ℕ → ℕ → Option Reactor
send_cb r fd room = do
  c ← get_elem? r.connlist fd
  buffer ← read_bytes c.wbuffer 0 c.wlen
  some (set_event (log r (sent fd (take room buffer) ∷ [])) fd epollin false)

-- One entry of `events`, with what the sockets layer answers to the callback.
pub record Event : Type 0 where
  pub fd : ℕ
  pub readable : Bool
  pub writable : Bool
  pub client : Option ℕ
  pub now : ℕ
  pub incoming : Incoming
  pub room : ℕ

-- A call through one of the pointers.
pub call : Reactor → Option Callback → Event → Option Reactor
call r none e = none
call r (some on_accept) e = accept_cb r e.client e.now
call r (some on_recv) e = recv_cb r e.fd e.incoming
call r (some on_send) e = send_cb r e.fd e.room

-- The body of the loop over the events.
pub dispatch : Reactor → Event → Option Reactor
dispatch r e = do
  c ← get_elem? r.connlist e.fd
  if e.readable then call r c.recv_t e else if e.writable then call r c.send_callback e else some r

pub run : Reactor → List Event → Option Reactor
run r [] = some r
run r (e ∷ es) = do r' ← dispatch r e; run r' es

-- main, for each of its ports with what init_server returned: `none` is -1, the entry before the
-- array.
pub listen_on : Reactor → List (Option ℕ) → Option Reactor
listen_on r [] = some r
listen_on r (none ∷ rest) = none
listen_on r (some sockfd ∷ rest) = do
  c ← get_elem? r.connlist sockfd
  connlist ← store r.connlist sockfd (record c { fd = sockfd; recv_t = some on_accept })
  listen_on (set_event (record r { connlist = connlist }) sockfd epollin true) rest
