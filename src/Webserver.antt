-- ===== src/Webserver.antt =====
-- NetwokDesign/multi-io/webserver.c: reactor.c with a fixed page for every request. `none` is an
-- access outside an array or a call through a null pointer. What is printed is left out, and so is
-- `resource`, which no function uses.
pub mod Requests
mod Tests
use Prim.Native.Char.{code}
use Prim.Native.String
use Prim.Native.String.{String}
use linux_command.Base.{
  ℕ, zero, suc, ◌+◌, ◌-◌, Bool, true, false, Option, none, some, List, [], ◌∷◌, ◌++◌, ◌==◌,
  if◌then◌else◌, ◌>>=◌, get_elem?, store, length, take, replicate, write_bytes, read_bytes,
}
use linux_command.Net.{
  Events, epollin, epollout, Call, ctl_add, ctl_mod, ctl_del, close, sent, Incoming, recv,
}

abbrev pub buffer_length : ℕ
buffer_length = 1024

pub data Callback : Type 0 where
  on_accept on_recv on_send : Callback

-- struct conn_item
pub record Conn : Type 0 where
  pub fd : ℕ
  pub rbuffer : List ℕ
  pub rlen : ℕ
  pub wbuffer : List ℕ
  pub wlen : ℕ
  pub recv_t : Option Callback
  pub send_callback : Option Callback

pub record Server : Type 0 where
  pub connlist : List Conn
  pub calls : List Call

abbrev pub log : Server → List Call → Server
log s cs = record s { calls = s.calls ++ cs }

abbrev pub codes : String → List ℕ
codes String.[] = []
codes (String.◌∷◌ first rest) = code first ∷ codes rest

abbrev pub line : String → List ℕ
line s = codes s ++ 13 ∷ 10 ∷ []

-- The head of the reply of http_response, and its body.
abbrev pub page_head : List ℕ
page_head =
    line "HTTP/1.1 200 OK"
    ++ (line "Accept-Ranges: bytes"
        ++ (line "Content-Length: 82"
            ++ (line "Content-Type: text/html"
                ++ (line "Date: Sat, 06 Aug 2023 13:16:46 GMT" ++ 13 ∷ 10 ∷ []))))

abbrev pub page_body : List ℕ
page_body =
    line "<html><head><title>0voice.king</title></head><body><h1>King</h1></body></html>"
    ++ 13 ∷ 10 ∷ []

unfoldable pub page : List ℕ
page = page_head ++ page_body

-- http_request does nothing.
pub http_request : Conn → Conn
http_request c = c

-- sprintf writes the text and a NUL, and returns the length of the text.
pub http_response : Conn → Option Conn
http_response c = do
  wbuffer ← write_bytes c.wbuffer 0 (page ++ 0 ∷ [])
  some (record c { wbuffer = wbuffer; wlen = length page })

pub set_event : Server → ℕ → Events → Bool → Server
set_event s fd event true = log s (ctl_add fd event ∷ [])
set_event s fd event false = log s (ctl_mod fd event ∷ [])

-- The connection that accept_cb sets up.
pub fresh_conn : ℕ → Conn
fresh_conn clientfd = record {
  fd = clientfd;
  rbuffer = replicate buffer_length 0;
  rlen = 0;
  wbuffer = replicate buffer_length 0;
  wlen = 0;
  recv_t = some on_recv;
  send_callback = some on_send;
}

pub accept_cb : Server → Option ℕ → Option Server
accept_cb s none = some s
accept_cb s (some clientfd) = do
  let added = set_event s clientfd epollin true
  connlist ← store added.connlist clientfd (fresh_conn clientfd)
  some (record added { connlist = connlist })

-- recv_cb after its recv, with `rlen` counted: nothing takes it back to 0.
pub respond : Server → ℕ → Conn → Option Server
respond s fd c = do
  answered ← http_response (http_request c)
  connlist ← store s.connlist fd answered
  some (set_event (record s { connlist = connlist }) fd epollout false)

-- recv_cb of the bytes that recv copied. At the count -1 `rlen` goes down by one; below 0, which is
-- a fault here, the next recv writes before the buffer.
pub recv_count : Server → ℕ → Conn → Option (List ℕ) → Option Server
recv_count s fd c (some []) = some (log s (ctl_del fd ∷ close fd ∷ []))
recv_count s fd c (some (b ∷ bs)) = do
  rbuffer ← write_bytes c.rbuffer c.rlen (b ∷ bs)
  respond s fd (record c { rbuffer = rbuffer; rlen = c.rlen + length (b ∷ bs) })
recv_count s fd c none = if c.rlen == 0 then none else respond s fd (record c { rlen = c.rlen - 1 })

pub recv_cb : Server → ℕ → Incoming → Option Server
recv_cb s fd incoming = do
  c ← get_elem? s.connlist fd
  recv_count s fd c (recv incoming (buffer_length - c.rlen))

pub send_cb : Server → ℕ → ℕ → Option Server
send_cb s fd room = do
  c ← get_elem? s.connlist fd
  buffer ← read_bytes c.wbuffer 0 c.wlen
  some (set_event (log s (sent fd (take room buffer) ∷ [])) fd epollin false)

-- One entry of `events`, with what the sockets layer answers to the callback.
pub record Event : Type 0 where
  pub fd : ℕ
  pub readable : Bool
  pub writable : Bool
  pub client : Option ℕ
  pub incoming : Incoming
  pub room : ℕ

pub call : Server → Option Callback → Event → Option Server
call s none e = none
call s (some on_accept) e = accept_cb s e.client
call s (some on_recv) e = recv_cb s e.fd e.incoming
call s (some on_send) e = send_cb s e.fd e.room

-- The body of the loop over the events.
pub dispatch : Server → Event → Option Server
dispatch s e = do
  c ← get_elem? s.connlist e.fd
  if e.readable then call s c.recv_t e else if e.writable then call s c.send_callback e else some s

-- main, with the descriptor of the socket that listens.
pub start : Server → ℕ → Option Server
start s sockfd = do
  c ← get_elem? s.connlist sockfd
  connlist ← store s.connlist sockfd (record c { fd = sockfd; recv_t = some on_accept })
  some (set_event (record s { connlist = connlist }) sockfd epollin true)
