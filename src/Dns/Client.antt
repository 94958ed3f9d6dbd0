-- ===== src/Dns/Client.antt =====
-- The clients of async_dns_client_noblock.c: one that waits for its reply, and the asynchronous
-- one, whose thread waits for the replies and calls back. The socket layer's answers are arguments,
-- inet_ntop is the parameter `ntop`.
pub mod Request
use linux_command.Base.{
  ℕ, zero, suc, ◌+◌, Bool, Option, none, some, List, [], ◌∷◌, ◌++◌, true, false, ◌==◌, ◌>>=◌,
  length, take, replicate,
}
use linux_command.Dns.Question.{create_header, create_question, build_request}
use linux_command.Dns.Response.{Item, parse_response}

-- struct ep_arg; `cb` says which function the pointer holds.
pub record EpArg : Type 0 where
  pub sockfd : ℕ
  pub cb : ℕ

-- The calls that a client makes.
pub data DnsCall : Type 0 where
  sendto : ℕ → List ℕ → DnsCall
  epoll_add : ℕ → DnsCall
  epoll_del : ℕ → DnsCall
  close_sock : ℕ → DnsCall
  call_back : ℕ → List Item → DnsCall

-- The asynchronous client: the ep_args that its epoll instance holds, and the calls made.
pub record Client : Type 0 where
  pub waiting : List EpArg
  pub calls : List DnsCall

-- The request for a domain, in a cleared buffer of 1024 bytes: `random` is what random() returned,
-- `block` what malloc did.
unfoldable pub request_for : ℕ → List ℕ → List ℕ → Option (List ℕ)
request_for random block domain = do
  question ← create_question block domain
  (req_len, request) ← build_request (create_header random) question (replicate 1024 0)
  some (take req_len request)

-- What a commit does: exit(-1), or a return of 0 or -1, `ok` being false at -1.
pub data Commit : Type 0 where
  exited : Commit
  committed : Client → Bool → Commit

-- The end of dns_async_client_commit, with the request sent. `allocated` and `added` are the
-- successes of calloc and epoll_ctl.
pub keep_arg : Client → ℕ → ℕ → Bool → Bool → Commit
keep_arg c sockfd cb false added = committed c false
keep_arg c sockfd cb true false = committed c false
keep_arg c sockfd cb true true =
    committed
      (record {
        waiting = record { sockfd = sockfd; cb = cb } ∷ c.waiting;
        calls = c.calls ++ (epoll_add sockfd ∷ []);
      })
      true

-- dns_async_client_commit; the socket `none` is a negative descriptor.
pub async_commit : Client → Option ℕ → ℕ → List ℕ → List ℕ → ℕ → Bool → Bool → Option Commit
async_commit c none random block domain cb allocated added = some exited
async_commit c (some sockfd) random block domain cb allocated added = do
  request ← request_for random block domain
  some (
      keep_arg (record c { calls = c.calls ++ (sendto sockfd request ∷ []) }) sockfd cb allocated
        added)

-- Takes out of the list the ep_arg of a socket, the `data.ptr` of its event.
pub take_waiting : ℕ → List EpArg → Option (EpArg × List EpArg)
take_waiting sockfd [] = none
take_waiting sockfd (a ∷ as') = elim (a.sockfd == sockfd) [
  | true ↦ some (a, as')
  | false ↦ do (found, rest) ← take_waiting sockfd as'; some (found, a ∷ rest)
]

-- An epoll_wait of dns_async_client_proc fails with EINTR or EAGAIN or gives nothing, fails
-- otherwise, or gives the sockets that are ready, each with its reply.
pub data Wait : Type 0 where
  again broken : Wait
  ready : List (ℕ × List ℕ) → Wait

module _ (ntop : List ℕ → List ℕ) where
  -- The body of dns_async_client_proc's loop over the events, for an ep_arg: `buffer` is the array
  -- after recvfrom. The items and the ep_arg are freed at its end.
  pub handle_reply : ℕ → Client → ℕ → List ℕ → Option Client
  handle_reply fuel c sockfd buffer = do
    (data', rest) ← take_waiting sockfd c.waiting
    domain_list ← parse_response ntop fuel buffer
    some (record {
      waiting = rest;
      calls =
          c.calls
          ++ (call_back data'.cb domain_list
              ∷ epoll_del data'.sockfd
              ∷ close_sock data'.sockfd
              ∷ []);
    })

  pub handle_replies : ℕ → Client → List (ℕ × List ℕ) → Option Client
  handle_replies fuel c [] = some c
  handle_replies fuel c ((sockfd, buffer) ∷ rest) = do
    c' ← handle_reply fuel c sockfd buffer
    handle_replies fuel c' rest

  pub proc : ℕ → Client → List Wait → Option Client
  proc fuel c [] = some c
  proc fuel c (again ∷ waits) = proc fuel c waits
  proc fuel c (broken ∷ waits) = some c
  proc fuel c (ready replies ∷ waits) = do c' ← handle_replies fuel c replies; proc fuel c' waits

  -- dns_client_commit: recvfrom is called again and again until it gives some bytes, `none` being
  -- one that gives none; at the end of the list it would go on. The items are dropped.
  pub await_reply : ℕ → List (Option (List ℕ)) → Option (List Item)
  await_reply fuel [] = none
  await_reply fuel (none ∷ answers) = await_reply fuel answers
  await_reply fuel (some buffer ∷ answers) = parse_response ntop fuel buffer
