-- ===== src/Reactor/Echo.antt =====
-- The events of a client of reactor.c.
use linux_command.Base.{
  ℕ, ◌+◌, ◌%◌, ◌≤◌, ◌<◌, ◌≡◌, ◌↔◌, refl, sym, ◌∙◌, ap, true, false, none, some, List, [], ◌∷◌, ◌++◌,
  append_assoc, ◌==◌, if◌then◌else◌, ◌>>=◌, get_elem?, set, store-eq-set, length, take, length-take,
  length-replicate, get_elem?-bound, get_elem?-set_self, read_bytes, write_bytes_start, arith,
}
use linux_command.Net.{
  epollin, epollout, Call, ctl_add, ctl_mod, sent, Incoming, bytes, eof, reset, recv,
}
use linux_command.Reactor.{
  buffer_length, on_recv, on_send, Conn, Reactor, set_event, fresh_conn, accept_cb, echo,
  recv_count, recv_cb, send_cb, Event, call, dispatch,
}

-- Both buffers have their size, nothing is left to read, and what is to be sent fits.
pub record IsReady (c : Conn) : Type 0 where
  pub read_size : length c.rbuffer ≡ buffer_length
  pub write_size : length c.wbuffer ≡ buffer_length
  pub nothing_left : c.rlen ≡ 0
  pub fits : c.wlen ≤ buffer_length

-- The connection of an accepted client.
pub record IsClient (c : Conn) : Type 0 where
  pub ready : IsReady c
  pub receives : c.recv_t ≡ some on_recv
  pub sends : c.send_callback ≡ some on_send

-- A state that differs at one connection alone.
pub record Changes (r : Reactor) (fd : ℕ) (c : Conn) (cs : List Call) (r' : Reactor) : Type 0 where
  pub conns : r'.connlist ≡ set r.connlist fd c
  pub calls : r'.calls ≡ r.calls ++ cs
  pub king : r'.zvoice_king ≡ r.zvoice_king

recv_cb-echo :
    (r : Reactor) (fd b : ℕ) (bs : List ℕ) (c : Conn)
    → get_elem? r.connlist fd ≡ some c
    → IsClient c
    → (r' : Reactor) × (c' : Conn) × (recv_cb r fd (bytes b bs) ≡ some r')
      × Changes r fd c' (ctl_mod fd epollout ∷ []) r'
      × IsClient c'
      × (read_bytes c'.wbuffer 0 c'.wlen ≡ some (take buffer_length (b ∷ bs)))
unfolding recv_cb recv_count recv echo set_event
recv_cb-echo r fd b bs c at cl =
    let data_ : List ℕ = take buffer_length (b ∷ bs) in
    let short : length data_ ≤ buffer_length = omega (arith, length-take buffer_length (b ∷ bs)) in
    let (rbuf, w₁, n₁, r₁) =
      write_bytes_start c.rbuffer data_ (omega (arith, cl.ready.read_size)) in
    let (wbuf, w₂, n₂, r₂) =
      write_bytes_start c.wbuffer data_ (omega (arith, cl.ready.write_size)) in
    let c' : Conn = record c { rbuffer = rbuf; wbuffer = wbuf; wlen = length data_; rlen = 0 } in
    let count : 0 + length data_ ≡ length data_ = omega arith in
    let stored = store-eq-set r.connlist fd c' (get_elem?-bound r.connlist fd at) in
    (
      record r { connlist = set r.connlist fd c'; calls = r.calls ++ ctl_mod fd epollout ∷ [] },
      c',
      rw (at, ◌>>=◌)
          (rw cl.ready.nothing_left (
            rw (w₁, ◌>>=◌) (rw count (rw (r₁, ◌>>=◌) (rw (w₂, ◌>>=◌) (rw (stored, ◌>>=◌) refl)))))),
      record { conns = refl; calls = refl; king = refl },
      record {
        ready = record {
          read_size = n₁ ∙ cl.ready.read_size;
          write_size = n₂ ∙ cl.ready.write_size;
          nothing_left = refl;
          fits = short;
        };
        receives = cl.receives;
        sends = cl.sends;
      },
      r₂,
    )

send_cb-sent :
    (r : Reactor) (fd room : ℕ) (c : Conn) (bs : List ℕ)
    → get_elem? r.connlist fd ≡ some c
    → read_bytes c.wbuffer 0 c.wlen ≡ some bs
    → send_cb r fd room
      ≡ some
          (record r { calls = (r.calls ++ sent fd (take room bs) ∷ []) ++ ctl_mod fd epollin ∷ [] })
unfolding send_cb set_event
send_cb-sent r fd room c bs at e = rw (at, ◌>>=◌) (rw (e, ◌>>=◌) refl)

dispatch-recv :
    (r : Reactor) (e : Event) (c : Conn)
    → get_elem? r.connlist e.fd ≡ some c
    → c.recv_t ≡ some on_recv
    → e.readable ≡ true
    → dispatch r e ≡ recv_cb r e.fd e.incoming
unfolding dispatch call
dispatch-recv r e c at p h = rw (at, ◌>>=◌) (rw h (rw p refl))

dispatch-send :
    (r : Reactor) (e : Event) (c : Conn)
    → get_elem? r.connlist e.fd ≡ some c
    → c.send_callback ≡ some on_send
    → e.readable ≡ false
    → e.writable ≡ true
    → dispatch r e ≡ send_cb r e.fd e.room
unfolding dispatch call
dispatch-send r e c at p h w = rw (at, ◌>>=◌) (rw h (rw w (rw p refl)))

-- On an accepted client with nothing left over, a readable event with some bytes, and then a
-- writable one at which the socket takes `room` bytes, both return. Between them the server asks
-- to write, sends the first `room` of the first 512 bytes that came, in their order, and asks to
-- read again; the client is ready for the next round, and no other connection has changed.
pub echo_round_trip :
    (r : Reactor) (e₁ e₂ : Event) (b : ℕ) (bs : List ℕ) (c : Conn)
    → get_elem? r.connlist e₁.fd ≡ some c
    → IsClient c
    → e₁.readable ≡ true
    → e₁.incoming ≡ bytes b bs
    → e₂.fd ≡ e₁.fd
    → e₂.readable ≡ false
    → e₂.writable ≡ true
    → (r₁ r₂ : Reactor) × (c' : Conn) × (dispatch r e₁ ≡ some r₁)
      × (dispatch r₁ e₂ ≡ some r₂)
      × (r₂.calls
          ≡ r.calls
            ++ ctl_mod e₁.fd epollout
              ∷ sent e₁.fd (take e₂.room (take buffer_length (b ∷ bs)))
              ∷ ctl_mod e₁.fd epollin
              ∷ [])
      × (r₂.connlist ≡ set r.connlist e₁.fd c')
      × IsClient c'
echo_round_trip r e₁ e₂ b bs c at cl rd inc same nrd wr =
    let (r₁, c', step, ch, cl', kept) = recv_cb-echo r e₁.fd b bs c at cl in
    let at' : get_elem? r₁.connlist e₂.fd ≡ some c' =
      rw (same, ch.conns)
        (get_elem?-set_self r.connlist e₁.fd c' (get_elem?-bound r.connlist e₁.fd at)) in
    let first = dispatch-recv r e₁ c at cl.receives rd ∙ ap (recv_cb r e₁.fd) inc ∙ step in
    let second =
      dispatch-send r₁ e₂ c' at' cl'.sends nrd wr ∙ send_cb-sent r₁ e₂.fd e₂.room c' _ at' kept in
    (r₁, _, c', first, second, rw (same, ch.calls) (simp append_assoc), ch.conns, cl')

recv_cb-none :
    (r : Reactor) (fd : ℕ) (inc : Incoming) (c : Conn)
    → get_elem? r.connlist fd ≡ some c
    → IsClient c
    → (recv_cb r fd inc ≡ none) ↔ (inc ≡ reset)
recv_cb-none r fd (bytes b bs) c at cl =
    let (r', c', step, _, _, _) = recv_cb-echo r fd b bs c at cl in
    ((λ h. cc (sym step ∙ h)), λ h. cc)
recv_cb-none r fd eof c at cl =
    unfold recv_cb recv_count recv in (λ h. cc (sym (rw (at, ◌>>=◌) at h)), λ h. cc)
recv_cb-none r fd reset c at cl =
    unfold recv_cb recv_count recv in
    ((λ h. refl), λ h. rw (at, ◌>>=◌) (rw cl.ready.nothing_left refl))

-- At a readable event on an accepted client with nothing left over the server faults exactly when
-- recv fails.
pub dispatch_faults_iff :
    (r : Reactor) (e : Event) (c : Conn)
    → get_elem? r.connlist e.fd ≡ some c
    → IsClient c
    → e.readable ≡ true
    → (dispatch r e ≡ none) ↔ (e.incoming ≡ reset)
dispatch_faults_iff r e c at cl rd =
    rw (dispatch-recv r e c at cl.receives rd) (recv_cb-none r e.fd e.incoming c at cl)

-- accept_cb with a descriptor inside the table returns; what it sets up is a client with nothing
-- left over, watched for reading, and no other connection has changed.
pub accept_cb-IsClient :
    (r : Reactor) (clientfd now : ℕ)
    → clientfd < length r.connlist
    → (r' : Reactor) × (c : Conn) × (accept_cb r (some clientfd) now ≡ some r')
      × (r'.calls ≡ r.calls ++ ctl_add clientfd epollin ∷ [])
      × (r'.connlist ≡ set r.connlist clientfd c)
      × IsClient c
      × (c.fd ≡ clientfd)
unfolding accept_cb set_event fresh_conn
accept_cb-IsClient r clientfd now lt = (
  record r {
    connlist = set r.connlist clientfd (fresh_conn clientfd);
    zvoice_king = if clientfd % 1000 == 999 then now else r.zvoice_king;
    calls = r.calls ++ ctl_add clientfd epollin ∷ [];
  },
  fresh_conn clientfd,
  rw (store-eq-set r.connlist clientfd (fresh_conn clientfd) lt, ◌>>=◌) refl,
  refl,
  refl,
  record {
    ready = record {
      read_size = length-replicate {A = ℕ} 512 0;
      write_size = length-replicate {A = ℕ} 512 0;
      nothing_left = refl;
      fits = omega arith;
    };
    receives = refl;
    sends = refl;
  },
  refl,
)
