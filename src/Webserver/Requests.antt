-- ===== src/Webserver/Requests.antt =====
-- The requests of a client of webserver.c.
use linux_command.Base.{
  ◌⊎◌, inl, inr, ℕ, zero, suc, ◌+◌, ◌-◌, ◌≤◌, ◌<◌, ◌≡◌, refl, sym, ◌∙◌, ap, Option, some, List, [],
  ◌∷◌, ◌++◌, append-nil, append_assoc, ◌>>=◌, get_elem?, set, store-eq-set, length, length-append,
  take, get_elem?-bound, get_elem?-set_self, write_bytes, write_bytes-append, read_bytes,
  read_bytes-append, split_at, arith,
}
use native.Mathlib.Decide.{dec_lt}
use linux_command.Net.{epollin, epollout, Call, ctl_mod, ctl_del, close, sent, bytes, recv}
use linux_command.Webserver.{
  buffer_length, Conn, Server, log, page, http_request, http_response, set_event, respond,
  recv_count, recv_cb, send_cb,
}

-- The buffers have their size, and what was read is inside.
pub record IsReady (c : Conn) : Type 0 where
  pub read_size : length c.rbuffer ≡ buffer_length
  pub write_size : length c.wbuffer ≡ buffer_length

take_all : (n : ℕ) (xs : List ℕ) → length xs ≤ n → take n xs ≡ xs
take_all zero [] h = refl
take_all zero (x ∷ xs) h = absurd (omega arith)
take_all (suc n) [] h = refl
take_all (suc n) (x ∷ xs) h = ap (◌∷◌ x) (take_all n xs (omega arith))

-- A write anywhere inside returns an array of the same size.
write_bytes_inside :
    (xs bs : List ℕ) (at : ℕ)
    → at + length bs ≤ length xs
    → (ys : List ℕ) × (write_bytes xs at bs ≡ some ys) × (length ys ≡ length xs)
write_bytes_inside xs bs at h =
    let (front, back, cut, n, m) = split_at at xs (omega arith) in
    let (old, rest, cut', n', m') = split_at (length bs) back (omega arith) in
    (
      front ++ (bs ++ rest),
      rw (cut, cut') (write_bytes-append front bs old rest at (sym n) (sym n')),
      omega (arith, length-append front (bs ++ rest), length-append bs rest),
    )

write_front :
    (xs bs : List ℕ)
    → length bs ≤ length xs
    → (rest : List ℕ) × (write_bytes xs 0 bs ≡ some (bs ++ rest))
      × (length (bs ++ rest) ≡ length xs)
write_front xs bs h =
    let (old, rest, cut, n, m) = split_at (length bs) xs h in
    (
      rest,
      rw cut (write_bytes-append [] bs old rest 0 refl (sym n)),
      omega (arith, length-append bs rest),
    )

-- http_response leaves the page at the front of the buffer.
http_response-page :
    (c : Conn)
    → length c.wbuffer ≡ buffer_length
    → (w : List ℕ) × (http_response c ≡ some (record c { wbuffer = w; wlen = length page }))
      × (length w ≡ buffer_length)
      × (read_bytes w 0 (length page) ≡ some page)
unfolding http_response
http_response-page c e =
    let (rest, wrote, size) = write_front c.wbuffer (page ++ 0 ∷ []) (rw e small) in
    (
      (page ++ 0 ∷ []) ++ rest,
      rw (wrote, ◌>>=◌) refl,
      size ∙ e,
      ap (λ xs. read_bytes xs 0 (length page)) (append_assoc page (0 ∷ []) rest)
          ∙ read_bytes-append [] page ((0 ∷ []) ++ rest) 0 (length page) refl refl,
    )
  where
    small : length (page ++ 0 ∷ []) ≤ buffer_length
    small = unfold page in omega arith

-- One request that fits: the page is ready, and `rlen` has grown.
recv_cb-answers :
    (s : Server) (fd b : ℕ) (bs : List ℕ) (c : Conn)
    → get_elem? s.connlist fd ≡ some c
    → IsReady c
    → c.rlen + length (b ∷ bs) ≤ buffer_length
    → (s' : Server) × (c' : Conn) × (recv_cb s fd (bytes b bs) ≡ some s')
      × (s'.calls ≡ s.calls ++ ctl_mod fd epollout ∷ [])
      × (get_elem? s'.connlist fd ≡ some c')
      × IsReady c'
      × (c'.rlen ≡ c.rlen + length (b ∷ bs))
      × (read_bytes c'.wbuffer 0 c'.wlen ≡ some page)
unfolding recv_cb recv_count recv respond http_request set_event
recv_cb-answers s fd b bs c at r le =
    let whole = take_all (buffer_length - c.rlen) (b ∷ bs) (omega arith) in
    let (rbuf, w₁, n₁) =
      write_bytes_inside c.rbuffer (b ∷ bs) c.rlen (omega (arith, r.read_size)) in
    let c₁ : Conn = record c { rbuffer = rbuf; rlen = c.rlen + length (b ∷ bs) } in
    let (w, e₂, n₂, back) = http_response-page c₁ r.write_size in
    let c' : Conn = record c₁ { wbuffer = w; wlen = length page } in
    let inside = get_elem?-bound s.connlist fd at in
    (
      record s { connlist = set s.connlist fd c'; calls = s.calls ++ ctl_mod fd epollout ∷ [] },
      c',
      rw (at, ◌>>=◌)
          (rw whole (
            rw (w₁, ◌>>=◌)
              (rw (e₂, ◌>>=◌) (rw (store-eq-set s.connlist fd c' inside, ◌>>=◌) refl)))),
      refl,
      get_elem?-set_self s.connlist fd c' inside,
      record { read_size = n₁ ∙ r.read_size; write_size = n₂ },
      refl,
      back,
    )

-- A request and the writable event behind it, for each of the chunks that come.
pub serve : Server → ℕ → ℕ → List (ℕ × List ℕ) → Option Server
serve s fd room [] = some s
serve s fd room ((b, bs) ∷ rest) = do
  s₁ ← recv_cb s fd (bytes b bs)
  s₂ ← send_cb s₁ fd room
  serve s₂ fd room rest

abbrev pub total : List (ℕ × List ℕ) → ℕ
total [] = 0
total ((b, bs) ∷ rest) = length (b ∷ bs) + total rest

-- What the server does for each chunk.
abbrev pub answers : ℕ → ℕ → List (ℕ × List ℕ) → List Call
answers fd room [] = []
answers fd room (chunk ∷ rest) =
    ctl_mod fd epollout ∷ sent fd (take room page) ∷ ctl_mod fd epollin ∷ answers fd room rest

serve-answers :
    (chunks : List (ℕ × List ℕ)) (s : Server) (fd room : ℕ) (c : Conn)
    → get_elem? s.connlist fd ≡ some c
    → IsReady c
    → c.rlen + total chunks ≤ buffer_length
    → (s' : Server) × (c' : Conn) × (serve s fd room chunks ≡ some s')
      × (s'.calls ≡ s.calls ++ answers fd room chunks)
      × (get_elem? s'.connlist fd ≡ some c')
      × IsReady c'
      × (c'.rlen ≡ c.rlen + total chunks)
unfolding serve send_cb set_event
serve-answers [] s fd room c at r le = (s, c, refl, sym (append-nil s.calls), at, r, omega arith)
serve-answers ((b, bs) ∷ rest) s fd room c at r le =
    let (s₁, c₁, e₁, k₁, at₁, r₁, n₁, page₁) = recv_cb-answers s fd b bs c at r (omega arith) in
    let s₂ : Server = record s₁ {
      calls = (s₁.calls ++ sent fd (take room page) ∷ []) ++ ctl_mod fd epollin ∷ [];
    } in
    let (s₃, c₃, e₃, k₃, at₃, r₃, n₃) =
      serve-answers rest s₂ fd room c₁ at₁ r₁ (omega (arith, n₁)) in
    (
      s₃,
      c₃,
      rw (e₁, ◌>>=◌) (rw (at₁, ◌>>=◌) (rw (page₁, ◌>>=◌) e₃)),
      k₃ ∙ rw k₁ (simp append_assoc),
      at₃,
      r₃,
      omega (arith, n₁, n₃),
    )

-- A client with nothing read before sends chunks whose total is at most 1024 bytes, and each is
-- followed by a writable event at which the socket takes `room` bytes. The server answers each
-- chunk with the first `room` bytes of the page. If the total is 1024, then the next bytes, whatever
-- they are, make it drop the client.
pub serve_until_full :
    (chunks : List (ℕ × List ℕ)) (s : Server) (fd room : ℕ) (c : Conn)
    → get_elem? s.connlist fd ≡ some c
    → IsReady c
    → c.rlen ≡ 0
    → total chunks ≤ buffer_length
    → (s' : Server) × (serve s fd room chunks ≡ some s')
      × (s'.calls ≡ s.calls ++ answers fd room chunks)
      × ((total chunks < buffer_length)
          ⊎ ((b : ℕ) (bs : List ℕ)
              → recv_cb s' fd (bytes b bs) ≡ some (log s' (ctl_del fd ∷ close fd ∷ []))))
unfolding recv_cb recv_count recv
serve_until_full chunks s fd room c at r none_read le =
    let (s', c', e, k, at', r', n) = serve-answers chunks s fd room c at r (omega arith) in
    (
      s',
      e,
      k,
      elim (dec_lt (total chunks) buffer_length) [
        | yes lt ↦ inl lt
        | no full ↦
            let no_room : buffer_length - c'.rlen ≡ 0 = omega arith in
            inr (λ b bs. rw (at', ◌>>=◌) (rw no_room refl))
      ],
    )
