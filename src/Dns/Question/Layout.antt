-- ===== src/Dns/Question/Layout.antt =====
-- dns_build_request and the buffer that it writes.
use linux_command.Base.{
  ℕ, ◌+◌, ◌≤◌, ◌≡◌, refl, sym, ◌∙◌, ap, some, List, [], ◌++◌, append_assoc, ◌>>=◌, length,
  length-append, split_at, write_bytes, write_bytes-append, arith,
}
use linux_command.Dns.Question.{Header, Question, short_bytes, header_bytes, build_request}

-- A write right behind what is already written.
write_next :
    (pre bs ys : List ℕ) (at : ℕ)
    → at ≡ length pre
    → length bs ≤ length ys
    → (rest : List ℕ) × (write_bytes (pre ++ ys) at bs ≡ some ((pre ++ bs) ++ rest))
      × (length bs + length rest ≡ length ys)
write_next pre bs ys at e room =
    let (old, rest, cut, n, m) = split_at (length bs) ys room in
    (
      rest,
      ap (λ zs. write_bytes (pre ++ zs) at bs) cut
          ∙ write_bytes-append pre bs old rest at e (sym n)
          ∙ ap some (sym (append_assoc pre bs rest)),
      omega arith,
    )

-- In a buffer with room for it the request is the header of 12 bytes, the name, the type and the
-- class, one behind the other from the start; the result is the length of these.
pub build_request-layout :
    (h : Header) (q : Question) (request : List ℕ)
    → q.len ≡ length q.qname
    → q.len + 16 ≤ length request
    → (rest : List ℕ) × (build_request h q request
        ≡ some (
          length (((header_bytes h ++ q.qname) ++ short_bytes q.qtype) ++ short_bytes q.qclass),
          (((header_bytes h ++ q.qname) ++ short_bytes q.qtype) ++ short_bytes q.qclass) ++ rest,
        ))
unfolding build_request
build_request-layout h q request len room =
    let head = header_bytes h in
    let kind = short_bytes q.qtype in
    let (r₁, w₁, l₁) = write_next [] head request 0 refl (omega arith) in
    let (r₂, w₂, l₂) = write_next head q.qname r₁ 12 refl (omega arith) in
    let (r₃, w₃, l₃) =
      write_next (head ++ q.qname) kind r₂ (12 + q.len) (omega (arith, length-append head q.qname))
        (omega arith) in
    let (r₄, w₄, l₄) =
      write_next ((head ++ q.qname) ++ kind) (short_bytes q.qclass) r₃ (12 + q.len + 2)
        (omega (arith, length-append head q.qname, length-append (head ++ q.qname) kind))
        (omega arith) in
    (
      r₄,
      rw (w₁, ◌>>=◌)
          (rw (w₂, ◌>>=◌)
            (rw (w₃, ◌>>=◌)
              (rw (w₄, ◌>>=◌)
                (ap (λ n. some (n, (((head ++ q.qname) ++ kind) ++ short_bytes q.qclass) ++ r₄))
                  (omega (
                    arith,
                    length-append head q.qname,
                    length-append (head ++ q.qname) kind,
                    length-append ((head ++ q.qname) ++ kind) (short_bytes q.qclass),
                  )))))),
    )
