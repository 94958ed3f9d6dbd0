-- ===== src/Dns/Question.antt =====
-- The request of async_dns_client_noblock.c. A text is the list of its bytes, less the NUL. The
-- host is little-endian, as the machines that the program is built for.
pub mod Labels
pub mod Layout
use linux_command.Base.{
  ℕ, ◌+◌, ◌*◌, ◌/◌, ◌%◌, Option, some, List, [], ◌∷◌, ◌++◌, true, false, ◌==◌, ◌>>=◌, length, store,
  write_bytes,
}

-- struct dns_header, each field an unsigned short.
pub record Header : Type 0 where
  pub id : ℕ
  pub flags : ℕ
  pub qdcount : ℕ
  pub ancount : ℕ
  pub nscount : ℕ
  pub arcount : ℕ

-- struct dns_question; `qname` is the block that it points to.
pub record Question : Type 0 where
  pub len : ℕ
  pub qtype : ℕ
  pub qclass : ℕ
  pub qname : List ℕ

-- Swaps the two bytes of an unsigned short.
abbrev pub htons : ℕ → ℕ
htons x = (x % 256) * 256 + x / 256 % 256

-- How an unsigned short lies in memory.
abbrev pub short_bytes : ℕ → List ℕ
short_bytes x = x % 256 ∷ x / 256 % 256 ∷ []

-- dns_create_header, with what random() returned. The flags were cleared before the or.
unfoldable pub create_header : ℕ → Header
create_header random = record {
  id = random % 65536;
  flags = htons 0x0100;
  qdcount = htons 1;
  ancount = 0;
  nscount = 0;
  arcount = 0;
}

-- strtok skips empty tokens.
unfoldable pub flush : List ℕ → List (List ℕ) → List (List ℕ)
flush [] toks = toks
flush (c ∷ cs) toks = (c ∷ cs) ∷ toks

-- The tokens of strtok with the delimiter ".", `cur` being the bytes of the one that is read.
unfoldable pub tokens_from : List ℕ → List ℕ → List (List ℕ)
unfolding flush
tokens_from cur [] = flush cur []
tokens_from cur (c ∷ cs) = elim (c == b'.') [
  | true ↦ flush cur (tokens_from [] cs)
  | false ↦ tokens_from (cur ++ c ∷ []) cs
]

unfoldable pub tokens : List ℕ → List (List ℕ)
unfolding tokens_from
tokens hostname = tokens_from [] hostname

-- The loop of dns_create_question. strncpy copies the NUL too, which the next token overwrites.
unfoldable pub write_labels : List ℕ → ℕ → List (List ℕ) → Option (List ℕ)
write_labels block at [] = some block
write_labels block at (tok ∷ toks) = do
  b₁ ← store block at (length tok % 256)
  b₂ ← write_bytes b₁ (at + 1) (tok ++ 0 ∷ [])
  write_labels b₂ (at + 1 + length tok) toks

-- dns_create_question, with the block of strlen(hostname) + 2 bytes that malloc returned.
unfoldable pub create_question : List ℕ → List ℕ → Option Question
unfolding tokens write_labels
create_question block hostname = do
  qname ← write_labels block 0 (tokens hostname)
  some (record { len = length hostname + 2; qtype = htons 1; qclass = htons 1; qname = qname })

abbrev pub header_bytes : Header → List ℕ
header_bytes h =
    short_bytes h.id
    ++ (short_bytes h.flags
        ++ (short_bytes h.qdcount
            ++ (short_bytes h.ancount ++ (short_bytes h.nscount ++ short_bytes h.arcount))))

-- dns_build_request: the length of the request and the buffer. `qname` has `len` bytes.
unfoldable pub build_request : Header → Question → List ℕ → Option (ℕ × List ℕ)
build_request h q request = do
  r₁ ← write_bytes request 0 (header_bytes h)
  r₂ ← write_bytes r₁ 12 q.qname
  r₃ ← write_bytes r₂ (12 + q.len) (short_bytes q.qtype)
  r₄ ← write_bytes r₃ (12 + q.len + 2) (short_bytes q.qclass)
  some (q.len + 2 + 2 + 12, r₄)
