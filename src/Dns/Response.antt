-- ===== src/Dns/Response.antt =====
-- dns_parse_response of async_dns_client_noblock.c. inet_ntop is the parameter `ntop`.
use linux_command.Base.{
  ℕ, zero, suc, ◌+◌, ◌*◌, Option, none, some, List, [], ◌∷◌, ◌++◌, true, false, ◌==◌, if◌then◌else◌,
  ◌>>=◌, get_elem?, read_bytes, c_string, replicate,
}
use linux_command.Dns.Name.{parse_name}

-- struct dns_item
pub record Item : Type 0 where
  pub domain : List ℕ
  pub ip : List ℕ

-- ntohs(*(unsigned short*)ptr)
unfoldable pub read_short : List ℕ → ℕ → Option ℕ
read_short buffer ptr = do
  hi ← get_elem? buffer ptr
  lo ← get_elem? buffer (ptr + 1)
  some (hi * 256 + lo)

-- `while (1) { flag = ptr[0]; ptr += flag + 1; if (flag == 0) break; }`
pub skip_name : ℕ → List ℕ → ℕ → Option ℕ
skip_name zero buffer ptr = none
skip_name (suc fuel) buffer ptr = do
  flag ← get_elem? buffer ptr
  elim (flag == 0) [ true ↦ some (ptr + 1) | false ↦ skip_name fuel buffer (ptr + (flag + 1)) ]

unfoldable pub skip_questions : ℕ → List ℕ → ℕ → ℕ → Option ℕ
skip_questions fuel buffer zero ptr = some ptr
skip_questions fuel buffer (suc querys) ptr = do
  after ← skip_name fuel buffer ptr
  skip_questions fuel buffer querys (after + 4)

abbrev pub cname_type : ℕ
cname_type = 0x05

abbrev pub host_type : ℕ
host_type = 0x01

abbrev blank : List ℕ
blank = replicate 128 0

module _ (ntop : List ℕ → List ℕ) where
  -- The data of an A record: with four bytes it is an item of the list.
  read_host : List ℕ → ℕ → ℕ → List ℕ → Option (List Item)
  read_host buffer ptr datalen aname =
      if datalen == 4
      then (do
        netip ← read_bytes buffer ptr 4
        domain ← c_string aname
        some (record { domain = domain; ip = ntop netip } ∷ []))
      else some []

  -- The data of a record: where it ends, and the items that it gives. A type that is neither
  -- CNAME nor A leaves `ptr` at its data.
  pub read_data : ℕ → List ℕ → ℕ → ℕ → ℕ → List ℕ → Option (ℕ × List Item)
  unfolding read_host
  read_data fuel buffer type ptr datalen aname =
      if type == cname_type
      then (do cname ← parse_name fuel buffer ptr blank 0; some (ptr + datalen, []))
      else if type == host_type
      then (do items ← read_host buffer ptr datalen aname; some (ptr + datalen, items))
      else some (ptr, [])

  -- One round of the loop over the answers. The name is taken to be a pointer: two bytes.
  pub parse_answer : ℕ → List ℕ → ℕ → Option (ℕ × List Item)
  parse_answer fuel buffer ptr = do
    (aname, len) ← parse_name fuel buffer ptr blank 0
    type ← read_short buffer (ptr + 2)
    ttl ← read_short buffer (ptr + 2 + 4)
    datalen ← read_short buffer (ptr + 2 + 4 + 4)
    read_data fuel buffer type (ptr + 2 + 4 + 4 + 2) datalen aname

  unfoldable pub parse_answers : ℕ → List ℕ → ℕ → ℕ → Option (List Item)
  parse_answers fuel buffer zero ptr = some []
  parse_answers fuel buffer (suc answers) ptr = do
    (after, items) ← parse_answer fuel buffer ptr
    rest ← parse_answers fuel buffer answers after
    some (items ++ rest)

  -- dns_parse_response, where calloc returns a block: the `cnt` items of the list.
  unfoldable pub parse_response : ℕ → List ℕ → Option (List Item)
  parse_response fuel buffer = do
    querys ← read_short buffer 4
    answers ← read_short buffer 6
    ptr ← skip_questions fuel buffer querys 12
    parse_answers fuel buffer answers ptr
