-- ===== src/Dns/Name.antt =====
-- dns_parse_name of async_dns_client_noblock.c, over a buffer of bytes and an output array.
pub mod Wire
pub mod Roundtrip
use Prim.Native.Nat.{bit_and}
use linux_command.Base.{
  ℕ, zero, suc, ◌+◌, Option, none, some, List, [], ◌∷◌, Bool, true, false, ◌==◌, ◌>>=◌, get_elem?,
  read_bytes, write_bytes,
}

pub is_pointer : ℕ → Bool
is_pointer byte = bit_and byte 0xC0 == 0xC0

-- The rest of the round that copied a label of `flag` bytes: a dot unless the name ends.
pub dot_after : List ℕ → ℕ → List ℕ → ℕ → Option (List ℕ × ℕ)
dot_after chunk ptr out len = do
  peek ← get_elem? chunk ptr
  elim (peek == 0) [
    | true ↦ some (out, len)
    | false ↦ do dotted ← write_bytes out len (b'.' ∷ []); some (dotted, len + 1)
  ]

-- One round for each unit of fuel; a pointer's recursive call is the next round, after which the
-- loop breaks. `pos` is `out + *len` at each round. `none` is an access outside an array, or the
-- end of the fuel: two names that point at one another are followed for ever.
pub parse_name : ℕ → List ℕ → ℕ → List ℕ → ℕ → Option (List ℕ × ℕ)
parse_name zero chunk ptr out len = none
parse_name (suc fuel) chunk ptr out len = do
  flag ← get_elem? chunk ptr
  elim (flag == 0) [
    | true ↦ some (out, len)
    | false ↦ elim (is_pointer flag) [
      | true ↦ do n ← get_elem? chunk (ptr + 1); parse_name fuel chunk n out len
      | false ↦ do
        label ← read_bytes chunk (ptr + 1) flag
        copied ← write_bytes out len label
        (out', len') ← dot_after chunk (ptr + 1 + flag) copied (len + flag)
        parse_name fuel chunk (ptr + 1 + flag) out' len'
    ]
  ]
