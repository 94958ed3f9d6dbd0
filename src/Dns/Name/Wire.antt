-- ===== src/Dns/Name/Wire.antt =====
-- The wire form of a name, and one round of dns_parse_name at a label of it.
use linux_command.Base.{
  if◌then◌else◌, Bool-cases, inl, inr, ℕ, zero, suc, ◌+◌, ◌<◌, ◌≡◌, refl, ◌∙◌, ap, some, List, [],
  ◌∷◌, ◌++◌, append_assoc, false, ◌==◌, ◌>>=◌, length, length-append, get_elem?, get_elem?-append,
  read_bytes, read_bytes-append, write_bytes, arith,
}
use native.Mathlib.Decide.{ℕ_discrete}
use linux_command.Dns.Name.{is_pointer, dot_after, parse_name}

-- What a label of a name may be: not empty, and short enough not to look like a pointer.
abbrev pub IsLabel : List ℕ → Type 0
IsLabel l = (0 < length l) × (length l < 192)

abbrev pub AllLabels : List (List ℕ) → Type 0
AllLabels [] = Unit {0}
AllLabels (l ∷ ls) = IsLabel l × AllLabels ls

-- The wire form of a name: each label behind its length, and a zero.
abbrev pub encode : List (List ℕ) → List ℕ
encode [] = 0 ∷ []
encode (l ∷ ls) = length l ∷ (l ++ encode ls)

abbrev pub dotted_tail : List (List ℕ) → List ℕ
dotted_tail [] = []
dotted_tail (l ∷ ls) = b'.' ∷ (l ++ dotted_tail ls)

-- The text of a name: its labels with dots between.
abbrev pub dotted : List ℕ → List (List ℕ) → List ℕ
dotted l ls = l ++ dotted_tail ls

-- How many bytes below `bound` look like a pointer.
pub pointers_below : ℕ → ℕ
unfolding is_pointer
pointers_below zero = 0
pointers_below (suc bound) = pointers_below bound + (if is_pointer bound then 1 else 0)

pub is_pointer-none :
    (byte bound : ℕ) → pointers_below bound ≡ 0 → byte < bound → is_pointer byte ≡ false
unfolding pointers_below
is_pointer-none byte zero e lt = absurd (omega arith)
is_pointer-none byte (suc bound) e lt = elim (ℕ_discrete byte bound) [
  | yes same ↦ rw same (elim (Bool-cases (is_pointer bound)) [
    | inl is ↦ absurd (omega (arith, rw is at e))
    | inr not_one ↦ not_one
  ])
  | no ne ↦ is_pointer-none byte bound (omega arith) (omega arith)
]

-- A length byte below 192 is no pointer.
pub is_pointer-below : (x : ℕ) → x < 192 → is_pointer x ≡ false
unfolding pointers_below
is_pointer-below x lt = is_pointer-none x 192 refl lt

-- One round of the loop at a label.
pub label_round :
    (fuel : ℕ) (chunk : List ℕ) (ptr : ℕ) (out : List ℕ) (len : ℕ) (l copied out' : List ℕ)
    (len' : ℕ)
    → IsLabel l
    → get_elem? chunk ptr ≡ some (length l)
    → read_bytes chunk (ptr + 1) (length l) ≡ some l
    → write_bytes out len l ≡ some copied
    → dot_after chunk (ptr + 1 + length l) copied (len + length l) ≡ some (out', len')
    → parse_name (suc fuel) chunk ptr out len ≡ parse_name fuel chunk (ptr + 1 + length l) out' len'
unfolding parse_name
label_round fuel chunk ptr out len l copied out' len' il e r w d =
    rw (e, ◌>>=◌)
      (rw (not_zero, is_pointer-below (length l) il.1)
        (rw (r, ◌>>=◌) (rw (w, ◌>>=◌) (rw (d, ◌>>=◌) refl))))
  where
    not_zero : (length l == 0) ≡ false
    not_zero = ground arith

pub end_round :
    (fuel : ℕ) (chunk : List ℕ) (ptr : ℕ) (out : List ℕ) (len : ℕ)
    → get_elem? chunk ptr ≡ some 0
    → parse_name (suc fuel) chunk ptr out len ≡ some (out, len)
unfolding parse_name
end_round fuel chunk ptr out len e = rw (e, ◌>>=◌) refl

-- Where the parts of one encoded label stand.
pub label_at :
    (pre l rest : List ℕ)
    → (get_elem? (pre ++ (length l ∷ (l ++ rest))) (length pre) ≡ some (length l))
      × (read_bytes (pre ++ (length l ∷ (l ++ rest))) (length pre + 1) (length l) ≡ some l)
label_at pre l rest = (
  ap (get_elem? (pre ++ (length l ∷ (l ++ rest)))) (omega arith)
      ∙ get_elem?-append pre (length l ∷ (l ++ rest)) 0,
  rw (append_assoc pre (length l ∷ []) (l ++ rest)) at (
      read_bytes-append (pre ++ length l ∷ []) l rest (length pre + 1) (length l)
        (omega (arith, length-append pre (length l ∷ []))) refl),
)

pub after_label :
    (pre l : List ℕ) (c : ℕ) (rest : List ℕ)
    → get_elem? (pre ++ (length l ∷ (l ++ (c ∷ rest)))) (length pre + 1 + length l) ≡ some c
after_label pre l c rest =
    ap (get_elem? (pre ++ (length l ∷ (l ++ (c ∷ rest))))) place
    ∙ get_elem?-append pre (length l ∷ (l ++ (c ∷ rest))) (suc (length l + 0))
    ∙ get_elem?-append l (c ∷ rest) 0
  where
    place : length pre + 1 + length l ≡ length pre + suc (length l + 0)
    place = omega arith
