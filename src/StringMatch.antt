-- ===== src/StringMatch.antt =====
-- mycode/string_match: three searches for the first occurrence of a pattern P in a text S. A string
-- is the list of its bytes; the result -1 is `none`, under the `none` of an access outside a string or
-- an array, and of the end of the fuel.
pub mod Occurs
pub mod BruteForce
pub mod FallBack
pub mod Table
pub mod Kmp
pub mod Rolling
pub mod Signed
pub mod Window
pub mod RabinKarp
pub mod Agree
mod Tests
use linux_command.Base.{
  ℕ, zero, suc, ◌+◌, ◌-◌, ◌*◌, ◌%◌, Bool, true, false, ◌&&◌, ◌||◌, not, Option, none, some, List,
  [], ◌∷◌, ◌==◌, if◌then◌else◌, ◌>>=◌, ltb, leb, get_elem?, store, length, take, drop, replicate,
}
use linux_command.Base.Int.{ℤ, pos, negsuc, ◌+ℤ◌, ◌-ℤ◌, ◌*ℤ◌, rem, int_eq}

-- The test at the start of all three.
pub no_match : List ℕ → List ℕ → Bool
no_match S P = length P == 0 || ltb (length S) (length P)

-- The loop of bfMatch and the result behind it, a round for each unit of fuel.
pub bf_loop : ℕ → List ℕ → List ℕ → ℕ → ℕ → Option (Option ℕ)
bf_loop zero S P i j = none
bf_loop (suc fuel) S P i j =
    if ltb i (length S) && ltb j (length P)
    then (do
      a ← get_elem? S i
      b ← get_elem? P j
      elim (a == b) [
        | true ↦ bf_loop fuel S P (i + 1) (j + 1)
        | false ↦ bf_loop fuel S P (i - j + 1) 0
      ])
    else some (if j == length P then some (i - j) else none)

-- bfMatch. At each of the length S + 1 starts it goes at most once through the pattern.
pub bf_match : List ℕ → List ℕ → Option (Option ℕ)
bf_match S P = if no_match S P then some none else bf_loop ((length S + 1) * (length P + 1)) S P 0 0

-- `while (j > 0 && c != P[j]) j = next[j - 1];`, the loop that buildNext and kmpMatch share.
pub fall_back : ℕ → ℕ → List ℕ → List ℕ → ℕ → Option ℕ
fall_back zero c P next j = none
fall_back (suc fuel) c P next j = if j == 0 then some 0 else (do
  b ← get_elem? P j
  elim (c == b) [
    | true ↦ some j
    | false ↦ do f ← get_elem? next (j - 1); fall_back fuel c P next f
  ])

-- `n` rounds of the loop of buildNext from `i` on. The loop in a round lowers `j`.
pub build_from : ℕ → List ℕ → List ℕ → ℕ → ℕ → Option (List ℕ)
build_from zero P next i j = some next
build_from (suc n) P next i j = do
  c ← get_elem? P i
  j' ← fall_back (j + 1) c P next j
  b ← get_elem? P j'
  elim (c == b) [
    | true ↦ do next' ← store next i (j' + 1); build_from n P next' (i + 1) (j' + 1)
    | false ↦ do next' ← store next i 0; build_from n P next' (i + 1) j'
  ]

pub build_next : List ℕ → Option (List ℕ)
build_next P = build_from (length P - 1) P (replicate (length P) 0) 1 0

-- The end of a round of kmpMatch, with the number of bytes that match now.
pub kmp_round : (ℕ → Option (Option ℕ)) → List ℕ → ℕ → ℕ → Option (Option ℕ)
kmp_round next_round P i j = elim (j == length P) [
  | true ↦ some (some (i + 1 - length P))
  | false ↦ next_round j
]

-- `n` rounds of the loop of kmpMatch from `i` on.
pub kmp_from : ℕ → List ℕ → List ℕ → List ℕ → ℕ → ℕ → Option (Option ℕ)
kmp_from zero S P next i j = some none
kmp_from (suc n) S P next i j = do
  c ← get_elem? S i
  j' ← fall_back (j + 1) c P next j
  b ← get_elem? P j'
  kmp_round (kmp_from n S P next (i + 1)) P i (if c == b then j' + 1 else j')

pub kmp_match : List ℕ → List ℕ → Option (Option ℕ)
kmp_match S P = elim (no_match S P) [
  | true ↦ some none
  | false ↦ do next ← build_next P; kmp_from (length S) S P next 0 0
]

-- rkMatch. The hashes are less than 10^9 + 7 above and below 0, so no long long overflows.
abbrev pub hash_base : ℕ
hash_base = 911382629

abbrev pub hash_mod : ℕ
hash_mod = 1000000007

-- static_cast<long long>(c), where char is signed.
pub char_value : ℕ → ℤ
char_value c = if ltb c 128 then pos c else negsuc (255 - c)

pub hash_step : ℤ → ℕ → ℤ
hash_step h c = rem (h *ℤ pos hash_base +ℤ char_value c) hash_mod

pub hash_from : ℤ → List ℕ → ℤ
hash_from h [] = h
hash_from h (c ∷ cs) = hash_from (hash_step h c) cs

-- The loop over the first window, `n` rounds from `i` on.
pub window_hash : ℕ → List ℕ → ℕ → ℤ → Option ℤ
window_hash zero S i h = some h
window_hash (suc n) S i h = do c ← get_elem? S i; window_hash n S (i + 1) (hash_step h c)

pub base_pow : ℕ → ℕ → ℕ
base_pow zero p = p
base_pow (suc n) p = base_pow n (p * hash_base % hash_mod)

-- The hash of the next window: without the byte `c` on the left, with `d` on the right.
pub roll : ℕ → ℤ → ℕ → ℕ → ℤ
roll pow h c d =
    hash_step (rem (h -ℤ rem (char_value c *ℤ pos pow) hash_mod +ℤ pos hash_mod) hash_mod) d

-- `==` on strings.
pub bytes_eq : List ℕ → List ℕ → Bool
bytes_eq [] [] = true
bytes_eq [] (y ∷ ys) = false
bytes_eq (x ∷ xs) [] = false
bytes_eq (x ∷ xs) (y ∷ ys) = x == y && bytes_eq xs ys

-- `n` rounds of the loop over the windows from `i` on; only the last has no next window.
pub rk_from : ℕ → List ℕ → List ℕ → ℕ → ℤ → ℕ → ℤ → Option (Option ℕ)
rk_from zero S P pow hash_p i h = some none
rk_from (suc n) S P pow hash_p i h =
    elim (int_eq h hash_p && bytes_eq (take (length P) (drop i S)) P) [
      | true ↦ some (some i)
      | false ↦ elim (ltb i (length S - length P)) [
        | true ↦ do
          c ← get_elem? S i
          d ← get_elem? S (i + length P)
          rk_from n S P pow hash_p (i + 1) (roll pow h c d)
        | false ↦ rk_from n S P pow hash_p (i + 1) h
      ]
    ]

pub rk_match : List ℕ → List ℕ → Option (Option ℕ)
rk_match S P = elim (no_match S P) [
  | true ↦ some none
  | false ↦ do
    h ← window_hash (length P) S 0 (pos 0)
    rk_from (length S - length P + 1) S P (base_pow (length P - 1) 1) (hash_from (pos 0) P) 0 h
]
