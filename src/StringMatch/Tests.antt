-- ===== src/StringMatch/Tests.antt =====
-- The searches on concrete texts.
use linux_command.Base.{ℕ, ◌≡◌, refl, Option, none, some, List, [], ◌∷◌, length, arith}
use linux_command.StringMatch.{
  no_match, bf_match, bf_loop, kmp_match, kmp_from, kmp_round, fall_back, build_from, build_next,
  rk_match, rk_from, window_hash, hash_from, base_pow, roll, bytes_eq, hash_step, char_value,
}
use linux_command.StringMatch.Occurs.{Finds}
use linux_command.StringMatch.Signed.{AllAscii}
use linux_command.Base.Int.{neg, negate, sub_nat, ◌+ℤ◌, ◌-ℤ◌, ◌*ℤ◌, rem, int_eq}
use linux_command.StringMatch.FallBack.{IsTable}
use linux_command.StringMatch.BruteForce.{bf_match-Finds}
use linux_command.StringMatch.Table.{build_next-IsTable}
use linux_command.StringMatch.Kmp.{kmp_match-Finds}
use linux_command.StringMatch.RabinKarp.{rk_match-Finds}
use linux_command.StringMatch.Agree.{searches_agree}

-- "abcababcabd" and "abcabd".
abbrev text : List ℕ
text = 97 ∷ 98 ∷ 99 ∷ 97 ∷ 98 ∷ 97 ∷ 98 ∷ 99 ∷ 97 ∷ 98 ∷ 100 ∷ []

abbrev pattern_bytes : List ℕ
pattern_bytes = 97 ∷ 98 ∷ 99 ∷ 97 ∷ 98 ∷ 100 ∷ []

bf_at_5 : bf_match text pattern_bytes ≡ some (some 5)
unfolding bf_match no_match bf_loop
bf_at_5 = refl

next_of_pattern : build_next pattern_bytes ≡ some (0 ∷ 0 ∷ 0 ∷ 1 ∷ 2 ∷ 0 ∷ [])
unfolding build_next build_from fall_back
next_of_pattern = refl

kmp_at_5 : kmp_match text pattern_bytes ≡ some (some 5)
unfolding kmp_match no_match build_next build_from kmp_from kmp_round fall_back
kmp_at_5 = refl

rk_at_5 : rk_match text pattern_bytes ≡ some (some 5)
unfolding rk_match no_match window_hash rk_from hash_from hash_step base_pow roll bytes_eq
    char_value rem int_eq neg negate sub_nat ◌+ℤ◌ ◌-ℤ◌ ◌*ℤ◌
rk_at_5 = refl

-- The signed bytes: the text has the pattern at 1, and rkMatch returns -1.
rk_misses : rk_match (120 ∷ 255 ∷ 97 ∷ []) (255 ∷ 97 ∷ []) ≡ some none
unfolding rk_match no_match window_hash rk_from hash_from hash_step base_pow roll bytes_eq
    char_value rem int_eq neg negate sub_nat ◌+ℤ◌ ◌-ℤ◌ ◌*ℤ◌
rk_misses = refl

text-AllAscii : AllAscii text
text-AllAscii = ground arith

bf_match-Finds_example :
    (r : Option ℕ) × (bf_match text pattern_bytes ≡ some r) × Finds text pattern_bytes r
bf_match-Finds_example = bf_match-Finds text pattern_bytes (omega arith)

build_next-IsTable_example :
    (next : List ℕ) × (build_next pattern_bytes ≡ some next)
    × IsTable pattern_bytes next (length pattern_bytes)
build_next-IsTable_example = build_next-IsTable pattern_bytes (omega arith)

kmp_match-Finds_example :
    (r : Option ℕ) × (kmp_match text pattern_bytes ≡ some r) × Finds text pattern_bytes r
kmp_match-Finds_example = kmp_match-Finds text pattern_bytes (omega arith)

rk_match-Finds_example :
    (r : Option ℕ) × (rk_match text pattern_bytes ≡ some r) × Finds text pattern_bytes r
rk_match-Finds_example = rk_match-Finds text pattern_bytes text-AllAscii (omega arith)

searches_agree_example :
    (kmp_match text pattern_bytes ≡ bf_match text pattern_bytes)
    × (rk_match text pattern_bytes ≡ bf_match text pattern_bytes)
searches_agree_example = searches_agree text pattern_bytes text-AllAscii
