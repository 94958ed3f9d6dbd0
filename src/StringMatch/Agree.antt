-- ===== src/StringMatch/Agree.antt =====
-- The three searches side by side.
use linux_command.Base.{ℕ, ◌≡◌, refl, sym, ◌∙◌, ap, Option, none, some, List, [], ◌∷◌, arith}
use native.Mathlib.Decide.{dec_lt}
use linux_command.StringMatch.{no_match, bf_match, kmp_match, rk_match}
use linux_command.StringMatch.Occurs.{Finds}
use linux_command.StringMatch.Signed.{AllAscii}
use linux_command.StringMatch.BruteForce.{bf_match-Finds}
use linux_command.StringMatch.Kmp.{kmp_match-Finds}
use linux_command.StringMatch.RabinKarp.{rk_match-Finds}

Finds-unique : (S P : List ℕ) (r q : Option ℕ) → Finds S P r → Finds S P q → r ≡ q
Finds-unique S P none none f g = refl
Finds-unique S P none (some b) f g = absurd (f b g.0)
Finds-unique S P (some a) none f g = absurd (g a f.0)
Finds-unique S P (some a) (some b) f g = elim (dec_lt a b) [
  | yes less ↦ absurd (g.1 a less f.0)
  | no more ↦ elim (dec_lt b a) [
    | yes less ↦ absurd (f.1 b less g.0)
    | no same ↦ ap some (omega arith)
  ]
]

empty_pattern : (S : List ℕ) → (kmp_match S [] ≡ bf_match S []) × (rk_match S [] ≡ bf_match S [])
unfolding kmp_match rk_match bf_match no_match
empty_pattern S = (refl, refl)

-- kmpMatch and rkMatch return what bfMatch returns, for every text whose bytes are all below 128 and
-- every pattern.
pub searches_agree :
    (S P : List ℕ) → AllAscii S → (kmp_match S P ≡ bf_match S P) × (rk_match S P ≡ bf_match S P)
searches_agree S [] ascii = empty_pattern S
searches_agree S (p ∷ ps) ascii =
    let P = p ∷ ps in
    let (a, bf, f) = bf_match-Finds S P (omega arith) in
    let (b, kmp, g) = kmp_match-Finds S P (omega arith) in
    let (c, rk, h) = rk_match-Finds S P ascii (omega arith) in
    (
      kmp ∙ ap some (Finds-unique S P b a g f) ∙ sym bf,
      rk ∙ ap some (Finds-unique S P c a h f) ∙ sym bf,
    )
