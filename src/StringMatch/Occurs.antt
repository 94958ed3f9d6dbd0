-- ===== src/StringMatch/Occurs.antt =====
-- Where a pattern occurs in a text, and which occurrence is the first.
use linux_command.Base.{
  ℕ, zero, suc, ◌+◌, ◌≤◌, ◌<◌, ◌≡◌, sym, ◌∙◌, Option, none, some, List, true, false, get_elem?,
  get_elem?-bound, get_elem?-total, length, arith,
}
use native.Mathlib.Decide.{ℕ_discrete}
use linux_command.StringMatch.{no_match}

-- The first `n` bytes of the pattern stand in the text from `a` on.
abbrev pub Agrees : List ℕ → List ℕ → ℕ → ℕ → Type 0
Agrees T P a n = (k : ℕ) → k < n → get_elem? T (a + k) ≡ get_elem? P k

abbrev pub Occurs : List ℕ → List ℕ → ℕ → Type 0
Occurs S P a = Agrees S P a (length P)

-- No occurrence starts before `a`.
abbrev pub NoneBefore : List ℕ → List ℕ → ℕ → Type 0
NoneBefore S P a = (b : ℕ) → b < a → ¬ Occurs S P b

-- What a search for a pattern returns: the first occurrence, or `none` where there is none.
abbrev pub Finds : List ℕ → List ℕ → Option ℕ → Type 0
Finds S P none = (a : ℕ) → ¬ Occurs S P a
Finds S P (some a) = Occurs S P a × NoneBefore S P a

pub Agrees-le : (T P : List ℕ) (a m n : ℕ) → Agrees T P a n → m ≤ n → Agrees T P a m
Agrees-le T P a m n h le k lt = h k (omega arith)

-- One more byte.
pub Agrees-suc :
    (T P : List ℕ) (a n c : ℕ)
    → Agrees T P a n
    → get_elem? T (a + n) ≡ some c
    → get_elem? P n ≡ some c
    → Agrees T P a (n + 1)
Agrees-suc T P a n c h et ep k lt = elim (ℕ_discrete k n) [
  | yes e ↦ rw e (et ∙ sym ep)
  | no ne ↦ h k (omega arith)
]

-- An occurrence ends inside the text.
pub Occurs-le : (S P : List ℕ) (a : ℕ) → 0 < length P → Occurs S P a → a + length P ≤ length S
Occurs-le S P a pos h =
    let (k, e) = last (length P) pos in
    let (c, at) = get_elem?-total P k (omega arith) in
    omega (arith, get_elem?-bound S (a + k) (h k (omega arith) ∙ at))
  where
    last : (n : ℕ) → 0 < n → (k : ℕ) × (n ≡ k + 1)
    last zero lt = absurd (omega arith)
    last (suc k) lt = (k, omega arith)

pub no_match-short : (S P : List ℕ) → length S < length P → no_match S P ≡ true
unfolding no_match
no_match-short S P short = ground arith

pub no_match-fits : (S P : List ℕ) → 0 < length P → ¬ length S < length P → no_match S P ≡ false
unfolding no_match
no_match-fits S P pos fits = ground arith
