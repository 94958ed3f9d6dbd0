-- ===== src/StringMatch/BruteForce.antt =====
-- bfMatch and the first occurrence.
use linux_command.Base.{
  ℕ, zero, suc, ◌+◌, ◌-◌, ◌*◌, ◌≤◌, ◌<◌, ◌≡◌, refl, sym, ◌∙◌, ap, inl, inr, true, false, ◌&&◌,
  Option, none, some, List, ◌==◌, if◌then◌else◌, ◌>>=◌, Bool-cases, ==_iff, ◌⊎◌, some_inj, ltb,
  get_elem?, get_elem?-total, length, arith,
}
use native.Mathlib.Decide.{dec_lt}
use linux_command.StringMatch.{bf_loop, bf_match}
use linux_command.StringMatch.Occurs.{
  Agrees, Occurs, NoneBefore, Finds, Agrees-suc, Occurs-le, no_match-short, no_match-fits,
}

-- A byte that differs rules the start out.
pub NoneBefore-suc :
    (S P : List ℕ) (a : ℕ) → NoneBefore S P a → ¬ Occurs S P a → NoneBefore S P (a + 1)
NoneBefore-suc S P a before this b lt o = elim (dec_lt b a) [
  | yes less ↦ before b less o
  | no same ↦ this (λ k h. ap (λ x. get_elem? S (x + k)) (here same) ∙ o k h)
]
  where
    here : ¬ b < a → a ≡ b
    here same = omega arith

one_less : (m k : ℕ) → 0 < m → (m - 1) * k + k ≡ m * k
one_less zero k h = absurd (omega arith)
one_less (suc m) k h = ap (λ n. n * k + k) here ∙ omega arith
  where
    here : suc m - 1 ≡ m
    here = omega arith

-- The loop behind its test.
bf_end :
    (S P : List ℕ) (a j : ℕ)
    → 0 < length P
    → Agrees S P a j
    → j ≤ length P
    → NoneBefore S P a
    → (j ≡ length P) ⊎ (length S ≤ a + j)
    → Finds S P (if j == length P then some (a + j - j) else none)
bf_end S P a j pos h le before stop = elim (Bool-cases (j == length P)) [
  | inl full ↦
      let same : j ≡ length P = (==_iff j (length P)).0 full in
      let here : a + j - j ≡ a = omega arith in
      rw (full, here) ((λ k lt. h k (omega arith)), before)
  | inr short ↦ rw short (λ b o. elim (dec_lt b a) [
    | yes less ↦ before b less o
    | no more ↦ absurd (ground (arith, Occurs-le S P b pos o))
  ])
]

-- `m` bounds the starts that are left.
bf_loop-Finds :
    (fuel m : ℕ) (S P : List ℕ) (a j : ℕ)
    → 0 < length P
    → Agrees S P a j
    → j ≤ length P
    → NoneBefore S P a
    → length S ≤ a + m
    → m * (length P + 1) + (length P - j) < fuel
    → (r : Option ℕ) × (bf_loop fuel S P (a + j) j ≡ some r) × Finds S P r
unfolding bf_loop
bf_loop-Finds zero m S P a j pos h le before bound f = absurd (omega arith)
bf_loop-Finds (suc fuel) m S P a j pos h le before bound f = elim (dec_lt j (length P)) [
  | no full ↦ (_, rw (test_j full) refl, bf_end S P a j pos h le before (inl (omega arith)))
  | yes lt ↦ elim (dec_lt (a + j) (length S)) [
    | no past ↦ (_, rw (test_i past) refl, bf_end S P a j pos h le before (inr (omega arith)))
    | yes inside ↦
        let (c, at) = get_elem?-total S (a + j) inside in
        let (b, bt) = get_elem?-total P j lt in
        let go : (ltb (a + j) (length S) && ltb j (length P)) ≡ true = ground arith in
        elim (Bool-cases (c == b)) [
          | inl same ↦
              let next : Agrees S P a (j + 1) =
                Agrees-suc S P a j c h at (bt ∙ ap some (sym ((==_iff c b).0 same))) in
              let (r, e, q) =
                bf_loop-Finds fuel m S P a (j + 1) pos next (omega arith) before bound
                  (omega arith) in
              (
                r,
                rw (go, at, ◌>>=◌, bt, ◌>>=◌, same)
                    (ap (λ k. bf_loop fuel S P k (j + 1)) (omega arith) ∙ e),
                q,
              )
          | inr differ ↦
              let here : a + j - j + 1 ≡ a + 1 + 0 = omega arith in
              let (r, e, q) =
                bf_loop-Finds fuel (m - 1) S P (a + 1) 0 pos (λ k lt. absurd (omega arith))
                  (omega arith) (NoneBefore-suc S P a before (λ o. ruled_out c b lt at bt differ o))
                  (omega arith) (omega (arith, one_less m (length P + 1) (omega arith))) in
              (
                r,
                rw (go, at, ◌>>=◌, bt, ◌>>=◌, differ) (ap (λ k. bf_loop fuel S P k 0) here ∙ e),
                q,
              )
        ]
  ]
]
  where
    test_j : ¬ j < length P → (ltb (a + j) (length S) && ltb j (length P)) ≡ false
    test_j full = ground arith

    test_i : ¬ a + j < length S → (ltb (a + j) (length S) && ltb j (length P)) ≡ false
    test_i past = ground arith

    ruled_out :
        (c b : ℕ)
        → j < length P
        → get_elem? S (a + j) ≡ some c
        → get_elem? P j ≡ some b
        → (c == b) ≡ false
        → ¬ Occurs S P a
    ruled_out c b lt at bt differ o =
        let same : c ≡ b = some_inj c b (sym at ∙ o j lt ∙ bt) in absurd (ground arith)

-- For a pattern that is not empty bfMatch returns, and returns the first occurrence, or -1 where there
-- is none.
pub bf_match-Finds :
    (S P : List ℕ) → 0 < length P → (r : Option ℕ) × (bf_match S P ≡ some r) × Finds S P r
unfolding bf_match
bf_match-Finds S P pos = elim (dec_lt (length S) (length P)) [
  | yes short ↦ (
    none,
    rw (no_match-short S P short) refl,
    λ a o. absurd (omega (arith, Occurs-le S P a pos o)),
  )
  | no fits ↦
      let (r, e, q) =
        bf_loop-Finds ((length S + 1) * (length P + 1)) (length S) S P 0 0 pos
          (λ k lt. absurd (omega arith)) (omega arith) (λ b lt. absurd (omega arith)) (omega arith)
          (omega arith) in
      (r, rw (no_match-fits S P pos fits) e, q)
]
