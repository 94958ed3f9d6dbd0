-- ===== src/StringMatch/Kmp.antt =====
-- kmpMatch and the first occurrence.
use linux_command.Base.{
  ℕ, zero, suc, ◌+◌, ◌-◌, ◌<◌, ◌≡◌, refl, sym, ◌∙◌, ap, inl, inr, true, false, Option, none, some,
  List, ◌==◌, if◌then◌else◌, ◌>>=◌, Bool-cases, ==_iff, some_inj, get_elem?, get_elem?-total,
  length, arith,
}
use native.Mathlib.Decide.{dec_lt, ℕ_discrete}
use linux_command.StringMatch.{fall_back, kmp_round, kmp_from, kmp_match}
use linux_command.StringMatch.Occurs.{
  Agrees, Occurs, NoneBefore, Finds, Agrees-le, Agrees-suc, Occurs-le, no_match-short,
  no_match-fits,
}
use linux_command.StringMatch.BruteForce.{NoneBefore-suc}
use linux_command.StringMatch.FallBack.{IsTable, Stops, fall_back-Stops}
use linux_command.StringMatch.Table.{Stops-empty, build_next-IsTable}

kmp_step :
    (n i j c k b : ℕ) (S P next : List ℕ)
    → get_elem? S i ≡ some c
    → fall_back (j + 1) c P next j ≡ some k
    → get_elem? P k ≡ some b
    → kmp_from (suc n) S P next i j
      ≡ kmp_round (kmp_from n S P next (i + 1)) P i (if c == b then k + 1 else k)
unfolding kmp_from
kmp_step n i j c k b S P next at w bt = rw (at, ◌>>=◌, w, ◌>>=◌, bt, ◌>>=◌) refl

kmp_round_hit :
    (f : ℕ → Option (Option ℕ)) (P : List ℕ) (i j : ℕ)
    → j ≡ length P
    → kmp_round f P i j ≡ some (some (i + 1 - length P))
unfolding kmp_round
kmp_round_hit f P i j e = rw (kmp_round, here) refl
  where
    here : (j == length P) ≡ true
    here = ground arith

kmp_round_next :
    (f : ℕ → Option (Option ℕ)) (P : List ℕ) (i j : ℕ) → j < length P → kmp_round f P i j ≡ f j
unfolding kmp_round
kmp_round_next f P i j lt = rw (kmp_round, here) refl
  where
    here : (j == length P) ≡ false
    here = ground arith

-- No start before the one where the loop stopped has an occurrence.
NoneBefore-Stops :
    (S P : List ℕ) (a j c k : ℕ)
    → NoneBefore S P a
    → j < length P
    → (s : Stops S P a j c k) → NoneBefore S P s.start
NoneBefore-Stops S P a j c k before lt s b less o = elim (dec_lt b a) [
  | yes early ↦ before b early o
  | no late ↦ s.passed b (length P) (omega arith) less (omega arith) o
]

-- Where a byte goes with the match, the match grows; at one that does not, the next start is behind it.
differs :
    (S P : List ℕ) (i c b s k : ℕ)
    → s + k ≡ i
    → get_elem? S i ≡ some c
    → get_elem? P k ≡ some b
    → (c == b) ≡ false
    → k < length P
    → ¬ Occurs S P s
differs S P i c b s k e at bt differ lt o =
    let same : c ≡ b = some_inj c b (sym at ∙ ap (get_elem? S) (sym e) ∙ o k lt ∙ bt) in
    absurd (ground arith)

kmp_from-Finds :
    (n i a j : ℕ) (S P next : List ℕ)
    → IsTable P next (length P)
    → i + n ≡ length S
    → a + j ≡ i
    → j < length P
    → Agrees S P a j
    → NoneBefore S P a
    → (r : Option ℕ) × (kmp_from n S P next i j ≡ some r) × Finds S P r
unfolding kmp_from
kmp_from-Finds zero i a j S P next t e here lt h before = (
  none,
  refl,
  λ b o. elim (dec_lt b a) [
    | yes less ↦ before b less o
    | no more ↦ absurd (omega (arith, Occurs-le S P b (omega arith) o))
  ],
)
kmp_from-Finds (suc n) i a j S P next t e here lt h before =
    let (c, at) = get_elem?-total S i (omega arith) in
    let (k, w, st) =
      fall_back-Stops S P next (length P) (j + 1) a j c t (omega arith) lt (omega arith) h
        (ap (get_elem? S) here ∙ at) in
    let small : k < length P = omega (arith, st.shorter) in
    let (b, bt) = get_elem?-total P k small in
    let place : st.start + k ≡ i = st.at ∙ here in
    let passed = NoneBefore-Stops S P a j c k before lt st in
    elim (Bool-cases (c == b)) [
      | inl same ↦
          let longer =
            Agrees-suc S P st.start k c st.matched (ap (get_elem? S) place ∙ at)
              (bt ∙ ap some (sym ((==_iff c b).0 same))) in
          let step =
            kmp_step n i j c k b S P next at w bt
            ∙ ap (λ x. kmp_round (kmp_from n S P next (i + 1)) P i (if x then k + 1 else k)) same in
          elim (ℕ_discrete (k + 1) (length P)) [
            | yes full ↦
                let begin : i + 1 - length P ≡ st.start = omega arith in
                (
                  some st.start,
                  step
                      ∙ kmp_round_hit (kmp_from n S P next (i + 1)) P i (k + 1) full
                      ∙ ap (λ x. some (some x)) begin,
                  (Agrees-le S P st.start (length P) (k + 1) longer (omega arith), passed),
                )
            | no part ↦
                let (r, q, f) =
                  kmp_from-Finds n (i + 1) st.start (k + 1) S P next t (omega arith) (omega arith)
                    (omega arith) longer passed in
                (
                  r,
                  step ∙ kmp_round_next (kmp_from n S P next (i + 1)) P i (k + 1) (omega arith) ∙ q,
                  f,
                )
          ]
      | inr differ ↦
          let empty = Stops-empty S P a j c k b st bt differ in
          let step =
            kmp_step n i j c k b S P next at w bt
            ∙ ap (λ x. kmp_round (kmp_from n S P next (i + 1)) P i (if x then k + 1 else k))
                differ in
          let (r, q, f) =
            kmp_from-Finds n (i + 1) (st.start + 1) 0 S P next t (omega arith) (omega arith)
              (omega arith) (λ x less. absurd (omega arith))
              (NoneBefore-suc S P st.start passed
                (differs S P i c b st.start k place at bt differ small)) in
          (
            r,
            step
                ∙ kmp_round_next (kmp_from n S P next (i + 1)) P i k small
                ∙ ap (kmp_from n S P next (i + 1)) empty
                ∙ q,
            f,
          )
    ]

-- For a pattern that is not empty kmpMatch returns, and returns the first occurrence, or -1 where there
-- is none.
pub kmp_match-Finds :
    (S P : List ℕ) → 0 < length P → (r : Option ℕ) × (kmp_match S P ≡ some r) × Finds S P r
unfolding kmp_match
kmp_match-Finds S P pos = elim (dec_lt (length S) (length P)) [
  | yes short ↦ (
    none,
    rw (kmp_match, no_match-short S P short) refl,
    λ a o. absurd (omega (arith, Occurs-le S P a pos o)),
  )
  | no fits ↦
      let (next, e, t) = build_next-IsTable P pos in
      let (r, q, f) =
        kmp_from-Finds (length S) 0 0 0 S P next t (omega arith) (omega arith) pos
          (λ x less. absurd (omega arith)) (λ b less. absurd (omega arith)) in
      (r, rw (kmp_match, no_match-fits S P pos fits, e, ◌>>=◌) q, f)
]
