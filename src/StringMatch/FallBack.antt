-- ===== src/StringMatch/FallBack.antt =====
-- The prefixes of the pattern that buildNext stores, and the loop that falls back along them.
use linux_command.Base.{
  ℕ, zero, suc, ◌+◌, ◌-◌, ◌≤◌, ◌<◌, ◌≡◌, ◌⊎◌, refl, sym, ◌∙◌, ap, inl, inr, false, some, List, ◌==◌,
  ◌>>=◌, Bool-cases, ==_iff, some_inj, get_elem?, get_elem?-total, length, arith,
}
use native.Mathlib.Decide.{dec_lt, ℕ_discrete}
use linux_command.StringMatch.{fall_back}
use linux_command.StringMatch.Occurs.{Agrees}

-- The first `j` bytes of the pattern end in its first `f`, and in no longer part that is shorter
-- than `j`; the distance `d` is where such a part starts.
pub record IsNext (P : List ℕ) (j f : ℕ) : Type 0 where
  pub shorter : f < j
  pub border : Agrees P P (j - f) f
  pub longest : (d : ℕ) → 0 < d → d < j - f → ¬ Agrees P P d (j - d)

-- The entries of `next` below `n`.
abbrev pub IsTable : List ℕ → List ℕ → ℕ → Type 0
IsTable P next n =
    (j : ℕ) → 0 < j → j ≤ n → (f : ℕ) × (get_elem? next (j - 1) ≡ some f) × IsNext P j f

module _ (T P : List ℕ) where
  -- Falling back keeps the match ...
  shift-Agrees : (a j f : ℕ) → Agrees T P a j → IsNext P j f → Agrees T P (a + (j - f)) f
  shift-Agrees a j f h n k lt =
      ap (get_elem? T) place ∙ h (j - f + k) (omega (arith, n.shorter)) ∙ n.border k lt
    where
      place : a + (j - f) + k ≡ a + (j - f + k)
      place = omega arith

  -- ... and leaves out no start in between.
  skip :
      (a j f e m : ℕ)
      → Agrees T P a j
      → IsNext P j f
      → 0 < e
      → e < j - f
      → j ≤ m + e
      → ¬ Agrees T P (a + e) m
  skip a j f e m h n pos lt le o = n.longest e pos lt same
    where
      same : Agrees P P e (j - e)
      same k less = sym (h (e + k) (omega arith)) ∙ ap (get_elem? T) place ∙ o k (omega arith)
        where
          place : a + (e + k) ≡ a + e + k
          place = omega arith

  -- Where the loop stops at the byte `c` behind the match of length `j` from `a`: at a match of length
  -- `k` that `c` goes on, or at 0, and no start between has a match that goes on.
  pub record Stops (a j c k : ℕ) : Type 0 where
    pub shorter : k ≤ j
    pub start : ℕ
    pub at : start + k ≡ a + j
    pub matched : Agrees T P start k
    pub goes_on : (k ≡ 0) ⊎ (get_elem? P k ≡ some c)
    pub passed : (b m : ℕ) → a ≤ b → b < start → a + j < b + m → ¬ Agrees T P b m

  pub fall_back-Stops :
      (next : List ℕ) (n fuel a j c : ℕ)
      → IsTable P next n
      → j ≤ n
      → j < length P
      → j < fuel
      → Agrees T P a j
      → get_elem? T (a + j) ≡ some c
      → (k : ℕ) × (fall_back fuel c P next j ≡ some k) × Stops a j c k
  unfolding fall_back
  fall_back-Stops next n zero a j c t le lt f h at = absurd (omega arith)
  fall_back-Stops next n (suc fuel) a j c t le lt f h at = elim (Bool-cases (j == 0)) [
    | inl start ↦ (
      0,
      rw start refl,
      record {
        shorter = omega arith;
        start = a + j;
        at = omega arith;
        matched = λ k less. absurd (omega arith);
        goes_on = inl refl;
        passed = λ b m ge less over. absurd (ground arith);
      },
    )
    | inr inside ↦
        let (b, bt) = get_elem?-total P j lt in
        elim (Bool-cases (c == b)) [
          | inl same ↦ (
            j,
            rw (inside, bt, ◌>>=◌, same) refl,
            record {
              shorter = omega arith;
              start = a;
              at = refl;
              matched = h;
              goes_on = inr (bt ∙ ap some (sym ((==_iff c b).0 same)));
              passed = λ b' m ge less over. absurd (omega arith);
            },
          )
          | inr differ ↦
              let pos : 0 < j = ground arith in
              let (g, gt, nx) = t j pos le in
              let moved : a + (j - g) + g ≡ a + j = omega (arith, nx.shorter) in
              let (k, e, s) =
                fall_back-Stops next n fuel (a + (j - g)) g c t (omega (arith, nx.shorter))
                  (omega (arith, nx.shorter)) (omega (arith, nx.shorter)) (shift-Agrees a j g h nx)
                  (ap (get_elem? T) moved ∙ at) in
              (
                k,
                rw (inside, bt, ◌>>=◌, differ, gt, ◌>>=◌) e,
                record {
                  shorter = omega (arith, s.shorter, nx.shorter);
                  start = s.start;
                  at = s.at ∙ moved;
                  matched = s.matched;
                  goes_on = s.goes_on;
                  passed = passed b g bt differ nx s.start s.passed moved;
                },
              )
        ]
  ]
    where
      passed :
          (b g : ℕ)
          → get_elem? P j ≡ some b
          → (c == b) ≡ false
          → IsNext P j g
          → (start : ℕ)
          → ((b' m : ℕ)
              → a + (j - g) ≤ b'
              → b' < start
              → a + (j - g) + g < b' + m
              → ¬ Agrees T P b' m)
          → a + (j - g) + g ≡ a + j
          → (b' m : ℕ) → a ≤ b'
          → b' < start
          → a + j < b' + m
          → ¬ Agrees T P b' m
      passed b g bt differ nx start rest moved b' m ge less over o =
          elim (dec_lt b' (a + (j - g))) [
            | no far ↦ rest b' m (omega arith) less (omega arith) o
            | yes near ↦ elim (ℕ_discrete b' a) [
              | yes here ↦
                  let same : c ≡ b =
                    some_inj c b (
                      sym at ∙ ap (λ x. get_elem? T (x + j)) (sym here) ∙ o j (omega arith) ∙ bt) in
                  absurd (ground arith)
              | no ne ↦
                  skip a j g (b' - a) m h nx (omega arith) (omega arith) (omega arith)
                    (λ k lt'. ap (λ x. get_elem? T (x + k)) (back (omega arith)) ∙ o k lt')
            ]
          ]
        where
          back : a ≤ b' → a + (b' - a) ≡ b'
          back le' = omega arith
