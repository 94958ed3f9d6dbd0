-- ===== src/StringMatch/Table.antt =====
-- buildNext.
use linux_command.Base.{
  ℕ, zero, suc, ◌+◌, ◌-◌, ◌≤◌, ◌<◌, ◌≡◌, refl, sym, ◌∙◌, ap, inl, inr, true, false, some, List, [],
  ◌∷◌, ◌==◌, ◌>>=◌, Bool-cases, ==_iff, some_inj, get_elem?, get_elem?-total, get_elem?-set_self,
  get_elem?-set_ne, set, store-eq-set, length, length-set, length-replicate, replicate, arith,
}
use native.Mathlib.Decide.{dec_lt, ℕ_discrete}
use linux_command.StringMatch.{fall_back, build_from, build_next}
use linux_command.StringMatch.Occurs.{Agrees, Agrees-le, Agrees-suc}
use linux_command.StringMatch.FallBack.{IsNext, IsTable, Stops, fall_back-Stops}

-- At a byte `c` that does not follow the match where the loop stopped, the match is empty.
pub Stops-empty :
    (T P : List ℕ) (a j c k b : ℕ)
    → Stops T P a j c k
    → get_elem? P k ≡ some b
    → (c == b) ≡ false
    → k ≡ 0
Stops-empty T P a j c k b s bt differ = elim s.goes_on [
  | inl e ↦ e
  | inr e ↦ let same : c ≡ b = some_inj c b (sym e ∙ bt) in absurd (ground arith)
]

module _ (P : List ℕ) where
  -- No start before the one where the loop of a round of buildNext stopped has a longer part.
  none_longer :
      (i j c k : ℕ)
      → IsNext P i j
      → Stops P P (i - j) j c k
      → (s : ℕ) → s + k ≡ i
      → k ≤ j
      → ((b m : ℕ) → i - j ≤ b → b < s → i - j + j < b + m → ¬ Agrees P P b m)
      → (d : ℕ) → 0 < d
      → d < s
      → ¬ Agrees P P d (i + 1 - d)
  none_longer i j c k n st s e le passed d pos lt o = elim (dec_lt d (i - j)) [
    | yes near ↦ n.longest d pos near (Agrees-le P P d (i - d) (i + 1 - d) o (omega arith))
    | no far ↦ passed d (i + 1 - d) (omega arith) lt (omega (arith, n.shorter)) o
  ]

  IsNext-grows :
      (i j c k : ℕ)
      → IsNext P i j
      → Stops P P (i - j) j c k
      → get_elem? P i ≡ some c
      → get_elem? P k ≡ some c
      → IsNext P (i + 1) (k + 1)
  IsNext-grows i j c k n st at kt = record {
    shorter = omega (arith, st.shorter, n.shorter);
    border = λ x lt. ap (λ y. get_elem? P (y + x)) start ∙ longer x lt;
    longest = λ d pos lt.
        none_longer i j c k n st st.start whole st.shorter st.passed d pos (omega arith);
  }
    where
      whole : st.start + k ≡ i
      whole = omega (arith, st.at, n.shorter)

      start : i + 1 - (k + 1) ≡ st.start
      start = omega (arith, whole)

      longer : Agrees P P st.start (k + 1)
      longer = Agrees-suc P P st.start k c st.matched (ap (get_elem? P) whole ∙ at) kt

  IsNext-empty :
      (i j c k b : ℕ)
      → IsNext P i j
      → Stops P P (i - j) j c k
      → get_elem? P i ≡ some c
      → get_elem? P k ≡ some b
      → (c == b) ≡ false
      → k ≡ 0
      → IsNext P (i + 1) 0
  IsNext-empty i j c k b n st at kt differ e = record {
    shorter = omega arith;
    border = λ x lt. absurd (omega arith);
    longest = λ d pos lt. elim (dec_lt d i) [
      | yes less ↦
          none_longer i j c k n st st.start whole st.shorter st.passed d pos (omega (arith, whole))
      | no last ↦ λ o. here d (omega arith) o
    ];
  }
    where
      whole : st.start + k ≡ i
      whole = omega (arith, st.at, n.shorter)

      here : (d : ℕ) → d ≡ i → ¬ Agrees P P d (i + 1 - d)
      here d same o =
          let byte : c ≡ b = some_inj c b (
            sym at
            ∙ ap (get_elem? P) (omega arith)
            ∙ o 0 (omega arith)
            ∙ ap (get_elem? P) (sym e)
            ∙ kt) in
          absurd (ground arith)

  IsTable-set :
      (next : List ℕ) (i f : ℕ)
      → IsTable P next i
      → i < length next
      → IsNext P (i + 1) f
      → IsTable P (set next i f) (i + 1)
  IsTable-set next i f t lt n j pos le = elim (ℕ_discrete j (i + 1)) [
    | yes e ↦
        (f, ap (get_elem? (set next i f)) (omega arith) ∙ get_elem?-set_self next i f lt, rw e n)
    | no ne ↦
        let (g, gt, m) = t j pos (omega arith) in
        (g, get_elem?-set_ne next i (j - 1) f (λ x. absurd (omega arith)) ∙ gt, m)
  ]

  build_step_grows :
      (n i j c k b : ℕ) (next : List ℕ)
      → get_elem? P i ≡ some c
      → fall_back (j + 1) c P next j ≡ some k
      → get_elem? P k ≡ some b
      → (c == b) ≡ true
      → i < length next
      → build_from (suc n) P next i j ≡ build_from n P (set next i (k + 1)) (i + 1) (k + 1)
  unfolding build_from
  build_step_grows n i j c k b next at w bt same lt =
      rw (at, ◌>>=◌, w, ◌>>=◌, bt, ◌>>=◌, same, store-eq-set next i (k + 1) lt, ◌>>=◌) refl

  build_step_empty :
      (n i j c k b : ℕ) (next : List ℕ)
      → get_elem? P i ≡ some c
      → fall_back (j + 1) c P next j ≡ some k
      → get_elem? P k ≡ some b
      → (c == b) ≡ false
      → i < length next
      → build_from (suc n) P next i j ≡ build_from n P (set next i 0) (i + 1) k
  unfolding build_from
  build_step_empty n i j c k b next at w bt differ lt =
      rw (at, ◌>>=◌, w, ◌>>=◌, bt, ◌>>=◌, differ, store-eq-set next i 0 lt, ◌>>=◌) refl

  build_from-IsTable :
      (n i j : ℕ) (next : List ℕ)
      → i + n ≡ length P
      → length next ≡ length P
      → 0 < i
      → IsTable P next i
      → IsNext P i j
      → (table : List ℕ) × (build_from n P next i j ≡ some table) × IsTable P table (length P)
  unfolding build_from
  build_from-IsTable zero i j next e len pos t nx = (next, refl, λ k p le. t k p (omega arith))
  build_from-IsTable (suc n) i j next e len pos t nx =
      let (c, at) = get_elem?-total P i (omega arith) in
      let (k, w, st) =
        fall_back-Stops P P next i (j + 1) (i - j) j c t (omega (arith, nx.shorter))
          (omega (arith, nx.shorter)) (omega arith) nx.border (ap (get_elem? P) place ∙ at) in
      let (b, bt) = get_elem?-total P k (omega (arith, st.shorter, nx.shorter)) in
      elim (Bool-cases (c == b)) [
        | inl same ↦
            let n' = IsNext-grows i j c k nx st at (bt ∙ ap some (sym ((==_iff c b).0 same))) in
            let (table, r, h) =
              build_from-IsTable n (i + 1) (k + 1) (set next i (k + 1)) (omega arith)
                (length-set next i (k + 1) ∙ len) (omega arith)
                (IsTable-set next i (k + 1) t (omega arith) n') n' in
            (table, build_step_grows n i j c k b next at w bt same (omega arith) ∙ r, h)
        | inr differ ↦
            let empty = Stops-empty P P (i - j) j c k b st bt differ in
            let n' = IsNext-empty i j c k b nx st at bt differ empty in
            let (table, r, h) =
              build_from-IsTable n (i + 1) 0 (set next i 0) (omega arith)
                (length-set next i 0 ∙ len) (omega arith) (IsTable-set next i 0 t (omega arith) n')
                n' in
            (
              table,
              build_step_empty n i j c k b next at w bt differ (omega arith)
                  ∙ ap (build_from n P (set next i 0) (i + 1)) empty
                  ∙ r,
              h,
            )
      ]
    where
      place : i - j + j ≡ i
      place = omega (arith, nx.shorter)

IsNext-one : (P : List ℕ) → IsNext P 1 0
IsNext-one P = record {
  shorter = omega arith;
  border = λ k lt. absurd (omega arith);
  longest = λ d pos lt. absurd (omega arith);
}

IsTable-one : (P next : List ℕ) → get_elem? next 0 ≡ some 0 → IsTable P next 1
IsTable-one P next at j pos le = (0, ap (get_elem? next) start ∙ at, rw one (IsNext-one P))
  where
    start : j - 1 ≡ 0
    start = omega arith

    one : j ≡ 1
    one = omega arith

-- For a pattern that is not empty buildNext stays inside its arrays and returns; the entry behind each
-- prefix is the length of its longest part that the prefix both begins and ends with and that is
-- shorter than itself.
pub build_next-IsTable :
    (P : List ℕ)
    → 0 < length P
    → (next : List ℕ) × (build_next P ≡ some next) × IsTable P next (length P)
unfolding build_next
build_next-IsTable [] pos = absurd (omega arith)
build_next-IsTable (p ∷ ps) pos =
    build_from-IsTable (p ∷ ps) (length (p ∷ ps) - 1) 1 0 (replicate (length (p ∷ ps)) 0)
      (omega arith) (length-replicate (length (p ∷ ps)) 0) (omega arith)
      (IsTable-one (p ∷ ps) (replicate (length (p ∷ ps)) 0) refl) (IsNext-one (p ∷ ps))
