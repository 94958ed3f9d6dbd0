-- ===== src/StringMatch/RabinKarp.antt =====
-- rkMatch and the first occurrence.
use linux_command.Base.{
  ℕ, zero, suc, ◌+◌, ◌-◌, ◌≤◌, ◌<◌, ◌≡◌, refl, ◌∙◌, ap, inl, inr, Bool, true, false, ◌&&◌, Option,
  none, some, List, ◌>>=◌, Bool-cases, ltb, get_elem?, get_elem?-total, lt→ltb, length, arith,
}
use native.Mathlib.Decide.{dec_lt}
use linux_command.Base.Int.{ℤ, pos, int_eq}
use linux_command.StringMatch.Signed.{AllAscii, int_eq_self}
use linux_command.StringMatch.{
  no_match, hash_from, window_hash, base_pow, roll, bytes_eq, rk_from, rk_match,
}
use linux_command.StringMatch.Occurs.{
  Occurs, NoneBefore, Finds, Occurs-le, no_match-short, no_match-fits,
}
use linux_command.StringMatch.BruteForce.{NoneBefore-suc}
use linux_command.StringMatch.Window.{
  bytes_eq_iff, window, window-Occurs, window_hash-hash_from, roll-window,
}

module _ (n i pow : ℕ) (h hash_p : ℤ) (S P : List ℕ) where
  abbrev hit_at : Bool
  hit_at = int_eq h hash_p && bytes_eq (window S P i) P

  rk_hit : hit_at ≡ true → rk_from (suc n) S P pow hash_p i h ≡ some (some i)
  unfolding rk_from
  rk_hit t = rw (rk_from, t) refl

  rk_roll :
      (c d : ℕ)
      → hit_at ≡ false
      → i < length S - length P
      → get_elem? S i ≡ some c
      → get_elem? S (i + length P) ≡ some d
      → rk_from (suc n) S P pow hash_p i h ≡ rk_from n S P pow hash_p (i + 1) (roll pow h c d)
  unfolding rk_from
  rk_roll c d t lt at last =
      rw (rk_from, t, lt→ltb i (length S - length P) lt, at, ◌>>=◌, last, ◌>>=◌) refl

  rk_last :
      hit_at ≡ false
      → ¬ i < length S - length P
      → rk_from (suc n) S P pow hash_p i h ≡ rk_from n S P pow hash_p (i + 1) h
  unfolding rk_from
  rk_last t past = rw (rk_from, t, here) refl
    where
      here : ltb i (length S - length P) ≡ false
      here = ground arith

-- A round that goes on has no occurrence at its window.
missed :
    (i : ℕ) (h : ℤ) (S P : List ℕ)
    → h ≡ hash_from (pos 0) (window S P i)
    → (int_eq h (hash_from (pos 0) P) && bytes_eq (window S P i) P) ≡ false
    → ¬ Occurs S P i
missed i h S P hash t o =
    let same = (window-Occurs S P i).1 o in
    let equal : h ≡ hash_from (pos 0) P = hash ∙ ap (hash_from (pos 0)) same in
    let tests : int_eq h (hash_from (pos 0) P) ≡ true =
      rw equal (int_eq_self (hash_from (pos 0) P)) in
    ground (arith, tests, (bytes_eq_iff (window S P i) P).1 same)

rk_from-Finds :
    (n i : ℕ) (h : ℤ) (S P : List ℕ)
    → AllAscii S
    → 0 < length P
    → length P ≤ length S
    → i + n ≡ length S - length P + 1
    → (0 < n → h ≡ hash_from (pos 0) (window S P i))
    → NoneBefore S P i
    → (r : Option ℕ) × (rk_from n S P (base_pow (length P - 1) 1) (hash_from (pos 0) P) i h
        ≡ some r)
      × Finds S P r
unfolding rk_from
rk_from-Finds zero i h S P ascii some_byte fits e hash before = (
  none,
  refl,
  λ b o. elim (dec_lt b i) [
    | yes less ↦ before b less o
    | no more ↦ absurd (omega (arith, Occurs-le S P b some_byte o))
  ],
)
rk_from-Finds (suc n) i h S P ascii some_byte fits e hash before =
    elim (Bool-cases (int_eq h (hash_from (pos 0) P) && bytes_eq (window S P i) P)) [
      | inl hit ↦
          let equal : bytes_eq (window S P i) P ≡ true = ground arith in
          (
            some i,
            rk_hit n i pow h (hash_from (pos 0) P) S P hit,
            ((window-Occurs S P i).0 ((bytes_eq_iff (window S P i) P).0 equal), before),
          )
      | inr miss ↦
          let before' = NoneBefore-suc S P i before (missed i h S P (hash (omega arith)) miss) in
          elim (dec_lt i (length S - length P)) [
            | yes lt ↦
                let (c, at) = get_elem?-total S i (omega arith) in
                let (d, last) = get_elem?-total S (i + length P) (omega arith) in
                let (r, q, f) =
                  rk_from-Finds n (i + 1) (roll pow h c d) S P ascii some_byte fits (omega arith)
                    (λ more.
                      ap (λ x. roll pow x c d) (hash (omega arith))
                      ∙ roll-window i c d S P ascii some_byte at last)
                    before' in
                (r, rk_roll n i pow h (hash_from (pos 0) P) S P c d miss lt at last ∙ q, f)
            | no past ↦
                let (r, q, f) =
                  rk_from-Finds n (i + 1) h S P ascii some_byte fits (omega arith)
                    (λ more. absurd (omega arith)) before' in
                (r, rk_last n i pow h (hash_from (pos 0) P) S P miss past ∙ q, f)
          ]
    ]
  where
    pow : ℕ
    pow = base_pow (length P - 1) 1

rk_start :
    (h : ℤ) (S P : List ℕ)
    → no_match S P ≡ false
    → window_hash (length P) S 0 (pos 0) ≡ some h
    → rk_match S P
      ≡ rk_from (length S - length P + 1) S P (base_pow (length P - 1) 1) (hash_from (pos 0) P) 0 h
unfolding rk_match
rk_start h S P go w = rw (rk_match, go, w, ◌>>=◌) refl

-- For a text whose bytes are all below 128, and a pattern that is not empty, rkMatch returns, and
-- returns the first occurrence, or -1 where there is none: windows with equal hashes are compared, and the occurrences are windows with the pattern's
-- hash.
pub rk_match-Finds :
    (S P : List ℕ)
    → AllAscii S
    → 0 < length P
    → (r : Option ℕ) × (rk_match S P ≡ some r) × Finds S P r
unfolding rk_match
rk_match-Finds S P ascii some_byte = elim (dec_lt (length S) (length P)) [
  | yes short ↦ (none, refused short, λ a o. absurd (omega (arith, Occurs-le S P a some_byte o)))
  | no fits ↦
      let (r, q, f) =
        rk_from-Finds (length S - length P + 1) 0 (hash_from (pos 0) (window S P 0)) S P ascii
          some_byte (omega arith) (omega arith) (λ more. refl) (λ b less. absurd (omega arith)) in
      (
        r,
        rk_start (hash_from (pos 0) (window S P 0)) S P (no_match-fits S P some_byte fits)
              (first (omega arith))
            ∙ q,
        f,
      )
]
  where
    refused : length S < length P → rk_match S P ≡ some none
    refused short = rw (rk_match, no_match-short S P short) refl

    first :
        length P ≤ length S
        → window_hash (length P) S 0 (pos 0) ≡ some (hash_from (pos 0) (window S P 0))
    first le = window_hash-hash_from (length P) 0 (pos 0) S (omega arith)
