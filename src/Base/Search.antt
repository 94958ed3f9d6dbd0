-- ===== src/Base/Search.antt =====
-- `for (i = 0; i < n; i++) if (p(a[i])) return i; return -1;`, the loop of every table lookup.
use Prim.Native.Nat.{ℕ, zero, suc, ◌+◌, ◌≤◌, ◌<◌}
use mathlib.Core.Path.{◌≡◌, refl}
use mathlib.Core.Logic.{inl, inr}
use mathlib.Core.Bool.{Bool, true, false}
use mathlib.Core.List.{List, [], ◌∷◌}
use mathlib.Core.Option.{Option, none, some}
use native.Mathlib.Omega.{arith}
use linux_command.Base.Tests.{if◌then◌else◌, Bool-cases}
use linux_command.Base.Lists.{length, get_elem?}

module _ {ℓ} {A : Type ℓ} where
  -- The outer `none` is a read past the array, the inner one the result -1.
  unfoldable pub search_loop : (A → Bool) → List A → ℕ → ℕ → Option (Option ℕ)
  search_loop p xs zero i = some none
  search_loop p [] (suc n) i = none
  search_loop p (x ∷ xs) (suc n) i = if p x then some (some i) else search_loop p xs n (i + 1)

  unfoldable pub search_table : (A → Bool) → List A → ℕ → Option (Option ℕ)
  unfolding search_loop
  search_table p xs n = search_loop p xs n 0

  -- `j` is the index of a hit among the first `n` entries.
  pub record IsHit (p : A → Bool) (xs : List A) (n j : ℕ) : Type ℓ where
    pub bound : j < n
    pub entry : A
    pub at : get_elem? xs j ≡ some entry
    pub test : p entry ≡ true

  search_loop-IsHit :
      (p : A → Bool) (xs : List A) (n i j : ℕ)
      → search_loop p xs n i ≡ some (some j)
      → (k : ℕ) × (j ≡ i + k) × IsHit p xs n k
  unfolding search_loop
  search_loop-IsHit p xs zero i j h = absurd (ground arith)
  search_loop-IsHit p [] (suc n) i j h = absurd (ground arith)
  search_loop-IsHit p (x ∷ xs) (suc n) i j h = elim (Bool-cases (p x)) [
    | inl e ↦ (0, ground arith, record { bound = omega arith; entry = x; at = refl; test = e })
    | inr e ↦
        let (k, eq, hit) = search_loop-IsHit p xs n (i + 1) j (rw e at h) in
        (
          suc k,
          omega arith,
          record {
            bound = omega (arith, hit.bound);
            entry = hit.entry;
            at = hit.at;
            test = hit.test;
          },
        )
  ]

  -- An index that a lookup returns is below the bound, and its entry passes the test.
  pub search_table-IsHit :
      (p : A → Bool) (xs : List A) (n : ℕ) {j : ℕ}
      → search_table p xs n ≡ some (some j)
      → IsHit p xs n j
  unfolding search_table
  search_table-IsHit p xs n {j} h =
      let (k, e, hit) = search_loop-IsHit p xs n 0 j h in rw (fix k e) hit
    where
      fix : (k : ℕ) → j ≡ 0 + k → j ≡ k
      fix k e = omega arith

  search_loop-miss :
      (p : A → Bool) (xs : List A) (n i : ℕ)
      → search_loop p xs n i ≡ some none
      → (j : ℕ) (x : A) → j < n
      → get_elem? xs j ≡ some x
      → p x ≡ false
  unfolding search_loop
  search_loop-miss p xs zero i h j x lt e = absurd (omega arith)
  search_loop-miss p [] (suc n) i h j x lt e = cc
  search_loop-miss p (y ∷ ys) (suc n) i h zero x lt e = ground arith
  search_loop-miss p (y ∷ ys) (suc n) i h (suc j) x lt e = elim (Bool-cases (p y)) [
    | inl t ↦ cc (rw t at h)
    | inr f ↦ search_loop-miss p ys n (i + 1) (rw f at h) j x (omega arith) e
  ]

  -- A lookup that returns -1 has tested every entry.
  pub search_table-miss :
      (p : A → Bool) (xs : List A) (n : ℕ)
      → search_table p xs n ≡ some none
      → (j : ℕ) (x : A) → j < n
      → get_elem? xs j ≡ some x
      → p x ≡ false
  unfolding search_table
  search_table-miss p xs n h = search_loop-miss p xs n 0 h

  search_loop-total :
      (p : A → Bool) (xs : List A) (n i : ℕ)
      → n ≤ length xs
      → (r : Option ℕ) × (search_loop p xs n i ≡ some r)
  unfolding search_loop
  search_loop-total p xs zero i h = (none, refl)
  search_loop-total p [] (suc n) i h = absurd (omega arith)
  search_loop-total p (x ∷ xs) (suc n) i h = elim (Bool-cases (p x)) [
    | inl t ↦ (some i, rw t refl)
    | inr f ↦ rw f (search_loop-total p xs n (i + 1) (omega arith))
  ]

  -- A lookup within the array does not fault.
  pub search_table-total :
      (p : A → Bool) (xs : List A) (n : ℕ)
      → n ≤ length xs
      → (r : Option ℕ) × (search_table p xs n ≡ some r)
  unfolding search_table
  search_table-total p xs n h = search_loop-total p xs n 0 h

  -- An entry that passes the test is found, perhaps as an earlier one.
  pub search_table-finds :
      (p : A → Bool) (xs : List A) (n j : ℕ) (x : A)
      → n ≤ length xs
      → j < n
      → get_elem? xs j ≡ some x
      → p x ≡ true
      → (k : ℕ) × (search_table p xs n ≡ some (some k))
  search_table-finds p xs n j x le lt e t = go (search_table-total p xs n le)
    where
      go :
          (r : Option ℕ) × (search_table p xs n ≡ some r)
          → (k : ℕ) × (search_table p xs n ≡ some (some k))
      go (none, h) = cc (search_table-miss p xs n h j x lt e)
      go (some k, h) = (k, h)

-- The index of the first hit.
module _ {ℓ} {A : Type ℓ} where
  unfoldable pub index_of : (A → Bool) → List A → Option ℕ
  index_of p [] = none
  index_of p (x ∷ xs) =
      if p x then some 0 else elim (index_of p xs) [ none ↦ none | some i ↦ some (suc i) ]

  search_loop-index_of :
      (p : A → Bool) (xs : List A) (n i : ℕ)
      → n ≡ length xs
      → search_loop p xs n i ≡ some (elim (index_of p xs) [ none ↦ none | some k ↦ some (i + k) ])
  unfolding search_loop index_of
  search_loop-index_of p [] zero i e = refl
  search_loop-index_of p [] (suc n) i e = absurd (omega arith)
  search_loop-index_of p (x ∷ xs) zero i e = absurd (omega arith)
  search_loop-index_of p (x ∷ xs) (suc n) i e =
      ground (arith, search_loop-index_of p xs n (i + 1) (omega arith))

  -- A lookup over the whole array returns the first hit.
  pub search_table-index_of :
      (p : A → Bool) (xs : List A) (n : ℕ)
      → n ≡ length xs
      → search_table p xs n ≡ some (index_of p xs)
  unfolding search_table
  search_table-index_of p xs n e = ground (arith, search_loop-index_of p xs n 0 e)
