-- ===== src/Queue/Cells.antt =====
-- The loop that copies cells from one array to another.
use linux_command.Base.{
  ℕ, zero, suc, ◌+◌, ◌-◌, ◌≤◌, ◌<◌, ◌≡◌, ◌⊎◌, refl, sym, ◌∙◌, ap, inl, inr, some, List, ◌>>=◌,
  get_elem?, get_elem?-total, get_elem?-set_self, get_elem?-set_ne, set, store-eq-set, length,
  length-set, arith,
}
use native.Mathlib.Decide.{ℕ_discrete}
use linux_command.Queue.{copy_cells}
use linux_command.Queue.Wrap.{wrap}

pub inside : (c k : ℕ) → k < c → k ≡ wrap c (0 + k)
inside c k lt = ground arith

module _ {A : Type 0} where
  -- The cells that a loop wrote, and those that it left.
  pub record Copied (n : ℕ) (src : List A) (i : ℕ) (dst : List A) (idx : ℕ) (dst' : List A)
      : Type 0 where
    pub sized : length dst' ≡ length dst
    pub written : (k : ℕ) → k < n → get_elem? dst' (idx + k) ≡ get_elem? src (i + k)
    pub kept : (j : ℕ) → (j < idx) ⊎ (idx + n ≤ j) → get_elem? dst' j ≡ get_elem? dst j

  pub copy_cells-Copied :
      (n : ℕ) (src : List A) (i : ℕ) (dst : List A) (idx : ℕ)
      → i + n ≤ length src
      → idx + n ≤ length dst
      → (dst' : List A) × (copy_cells n src i dst idx ≡ some dst') × Copied n src i dst idx dst'
  unfolding copy_cells
  copy_cells-Copied zero src i dst idx le room = (
    dst,
    refl,
    record { sized = refl; written = λ k lt. absurd (omega arith); kept = λ j out. refl },
  )
  copy_cells-Copied (suc n) src i dst idx le room =
      let (v, at) = get_elem?-total src i (omega arith) in
      let (dst', e, c) =
        copy_cells-Copied n src (i + 1) (set dst idx v) (idx + 1) (omega arith)
          (omega (arith, length-set dst idx v)) in
      (
        dst',
        rw (at, ◌>>=◌, store-eq-set dst idx v (omega arith), ◌>>=◌) e,
        record {
          sized = c.sized ∙ length-set dst idx v;
          written = λ k lt. elim (ℕ_discrete k 0) [
            | yes e' ↦
                ap (get_elem? dst') (first k e')
                ∙ c.kept idx (inl (omega arith))
                ∙ get_elem?-set_self dst idx v (omega arith)
                ∙ sym (ap (get_elem? src) (first' k e') ∙ at)
            | no ne ↦
                ap (get_elem? dst') (later idx k (omega arith))
                ∙ c.written (k - 1) (omega arith)
                ∙ ap (get_elem? src) (sym (later i k (omega arith)))
          ];
          kept = λ j out.
              c.kept j (outside j out) ∙ get_elem?-set_ne dst idx j v (λ same. differs j out same);
        },
      )
    where
      first : (k : ℕ) → k ≡ 0 → idx + k ≡ idx
      first k e' = omega arith

      first' : (k : ℕ) → k ≡ 0 → i + k ≡ i
      first' k e' = omega arith

      later : (b k : ℕ) → 0 < k → b + k ≡ b + 1 + (k - 1)
      later b k pos = omega arith

      outside : (j : ℕ) → (j < idx) ⊎ (idx + suc n ≤ j) → (j < idx + 1) ⊎ (idx + 1 + n ≤ j)
      outside j (inl l) = inl (omega arith)
      outside j (inr r) = inr (omega arith)

      differs : (j : ℕ) → (j < idx) ⊎ (idx + suc n ≤ j) → idx ≡ j → ⊥
      differs j (inl l) same = omega arith
      differs j (inr r) same = omega arith
