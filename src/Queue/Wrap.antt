-- ===== src/Queue/Wrap.antt =====
-- The indices of a walk round the circular array.
use linux_command.Base.{ℕ, suc, ◌+◌, ◌-◌, ◌%◌, ◌≤◌, ◌<◌, ◌≡◌, ◌∙◌, ap, if◌then◌else◌, ltb, arith}
use native.Mathlib.Nat.{mod_self, mod-eq_of_lt}
use native.Mathlib.Decide.{ℕ_discrete}

-- The index `n` of a walk round an array of `c` cells, for `n` below `2 * c`.
abbrev pub wrap : ℕ → ℕ → ℕ
wrap c n = if ltb n c then n else n - c

pub mod-wrap : (n c : ℕ) → n < c → (n + 1) % c ≡ wrap c (n + 1)
mod-wrap n c lt = elim (ℕ_discrete (n + 1) c) [
  | yes full ↦ ap (λ m. m % c) full ∙ mod_self c ∙ at_end full
  | no part ↦ mod-eq_of_lt (omega arith) ∙ inside (omega arith)
]
  where
    at_end : n + 1 ≡ c → 0 ≡ wrap c (n + 1)
    at_end e = ground arith

    inside : n + 1 < c → n + 1 ≡ wrap c (n + 1)
    inside l = ground arith

-- The next cell.
pub wrap-next : (c f i : ℕ) → f < c → i < c → (wrap c (f + i) + 1) % c ≡ wrap c (f + (i + 1))
wrap-next c f i lt li = mod-wrap (wrap c (f + i)) c below ∙ same
  where
    below : wrap c (f + i) < c
    below = ground arith

    same : wrap c (wrap c (f + i) + 1) ≡ wrap c (f + (i + 1))
    same = ground arith

pub wrap-ne : (c f i j : ℕ) → f < c → i < j → j < c → wrap c (f + j) ≡ wrap c (f + i) → ⊥
wrap-ne c f i j lt less lj e = ground arith

pub wrap-shift :
    (c f s : ℕ) → f < c → 0 < s → s ≤ c → wrap c (f + s) ≡ wrap c (wrap c (f + 1) + (s - 1))
wrap-shift c f s lt pos le = ground arith

pub wrap-moved : (c f k : ℕ) → f < c → suc k ≤ c → wrap c (wrap c (f + 1) + k) ≡ wrap c (f + suc k)
wrap-moved c f k lt le = ground arith

pub wrap-lt' : (c f : ℕ) → f < c → wrap c (f + 1) < c
wrap-lt' c f lt = ground arith

pub wrap-lt : (c f i : ℕ) → f < c → i < c → wrap c (f + i) < c
wrap-lt c f i lt li = ground arith
