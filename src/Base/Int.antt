-- ===== src/Base/Int.antt =====
-- The integers over the native numbers: a C `int` that may go below 0.
use Prim.Native.Nat.{ℕ, zero, suc, ◌+◌, ◌-◌, ◌*◌, ◌%◌}
use mathlib.Core.Bool.{Bool, true, false}
use linux_command.Base.Tests.{ltb, ◌==◌, if◌then◌else◌}

-- `negsuc n` is -(n + 1).
pub data ℤ : Type 0 where
  pos : ℕ → ℤ
  negsuc : ℕ → ℤ

-- `x++`
unfoldable pub incr : ℤ → ℤ
incr (pos n) = pos (suc n)
incr (negsuc zero) = pos zero
incr (negsuc (suc n)) = negsuc n

-- `x--`
unfoldable pub decr : ℤ → ℤ
decr (pos zero) = negsuc zero
decr (pos (suc n)) = pos n
decr (negsuc n) = negsuc (suc n)

-- `x == 0`
unfoldable pub is_zero : ℤ → Bool
is_zero (pos zero) = true
is_zero n = false

-- `-n` of a number
unfoldable pub neg : ℕ → ℤ
neg zero = pos 0
neg (suc n) = negsuc n

-- `-x`
unfoldable pub negate : ℤ → ℤ
negate (pos n) = neg n
negate (negsuc n) = pos (n + 1)

-- m - n
unfoldable pub sub_nat : ℕ → ℕ → ℤ
sub_nat m n = if ltb m n then negsuc (n - m - 1) else pos (m - n)

infixl 65 ◌+ℤ◌ ◌-ℤ◌
infixl 70 ◌*ℤ◌
unfoldable pub ◌+ℤ◌ : ℤ → ℤ → ℤ
pos m +ℤ pos n = pos (m + n)
pos m +ℤ negsuc n = sub_nat m (n + 1)
negsuc m +ℤ pos n = sub_nat n (m + 1)
negsuc m +ℤ negsuc n = negsuc (m + n + 1)

unfoldable pub ◌-ℤ◌ : ℤ → ℤ → ℤ
x -ℤ y = x +ℤ negate y

unfoldable pub ◌*ℤ◌ : ℤ → ℤ → ℤ
pos m *ℤ pos n = pos (m * n)
pos m *ℤ negsuc n = neg (m * (n + 1))
negsuc m *ℤ pos n = neg ((m + 1) * n)
negsuc m *ℤ negsuc n = pos ((m + 1) * (n + 1))

-- `x % n` for a positive `n`: the remainder has the sign of `x`.
unfoldable pub rem : ℤ → ℕ → ℤ
rem (pos m) n = pos (m % n)
rem (negsuc m) n = neg ((m + 1) % n)

-- `x == y`
unfoldable pub int_eq : ℤ → ℤ → Bool
int_eq (pos m) (pos n) = m == n
int_eq (negsuc m) (negsuc n) = m == n
int_eq x y = false
