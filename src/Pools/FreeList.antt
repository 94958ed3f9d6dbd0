-- ===== src/Pools/FreeList.antt =====
-- A list of free blocks through the first words of the blocks, and who holds which block. The memory
-- gives the pointer in the first word of the block at an address; a null pointer is `none`. Blocks do
-- not overlap where sizeof(T) is at least the size of a pointer.
use linux_command.Base.{
  ℕ, zero, suc, ◌+◌, ◌*◌, ◌≤◌, ◌<◌, ◌≡◌, refl, Option, none, some, List, [], ◌∷◌, ◌==◌,
  if◌then◌else◌, get_elem?, length, arith,
}

abbrev pub Memory : Type 0
Memory = ℕ → Option ℕ

abbrev pub write : Memory → ℕ → Option ℕ → Memory
write mem a v b = if b == a then v else mem b

-- How often an address stands in a list.
abbrev pub times : ℕ → List ℕ → ℕ
times a [] = 0
times a (block ∷ rest) = (if block == a then 1 else 0) + times a rest

abbrev pub remove_at : ℕ → List ℕ → List ℕ
remove_at k [] = []
remove_at zero (x ∷ xs) = xs
remove_at (suc k) (x ∷ xs) = x ∷ remove_at k xs

-- The addresses of `n` blocks of `size` bytes from `base` on.
abbrev pub batch : ℕ → ℕ → ℕ → List ℕ
batch size zero base = []
batch size (suc n) base = base ∷ batch size n (base + size)

-- The pointers from `head` on lead through the blocks of the list to the null pointer.
abbrev pub Chain : Memory → Option ℕ → List ℕ → Type 0
Chain mem head [] = head ≡ none
Chain mem head (a ∷ free) = (head ≡ some a) × Chain mem (mem a) free

-- A write to a block that is not free leaves the list.
pub Chain-write :
    (mem : Memory) (a : ℕ) (v head : Option ℕ) (free : List ℕ)
    → times a free ≡ 0
    → Chain mem head free
    → Chain (write mem a v) head free
Chain-write mem a v head [] none_free c = c
Chain-write mem a v head (x ∷ xs) none_free c =
    (c.0, rw other (Chain-write mem a v (mem x) xs (omega arith) c.1))
  where
    other : write mem a v x ≡ mem x
    other = ground arith

pub times-remove_at :
    (k a x : ℕ) (xs : List ℕ)
    → get_elem? xs k ≡ some x
    → times a xs ≡ (if x == a then 1 else 0) + times a (remove_at k xs)
times-remove_at k a x [] at = absurd (cc at)
times-remove_at zero a x (y ∷ ys) at = ground arith
times-remove_at (suc k) a x (y ∷ ys) at = omega (arith, times-remove_at k a x ys at)

pub times-mem : (k x : ℕ) (xs : List ℕ) → get_elem? xs k ≡ some x → 0 < times x xs
times-mem k x xs at = ground (arith, times-remove_at k x x xs at)

pub length-remove_at :
    (k x : ℕ) (xs : List ℕ) → get_elem? xs k ≡ some x → length xs ≡ length (remove_at k xs) + 1
length-remove_at k x [] at = absurd (cc at)
length-remove_at zero x (y ∷ ys) at = omega arith
length-remove_at (suc k) x (y ∷ ys) at = omega (arith, length-remove_at k x ys at)

-- The blocks of a batch stand once, between its ends.
pub times-batch_low : (size n base a : ℕ) → a < base → times a (batch size n base) ≡ 0
times-batch_low size zero base a lt = refl
times-batch_low size (suc n) base a lt =
    ground (arith, times-batch_low size n (base + size) a (omega arith))

pub times-batch_high :
    (size n base a : ℕ) → base + n * size ≤ a → 0 < size → times a (batch size n base) ≡ 0
times-batch_high size zero base a le pos = refl
times-batch_high size (suc n) base a le pos =
    ground (arith, times-batch_high size n (base + size) a (omega arith) pos)

pub times-batch-le : (size n base a : ℕ) → 0 < size → times a (batch size n base) ≤ 1
times-batch-le size zero base a pos = omega arith
times-batch-le size (suc n) base a pos = ground (
  arith,
  times-batch_low size n (base + size) base (omega arith),
  times-batch-le size n (base + size) a pos,
)
