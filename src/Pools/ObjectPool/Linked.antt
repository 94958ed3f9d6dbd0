-- ===== src/Pools/ObjectPool/Linked.antt =====
-- The loop of the constructor: the blocks form a list.
use linux_command.Base.{
  ℕ, zero, suc, ◌+◌, ◌*◌, ◌%◌, ◌^◌, ◌≤◌, ◌<◌, ◌≡◌, refl, sym, ◌∙◌, ap, none, some, arith,
}
use mathlib.Core.Path.{subst}
use linux_command.Pools.FreeList.{Memory, write, batch, Chain}
use linux_command.Pools.ObjectPool.{block_at, link_blocks}

-- The loop of the constructor, where no address wraps round.
pub plain_blocks : ℕ → ℕ → ℕ → ℕ → Memory → Memory
plain_blocks size_of buffer zero i mem = mem
plain_blocks size_of buffer (suc n) i mem =
    plain_blocks size_of buffer n (i + 1)
      (write mem (buffer + i * size_of) (some (buffer + (i + 1) * size_of)))

wrap_small : (k b : ℕ) → b + k < 2 ^ 64 → (b + k % 2 ^ 64) % 2 ^ 64 ≡ b + k
wrap_small k b lt = omega arith

pub block_at-plain :
    (size_of buffer i : ℕ)
    → buffer + i * size_of < 2 ^ 64
    → block_at size_of buffer i ≡ buffer + i * size_of
unfolding block_at
block_at-plain size_of buffer i lt = wrap_small (i * size_of) buffer lt

mul_le : (a b c : ℕ) → a ≤ b → a * c ≤ b * c
mul_le a b c le = grind arith

pub link_blocks-plain :
    (size_of buffer n i : ℕ) (mem : Memory)
    → buffer + (i + n) * size_of < 2 ^ 64
    → link_blocks size_of buffer n i mem ≡ plain_blocks size_of buffer n i mem
unfolding link_blocks plain_blocks
link_blocks-plain size_of buffer zero i mem lt = refl
link_blocks-plain size_of buffer (suc n) i mem lt =
    let here =
      block_at-plain size_of buffer i
        (omega (arith, lt, mul_le i (i + suc n) size_of (omega arith))) in
    let next =
      block_at-plain size_of buffer (i + 1)
        (omega (arith, lt, mul_le (i + 1) (i + suc n) size_of (omega arith))) in
    rw (here, next)
      (link_blocks-plain size_of buffer n (i + 1) _
        (omega (arith, lt, mul_le (i + 1 + n) (i + suc n) size_of (omega arith))))

-- The loop writes to no block before it.
plain_blocks-low :
    (size_of buffer n i a : ℕ) (mem : Memory)
    → a < buffer + i * size_of
    → plain_blocks size_of buffer n i mem a ≡ mem a
unfolding plain_blocks
plain_blocks-low size_of buffer zero i a mem lt = refl
plain_blocks-low size_of buffer (suc n) i a mem lt =
    plain_blocks-low size_of buffer n (i + 1) a
      (write mem (buffer + i * size_of) (some (buffer + (i + 1) * size_of))) (omega (arith, more))
    ∙ ground arith
  where
    more : buffer + (i + 1) * size_of ≡ buffer + i * size_of + size_of
    more = grind arith

-- The memory behind the constructor.
abbrev pub linked : ℕ → ℕ → ℕ → ℕ → Memory → Memory
linked size_of buffer n i mem =
    write (plain_blocks size_of buffer n i mem) (buffer + (i + n) * size_of) none

last_link :
    (size_of buffer i : ℕ) (mem : Memory)
    → write mem (buffer + (i + 0) * size_of) none (buffer + i * size_of) ≡ none
last_link size_of buffer i mem = ground (arith, same)
  where
    same : buffer + (i + 0) * size_of ≡ buffer + i * size_of
    same = grind arith

module _ (size_of buffer n i : ℕ) (mem : Memory) (pos : 0 < size_of) where
  next_mem : Memory
  next_mem = write mem (buffer + i * size_of) (some (buffer + (i + 1) * size_of))

  link_next :
      linked size_of buffer n (i + 1) next_mem (buffer + i * size_of)
      ≡ some (buffer + (i + 1) * size_of)
  unfolding next_mem
  link_next = ground (
    arith,
    plain_blocks-low size_of buffer n (i + 1) (buffer + i * size_of) next_mem (omega (arith, more)),
    last_far,
  )
    where
      more : buffer + (i + 1) * size_of ≡ buffer + i * size_of + size_of
      more = grind arith

      last_far : buffer + i * size_of < buffer + (i + 1 + n) * size_of
      last_far = grind arith

  linked-next : linked size_of buffer (suc n) i mem ≡ linked size_of buffer n (i + 1) next_mem
  unfolding plain_blocks next_mem
  linked-next =
      ap (λ j. write (plain_blocks size_of buffer n (i + 1) next_mem) (buffer + j * size_of) none)
        (omega arith)

Chain-start :
    (m m' : Memory) (size_of n b c : ℕ)
    → m ≡ m'
    → m' b ≡ some c
    → c ≡ b + size_of
    → Chain m' (some c) (batch size_of (suc n) c)
    → Chain m (some b) (batch size_of (suc (suc n)) b)
Chain-start m m' size_of n b c same at e chain =
    subst (λ x. Chain x (some b) (batch size_of (suc (suc n)) b)) (sym same)
      (refl, (at ∙ ap some e, rw⁻¹ e (chain.1)))

pub plain_blocks-Chain :
    (size_of buffer n i : ℕ) (mem : Memory)
    → 0 < size_of
    → Chain
        (linked size_of buffer n i mem)
        (some (buffer + i * size_of))
        (batch size_of (suc n) (buffer + i * size_of))
unfolding plain_blocks
plain_blocks-Chain size_of buffer zero i mem pos = (refl, last_link size_of buffer i mem)
plain_blocks-Chain size_of buffer (suc n) i mem pos =
    Chain-start (linked size_of buffer (suc n) i mem) (linked size_of buffer n (i + 1) mem') size_of
      n (buffer + i * size_of) (buffer + (i + 1) * size_of) (linked-next size_of buffer n i mem pos)
      (link_next size_of buffer n i mem pos) more
      (plain_blocks-Chain size_of buffer n (i + 1) mem' pos)
  where
    mem' : Memory
    mem' = next_mem size_of buffer n i mem pos

    more : buffer + (i + 1) * size_of ≡ buffer + i * size_of + size_of
    more = grind arith
