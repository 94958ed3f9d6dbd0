-- ===== src/Pools/FixedSize/Expand.antt =====
-- expandPool: the blocks of a batch join the free list.
use linux_command.Base.{
  ℕ, zero, suc, ◌+◌, ◌*◌, ◌≤◌, ◌<◌, ◌≡◌, refl, inl, inr, ◌⊎◌, Option, some, List, [], ◌∷◌, ◌++◌,
  length, length-append, arith,
}
use native.Mathlib.Decide.{dec_lt}
use linux_command.Pools.FreeList.{
  Memory, write, times, batch, Chain-write, times-batch-le, times-batch_low, times-batch_high,
}
use linux_command.Pools.Owned.{Owned}
use linux_command.Pools.FixedSize.{thread_blocks, Apart}

-- The blocks of all batches.
abbrev pub all_blocks : ℕ → ℕ → List ℕ → List ℕ
all_blocks size_of n [] = []
all_blocks size_of n (b ∷ bs) = batch size_of n b ++ all_blocks size_of n bs

Owned-thread :
    (mem : Memory) (head : Option ℕ) (free live blocks : List ℕ) (a : ℕ)
    → Owned mem head free live blocks
    → times a blocks ≡ 0
    → Owned (write mem a head) (some a) (a ∷ free) live (a ∷ blocks)
Owned-thread mem head free live blocks a o new = record {
  chain = (refl, rw here (Chain-write mem a head head free (omega (arith, o.shared a)) o.chain));
  shared = λ b. omega (arith, o.shared b);
  once = λ b. once b;
  total = omega (arith, o.total);
}
  where
    here : write mem a head a ≡ head
    here = ground arith

    once : (b : ℕ) → times b (a ∷ blocks) ≤ 1
    once b = ground (arith, o.once b)

pub record Threaded (size_of n base : ℕ) (live blocks : List ℕ) (r : Option ℕ × Memory)
    : Type 0 where
  pub free' : List ℕ
  pub blocks' : List ℕ
  pub owned : Owned r.1 r.0 free' live blocks'
  pub joined : (a : ℕ) → times a blocks' ≡ times a blocks + times a (batch size_of n base)
  pub grown : length blocks' ≡ length blocks + n

thread_blocks-Threaded :
    (size_of n base : ℕ) (mem : Memory) (head : Option ℕ) (free live blocks : List ℕ)
    → 0 < size_of
    → Owned mem head free live blocks
    → ((a : ℕ) → times a blocks + times a (batch size_of n base) ≤ 1)
    → Threaded size_of n base live blocks (thread_blocks size_of n base head mem)
unfolding thread_blocks
thread_blocks-Threaded size_of zero base mem head free live blocks pos o fresh = record {
  free' = free;
  blocks' = blocks;
  owned = o;
  joined = λ a. omega arith;
  grown = omega arith;
}
thread_blocks-Threaded size_of (suc n) base mem head free live blocks pos o fresh =
    let t =
      thread_blocks-Threaded size_of n (base + size_of) (write mem base head) (some base)
        (base ∷ free) live (base ∷ blocks) pos
        (Owned-thread mem head free live blocks base o (ground (arith, fresh base)))
        (λ a. omega (arith, fresh a)) in
    record {
      free' = t.free';
      blocks' = t.blocks';
      owned = t.owned;
      joined = λ a. omega (arith, t.joined a);
      grown = omega (arith, t.grown);
    }

times-append :
    (a : ℕ) (blocks more : List ℕ) → times a (blocks ++ more) ≡ times a blocks + times a more
times-append a [] more = omega arith
times-append a (block ∷ blocks) more = omega (arith, times-append a blocks more)

module _ (size_of n : ℕ) where
  comm : size_of * n ≡ n * size_of
  comm = grind arith

  -- A batch that overlaps no other shares no address with them.
  Apart-none :
      (b a : ℕ) (bs : List ℕ)
      → 0 < size_of
      → Apart (size_of * n) b bs
      → b ≤ a
      → a < b + n * size_of
      → times a (all_blocks size_of n bs) ≡ 0
  Apart-none b a [] pos apart le lt = refl
  Apart-none b a (c ∷ cs) pos apart le lt = elim (dec_lt a c) [
    | yes low ↦ omega (
      arith,
      times-append a (batch size_of n c) (all_blocks size_of n cs),
      times-batch_low size_of n c a low,
      Apart-none b a cs pos apart.1 le lt,
    )
    | no high ↦ omega (
      arith,
      times-append a (batch size_of n c) (all_blocks size_of n cs),
      times-batch_high size_of n c a (above apart.0 (omega arith)) pos,
      Apart-none b a cs pos apart.1 le lt,
    )
  ]
    where
      above : (b + size_of * n ≤ c) ⊎ (c + size_of * n ≤ b) → c ≤ a → c + n * size_of ≤ a
      above (inl l) h = absurd (omega (arith, comm))
      above (inr r) h = omega (arith, comm)

  Apart-times :
      (b a : ℕ) (bs : List ℕ)
      → 0 < size_of
      → Apart (size_of * n) b bs
      → times a (all_blocks size_of n bs) ≤ 1
      → times a (all_blocks size_of n bs) + times a (batch size_of n b) ≤ 1
  Apart-times b a bs pos apart once = elim (dec_lt a b) [
    | yes low ↦ omega (arith, times-batch_low size_of n b a low)
    | no from ↦ elim (dec_lt a (b + n * size_of)) [
      | yes inside ↦ omega (
        arith,
        times-batch-le size_of n b a pos,
        Apart-none b a bs pos apart (omega arith) inside,
      )
      | no high ↦ omega (arith, times-batch_high size_of n b a (omega arith) pos)
    ]
  ]

  times-all_blocks :
      (b a : ℕ) (bs : List ℕ)
      → times a (all_blocks size_of n (bs ++ b ∷ []))
        ≡ times a (all_blocks size_of n bs) + times a (batch size_of n b)
  times-all_blocks b a [] = omega (arith, times-append a (batch size_of n b) [])
  times-all_blocks b a (c ∷ cs) = omega (
    arith,
    times-all_blocks b a cs,
    times-append a (batch size_of n c) (all_blocks size_of n cs),
    times-append a (batch size_of n c) (all_blocks size_of n (cs ++ b ∷ [])),
  )

  length-batch : (k base : ℕ) → length (batch size_of k base) ≡ k
  length-batch zero base = refl
  length-batch (suc k) base = omega (arith, length-batch k (base + size_of))

  length-all_blocks :
      (b : ℕ) (bs : List ℕ)
      → length (all_blocks size_of n (bs ++ b ∷ [])) ≡ length (all_blocks size_of n bs) + n
  length-all_blocks b [] = omega (arith, length-append (batch size_of n b) [], length-batch n b)
  length-all_blocks b (c ∷ cs) = omega (
    arith,
    length-all_blocks b cs,
    length-append (batch size_of n c) (all_blocks size_of n cs),
    length-append (batch size_of n c) (all_blocks size_of n (cs ++ b ∷ [])),
  )

  pub Owned-expand :
      (b : ℕ) (mem : Memory) (head : Option ℕ) (free live bs : List ℕ)
      → 0 < size_of
      → Apart (size_of * n) b bs
      → Owned mem head free live (all_blocks size_of n bs)
      → (free' : List ℕ) × Owned
          (thread_blocks size_of n b head mem).1
          (thread_blocks size_of n b head mem).0
          free'
          live
          (all_blocks size_of n (bs ++ b ∷ []))
        × (length free' ≡ length free + n)
  Owned-expand b mem head free live bs pos apart o =
      let t =
        thread_blocks-Threaded size_of n b mem head free live (all_blocks size_of n bs) pos o
          (λ a. Apart-times b a bs pos apart (o.once a)) in
      (
        t.free',
        record {
          chain = t.owned.chain;
          shared = λ a. omega (arith, t.owned.shared a, t.joined a, times-all_blocks b a bs);
          once = λ a. omega (arith, t.owned.once a, t.joined a, times-all_blocks b a bs);
          total = omega (arith, t.owned.total, t.grown, length-all_blocks b bs);
        },
        omega (arith, t.owned.total, t.grown, o.total),
      )
