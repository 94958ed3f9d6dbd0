-- ===== src/Pools/Owned.antt =====
-- Who holds which block: each block is in the free list or with the client, once.
use linux_command.Base.{
  ℕ, ◌+◌, ◌≤◌, ◌≡◌, refl, sym, Option, none, some, List, [], ◌∷◌, get_elem?, length, some_inj,
  arith,
}
use linux_command.Pools.FreeList.{
  Memory, write, times, remove_at, Chain, Chain-write, times-remove_at, times-mem, length-remove_at,
}

pub record Owned (mem : Memory) (head : Option ℕ) (free live blocks : List ℕ) : Type 0 where
  pub chain : Chain mem head free
  pub shared : (a : ℕ) → times a free + times a live ≡ times a blocks
  pub once : (a : ℕ) → times a blocks ≤ 1
  pub total : length free + length live ≡ length blocks

module _ (mem : Memory) (live blocks : List ℕ) where
  pub Owned-pop :
      (a : ℕ) (free : List ℕ) (w : Option ℕ)
      → Owned mem (some a) (a ∷ free) live blocks
      → Owned (write mem a w) (mem a) free (a ∷ live) blocks
  Owned-pop a free w o = record {
    chain = Chain-write mem a w (mem a) free (ground (arith, o.shared a, o.once a)) o.chain.1;
    shared = λ b. omega (arith, o.shared b);
    once = o.once;
    total = omega (arith, o.total);
  }

  -- A block that the client holds is not free.
  held :
      (head : Option ℕ) (free : List ℕ) (k x : ℕ)
      → Owned mem head free live blocks
      → get_elem? live k ≡ some x
      → times x free ≡ 0
  held head free k x o at = omega (arith, o.shared x, o.once x, times-mem k x live at)

  pub Owned-push :
      (head : Option ℕ) (free : List ℕ) (k x : ℕ)
      → Owned mem head free live blocks
      → get_elem? live k ≡ some x
      → Owned (write mem x head) (some x) (x ∷ free) (remove_at k live) blocks
  Owned-push head free k x o at = record {
    chain = (refl, rw here (Chain-write mem x head head free (held head free k x o at) o.chain));
    shared = λ b. omega (arith, o.shared b, times-remove_at k b x live at);
    once = o.once;
    total = omega (arith, o.total, length-remove_at k x live at);
  }
    where
      here : write mem x head x ≡ head
      here = ground arith

  pub Owned-write :
      (head : Option ℕ) (free : List ℕ) (k x : ℕ) (w : Option ℕ)
      → Owned mem head free live blocks
      → get_elem? live k ≡ some x
      → Owned (write mem x w) head free live blocks
  Owned-write head free k x w o at = record {
    chain = Chain-write mem x w head free (held head free k x o at) o.chain;
    shared = o.shared;
    once = o.once;
    total = o.total;
  }

  -- A null pointer at the head: every block is with the client.
  pub Owned-none : (free : List ℕ) → Owned mem none free live blocks → free ≡ []
  Owned-none [] o = refl
  Owned-none (x ∷ free) o = absurd (cc (o.chain.0))

  pub Owned-some :
      (a : ℕ) (free : List ℕ)
      → Owned mem (some a) free live blocks
      → (rest : List ℕ) × Owned mem (some a) (a ∷ rest) live blocks
  Owned-some a [] o = absurd (cc (o.chain))
  Owned-some a (x ∷ free) o = (free, rw (sym (some_inj a x o.chain.0)) at o)
