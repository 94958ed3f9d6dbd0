-- ===== src/Pools/ObjectPool/Grants.antt =====
-- What the pool hands out.
use linux_command.Base.{
  ℕ, zero, suc, ◌+◌, ◌-◌, ◌*◌, ◌%◌, ◌^◌, ◌≤◌, ◌<◌, ◌≡◌, refl, sym, ◌∙◌, ap, inl, inr, Option, none,
  some, List, [], ◌∷◌, get_elem?, length, Option-cases, arith,
}
use mathlib.Core.Path.{subst}
use linux_command.Pools.FreeList.{Memory, write, times, remove_at, batch, Chain, times-batch-le}
use linux_command.Pools.Owned.{Owned, Owned-pop, Owned-push, Owned-write, Owned-none, Owned-some}
use linux_command.Pools.ObjectPool.{
  link_blocks, block_at, new_pool, allocate, deallocate, Event, alloc, give_back, modify, Client,
  step, run,
}
use linux_command.Pools.ObjectPool.Linked.{
  linked, plain_blocks, plain_blocks-Chain, link_blocks-plain, block_at-plain,
}

-- Each block is in the list or with the client.
record Sound (size_of buffer size : ℕ) (c : Client) : Type 0 where
  free : List ℕ
  owned : Owned c.pool.mem c.pool.free_list_head free c.live (batch size_of size buffer)

length-batch : (size_of n base : ℕ) → length (batch size_of n base) ≡ n
length-batch size_of zero base = refl
length-batch size_of (suc n) base = omega (arith, length-batch size_of n (base + size_of))

blocks_le : (size_of n : ℕ) → 0 < size_of → n ≤ n * size_of
blocks_le size_of n pos = grind arith

one_less : (size_of n : ℕ) → n * size_of ≤ suc n * size_of
one_less size_of n = grind arith

new_pool-Sound :
    (size_of size buffer : ℕ) (mem : Memory)
    → 0 < size_of
    → 0 < size
    → buffer + size * size_of < 2 ^ 64
    → Sound size_of buffer size (record { pool = new_pool size_of size buffer mem; live = [] })
unfolding new_pool
new_pool-Sound size_of zero buffer mem pos some_block fits = absurd (omega arith)
new_pool-Sound size_of (suc n) buffer mem pos some_block fits = record {
  free = batch size_of (suc n) buffer;
  owned = record {
    chain = chain;
    shared = λ a. omega arith;
    once = λ a. times-batch-le size_of (suc n) buffer a pos;
    total = omega arith;
  };
}
  where
    rounds : (suc n + 2 ^ 64 - 1) % 2 ^ 64 ≡ n
    rounds = omega (arith, fits, blocks_le size_of (suc n) pos)

    plus_zero : (k : ℕ) → k ≡ 0 + k
    plus_zero k = omega arith

    plain : link_blocks size_of buffer n 0 mem ≡ plain_blocks size_of buffer n 0 mem
    plain = link_blocks-plain size_of buffer n 0 mem (omega (arith, fits, one_less size_of n))

    last_plain : block_at size_of buffer n ≡ buffer + (0 + n) * size_of
    last_plain =
        block_at-plain size_of buffer n (omega (arith, fits, one_less size_of n))
        ∙ ap (λ k. buffer + k * size_of) (plus_zero n)

    same_mem :
        write (link_blocks size_of buffer n 0 mem) (block_at size_of buffer n) none
        ≡ linked size_of buffer n 0 mem
    same_mem =
        ap (λ m. write m (block_at size_of buffer n) none) plain
        ∙ ap (λ a. write (plain_blocks size_of buffer n 0 mem) a none) last_plain

    at_start : buffer + 0 * size_of ≡ buffer
    at_start = omega arith

    chain :
        Chain
          (write
            (link_blocks size_of buffer ((suc n + 2 ^ 64 - 1) % 2 ^ 64) 0 mem)
            (block_at size_of buffer ((suc n + 2 ^ 64 - 1) % 2 ^ 64))
            none)
          (some buffer)
          (batch size_of (suc n) buffer)
    chain =
        subst
          (λ k.
            Chain (write (link_blocks size_of buffer k 0 mem) (block_at size_of buffer k) none)
              (some buffer) (batch size_of (suc n) buffer))
          (sym rounds)
          (subst (λ m. Chain m (some buffer) (batch size_of (suc n) buffer)) (sym same_mem)
            (subst (λ b. Chain (linked size_of buffer n 0 mem) (some b) (batch size_of (suc n) b))
              at_start (plain_blocks-Chain size_of buffer n 0 mem pos)))

module _ (c : Client) where
  alloc_none : (w : Option ℕ) → c.pool.free_list_head ≡ none → step (alloc w) c ≡ c
  unfolding step allocate
  alloc_none w e = rw e refl

  alloc_some :
      (w : Option ℕ) (a : ℕ)
      → c.pool.free_list_head ≡ some a
      → step (alloc w) c ≡ record {
        pool = record c.pool { free_list_head = c.pool.mem a; mem = write c.pool.mem a w };
        live = a ∷ c.live;
      }
  unfolding step allocate
  alloc_some w a e = rw e refl

  give_back_none : (k : ℕ) → get_elem? c.live k ≡ none → step (give_back k) c ≡ c
  unfolding step
  give_back_none k e = rw (step, e) refl

  give_back_some :
      (k x : ℕ)
      → get_elem? c.live k ≡ some x
      → step (give_back k) c
        ≡ record { pool = deallocate (some x) c.pool; live = remove_at k c.live }
  unfolding step
  give_back_some k x e = rw (step, e) refl

  modify_none : (k : ℕ) (w : Option ℕ) → get_elem? c.live k ≡ none → step (modify k w) c ≡ c
  unfolding step
  modify_none k w e = rw (step, e) refl

  modify_some :
      (k x : ℕ) (w : Option ℕ)
      → get_elem? c.live k ≡ some x
      → step (modify k w) c ≡ record c { pool = record c.pool { mem = write c.pool.mem x w } }
  unfolding step
  modify_some k x w e = rw (step, e) refl

module _ (size_of buffer size : ℕ) where
  keeps : (c c' : Client) → c' ≡ c → Sound size_of buffer size c → Sound size_of buffer size c'
  keeps c c' e s = subst (Sound size_of buffer size) (sym e) s

  alloc-Sound :
      (w : Option ℕ) (c : Client) (head : Option ℕ)
      → c.pool.free_list_head ≡ head
      → Sound size_of buffer size c
      → Sound size_of buffer size (step (alloc w) c)
  alloc-Sound w c none e s = keeps c (step (alloc w) c) (alloc_none c w e) s
  alloc-Sound w c (some a) e s =
      let (rest, o) =
        Owned-some c.pool.mem c.live (batch size_of size buffer) a s.free
          (subst (λ h. Owned c.pool.mem h s.free c.live (batch size_of size buffer)) e s.owned) in
      keeps _ (step (alloc w) c) (alloc_some c w a e) (record {
        free = rest;
        owned = Owned-pop c.pool.mem c.live (batch size_of size buffer) a rest w o;
      })

  step-Sound :
      (e : Event) (c : Client) → Sound size_of buffer size c → Sound size_of buffer size (step e c)
  unfolding deallocate
  step-Sound (alloc w) c s = alloc-Sound w c c.pool.free_list_head refl s
  step-Sound (give_back k) c s = elim (Option-cases (get_elem? c.live k)) [
    | inl e ↦ keeps c (step (give_back k) c) (give_back_none c k e) s
    | inr (x, e) ↦ keeps _ (step (give_back k) c) (give_back_some c k x e) (record {
      free = x ∷ s.free;
      owned =
          Owned-push c.pool.mem c.live (batch size_of size buffer) c.pool.free_list_head s.free k x
            s.owned e;
    })
  ]
  step-Sound (modify k w) c s = elim (Option-cases (get_elem? c.live k)) [
    | inl e ↦ keeps c (step (modify k w) c) (modify_none c k w e) s
    | inr (x, e) ↦ keeps _ (step (modify k w) c) (modify_some c k x w e) (record {
      free = s.free;
      owned =
          Owned-write c.pool.mem c.live (batch size_of size buffer) c.pool.free_list_head s.free k x
            w s.owned e;
    })
  ]

run-Sound :
    (size_of buffer size : ℕ) (es : List Event) (c : Client)
    → Sound size_of buffer size c
    → Sound size_of buffer size (run es c)
unfolding run
run-Sound size_of buffer size [] c s = s
run-Sound size_of buffer size (e ∷ es) c s =
    run-Sound size_of buffer size es (step e c) (step-Sound size_of buffer size e c s)

-- A null pointer when all blocks are out, and else the address of a block that nobody holds.
abbrev pub Grants : ℕ → ℕ → ℕ → List ℕ → Option ℕ → Type 0
Grants size_of buffer size live none = length live ≡ size
Grants size_of buffer size live (some a) =
    (length live < size) × (times a live ≡ 0) × (times a (batch size_of size buffer) ≡ 1)

allocate-Grants :
    (size_of buffer size : ℕ) (w head : Option ℕ) (c : Client)
    → c.pool.free_list_head ≡ head
    → Sound size_of buffer size c
    → Grants size_of buffer size c.live (allocate w c.pool).0
unfolding allocate
allocate-Grants size_of buffer size w none c e s =
    let none_free =
      Owned-none c.pool.mem c.live (batch size_of size buffer) s.free
        (subst (λ h. Owned c.pool.mem h s.free c.live (batch size_of size buffer)) e s.owned) in
    rw e (omega (arith, s.owned.total, ap length none_free, length-batch size_of size buffer))
allocate-Grants size_of buffer size w (some a) c e s =
    let (rest, o) =
      Owned-some c.pool.mem c.live (batch size_of size buffer) a s.free
        (subst (λ h. Owned c.pool.mem h s.free c.live (batch size_of size buffer)) e s.owned) in
    rw e (
      omega (arith, o.total, length-batch size_of size buffer),
      ground (arith, o.shared a, o.once a),
      ground (arith, o.shared a, o.once a),
    )

-- Whatever a client does with the blocks it holds, from the constructor on: allocate returns the null
-- pointer just when all blocks are out, and else the address of a block that is not out. The pool has
-- at least one block, sizeof(T) is at least that of a pointer, 8, so that no pointer that the pool
-- writes reaches into the next block, and the buffer that new gave lies below 2^64.
pub run-Grants :
    (size_of size buffer : ℕ) (mem : Memory) (es : List Event) (w : Option ℕ)
    → 8 ≤ size_of
    → 0 < size
    → buffer + size * size_of < 2 ^ 64
    → Grants size_of buffer size
        (run es (record { pool = new_pool size_of size buffer mem; live = [] })).live
        (allocate w (run es (record { pool = new_pool size_of size buffer mem; live = [] })).pool).0
run-Grants size_of size buffer mem es w wide some_block fits =
    allocate-Grants size_of buffer size w _
      (run es (record { pool = new_pool size_of size buffer mem; live = [] })) refl
      (run-Sound size_of buffer size es
        (record { pool = new_pool size_of size buffer mem; live = [] })
        (new_pool-Sound size_of size buffer mem (omega (arith, wide)) some_block fits))
