-- ===== src/Pools/FixedSize/Take.antt =====
-- allocate on a pool whose blocks are accounted for.
use linux_command.Base.{
  ℕ, ◌*◌, ◌<◌, ◌≡◌, refl, ap, inl, inr, Option, none, some, List, [], ◌∷◌, ◌++◌, ◌>>=◌, length,
  Option-cases, arith,
}
use mathlib.Core.Path.{subst}
use linux_command.Pools.FreeList.{Memory, write, times, Chain}
use linux_command.Pools.Owned.{Owned, Owned-pop, Owned-none, Owned-some}
use linux_command.Pools.FixedSize.{
  FixedSizeMemoryPool, k_batch_size, thread_blocks, expand_pool, take_head, returned, allocate,
  Malloc, Client, alloc_at,
}
use linux_command.Pools.FixedSize.Expand.{all_blocks, Owned-expand}

module _ (size_of : ℕ) where
  -- Each block of the batches is in the list or with the client.
  pub record Sound (c : Client) : Type 0 where
    pub free : List ℕ
    pub owned :
        Owned c.pool.mem c.pool.free_list_head free c.live
          (all_blocks size_of k_batch_size c.pool.memory_blocks)

  -- The block `a` that allocate took.
  pub record Took (live : List ℕ) (a : ℕ) (p : FixedSizeMemoryPool) : Type 0 where
    pub sound : Sound (record { pool = p; live = a ∷ live })
    pub idle : times a live ≡ 0
    pub ours : times a (all_blocks size_of k_batch_size p.memory_blocks) ≡ 1

  take_head-Took :
      (w : Option ℕ) (a : ℕ) (free live : List ℕ) (p : FixedSizeMemoryPool)
      → p.free_list_head ≡ some a
      → Owned p.mem (some a) free live (all_blocks size_of k_batch_size p.memory_blocks)
      → (p' : FixedSizeMemoryPool) × (take_head w p ≡ some (a, p')) × Took live a p'
  unfolding take_head
  take_head-Took w a free live p e o =
      let blocks = all_blocks size_of k_batch_size p.memory_blocks in
      let (rest, o') = Owned-some p.mem live blocks a free o in
      (
        record p { free_list_head = p.mem a; mem = write p.mem a w },
        rw (e, ◌>>=◌) refl,
        record {
          sound = record { free = rest; owned = Owned-pop p.mem live blocks a rest w o' };
          idle = ground (arith, o'.shared a, o'.once a);
          ours = ground (arith, o'.shared a, o'.once a);
        },
      )

module _ (size_of : ℕ) (answer w : Option ℕ) (p : FixedSizeMemoryPool) where
  allocate-taken :
      (a : ℕ) (q : ℕ × FixedSizeMemoryPool)
      → p.free_list_head ≡ some a
      → take_head w p ≡ some q
      → allocate size_of answer w p ≡ some (some q)
  unfolding allocate
  allocate-taken a q e taken = rw (allocate, e, returned, taken, ◌>>=◌) refl

  allocate-expanded :
      (p' : FixedSizeMemoryPool) (q : ℕ × FixedSizeMemoryPool)
      → p.free_list_head ≡ none
      → expand_pool size_of answer p ≡ some p'
      → take_head w p' ≡ some q
      → allocate size_of answer w p ≡ some (some q)
  unfolding allocate
  allocate-expanded p' q e expanded taken = rw (allocate, e, expanded, returned, taken, ◌>>=◌) refl

  allocate-thrown :
      p.free_list_head ≡ none → answer ≡ none → allocate size_of answer w p ≡ some none
  unfolding allocate expand_pool
  allocate-thrown e failed = rw (allocate, e, failed) refl

module _ (size_of : ℕ) (m : Malloc (size_of * k_batch_size)) where
  -- The exception when malloc fails and all blocks are out, and else a block of the pool, that of the
  -- pool's new batch included, that the client does not hold.
  abbrev pub Outcome : ℕ → Client → Option (ℕ × FixedSizeMemoryPool) → Type 0
  Outcome t c none =
      (m.malloc t c.pool.memory_blocks ≡ none)
      × (length c.live ≡ length (all_blocks size_of k_batch_size c.pool.memory_blocks))
  Outcome t c (some (a, p)) =
      (times a c.live ≡ 0) × (times a (all_blocks size_of k_batch_size p.memory_blocks) ≡ 1)

  unfoldable pub Result : ℕ → Client → Option (ℕ × FixedSizeMemoryPool) → Type 0
  Result t c none = Outcome t c none
  Result t c (some (a, p)) = Took size_of c.live a p

  head_of :
      (mem : Memory) (head : Option ℕ) (free : List ℕ)
      → Chain mem head free
      → 0 < length free
      → (a : ℕ) × (head ≡ some a)
  head_of mem head [] chain pos = absurd (omega arith)
  head_of mem head (a ∷ free) chain pos = (a, chain.0)

  alloc_expanded :
      (t b : ℕ) (w : Option ℕ) (c : Client)
      → 0 < size_of
      → c.pool.free_list_head ≡ none
      → m.malloc t c.pool.memory_blocks ≡ some b
      → Sound size_of c
      → (r : Option (ℕ × FixedSizeMemoryPool)) × (alloc_at size_of m t w c.pool ≡ some r)
        × Result t c r
  unfolding alloc_at allocate expand_pool Result
  alloc_expanded t b w c pos e answer s =
      let bs = c.pool.memory_blocks in
      let threaded = thread_blocks size_of k_batch_size b c.pool.free_list_head c.pool.mem in
      let (free', o, len) =
        Owned-expand size_of k_batch_size b c.pool.mem c.pool.free_list_head s.free c.live bs pos
          (m.apart t bs b answer) s.owned in
      let p : FixedSizeMemoryPool = record {
        free_list_head = threaded.0;
        memory_blocks = bs ++ b ∷ [];
        mem = threaded.1;
      } in
      let (a, head) = head_of threaded.1 threaded.0 free' o.chain (omega arith) in
      let (p', took, q) = take_head-Took size_of w a free' c.live p head (
        subst
          (λ h. Owned threaded.1 h free' c.live (all_blocks size_of k_batch_size (bs ++ b ∷ [])))
          head o) in
      (
        some (a, p'),
        allocate-expanded size_of (m.malloc t bs) w c.pool p (a, p') e
            (ap (λ x. expand_pool size_of x c.pool) answer) took,
        q,
      )

  pub alloc_at-Result :
      (t : ℕ) (w : Option ℕ) (c : Client)
      → 0 < size_of
      → Sound size_of c
      → (r : Option (ℕ × FixedSizeMemoryPool)) × (alloc_at size_of m t w c.pool ≡ some r)
        × Result t c r
  unfolding alloc_at Result
  alloc_at-Result t w c pos s = elim (Option-cases c.pool.free_list_head) [
    | inr (a, e) ↦
        let (p', took, q) = take_head-Took size_of w a s.free c.live c.pool e (
          subst
            (λ h.
              Owned c.pool.mem h s.free c.live
                (all_blocks size_of k_batch_size c.pool.memory_blocks))
            e s.owned) in
        (
          some (a, p'),
          allocate-taken size_of (m.malloc t c.pool.memory_blocks) w c.pool a (a, p') e took,
          q,
        )
    | inl e ↦ elim (Option-cases (m.malloc t c.pool.memory_blocks)) [
      | inr (b, answer) ↦ alloc_expanded t b w c pos e answer s
      | inl failed ↦
          let blocks = all_blocks size_of k_batch_size c.pool.memory_blocks in
          let none_free =
            Owned-none c.pool.mem c.live blocks s.free
              (subst (λ h. Owned c.pool.mem h s.free c.live blocks) e s.owned) in
          (
            none,
            allocate-thrown size_of (m.malloc t c.pool.memory_blocks) w c.pool e failed,
            (failed, omega (arith, s.owned.total, ap length none_free)),
          )
    ]
  ]
