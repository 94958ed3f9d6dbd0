-- ===== src/Pools/FixedSize/Gives.antt =====
-- What allocate gives.
use linux_command.Base.{
  ℕ, ◌*◌, ◌≤◌, ◌<◌, ◌≡◌, refl, inl, inr, Option, none, some, List, [], ◌∷◌, ◌>>=◌, get_elem?,
  Option-cases, arith,
}
use linux_command.Pools.FreeList.{Memory, write, remove_at}
use linux_command.Pools.Owned.{Owned-push, Owned-write}
use linux_command.Pools.FixedSize.{
  FixedSizeMemoryPool, k_batch_size, deallocate, Malloc, Event, alloc, give_back, modify, Client,
  alloc_at, step, run, empty_pool,
}
use linux_command.Pools.FixedSize.Expand.{all_blocks}
use linux_command.Pools.FixedSize.Take.{Sound, Outcome, alloc_at-Result}
use linux_command.Pools.FixedSize.Take.{Result}

module _ (size_of : ℕ) (m : Malloc (size_of * k_batch_size)) where
  step_alloc :
      (t : ℕ) (w : Option ℕ) (c : Client) (r : Option (ℕ × FixedSizeMemoryPool))
      → Sound size_of c
      → alloc_at size_of m t w c.pool ≡ some r
      → Result size_of m t c r
      → (c' : Client) × (step size_of m (alloc t w) c ≡ some c') × Sound size_of c'
  unfolding step Result
  step_alloc t w c none s e q = (c, rw (step, e, ◌>>=◌) refl, s)
  step_alloc t w c (some (a, p)) s e q =
      (record { pool = p; live = a ∷ c.live }, rw (step, e, ◌>>=◌) refl, q.sound)

  step-Sound :
      (e : Event) (c : Client)
      → 0 < size_of
      → Sound size_of c
      → (c' : Client) × (step size_of m e c ≡ some c') × Sound size_of c'
  unfolding step deallocate Result
  step-Sound (alloc t w) c pos s =
      let (r, e, q) = alloc_at-Result size_of m t w c pos s in step_alloc t w c r s e q
  step-Sound (give_back k) c pos s = elim (Option-cases (get_elem? c.live k)) [
    | inl e ↦ (c, rw (step, e) refl, s)
    | inr (x, e) ↦ (
      record { pool = deallocate (some x) c.pool; live = remove_at k c.live },
      rw (step, e) refl,
      record {
        free = x ∷ s.free;
        owned =
            Owned-push c.pool.mem c.live (all_blocks size_of k_batch_size c.pool.memory_blocks)
              c.pool.free_list_head s.free k x s.owned e;
      },
    )
  ]
  step-Sound (modify k w) c pos s = elim (Option-cases (get_elem? c.live k)) [
    | inl e ↦ (c, rw (step, e) refl, s)
    | inr (x, e) ↦ (
      record c { pool = record c.pool { mem = write c.pool.mem x w } },
      rw (step, e) refl,
      record {
        free = s.free;
        owned =
            Owned-write c.pool.mem c.live (all_blocks size_of k_batch_size c.pool.memory_blocks)
              c.pool.free_list_head s.free k x w s.owned e;
      },
    )
  ]

  run-Sound :
      (es : List Event) (c : Client)
      → 0 < size_of
      → Sound size_of c
      → (c' : Client) × (run size_of m es c ≡ some c') × Sound size_of c'
  unfolding run
  run-Sound [] c pos s = (c, refl, s)
  run-Sound (e ∷ es) c pos s =
      let (c', q, s') = step-Sound e c pos s in
      let (c'', r, s'') = run-Sound es c' pos s' in (c'', rw (q, ◌>>=◌) r, s'')

  empty_pool-Sound : (mem : Memory) → Sound size_of (record { pool = empty_pool mem; live = [] })
  empty_pool-Sound mem = record {
    free = [];
    owned = record { chain = refl; shared = λ a. refl; once = λ a. omega arith; total = refl };
  }

  Result-Outcome :
      (t : ℕ) (c : Client) (r : Option (ℕ × FixedSizeMemoryPool))
      → Result size_of m t c r
      → Outcome size_of m t c r
  unfolding Result
  Result-Outcome t c none q = q
  Result-Outcome t c (some (a, p)) q = (q.idle, q.ours)

  -- Whatever a client does with the blocks it holds, from the empty pool on, with a malloc that never
  -- returns a block that overlaps those of the pool: the run reads through no null pointer, nor does the
  -- allocate behind it, which throws only if malloc fails and all blocks are out, and else returns a
  -- block of the pool that is not out. sizeof(T) is at least that of a pointer, 8, so that no pointer
  -- that the pool writes reaches into the next block.
  pub run-Outcome :
      (mem : Memory) (es : List Event) (t : ℕ) (w : Option ℕ)
      → 8 ≤ size_of
      → (c : Client) × (run size_of m es (record { pool = empty_pool mem; live = [] }) ≡ some c)
        × (r : Option (ℕ × FixedSizeMemoryPool)) × (alloc_at size_of m t w c.pool ≡ some r)
        × Outcome size_of m t c r
  run-Outcome mem es t w wide =
      let pos : 0 < size_of = omega (arith, wide) in
      let (c, e, s) =
        run-Sound es (record { pool = empty_pool mem; live = [] }) pos (empty_pool-Sound mem) in
      let (r, q, out) = alloc_at-Result size_of m t w c pos s in
      (c, e, r, q, Result-Outcome t c r out)
