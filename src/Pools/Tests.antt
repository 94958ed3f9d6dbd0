-- ===== src/Pools/Tests.antt =====
-- The pools on concrete calls.
use linux_command.Base.{
  ℕ, ◌+◌, ◌*◌, ◌≡◌, ◌≤◌, inr, Option, none, some, List, [], ◌∷◌, ltb, if◌then◌else◌, some_inj,
  arith,
}
use linux_command.Pools.FreeList.{Memory}
use linux_command.Pools.ObjectPool
use linux_command.Pools.ObjectPool.Grants.{Grants, run-Grants}
use linux_command.Pools.FixedSize
use linux_command.Pools.FixedSize.{
  FixedSizeMemoryPool, Malloc, Apart, k_batch_size, empty_pool, alloc_at,
}
use linux_command.Pools.FixedSize.Take.{Outcome}
use linux_command.Pools.FixedSize.Gives.{run-Outcome}

abbrev zeros : Memory
zeros a = none

-- Two of three blocks of 16 bytes are taken, and the first is given back with another value in it.
abbrev events : List ObjectPool.Event
events =
    ObjectPool.alloc none
    ∷ ObjectPool.alloc (some 7)
    ∷ ObjectPool.modify 1 (some 9)
    ∷ ObjectPool.give_back 1
    ∷ []

abbrev client : ObjectPool.Client
client = record { pool = ObjectPool.new_pool 16 3 4096 zeros; live = [] }

run-Grants_example :
    Grants 16 4096 3
      (ObjectPool.run events client).live
      (ObjectPool.allocate (some 1) (ObjectPool.run events client).pool).0
run-Grants_example =
    run-Grants 16 3 4096 zeros events (some 1) (omega arith) (omega arith) (omega arith)

-- A malloc that returns the first address behind all blocks.
abbrev top : ℕ → List ℕ → ℕ
top bytes [] = 0
top bytes (b ∷ bs) = if ltb (top bytes bs) (b + bytes) then b + bytes else top bytes bs

top-Apart : (bytes b : ℕ) (bs : List ℕ) → top bytes bs ≤ b → Apart bytes b bs
top-Apart bytes b [] le = tt
top-Apart bytes b (c ∷ cs) le = (inr (ground arith), top-Apart bytes b cs (ground arith))

bump_malloc : (bytes : ℕ) → Malloc bytes
bump_malloc bytes = record {
  malloc = λ t bs. some (top bytes bs);
  apart = λ t bs b e. top-Apart bytes b bs (omega (arith, some_inj (top bytes bs) b e));
}

abbrev calls : List FixedSize.Event
calls =
    FixedSize.alloc 0 none
    ∷ FixedSize.alloc 1 (some 5)
    ∷ FixedSize.give_back 0
    ∷ FixedSize.modify 0 (some 8)
    ∷ []

run-Outcome_example :
    (c : FixedSize.Client) × (FixedSize.run 16
        (bump_malloc (16 * k_batch_size))
        calls
        (record { pool = empty_pool zeros; live = [] })
      ≡ some c)
    × (r : Option (ℕ × FixedSizeMemoryPool)) × (alloc_at 16
          (bump_malloc (16 * k_batch_size))
          2
          none
          c.pool
        ≡ some r)
    × Outcome 16 (bump_malloc (16 * k_batch_size)) 2 c r
run-Outcome_example =
    run-Outcome 16 (bump_malloc (16 * k_batch_size)) zeros calls 2 none (omega arith)
