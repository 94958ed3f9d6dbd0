-- ===== src/Pools/FixedSize.antt =====
-- mycode/pool/memory_pool/FixedSizeMemryPool.h. T is given by its size, `w` is what its constructor
-- leaves in the first word of the object, and `batch_memory` what malloc returned.
pub mod Expand
pub mod Take
pub mod Gives
use linux_command.Base.{
  ℕ, zero, suc, ◌+◌, ◌*◌, ◌≡◌, Bool, true, false, Option, none, some, List, [], ◌∷◌, ◌++◌, ◌≤◌, ◌⊎◌,
  ◌>>=◌, get_elem?,
}
use linux_command.Pools.FreeList.{Memory, write, remove_at}

pub record FixedSizeMemoryPool : Type 0 where
  pub free_list_head : Option ℕ
  pub memory_blocks : List ℕ
  pub mem : Memory

abbrev pub k_batch_size : ℕ
k_batch_size = 1024

-- The loop of expandPool, with `n` rounds left: the head of the list and the memory behind it. Each
-- round writes a pointer, 8 bytes, into its block: the memory of words stands for it where blocks have
-- at least 8 bytes.
pub thread_blocks : ℕ → ℕ → ℕ → Option ℕ → Memory → Option ℕ × Memory
thread_blocks size_of zero block head mem = (head, mem)
thread_blocks size_of (suc n) block head mem =
    thread_blocks size_of n (block + size_of) (some block) (write mem block head)

-- `none` is the exception bad_alloc.
pub expand_pool : ℕ → Option ℕ → FixedSizeMemoryPool → Option FixedSizeMemoryPool
expand_pool size_of none p = none
expand_pool size_of (some batch_memory) p =
    let (head, mem) = thread_blocks size_of k_batch_size batch_memory p.free_list_head p.mem in
    some (record {
      free_list_head = head;
      memory_blocks = p.memory_blocks ++ batch_memory ∷ [];
      mem = mem;
    })

-- The part of allocate behind its test; `none` would be a read through the null pointer.
pub take_head : Option ℕ → FixedSizeMemoryPool → Option (ℕ × FixedSizeMemoryPool)
take_head w p = do
  obj ← p.free_list_head
  some (obj, record p { free_list_head = p.mem obj; mem = write p.mem obj w })

abbrev pub returned : Option (ℕ × FixedSizeMemoryPool) → Option (Option (ℕ × FixedSizeMemoryPool))
returned r = do q ← r; some (some q)

-- `some none` is the exception, `none` a read through the null pointer.
pub allocate :
    ℕ → Option ℕ → Option ℕ → FixedSizeMemoryPool → Option (Option (ℕ × FixedSizeMemoryPool))
allocate size_of batch_memory w p = elim (p.free_list_head) [
  | some a ↦ returned (take_head w p)
  | none ↦ elim (expand_pool size_of batch_memory p) [
    | none ↦ some none
    | some p' ↦ returned (take_head w p')
  ]
]

pub deallocate : Option ℕ → FixedSizeMemoryPool → FixedSizeMemoryPool
deallocate none p = p
deallocate (some obj) p = record p {
  mem = write p.mem obj p.free_list_head;
  free_list_head = some obj;
}

-- destroyAll, with the blocks that it passes to free.
pub destroy_all : FixedSizeMemoryPool → List ℕ × FixedSizeMemoryPool
destroy_all p = (p.memory_blocks, record p { memory_blocks = []; free_list_head = none })

-- The move constructor: the new pool, and the pool it was made from.
pub move_pool : FixedSizeMemoryPool → FixedSizeMemoryPool × FixedSizeMemoryPool
move_pool other = (other, record other { free_list_head = none; memory_blocks = [] })

-- The move assignment, after its test `same` for the object itself: the blocks that go to free, and
-- both pools.
pub move_assign :
    Bool
    → FixedSizeMemoryPool
    → FixedSizeMemoryPool
    → List ℕ × FixedSizeMemoryPool × FixedSizeMemoryPool
move_assign true p other = ([], p, other)
move_assign false p other =
    let (this, other') = move_pool other in ((destroy_all p).0, this, other')

-- What malloc answers to the call number `t` while the pool has the blocks of the list: the null pointer,
-- or a block that overlaps none of these.
abbrev pub Apart : ℕ → ℕ → List ℕ → Type 0
Apart bytes b [] = Unit {0}
Apart bytes b (c ∷ cs) = ((b + bytes ≤ c) ⊎ (c + bytes ≤ b)) × Apart bytes b cs

pub record Malloc (bytes : ℕ) : Type 0 where
  pub malloc : ℕ → List ℕ → Option ℕ
  pub apart : (t : ℕ) (bs : List ℕ) (b : ℕ) → malloc t bs ≡ some b → Apart bytes b bs

pub data Event : Type 0 where
  alloc : ℕ → Option ℕ → Event
  give_back : ℕ → Event
  modify : ℕ → Option ℕ → Event

pub record Client : Type 0 where
  pub pool : FixedSizeMemoryPool
  pub live : List ℕ

module _ (size_of : ℕ) (m : Malloc (size_of * k_batch_size)) where
  pub alloc_at : ℕ → Option ℕ → FixedSizeMemoryPool → Option (Option (ℕ × FixedSizeMemoryPool))
  alloc_at t w p = allocate size_of (m.malloc t p.memory_blocks) w p

  -- A client gives back and writes to what it holds; after an exception all is as before.
  pub step : Event → Client → Option Client
  step (alloc t w) c = do
    r ← alloc_at t w c.pool
    some (elim r [ none ↦ c | some (a, p) ↦ record { pool = p; live = a ∷ c.live } ])
  step (give_back k) c = elim (get_elem? c.live k) [
    | none ↦ some c
    | some x ↦ some (record { pool = deallocate (some x) c.pool; live = remove_at k c.live })
  ]
  step (modify k w) c = elim (get_elem? c.live k) [
    | none ↦ some c
    | some x ↦ some (record c { pool = record c.pool { mem = write c.pool.mem x w } })
  ]

  pub run : List Event → Client → Option Client
  run [] c = some c
  run (e ∷ es) c = do c' ← step e c; run es c'

-- The default constructor: nothing is allocated.
abbrev pub empty_pool : Memory → FixedSizeMemoryPool
empty_pool mem = record { free_list_head = none; memory_blocks = []; mem = mem }
