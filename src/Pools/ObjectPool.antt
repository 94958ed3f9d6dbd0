-- ===== src/Pools/ObjectPool.antt =====
-- mycode/pool/ObjectPool.h. T is given by its size; `w` is what its constructor leaves in the first
-- word of the object. The mutex makes each call one step.
pub mod Linked
pub mod Grants
use linux_command.Base.{
  ℕ, zero, suc, ◌+◌, ◌-◌, ◌*◌, ◌%◌, ◌^◌, Option, none, some, List, [], ◌∷◌, get_elem?,
}
use linux_command.Pools.FreeList.{Memory, write, remove_at}

pub record ObjectPool : Type 0 where
  pub pool_size : ℕ
  pub buffer : ℕ
  pub free_list_head : Option ℕ
  pub mem : Memory

-- The address of block `i`: size_t and pointers wrap round at 2^64.
pub block_at : ℕ → ℕ → ℕ → ℕ
block_at size_of buffer i = (buffer + i * size_of % 2 ^ 64) % 2 ^ 64

-- `n` rounds of the loop of the constructor from `i` on. Each writes a pointer, 8 bytes, into its
-- block: the memory of words stands for it where blocks have at least 8 bytes.
pub link_blocks : ℕ → ℕ → ℕ → ℕ → Memory → Memory
link_blocks size_of buffer zero i mem = mem
link_blocks size_of buffer (suc n) i mem =
    link_blocks size_of buffer n (i + 1)
      (write mem (block_at size_of buffer i) (some (block_at size_of buffer (i + 1))))

-- The constructor, with the address of the buffer that new gave; `size - 1` wraps round at 0.
pub new_pool : ℕ → ℕ → ℕ → Memory → ObjectPool
new_pool size_of size buffer mem =
    let last = (size + 2 ^ 64 - 1) % 2 ^ 64 in
    record {
      pool_size = size;
      buffer = buffer;
      free_list_head = some buffer;
      mem = write (link_blocks size_of buffer last 0 mem) (block_at size_of buffer last) none;
    }

pub allocate : Option ℕ → ObjectPool → Option ℕ × ObjectPool
allocate w p = elim (p.free_list_head) [
  | none ↦ (none, p)
  | some obj ↦ (some obj, record p { free_list_head = p.mem obj; mem = write p.mem obj w })
]

pub deallocate : Option ℕ → ObjectPool → ObjectPool
deallocate none p = p
deallocate (some obj) p = record p {
  mem = write p.mem obj p.free_list_head;
  free_list_head = some obj;
}

-- What a client does: it gives back only what it holds, and writes only to that.
pub data Event : Type 0 where
  alloc : Option ℕ → Event
  give_back : ℕ → Event
  modify : ℕ → Option ℕ → Event

pub record Client : Type 0 where
  pub pool : ObjectPool
  pub live : List ℕ

pub step : Event → Client → Client
step (alloc w) c =
    let (r, p) = allocate w c.pool in
    record { pool = p; live = elim r [ none ↦ c.live | some a ↦ a ∷ c.live ] }
step (give_back k) c = elim (get_elem? c.live k) [
  | none ↦ c
  | some x ↦ record { pool = deallocate (some x) c.pool; live = remove_at k c.live }
]
step (modify k w) c = elim (get_elem? c.live k) [
  | none ↦ c
  | some x ↦ record c { pool = record c.pool { mem = write c.pool.mem x w } }
]

pub run : List Event → Client → Client
run [] c = c
run (e ∷ es) c = run es (step e c)
