-- ===== src/Deadlock/Locks.antt =====
-- The lock table and the hooks of mycode/deadlock/deadlock.c. Each hook runs whole: the source
-- takes no lock round its tables, and the interleaving of two hooks is not modelled.
pub mod Free
pub mod Leak
use linux_command.Base.{
  ℕ, zero, suc, ◌+◌, Bool, Option, none, some, ◌==◌, if◌then◌else◌, ◌>>=◌, get_elem?, store,
  search_table,
}
use linux_command.Base.Int.{incr, decr, is_zero}
use linux_command.Deadlock.Graph.{
  Source, TaskGraph, process_node, add_vertex, add_edge, verify_edge, remove_edge,
}

-- start_check: the block comes from malloc, and two of its fields are set.
pub start_check : TaskGraph → TaskGraph
start_check block = record block { num = 0; lockidx = 0 }

abbrev pub holds : ℕ → Source → Bool
holds lock e = e.lock_id == lock

pub search_lock : TaskGraph → ℕ → Option (Option ℕ)
search_lock g lock = search_table (holds lock) g.locklist g.lockidx

pub search_empty_lock : TaskGraph → Option ℕ
search_empty_lock g = do
  found ← search_table (holds 0) g.locklist g.lockidx
  elim found [ none ↦ some g.lockidx | some i ↦ some i ]

pub set_entry : TaskGraph → ℕ → Source → Option TaskGraph
set_entry g i e = do locklist ← store g.locklist i e; some (record g { locklist = locklist })

-- The body of the loop of lock_before, at an entry of the lock.
pub wait_for : TaskGraph → ℕ → ℕ → Source → Option TaskGraph
wait_for g tid idx e = do
  g₁ ← add_vertex g (process_node tid)
  g₂ ← add_vertex g₁ (process_node e.id)
  g₃ ← set_entry g₂ idx (record e { degress = incr e.degress })
  linked ← verify_edge g₃ (process_node tid) (process_node e.id)
  if linked then some g₃ else add_edge g₃ (process_node tid) (process_node e.id)

pub lock_before_at : TaskGraph → ℕ → ℕ → ℕ → Option TaskGraph
lock_before_at g tid lockaddr idx = do
  e ← get_elem? g.locklist idx
  if e.lock_id == lockaddr then wait_for g tid idx e else some g

-- `n` rounds from `idx` on. No round changes `lockidx`.
pub lock_before_from : ℕ → ℕ → ℕ → ℕ → TaskGraph → Option TaskGraph
lock_before_from tid lockaddr idx zero g = some g
lock_before_from tid lockaddr idx (suc n) g = do
  g₁ ← lock_before_at g tid lockaddr idx
  lock_before_from tid lockaddr (idx + 1) n g₁

pub lock_before : TaskGraph → ℕ → ℕ → Option TaskGraph
lock_before g tid lockaddr = lock_before_from tid lockaddr 0 g.lockidx g

-- lock_after, at a lock that the table does not hold: `lockidx` grows even if the entry is an old
-- one. `degress` keeps what the entry held.
pub enter_lock : TaskGraph → ℕ → ℕ → Option TaskGraph
enter_lock g tid lockaddr = do
  eidx ← search_empty_lock g
  e ← get_elem? g.locklist eidx
  g₁ ← set_entry g eidx (record e { id = tid; lock_id = lockaddr })
  some (record g₁ { lockidx = g₁.lockidx + 1 })

-- lock_after, at a lock that the table holds at `idx`.
pub take_over : TaskGraph → ℕ → ℕ → Option TaskGraph
take_over g tid idx = do
  e ← get_elem? g.locklist idx
  g₁ ← add_vertex g (process_node tid)
  g₂ ← add_vertex g₁ (process_node e.id)
  g₃ ← set_entry g₂ idx (record e { degress = decr e.degress })
  linked ← verify_edge g₃ (process_node tid) (process_node e.id)
  g₄ ← if linked then remove_edge g₃ (process_node tid) (process_node e.id) else some g₃
  set_entry g₄ idx (record e { id = tid; degress = decr e.degress })

pub lock_after : TaskGraph → ℕ → ℕ → Option TaskGraph
lock_after g tid lockaddr = do
  found ← search_lock g lockaddr
  elim found [ none ↦ enter_lock g tid lockaddr | some idx ↦ take_over g tid idx ]

-- `idx` is -1 at a lock that the table does not hold: the entry before the array.
pub unlock_after : TaskGraph → ℕ → Option TaskGraph
unlock_after g lockaddr = do
  found ← search_lock g lockaddr
  idx ← found
  e ← get_elem? g.locklist idx
  if is_zero e.degress then set_entry g idx (record e { id = 0; lock_id = 0 }) else some g

-- The hooked pthread_mutex_lock and pthread_mutex_unlock round the calls of libc, which block and
-- wake threads and leave the tables alone.
pub mutex_lock : TaskGraph → ℕ → ℕ → Option TaskGraph
mutex_lock g selfid mutex = do g₁ ← lock_before g selfid mutex; lock_after g₁ selfid mutex

pub mutex_unlock : TaskGraph → ℕ → Option TaskGraph
mutex_unlock g mutex = unlock_after g mutex
