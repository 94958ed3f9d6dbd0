-- ===== src/Deadlock.antt =====
-- mycode/deadlock: a deadlock detector hooked into pthread_mutex_lock and pthread_mutex_unlock.
-- `Graph` is the wait-for graph, `Cycle` its search, `Locks` the lock table and the hooks of
-- deadlock.c, `Rela` the relation table and the hooks of deadlock-default.c.
pub mod Graph
pub mod Cycle
pub mod Locks
pub mod Rela
mod Tests
