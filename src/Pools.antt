-- ===== src/Pools.antt =====
-- mycode/pool: the two pools whose blocks form a list of free blocks through their first words.
pub mod FreeList
pub mod Owned
pub mod ObjectPool
pub mod FixedSize
mod Tests
