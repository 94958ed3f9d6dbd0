-- ===== src/RwLock.antt =====
-- mycode/rwlock: a lock for many readers or one writer, on a mutex and a condition variable. The
-- threads are told apart by where they stand alone, so the state counts them. A step is what a
-- thread does from taking the mutex to giving it back; `none` is a step that no thread can take. A
-- thread unlocks only what it holds: readUnlock is a step of a reader inside, writeUnlock of a writer.
pub mod Exclusion
pub mod Progress
mod Tests
use linux_command.Base.{
  ℕ, ◌+◌, ◌-◌, Bool, true, false, ◌||◌, Option, none, some, List, [], ◌∷◌, ◌==◌, if◌then◌else◌,
  ◌>>=◌, ltb,
}

-- ReadWriteLock, and the number of threads at each place: in the wait of readLock and woken there,
-- the same for writeLock, between the lock and the unlock, and in readUnlock behind `unlock()`.
pub record ReadWriteLock : Type 0 where
  pub read_count : ℕ
  pub write_flag : Bool
  pub write_wait_count : ℕ
  pub readers_asleep : ℕ
  pub readers_awake : ℕ
  pub writers_asleep : ℕ
  pub writers_awake : ℕ
  pub reading : ℕ
  pub writing : ℕ
  pub leaving : ℕ

abbrev pub unlocked : ReadWriteLock
unlocked = record {
  read_count = 0;
  write_flag = false;
  write_wait_count = 0;
  readers_asleep = 0;
  readers_awake = 0;
  writers_asleep = 0;
  writers_awake = 0;
  reading = 0;
  writing = 0;
  leaving = 0;
}

-- `_cond.notify_all()`
pub notify_all : ReadWriteLock → ReadWriteLock
notify_all s = record s {
  readers_asleep = 0;
  readers_awake = s.readers_awake + s.readers_asleep;
  writers_asleep = 0;
  writers_awake = s.writers_awake + s.writers_asleep;
}

-- The test of readLock's loop: the wait, or the way out of the loop.
unfoldable pub read_test : ReadWriteLock → ReadWriteLock
read_test s =
    if s.write_flag || ltb 0 s.write_wait_count
    then record s { readers_asleep = s.readers_asleep + 1 }
    else record s { read_count = s.read_count + 1; reading = s.reading + 1 }

-- `--read_count == 0`, where the thread is to notify behind its unlock. Below 0 is out of the model.
unfoldable pub read_leave : ReadWriteLock → Option ReadWriteLock
read_leave s =
    if s.read_count == 0
    then none
    else if s.read_count == 1
    then some (record s { read_count = 0; reading = s.reading - 1; leaving = s.leaving + 1 })
    else some (record s { read_count = s.read_count - 1; reading = s.reading - 1 })

-- The test of writeLock's loop.
unfoldable pub write_test : ReadWriteLock → ReadWriteLock
write_test s =
    if s.write_flag || ltb 0 s.read_count
    then record s { writers_asleep = s.writers_asleep + 1 }
    else record s {
      write_flag = true;
      write_wait_count = s.write_wait_count - 1;
      writing = s.writing + 1;
    }

-- A call of one of the four functions, a thread that goes on in a loop after its wait, the
-- notification of readUnlock, and the wake-ups that a condition variable allows itself.
pub data Action : Type 0 where
  read_lock read_again read_unlock read_notify : Action
  write_lock write_again write_unlock : Action
  stray_reader stray_writer : Action

unfoldable pub step : ReadWriteLock → Action → Option ReadWriteLock
step s read_lock = some (read_test s)
step s read_again =
    if s.readers_awake == 0
    then none
    else some (read_test (record s { readers_awake = s.readers_awake - 1 }))
step s read_unlock = if s.reading == 0 then none else read_leave s
step s read_notify =
    if s.leaving == 0 then none else some (notify_all (record s { leaving = s.leaving - 1 }))
step s write_lock = some (write_test (record s { write_wait_count = s.write_wait_count + 1 }))
step s write_again =
    if s.writers_awake == 0
    then none
    else some (write_test (record s { writers_awake = s.writers_awake - 1 }))
step s write_unlock =
    if s.writing == 0
    then none
    else some (notify_all (record s { write_flag = false; writing = s.writing - 1 }))
step s stray_reader =
    if s.readers_asleep == 0
    then none
    else some
        (record s { readers_asleep = s.readers_asleep - 1; readers_awake = s.readers_awake + 1 })
step s stray_writer =
    if s.writers_asleep == 0
    then none
    else some
        (record s { writers_asleep = s.writers_asleep - 1; writers_awake = s.writers_awake + 1 })

unfoldable pub run : ReadWriteLock → List Action → Option ReadWriteLock
run s [] = some s
run s (a ∷ as') = do t ← step s a; run t as'
