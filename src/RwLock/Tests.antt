-- ===== src/RwLock/Tests.antt =====
-- The theorems on the lock at a schedule of two readers and a writer.
use linux_command.Base.{◌+◌, ◌≤◌, ◌≡◌, refl, some, List, [], ◌∷◌, if◌then◌else◌, arith}
use linux_command.RwLock.{
  ReadWriteLock, unlocked, Action, read_lock, read_unlock, write_lock, read_test, write_test,
  read_leave, step, run,
}
use linux_command.RwLock.Exclusion.{IsExclusive, run-IsExclusive}
use linux_command.RwLock.Progress.{AllOnward, run-drains, step_writers_first}

-- A reader is inside, a writer waits for it, and another reader for the writer.
abbrev schedule : List Action
schedule = read_lock ∷ write_lock ∷ read_lock ∷ []

abbrev contended : ReadWriteLock
contended = record unlocked {
  read_count = 1;
  reading = 1;
  write_wait_count = 1;
  writers_asleep = 1;
  readers_asleep = 1;
}

schedule-contended : run unlocked schedule ≡ some contended
unfolding run step read_test write_test
schedule-contended = refl

run-IsExclusive_example :
    IsExclusive contended
    × (contended.read_count ≡ contended.reading)
    × (contended.writing ≡ (if contended.write_flag then 1 else 0))
    × (contended.write_wait_count ≡ contended.writers_asleep + contended.writers_awake)
run-IsExclusive_example = run-IsExclusive schedule contended schedule-contended

run-drains_example : (bs : List Action) × (run contended bs ≡ some unlocked) × AllOnward bs
run-drains_example = run-drains schedule contended schedule-contended

-- The reader leaves.
abbrev left : ReadWriteLock
left = record contended { read_count = 0; reading = 0; leaving = 1 }

contended-left : step contended read_unlock ≡ some left
unfolding step read_leave
contended-left = refl

step_writers_first_example : left.reading ≤ contended.reading
step_writers_first_example =
    step_writers_first contended left read_unlock (omega arith) contended-left
