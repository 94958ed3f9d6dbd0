-- ===== src/RwLock/Exclusion.antt =====
-- What holds of the lock in every state that the threads can reach.
use linux_command.Base.{
  ◌+◌, ◌≤◌, ◌<◌, ◌≡◌, ◌⊎◌, some, List, [], ◌∷◌, if◌then◌else◌, >>=-eq-some, some_inj, arith,
}
use linux_command.RwLock.{
  ReadWriteLock, unlocked, notify_all, read_test, read_leave, write_test, Action, read_lock,
  read_again, read_unlock, read_notify, write_lock, write_again, write_unlock, stray_reader,
  stray_writer, step, run,
}

-- The fields count what they are meant to, no writer shares the lock, and a thread sleeps only while
-- another one is sure to wake it.
pub record Inv (s : ReadWriteLock) : Type 0 where
  pub readers : s.read_count ≡ s.reading
  pub waiters : s.write_wait_count ≡ s.writers_asleep + s.writers_awake
  pub writer : s.writing ≡ (if s.write_flag then 1 else 0)
  pub alone : (s.reading ≡ 0) ⊎ (s.writing ≡ 0)
  pub writer_woken : (s.writers_asleep ≡ 0) ⊎ (0 < s.reading + s.writing + s.leaving)
  pub reader_woken :
      (s.readers_asleep ≡ 0) ⊎ (0 < s.reading + s.writing + s.leaving + s.writers_awake)

pub unlocked-Inv : Inv unlocked
unlocked-Inv = ground arith

pub step-Inv : (s t : ReadWriteLock) (a : Action) → Inv s → step s a ≡ some t → Inv t
unfolding step notify_all read_test read_leave write_test
step-Inv s t read_lock i e = ground arith
step-Inv s t read_again i e = ground arith
step-Inv s t read_unlock i e = ground arith
step-Inv s t read_notify i e = ground arith
step-Inv s t write_lock i e = ground arith
step-Inv s t write_again i e = ground arith
step-Inv s t write_unlock i e = ground arith
step-Inv s t stray_reader i e = ground arith
step-Inv s t stray_writer i e = ground arith

pub run-Inv : (s t : ReadWriteLock) (as' : List Action) → Inv s → run s as' ≡ some t → Inv t
unfolding run
run-Inv s t [] i e = rw (← some_inj s t e) i
run-Inv s t (a ∷ as') i e =
    let (u, e₁, e₂) = >>=-eq-some (step s a) _ e in run-Inv u t as' (step-Inv s u a i e₁) e₂

-- What the lock promises: either readers alone, or one writer alone, or nobody.
pub IsExclusive : ReadWriteLock → Type 0
IsExclusive s = (s.writing ≤ 1) × ((s.reading ≡ 0) ⊎ (s.writing ≡ 0))

-- In every state that the threads reach from the unlocked one, whatever they call in whatever order as
-- long as readUnlock is called by readers inside alone and writeUnlock by writers inside alone, no two writers and no reader and writer are inside at once; `read_count` is the number of readers
-- inside, `write_flag` says whether a writer is, and `write_wait_count` counts the waiting writers.
pub run-IsExclusive :
    (as' : List Action) (s : ReadWriteLock)
    → run unlocked as' ≡ some s
    → IsExclusive s
      × (s.read_count ≡ s.reading)
      × (s.writing ≡ (if s.write_flag then 1 else 0))
      × (s.write_wait_count ≡ s.writers_asleep + s.writers_awake)
unfolding IsExclusive
run-IsExclusive as' s e =
    let i = run-Inv unlocked s as' unlocked-Inv e in
    ((ground (arith, i.writer), i.alone), i.readers, i.writer, i.waiters)
