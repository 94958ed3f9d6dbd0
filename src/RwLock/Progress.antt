-- ===== src/RwLock/Progress.antt =====
-- How the threads of the lock get through.
use linux_command.Base.{
  ℕ, zero, suc, ◌+◌, ◌-◌, ◌*◌, ◌≤◌, ◌<◌, ◌≡◌, inl, inr, ap, false, some, List, [], ◌∷◌, ◌==◌, ◌>>=◌,
  Bool-cases, arith,
}
use native.Mathlib.Decide.{dec_lt}
use linux_command.RwLock.{
  ReadWriteLock, unlocked, notify_all, read_test, read_leave, write_test, Action, read_lock,
  read_again, read_unlock, read_notify, write_lock, write_again, write_unlock, stray_reader,
  stray_writer, step, run,
}
use linux_command.RwLock.Exclusion.{Inv, unlocked-Inv, step-Inv, run-Inv}

-- The threads in a function of the lock or inside the lock, by the steps that they have before them.
pub work : ReadWriteLock → ℕ
work s =
    3 * (s.readers_asleep + s.readers_awake + s.writers_asleep + s.writers_awake)
    + 2 * (s.reading + s.writing)
    + s.leaving

-- The actions of threads that are in a function of the lock or inside the lock, without those that
-- need a wake-up that no notify gave.
abbrev pub IsOnward : Action → Type 0
IsOnward read_lock = ⊥
IsOnward write_lock = ⊥
IsOnward stray_reader = ⊥
IsOnward stray_writer = ⊥
IsOnward _ = Unit {0}

abbrev pub AllOnward : List Action → Type 0
AllOnward [] = Unit {0}
AllOnward (a ∷ as') = IsOnward a × AllOnward as'

-- A step that brings some thread on, and calls none of the lock's functions anew.
abbrev Onward : ReadWriteLock → Type 0
Onward s = (a : Action) × (t : ReadWriteLock) × (step s a ≡ some t) × IsOnward a × (work t < work s)

read_unlock-Onward : (s : ReadWriteLock) → Inv s → 0 < s.reading → Onward s
unfolding step read_leave work
read_unlock-Onward s i h = elim (Bool-cases (s.read_count == 1)) [
  | inl last ↦ (
    read_unlock,
    record s { read_count = 0; reading = s.reading - 1; leaving = s.leaving + 1 },
    ground arith,
    tt,
    ground arith,
  )
  | inr more ↦ (
    read_unlock,
    record s { read_count = s.read_count - 1; reading = s.reading - 1 },
    ground arith,
    tt,
    ground arith,
  )
]

write_unlock-Onward : (s : ReadWriteLock) → Inv s → 0 < s.writing → Onward s
unfolding step notify_all work
write_unlock-Onward s i h = (
  write_unlock,
  notify_all (record s { write_flag = false; writing = s.writing - 1 }),
  ground arith,
  tt,
  ground arith,
)

read_notify-Onward : (s : ReadWriteLock) → 0 < s.leaving → Onward s
unfolding step notify_all work
read_notify-Onward s h =
    (read_notify, notify_all (record s { leaving = s.leaving - 1 }), ground arith, tt, ground arith)

-- Nobody is inside and nobody is to notify.
record IsIdle (s : ReadWriteLock) : Type 0 where
  no_reader : s.reading ≡ 0
  no_writer : s.writing ≡ 0
  no_notify : s.leaving ≡ 0

write_again-Onward : (s : ReadWriteLock) → Inv s → IsIdle s → 0 < s.writers_awake → Onward s
unfolding step write_test work
write_again-Onward s i idle h = (
  write_again,
  write_test (record s { writers_awake = s.writers_awake - 1 }),
  ground arith,
  tt,
  ground arith,
)

read_again-Onward :
    (s : ReadWriteLock) → Inv s → IsIdle s → s.writers_awake ≡ 0 → 0 < s.readers_awake → Onward s
unfolding step read_test work
read_again-Onward s i idle none_awake h = (
  read_again,
  read_test (record s { readers_awake = s.readers_awake - 1 }),
  ground arith,
  tt,
  ground arith,
)

idle-Onward : (s : ReadWriteLock) → Inv s → IsIdle s → 0 < work s → Onward s
unfolding work
idle-Onward s i idle busy = elim (dec_lt 0 s.writers_awake) [
  | yes h ↦ write_again-Onward s i idle h
  | no h ↦ read_again-Onward s i idle (omega arith) (ground arith)
]

-- In a state with the invariant some thread can go on, unless there is none.
Inv-Onward : (s : ReadWriteLock) → Inv s → 0 < work s → Onward s
Inv-Onward s i busy = elim (dec_lt 0 s.writing) [
  | yes h ↦ write_unlock-Onward s i h
  | no w ↦ elim (dec_lt 0 s.reading) [
    | yes h ↦ read_unlock-Onward s i h
    | no r ↦ elim (dec_lt 0 s.leaving) [
      | yes h ↦ read_notify-Onward s h
      | no l ↦
          idle-Onward s i
            (record { no_reader = omega arith; no_writer = omega arith; no_notify = omega arith })
            busy
    ]
  ]
]

done-unlocked : (s : ReadWriteLock) → Inv s → work s ≡ 0 → s ≡ unlocked
unfolding work
done-unlocked s i e = grind arith

drain :
    (n : ℕ) (s : ReadWriteLock)
    → Inv s
    → work s ≤ n
    → (as' : List Action) × (run s as' ≡ some unlocked) × AllOnward as'
unfolding run
drain zero s i le = ([], ap some (done-unlocked s i (omega arith)), tt)
drain (suc n) s i le = elim (dec_lt 0 (work s)) [
  | no idle ↦ ([], ap some (done-unlocked s i (omega arith)), tt)
  | yes busy ↦
      let (a, t, e, on, lt) = Inv-Onward s i busy in
      let (as', r, all) = drain n t (step-Inv s t a i e) (omega arith) in
      (a ∷ as', rw (e, ◌>>=◌) r, (on, all))
]

-- No thread is stuck for good: from every state that the threads reach from the unlocked one, the
-- threads that are in a function of the lock or inside it can go on until the lock is as it was at the
-- start, and none of them is left. They need no new call of readLock or writeLock for that, and no
-- spurious wake-up: all that wakes a thread is a notify_all of another.
pub run-drains :
    (as' : List Action) (s : ReadWriteLock)
    → run unlocked as' ≡ some s
    → (bs : List Action) × (run s bs ≡ some unlocked) × AllOnward bs
run-drains as' s e = drain (work s) s (run-Inv unlocked s as' unlocked-Inv e) (omega arith)

-- Writers go first: while a writer waits, no step lets a reader in.
pub step_writers_first :
    (s t : ReadWriteLock) (a : Action)
    → 0 < s.write_wait_count
    → step s a ≡ some t
    → t.reading ≤ s.reading
unfolding step notify_all read_test read_leave write_test
step_writers_first s t read_lock h e = ground arith
step_writers_first s t read_again h e = ground arith
step_writers_first s t read_unlock h e = ground arith
step_writers_first s t read_notify h e = ground arith
step_writers_first s t write_lock h e = ground arith
step_writers_first s t write_again h e = ground arith
step_writers_first s t write_unlock h e = ground arith
step_writers_first s t stray_reader h e = ground arith
step_writers_first s t stray_writer h e = ground arith
