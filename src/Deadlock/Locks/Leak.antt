-- ===== src/Deadlock/Locks/Leak.antt =====
-- deadlock.c: the lock table under one thread that locks and unlocks one mutex again and again.
use linux_command.Base.{
  ◌⊎◌, inl, inr, ℕ, zero, suc, ◌+◌, ◌≤◌, ◌<◌, ◌≡◌, ◌≢◌, refl, ◌∙◌, ap, false, none, some, List, [],
  ◌∷◌, ◌==◌, ==_self, if◌then◌else◌, ◌>>=◌, length, search_loop, search_table, arith,
}
use native.Mathlib.Decide.{dec_lt}
use linux_command.Deadlock.Graph.{Source, TaskGraph, max}
use linux_command.Deadlock.Locks.{
  start_check, holds, search_lock, search_empty_lock, set_entry, lock_before_at, lock_before_from,
  lock_before, enter_lock, lock_after, unlock_after, mutex_lock, mutex_unlock,
}
use linux_command.Deadlock.Locks.Free.{
  AllFree, rounds, search_loop-AllFree, AllFree-at, get_elem?-past,
}

module _ (tid m : ℕ) (nz : m ≢ 0) where
  lock_before_from-AllFree :
      (n idx : ℕ) (g : TaskGraph)
      → AllFree g.locklist
      → idx + n ≤ length g.locklist
      → lock_before_from tid m idx n g ≡ some g
  unfolding lock_before_from lock_before_at
  lock_before_from-AllFree zero idx g f h = refl
  lock_before_from-AllFree (suc n) idx g f h =
      let (e, at, free) = AllFree-at g.locklist idx f (omega arith) in
      let other : (e.lock_id == m) ≡ false = ground arith in
      rw (at, ◌>>=◌) (rw other (lock_before_from-AllFree n (idx + 1) g f (omega arith)))

  -- The loop over more entries than the table has reads past it.
  lock_before_from-past :
      (n idx : ℕ) (g : TaskGraph)
      → AllFree g.locklist
      → length g.locklist < idx + n
      → idx ≤ length g.locklist
      → lock_before_from tid m idx n g ≡ none
  unfolding lock_before_from lock_before_at
  lock_before_from-past zero idx g f h le = absurd (omega arith)
  lock_before_from-past (suc n) idx g f h le = elim (dec_lt idx (length g.locklist)) [
    | yes lt ↦
        let (e, at, free) = AllFree-at g.locklist idx f lt in
        let other : (e.lock_id == m) ≡ false = ground arith in
        rw (at, ◌>>=◌)
          (rw other (lock_before_from-past n (idx + 1) g f (omega arith) (omega arith)))
    | no ge ↦ rw (get_elem?-past g.locklist idx (omega arith), ◌>>=◌) refl
  ]

  -- The table after a round, and the table in between.
  entry : Source → Source
  entry e = record e { id = tid; lock_id = m }

  cleared : Source → Source
  cleared e = record e { id = 0; lock_id = 0 }

  search_empty_lock-AllFree :
      (g : TaskGraph) (e : Source) (es : List Source)
      → g.locklist ≡ e ∷ es
      → e.lock_id ≡ 0
      → search_empty_lock g ≡ some 0
  unfolding search_empty_lock search_table search_loop
  search_empty_lock-AllFree g e es eq f = rw eq (ground (arith, go g.lockidx))
    where
      go :
          (n : ℕ)
          → search_loop (holds 0) (e ∷ es) n 0 ≡ (if n == 0 then some none else some (some 0))
      go zero = refl
      go (suc n) = rw f (ground arith)

  enter_lock-AllFree :
      (g : TaskGraph) (e : Source) (es : List Source)
      → g.locklist ≡ e ∷ es
      → e.lock_id ≡ 0
      → enter_lock g tid m ≡ some (record g { locklist = entry e ∷ es; lockidx = g.lockidx + 1 })
  unfolding enter_lock set_entry entry
  enter_lock-AllFree g e es eq f =
      rw (search_empty_lock-AllFree g e es eq f, ◌>>=◌) (simp (eq, ◌>>=◌))

  lock_round :
      (g : TaskGraph) (e : Source) (es : List Source)
      → g.locklist ≡ e ∷ es
      → AllFree (e ∷ es)
      → g.lockidx ≤ length (e ∷ es)
      → mutex_lock g tid m ≡ some (record g { locklist = entry e ∷ es; lockidx = g.lockidx + 1 })
  unfolding mutex_lock lock_before lock_after search_lock search_table
  lock_round g e es eq f le =
      rw (lock_before_from-AllFree g.lockidx 0 g (rw eq f) (rw eq (omega arith)), ◌>>=◌)
        (rw
          (
            ap (λ (xs : List Source). search_loop (holds m) xs g.lockidx 0) eq
                ∙ search_loop-AllFree (e ∷ es) g.lockidx 0 m f nz le,
            ◌>>=◌,
          )
          (enter_lock-AllFree g e es eq f.0))

  unlock_round :
      (g : TaskGraph) (e : Source) (es : List Source)
      → g.locklist ≡ entry e ∷ es
      → AllFree (e ∷ es)
      → 0 < g.lockidx
      → mutex_unlock g m ≡ some (record g { locklist = cleared e ∷ es })
  unfolding mutex_unlock unlock_after search_lock search_table set_entry entry cleared
  unlock_round g e es eq f pos = rw (eq, found g.lockidx pos, ◌>>=◌) (rw (f.1, ◌>>=◌) refl)
    where
      found : (n : ℕ) → 0 < n → search_loop (holds m) (entry e ∷ es) n 0 ≡ some (some 0)
      found zero h = absurd (omega arith)
      found (suc n) h = unfold search_loop entry in rw (==_self m) refl

  rounds-lockidx :
      (n : ℕ) (g : TaskGraph)
      → AllFree g.locklist
      → 0 < length g.locklist
      → g.lockidx + n ≤ length g.locklist + 1
      → (h : TaskGraph) × (rounds n g tid m ≡ some h) × (h.lockidx ≡ g.lockidx + n)
  unfolding rounds
  rounds-lockidx zero g f pos le = (g, refl, omega arith)
  rounds-lockidx (suc n) g f pos le =
      go g.locklist refl f pos le (λ g' f' pos' le'. rounds-lockidx n g' f' pos' le')
    where
      go :
          (xs : List Source)
          → g.locklist ≡ xs
          → AllFree xs
          → 0 < length xs
          → g.lockidx + suc n ≤ length xs + 1
          → ((g' : TaskGraph)
              → AllFree g'.locklist
              → 0 < length g'.locklist
              → g'.lockidx + n ≤ length g'.locklist + 1
              → (h : TaskGraph) × (rounds n g' tid m ≡ some h) × (h.lockidx ≡ g'.lockidx + n))
          → (h : TaskGraph) × (rounds (suc n) g tid m ≡ some h) × (h.lockidx ≡ g.lockidx + suc n)
      go [] eq f pos le ih = absurd (omega arith)
      go (e ∷ es) eq f pos le ih =
          let g₁ : TaskGraph = record g { locklist = entry e ∷ es; lockidx = g.lockidx + 1 } in
          let g₂ : TaskGraph = record g { locklist = cleared e ∷ es; lockidx = g.lockidx + 1 } in
          let (h, r, k) = ih g₂ (unfold cleared in (refl, f.1, f.2)) (omega arith) (omega arith) in
          (
            h,
            rw (lock_round g e es eq f (omega arith), ◌>>=◌)
                (rw (unlock_round g₁ e es refl f (omega arith), ◌>>=◌) r),
            omega arith,
          )

  rounds-past :
      (n : ℕ) (g : TaskGraph)
      → AllFree g.locklist
      → length g.locklist < g.lockidx
      → 0 < n
      → rounds n g tid m ≡ none
  unfolding rounds mutex_lock lock_before
  rounds-past zero g f lt pos = absurd (omega arith)
  rounds-past (suc n) g f lt pos =
      rw (lock_before_from-past g.lockidx 0 g f (omega arith) (omega arith), ◌>>=◌) refl

  rounds-fault :
      (n : ℕ) (g : TaskGraph)
      → AllFree g.locklist
      → 0 < length g.locklist
      → g.lockidx ≤ length g.locklist + 1
      → length g.locklist + 1 < g.lockidx + n
      → rounds n g tid m ≡ none
  unfolding rounds
  rounds-fault zero g f pos le lt = absurd (omega arith)
  rounds-fault (suc n) g f pos le lt = elim (dec_lt (length g.locklist) g.lockidx) [
    | yes past ↦ rounds-past (suc n) g f past (omega arith)
    | no inside ↦
        go g.locklist refl f pos (omega arith) lt
          (λ g' f' pos' le' lt'. rounds-fault n g' f' pos' le' lt')
  ]
    where
      go :
          (xs : List Source)
          → g.locklist ≡ xs
          → AllFree xs
          → 0 < length xs
          → g.lockidx ≤ length xs
          → length xs + 1 < g.lockidx + suc n
          → ((g' : TaskGraph)
              → AllFree g'.locklist
              → 0 < length g'.locklist
              → g'.lockidx ≤ length g'.locklist + 1
              → length g'.locklist + 1 < g'.lockidx + n
              → rounds n g' tid m ≡ none)
          → rounds (suc n) g tid m ≡ none
      go [] eq f pos le lt ih = absurd (omega arith)
      go (e ∷ es) eq f pos le lt ih =
          let g₁ : TaskGraph = record g { locklist = entry e ∷ es; lockidx = g.lockidx + 1 } in
          let g₂ : TaskGraph = record g { locklist = cleared e ∷ es; lockidx = g.lockidx + 1 } in
          rw (lock_round g e es eq f (omega arith), ◌>>=◌)
            (rw (unlock_round g₁ e es refl f (omega arith), ◌>>=◌)
              (ih g₂ (unfold cleared in (refl, f.1, f.2)) (omega arith) (omega arith)
                (omega arith)))

-- Let malloc return a cleared lock table of MAX entries, and one thread lock and unlock one mutex
-- other than NULL, n times after start_check, without ever waiting. Up to n = MAX + 1 the hooks
-- return, with `lockidx` at n although at most one lock is ever held; from MAX + 2 on they access
-- the table outside its bounds.
pub lockidx_leak :
    (block : TaskGraph) (tid m n : ℕ)
    → AllFree block.locklist
    → length block.locklist ≡ max
    → m ≢ 0
    → ((n ≤ max + 1)
        × (h : TaskGraph) × (rounds n (start_check block) tid m ≡ some h)
        × (h.lockidx ≡ n))
      ⊎ ((max + 1 < n) × (rounds n (start_check block) tid m ≡ none))
unfolding start_check
lockidx_leak block tid m n f size nz = elim (dec_lt (max + 1) n) [
  | yes lt ↦ inr (
    lt,
    rounds-fault tid m nz n (record block { num = 0; lockidx = 0 }) f (omega arith) (omega arith)
        (omega arith),
  )
  | no le ↦
      let (h, r, k) =
        rounds-lockidx tid m nz n (record block { num = 0; lockidx = 0 }) f (omega arith)
          (omega arith) in
      inl (omega arith, h, r, omega arith)
]
