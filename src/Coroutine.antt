-- ===== src/Coroutine.antt =====
-- The scheduler of NetwokDesign/coroutine/ucontext-backup.c: three coroutines that share `count`.
-- A swapcontext gives the control away until the same context is swapped to again.
pub mod Turns
mod Tests
use linux_command.Base.{
  ℕ, zero, suc, ◌+◌, ◌%◌, Bool, Option, none, some, List, [], ◌∷◌, ◌++◌, if◌then◌else◌, ◌>>=◌, ltb,
  get_elem?, store,
}

-- Where a context stands: at the start of its function, in its swapcontext, or behind the end.
pub data Context : Type 0 where
  fresh suspended returned : Context

-- The two lines that the coroutine of an index prints, before and behind its swapcontext.
pub data Line : Type 0 where
  opens closes : ℕ → Line

-- The globals `ctx` and `count`, and what was printed.
pub record Coroutines : Type 0 where
  pub ctx : List Context
  pub count : ℕ
  pub printed : List Line

abbrev pub limit : ℕ
limit = 30

-- A coroutine from its test on: `count ++` counts at the end of the loop, too. A function that
-- ends goes on with `uc_link`, the scheduler.
pub run_loop : Coroutines → ℕ → Option Coroutines
run_loop s i =
    if ltb s.count limit
    then (do
      ctx ← store s.ctx i suspended
      some (record { ctx = ctx; count = s.count + 1; printed = s.printed ++ opens i ∷ [] }))
    else (do
      ctx ← store s.ctx i returned
      some (record { ctx = ctx; count = s.count + 1; printed = s.printed }))

-- A function that has ended has no context to go on with.
pub resume_at : Coroutines → ℕ → Context → Option Coroutines
resume_at s i fresh = run_loop s i
resume_at s i suspended = run_loop (record s { printed = s.printed ++ closes i ∷ [] }) i
resume_at s i returned = none

pub swap_to : Coroutines → ℕ → Option Coroutines
swap_to s i = do c ← get_elem? s.ctx i; resume_at s i c

-- `while (count <= 30) swapcontext(&main_ctx, &ctx[count%3]);`, one round for each unit of fuel.
pub schedule : ℕ → Coroutines → Option Coroutines
schedule zero s = none
schedule (suc fuel) s =
    if ltb limit s.count then some s else (do s' ← swap_to s (s.count % 3); schedule fuel s')

-- main up to the scheduler.
abbrev pub make_contexts : Coroutines
make_contexts = record { ctx = fresh ∷ fresh ∷ fresh ∷ []; count = 0; printed = [] }
