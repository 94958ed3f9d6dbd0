-- ===== src/Server/Pool.antt =====
-- The work queue of server_mulport_epoll.c as a step function. A step is what one thread does
-- between two of its waits; `none` is a step that cannot be taken now, a lock that is held above
-- all. The list of the waiting jobs is the one that LL_ADD and LL_REMOVE keep (`Links`).
pub mod Threads
pub mod Conserve
pub mod Shutdown
use linux_command.Base.{
  ℕ, zero, suc, Bool, true, false, Option, none, some, List, [], ◌∷◌, ◌++◌, if◌then◌else◌, ◌>>=◌,
  get_elem?, store, replicate, map, min, ltb,
}

-- Where a thread stands: about to lock `jobs_mutex`, in pthread_cond_wait, running a job, or gone.
pub data Phase : Type 0 where
  outside sleeping exited : Phase
  busy : ℕ → Phase

-- worker_t; `thread` is where its thread stands.
pub record Worker : Type 0 where
  pub thread : Phase
  pub terminate : Bool

-- workqueue_t. `held` says that `jobs_mutex` is locked by a thread that will not unlock it.
-- `dropped` holds the jobs that workqueue_shutdown forgets, `finished` those that were run.
pub record Pool : Type 0 where
  pub workers : List Worker
  pub registered : Bool
  pub waiting_jobs : List ℕ
  pub held : Bool
  pub finished : List ℕ
  pub dropped : List ℕ

-- workqueue_init, where malloc and pthread_create succeed for the first `able` workers: the queue,
-- and 0, or 1 if they did not succeed for all.
pub init : ℕ → ℕ → Pool × ℕ
init numWorkers able = (
  record {
    workers = replicate (min wanted able) (record { thread = outside; terminate = false });
    registered = true;
    waiting_jobs = [];
    held = false;
    finished = [];
    dropped = [];
  },
  if ltb able wanted then 1 else 0,
)
  where
    wanted : ℕ
    wanted = if ltb numWorkers 1 then 1 else numWorkers

unfoldable pub set_thread : Pool → ℕ → Worker → Phase → Option Pool
set_thread p i w phase = do
  workers ← store p.workers i (record w { thread = phase })
  some (record p { workers = workers })

-- LL_REMOVE of the first job, and the unlock; with no job, the wait.
unfoldable pub take_job : Pool → ℕ → Worker → List ℕ → Option Pool
take_job p i w [] = set_thread p i w sleeping
take_job p i w (job ∷ jobs) = set_thread (record p { waiting_jobs = jobs }) i w (busy job)

-- worker_function with the mutex taken, up to where it gives it back. A thread that is to end
-- breaks out of the loop with the mutex locked.
unfoldable pub critical : Pool → ℕ → Worker → Option Pool
critical p i w =
    if w.terminate
    then set_thread (record p { held = true }) i w exited
    else take_job p i w p.waiting_jobs

pub data Action : Type 0 where
  enter wake finish : ℕ → Action
  add_job : ℕ → Action
  mark_shutdown clear_shutdown : Action

-- pthread_mutex_lock
unfoldable pub locked : Pool → Option Pool → Option Pool
locked p next = if p.held then none else next

unfoldable pub enter_at : Pool → ℕ → Worker → Phase → Option Pool
enter_at p i w outside = locked p (critical p i w)
enter_at p i w _ = none

pub wake_at : Pool → ℕ → Worker → Phase → Option Pool
wake_at p i w sleeping = set_thread p i w outside
wake_at p i w _ = none

unfoldable pub finish_at : Pool → ℕ → Worker → Phase → Option Pool
finish_at p i w (busy job) = set_thread (record p { finished = job ∷ p.finished }) i w outside
finish_at p i w _ = none

-- The loop of workqueue_shutdown over the registered workers, which runs without the lock.
unfoldable pub mark : Pool → Pool
mark p =
    if p.registered
    then record p { workers = map (λ (w : Worker). record w { terminate = true }) p.workers }
    else p

-- Its part with the lock.
pub clear : Pool → Pool
clear p = record p { registered = false; dropped = p.waiting_jobs ++ p.dropped; waiting_jobs = [] }

unfoldable pub step : Pool → Action → Option Pool
step p (enter i) = do w ← get_elem? p.workers i; enter_at p i w w.thread
step p (wake i) = do w ← get_elem? p.workers i; wake_at p i w w.thread
step p (finish i) = do w ← get_elem? p.workers i; finish_at p i w w.thread
step p (add_job job) = locked p (some (record p { waiting_jobs = job ∷ p.waiting_jobs }))
step p mark_shutdown = some (mark p)
step p clear_shutdown = locked p (some (clear p))

unfoldable pub run : Pool → List Action → Option Pool
run p [] = some p
run p (a ∷ as') = do q ← step p a; run q as'
