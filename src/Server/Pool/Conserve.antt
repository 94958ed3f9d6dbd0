-- ===== src/Server/Pool/Conserve.antt =====
-- Where the jobs of the work queue are, over its schedules.
use linux_command.Base.{
  ℕ, ◌+◌, ◌≡◌, refl, sym, ◌∙◌, ap, inl, inr, true, some, List, [], ◌∷◌, ◌++◌, ◌==◌, if◌then◌else◌,
  >>=-eq-some, some_inj, Bool-cases, get_elem?, arith,
}
use linux_command.Server.Pool.{
  Phase, outside, sleeping, exited, busy, Worker, Pool, set_thread, take_job, critical, Action,
  enter, wake, finish, add_job, mark_shutdown, clear_shutdown, enter_at, wake_at, finish_at, mark,
  clear, step, run,
}
use linux_command.Server.Pool.Threads.{
  tally, set_thread-tally, tally-terminate, critical-ends, critical-takes, locked-some,
}

module _ (job : ℕ) where
  pub is_job : ℕ → ℕ
  is_job j = if j == job then 1 else 0

  pub count : List ℕ → ℕ
  count [] = 0
  count (j ∷ js) = is_job j + count js

  running : Phase → ℕ
  running (busy j) = is_job j
  running outside = 0
  running sleeping = 0
  running exited = 0

  -- How often the job is anywhere: waiting, run at the moment, run, or dropped by a shutdown.
  pub everywhere : Pool → ℕ
  unfolding count running
  everywhere p = count p.waiting_jobs + tally running p.workers + count p.finished + count p.dropped

  -- How often it was added.
  pub adds : List Action → ℕ
  adds [] = 0
  adds (add_job j ∷ as') = is_job j + adds as'
  adds (_ ∷ as') = adds as'

  pub adds_one : (j : ℕ) → adds (add_job j ∷ []) ≡ is_job j
  unfolding adds
  adds_one j = omega arith

  adds-cons : (a : Action) (as' : List Action) → adds (a ∷ as') ≡ adds (a ∷ []) + adds as'
  unfolding adds
  adds-cons (enter i) as' = omega arith
  adds-cons (wake i) as' = omega arith
  adds-cons (finish i) as' = omega arith
  adds-cons (add_job j) as' = omega arith
  adds-cons mark_shutdown as' = omega arith
  adds-cons clear_shutdown as' = omega arith

  count-append : (xs ys : List ℕ) → count (xs ++ ys) ≡ count xs + count ys
  unfolding count
  count-append [] ys = omega arith
  count-append (x ∷ xs) ys = omega (arith, count-append xs ys)

  moved :
      (p : Pool) (i : ℕ) (w : Worker) (phase : Phase) {q : Pool}
      → get_elem? p.workers i ≡ some w
      → set_thread p i w phase ≡ some q
      → everywhere q + running w.thread ≡ everywhere p + running phase
  unfolding everywhere
  moved p i w phase at e =
      let (n, held, jobs, done, gone) = set_thread-tally p i w phase running at e in
      omega (arith, n, ap count jobs, ap count done, ap count gone)

  take_job-same :
      (p : Pool) (i : ℕ) (w : Worker) (js : List ℕ) {q : Pool}
      → get_elem? p.workers i ≡ some w
      → w.thread ≡ outside
      → p.waiting_jobs ≡ js
      → take_job p i w js ≡ some q
      → everywhere q ≡ everywhere p
  unfolding take_job everywhere
  take_job-same p i w [] at ph js e = omega (arith, moved p i w sleeping at e, ap running ph)
  take_job-same p i w (j ∷ jobs) at ph js e = omega (
    arith,
    moved (record p { waiting_jobs = jobs }) i w (busy j) at e,
    ap running ph,
    ap count js,
  )

  critical-same :
      (p : Pool) (i : ℕ) (w : Worker) {q : Pool}
      → get_elem? p.workers i ≡ some w
      → w.thread ≡ outside
      → critical p i w ≡ some q
      → everywhere q ≡ everywhere p
  unfolding everywhere
  critical-same p i w at ph e = elim (Bool-cases w.terminate) [
    | inl t ↦ omega (
      arith,
      moved (record p { held = true }) i w exited at (sym (critical-ends p i w t) ∙ e),
      ap running ph,
    )
    | inr t ↦ take_job-same p i w p.waiting_jobs at ph refl (sym (critical-takes p i w t) ∙ e)
  ]

  enter-same :
      (p : Pool) (i : ℕ) (w : Worker) (phase : Phase) {q : Pool}
      → get_elem? p.workers i ≡ some w
      → w.thread ≡ phase
      → enter_at p i w phase ≡ some q
      → everywhere q ≡ everywhere p
  unfolding enter_at
  enter-same p i w outside at ph e = critical-same p i w at ph (locked-some p (critical p i w) e)
  enter-same p i w sleeping at ph e = cc
  enter-same p i w exited at ph e = cc
  enter-same p i w (busy j) at ph e = cc

  wake-same :
      (p : Pool) (i : ℕ) (w : Worker) (phase : Phase) {q : Pool}
      → get_elem? p.workers i ≡ some w
      → w.thread ≡ phase
      → wake_at p i w phase ≡ some q
      → everywhere q ≡ everywhere p
  unfolding wake_at everywhere
  wake-same p i w outside at ph e = cc
  wake-same p i w sleeping at ph e = omega (arith, moved p i w outside at e, ap running ph)
  wake-same p i w exited at ph e = cc
  wake-same p i w (busy j) at ph e = cc

  finish-same :
      (p : Pool) (i : ℕ) (w : Worker) (phase : Phase) {q : Pool}
      → get_elem? p.workers i ≡ some w
      → w.thread ≡ phase
      → finish_at p i w phase ≡ some q
      → everywhere q ≡ everywhere p
  unfolding finish_at everywhere
  finish-same p i w outside at ph e = cc
  finish-same p i w sleeping at ph e = cc
  finish-same p i w exited at ph e = cc
  finish-same p i w (busy j) at ph e =
      omega (arith, moved (record p { finished = j ∷ p.finished }) i w outside at e, ap running ph)

  mark-same : (p : Pool) → everywhere (mark p) ≡ everywhere p
  unfolding mark everywhere
  mark-same p = elim (Bool-cases p.registered) [
    | inl r ↦ rw r (omega (arith, tally-terminate running p.workers))
    | inr r ↦ rw r refl
  ]

  pub step-everywhere :
      (p : Pool) (a : Action) {q : Pool}
      → step p a ≡ some q
      → everywhere q ≡ everywhere p + adds (a ∷ [])
  unfolding step adds
  step-everywhere p (enter i) e =
      let (w, at, e₁) = >>=-eq-some (get_elem? p.workers i) _ e in
      omega (arith, enter-same p i w w.thread at refl e₁)
  step-everywhere p (wake i) e =
      let (w, at, e₁) = >>=-eq-some (get_elem? p.workers i) _ e in
      omega (arith, wake-same p i w w.thread at refl e₁)
  step-everywhere p (finish i) e =
      let (w, at, e₁) = >>=-eq-some (get_elem? p.workers i) _ e in
      omega (arith, finish-same p i w w.thread at refl e₁)
  step-everywhere p (add_job j) {q} e =
      let new : Pool = record p { waiting_jobs = j ∷ p.waiting_jobs } in
      let out = some_inj new q (locked-some p (some new) e) in
      unfold everywhere in omega (arith, ap everywhere out)
  step-everywhere p mark_shutdown {q} e =
      omega (arith, ap everywhere (some_inj (mark p) q e), mark-same p)
  step-everywhere p clear_shutdown {q} e =
      let out = some_inj (clear p) q (locked-some p (some (clear p)) e) in
      unfold everywhere clear in
      omega (arith, ap everywhere out, count-append p.waiting_jobs p.dropped)

  -- In every run, the job is in as many more places at the end as it was added: waiting, being
  -- run, run, or dropped by a shutdown.
  pub run_conserves :
      (as' : List Action) (p q : Pool) → run p as' ≡ some q → everywhere q ≡ everywhere p + adds as'
  unfolding run adds
  run_conserves [] p q e = omega (arith, ap everywhere (some_inj p q e))
  run_conserves (a ∷ as') p q e =
      let (p₁, e₁, e₂) = >>=-eq-some (step p a) _ e in
      omega (arith, step-everywhere p a e₁, run_conserves as' p₁ q e₂, adds-cons a as')
