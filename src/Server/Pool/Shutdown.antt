-- ===== src/Server/Pool/Shutdown.antt =====
-- The work queue of server_mulport_epoll.c behind the end of a worker.
use linux_command.Base.{
  ℕ, ◌≡◌, refl, sym, ◌∙◌, ap, inl, inr, true, Option, none, some, List, [], ◌∷◌, ◌>>=◌, >>=-eq-some,
  some_inj, Bool-cases, get_elem?, arith,
}
use linux_command.Server.Pool.{
  Phase, outside, sleeping, exited, busy, Worker, Pool, set_thread, critical, Action, enter, wake,
  finish, add_job, mark_shutdown, clear_shutdown, locked, enter_at, wake_at, finish_at, mark, clear,
  step, run,
}
use linux_command.Server.Pool.Threads.{
  tally, set_thread-tally, tally-terminate, critical-ends, locked-some,
}

-- 1 for a thread that is gone.
abbrev gone : Phase → ℕ
gone exited = 1
gone outside = 0
gone sleeping = 0
gone (busy job) = 0

-- The number of threads that are gone.
pub exits : List Worker → ℕ
exits ws = tally gone ws

-- Nothing moves any more but threads that hold no lock.
pub record IsWedged (p q : Pool) : Type 0 where
  pub still_held : q.held ≡ true
  pub jobs : q.waiting_jobs ≡ p.waiting_jobs
  pub no_exit : exits q.workers ≡ exits p.workers

IsWedged-trans : (p q r : Pool) → IsWedged p q → IsWedged q r → IsWedged p r
IsWedged-trans p q r a b = record {
  still_held = b.still_held;
  jobs = b.jobs ∙ a.jobs;
  no_exit = b.no_exit ∙ a.no_exit;
}

locked-held : (p : Pool) (next : Option Pool) → p.held ≡ true → locked p next ≡ none
unfolding locked
locked-held p next h = rw h refl

moved :
    (p : Pool) (i : ℕ) (w : Worker) (phase : Phase) {q : Pool}
    → p.held ≡ true
    → get_elem? p.workers i ≡ some w
    → gone w.thread ≡ gone phase
    → set_thread p i w phase ≡ some q
    → IsWedged p q
unfolding exits
moved p i w phase h at g e =
    let (count, held, jobs, _, _) = set_thread-tally p i w phase gone at e in
    record { still_held = held ∙ h; jobs = jobs; no_exit = omega arith }

wake-IsWedged :
    (p : Pool) (i : ℕ) (w : Worker) (phase : Phase) {q : Pool}
    → p.held ≡ true
    → get_elem? p.workers i ≡ some w
    → w.thread ≡ phase
    → wake_at p i w phase ≡ some q
    → IsWedged p q
unfolding wake_at
wake-IsWedged p i w outside h at ph e = cc
wake-IsWedged p i w sleeping h at ph e = moved p i w outside h at (ap gone ph) e
wake-IsWedged p i w exited h at ph e = cc
wake-IsWedged p i w (busy job) h at ph e = cc

finish-IsWedged :
    (p : Pool) (i : ℕ) (w : Worker) (phase : Phase) {q : Pool}
    → p.held ≡ true
    → get_elem? p.workers i ≡ some w
    → w.thread ≡ phase
    → finish_at p i w phase ≡ some q
    → IsWedged p q
unfolding finish_at exits
finish-IsWedged p i w outside h at ph e = cc
finish-IsWedged p i w sleeping h at ph e = cc
finish-IsWedged p i w exited h at ph e = cc
finish-IsWedged p i w (busy job) h at ph e =
    let m = moved (record p { finished = job ∷ p.finished }) i w outside h at (ap gone ph) e in
    record { still_held = m.still_held; jobs = m.jobs; no_exit = m.no_exit }

enter_at-held :
    (p : Pool) (i : ℕ) (w : Worker) (phase : Phase) → p.held ≡ true → enter_at p i w phase ≡ none
unfolding enter_at
enter_at-held p i w outside h = locked-held p (critical p i w) h
enter_at-held p i w sleeping h = refl
enter_at-held p i w exited h = refl
enter_at-held p i w (busy job) h = refl

step-IsWedged :
    (p : Pool) (a : Action) {q : Pool} → p.held ≡ true → step p a ≡ some q → IsWedged p q
unfolding step mark exits
step-IsWedged p (enter i) h e =
    let (w, at, e₁) = >>=-eq-some (get_elem? p.workers i) _ e in
    cc (enter_at-held p i w w.thread h, e₁)
step-IsWedged p (wake i) h e =
    let (w, at, e₁) = >>=-eq-some (get_elem? p.workers i) _ e in
    wake-IsWedged p i w w.thread h at refl e₁
step-IsWedged p (finish i) h e =
    let (w, at, e₁) = >>=-eq-some (get_elem? p.workers i) _ e in
    finish-IsWedged p i w w.thread h at refl e₁
step-IsWedged p (add_job job) h e =
    cc (locked-held p (some (record p { waiting_jobs = job ∷ p.waiting_jobs })) h, e)
step-IsWedged p mark_shutdown {q} h e =
    let out = sym (some_inj (mark p) q e) in
    elim (Bool-cases p.registered) [
      | inl r ↦ record {
        still_held = ap (λ (x : Pool). x.held) out ∙ rw r h;
        jobs = ap (λ (x : Pool). x.waiting_jobs) out ∙ rw r refl;
        no_exit = ap (λ (x : Pool). exits x.workers) out ∙ rw r (tally-terminate gone p.workers);
      }
      | inr r ↦ record {
        still_held = ap (λ (x : Pool). x.held) out ∙ rw r h;
        jobs = ap (λ (x : Pool). x.waiting_jobs) out ∙ rw r refl;
        no_exit = ap (λ (x : Pool). exits x.workers) out ∙ rw r refl;
      }
    ]
step-IsWedged p clear_shutdown h e = cc (locked-held p (some (clear p)) h, e)

run-IsWedged : (as' : List Action) (p q : Pool) → p.held ≡ true → run p as' ≡ some q → IsWedged p q
unfolding run
run-IsWedged [] p q h e =
    rw (sym (some_inj p q e)) (record { still_held = h; jobs = refl; no_exit = refl })
run-IsWedged (a ∷ as') p q h e =
    let (p₁, e₁, e₂) = >>=-eq-some (step p a) _ e in
    let first = step-IsWedged p a h e₁ in
    IsWedged-trans p p₁ q first (run-IsWedged as' p₁ q first.still_held e₂)

enter-held :
    (p : Pool) (i : ℕ) (w : Worker) (phase : Phase) {q : Pool}
    → get_elem? p.workers i ≡ some w
    → w.terminate ≡ true
    → enter_at p i w phase ≡ some q
    → q.held ≡ true
unfolding enter_at
enter-held p i w outside at t e =
    let ended = sym (critical-ends p i w t) ∙ locked-some p (critical p i w) e in
    let (_, held, _, _, _) = set_thread-tally (record p { held = true }) i w exited gone at ended in
    held
enter-held p i w sleeping at t e = cc
enter-held p i w exited at t e = cc
enter-held p i w (busy job) at t e = cc

-- When a worker with its `terminate` set takes a turn at the lock, it ends with the lock held: in
-- every run from there on the lock stays held, no other thread ends, and no job is added or taken.
pub exit_wedges :
    (p q r : Pool) (i : ℕ) (w : Worker) (as' : List Action)
    → get_elem? p.workers i ≡ some w
    → w.terminate ≡ true
    → step p (enter i) ≡ some q
    → run q as' ≡ some r
    → IsWedged q r
unfolding step
exit_wedges p q r i w as' at t e run_r =
    run-IsWedged as' q r (enter-held p i w w.thread at t (rw (at, ◌>>=◌) at e)) run_r
