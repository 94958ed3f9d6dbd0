-- ===== src/Server/Pool/Threads.antt =====
-- Counting the threads of the work queue by where they stand.
use linux_command.Base.{
  ℕ, zero, suc, ◌+◌, ◌≡◌, refl, Bool, true, false, if◌then◌else◌, Option, some, List, [], ◌∷◌, map,
  get_elem?, store, store_inside, inl, inr, Bool-cases, set, ap, sym, ◌∙◌, some_inj, >>=-eq-some,
  arith,
}
use linux_command.Server.Pool.{Phase, exited, Worker, Pool, set_thread, take_job, critical, locked}

-- The sum of a measure of the phases.
pub tally : (Phase → ℕ) → List Worker → ℕ
tally f [] = 0
tally f (w ∷ ws) = f w.thread + tally f ws

tally-set :
    (f : Phase → ℕ) (ws : List Worker) (i : ℕ) (w v : Worker)
    → get_elem? ws i ≡ some w
    → tally f (set ws i v) + f w.thread ≡ tally f ws + f v.thread
unfolding tally
tally-set f [] i w v e = cc
tally-set f (x ∷ ws) zero w v e =
    omega (arith, ap f (ap (λ (y : Worker). y.thread) (some_inj x w e)))
tally-set f (x ∷ ws) (suc i) w v e = omega (arith, tally-set f ws i w v e)

-- A thread that goes from one phase to another.
pub set_thread-tally :
    (p : Pool) (i : ℕ) (w : Worker) (phase : Phase) {q : Pool} (f : Phase → ℕ)
    → get_elem? p.workers i ≡ some w
    → set_thread p i w phase ≡ some q
    → (tally f q.workers + f w.thread ≡ tally f p.workers + f phase)
      × (q.held ≡ p.held)
      × (q.waiting_jobs ≡ p.waiting_jobs)
      × (q.finished ≡ p.finished)
      × (q.dropped ≡ p.dropped)
unfolding set_thread
set_thread-tally p i w phase {q} f at e =
    let (ws, e₁, e₂) = >>=-eq-some (store p.workers i (record w { thread = phase })) _ e in
    let (lt, same) = store_inside p.workers i (record w { thread = phase }) e₁ in
    let out = sym (some_inj (record p { workers = ws }) q e₂) in
    (
      ap (λ (x : Pool). tally f x.workers + f w.thread) out
          ∙ ap (λ (x : List Worker). tally f x + f w.thread) same
          ∙ tally-set f p.workers i w (record w { thread = phase }) at,
      ap (λ (x : Pool). x.held) out,
      ap (λ (x : Pool). x.waiting_jobs) out,
      ap (λ (x : Pool). x.finished) out,
      ap (λ (x : Pool). x.dropped) out,
    )

pub tally-terminate :
    (f : Phase → ℕ) (ws : List Worker)
    → tally f (map {A = Worker} {B = Worker} (λ w. record w { terminate = true }) ws) ≡ tally f ws
unfolding tally
tally-terminate f [] = refl
tally-terminate f (w ∷ ws) = omega (arith, tally-terminate f ws)

-- A thread whose `terminate` is set ends with the lock held.
pub critical-ends :
    (p : Pool) (i : ℕ) (w : Worker)
    → w.terminate ≡ true
    → critical p i w ≡ set_thread (record p { held = true }) i w exited
unfolding critical
critical-ends p i w t =
    ap
      (λ (b : Bool).
        if b
        then set_thread (record p { held = true }) i w exited
        else take_job p i w p.waiting_jobs)
      t

pub critical-takes :
    (p : Pool) (i : ℕ) (w : Worker)
    → w.terminate ≡ false
    → critical p i w ≡ take_job p i w p.waiting_jobs
unfolding critical
critical-takes p i w t =
    ap
      (λ (b : Bool).
        if b
        then set_thread (record p { held = true }) i w exited
        else take_job p i w p.waiting_jobs)
      t

-- A step that needs the lock was taken with the lock free.
pub locked-some :
    (p : Pool) (next : Option Pool) {q : Pool} → locked p next ≡ some q → next ≡ some q
unfolding locked
locked-some p next e = elim (Bool-cases p.held) [ inl h ↦ cc (rw h at e) | inr h ↦ rw h at e ]
