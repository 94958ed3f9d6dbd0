-- ===== src/Server/Loop/Conserve.antt =====
-- The event loop and the jobs of the pool, whatever the threads do between two events.
use linux_command.Base.{
  ℕ, ◌+◌, ◌≡◌, refl, sym, ◌∙◌, ap, inl, inr, true, false, Option, none, some, List, [], ◌∷◌, ◌++◌,
  ◌-◌, ◌==◌, ◌||◌, if◌then◌else◌, ◌>>=◌, >>=-eq-some, some_inj, Bool, Bool-cases, length, replicate,
  c_string, arith,
}
use linux_command.Server.Io.{Recv, Poll, Received, n_recv, n_send, enotconn}
use linux_command.Server.Pool.{Pool, Action, step, run, add_job}
use linux_command.Server.Pool.Conserve.{
  is_job, everywhere, adds, adds_one, step-everywhere, run_conserves,
}
use linux_command.Server.Loop.{
  ServerState, Outcome, serving, returned, max_buffer, starts_with_a, respond, client_data_process,
  listenfd, accept_client, Ready, handle_ready, serve_ready,
}

-- How often the descriptor becomes a job: for its own events, and by what the steps add.
pub queued : List ℕ → ℕ → List (Ready × List Action) → ℕ
queued fds job [] = 0
queued fds job ((e, steps) ∷ es) =
    (if listenfd e.fd fds == 0 then is_job job e.fd else 0) + adds job steps + queued fds job es

respond-n_run :
    (s t : ServerState) (fd : ℕ) (rounds : List (Poll × ℕ)) (r : Received) (bs : List ℕ)
    → respond s fd rounds r bs ≡ some t
    → t.n_run ≡ s.n_run
unfolding respond
respond-n_run s t fd rounds r [] e = elim (Bool-cases (r.ret_code == enotconn)) [
  | inl c ↦ ap (λ (x : ServerState). x.n_run) (sym (some_inj _ t (rw c at e)))
  | inr c ↦ ap (λ (x : ServerState). x.n_run) (sym (some_inj _ t (rw c at e)))
]
respond-n_run s t fd rounds r (b ∷ bs) e = elim (Bool-cases (s.n_run || starts_with_a (b ∷ bs))) [
  | inl c ↦
      let (text, _, e₁) =
        >>=-eq-some (c_string ((b ∷ bs) ++ replicate (max_buffer - length (b ∷ bs)) 0)) _
          (rw c at e) in
      let (sent, _, e₂) = >>=-eq-some (n_send rounds text) _ e₁ in
      ap (λ (x : ServerState). x.n_run) (sym (some_inj _ t e₂))
  | inr c ↦ ap (λ (x : ServerState). x.n_run) (sym (some_inj _ t (rw c at e)))
]

data_process-n_run :
    (s t : ServerState) (fd : ℕ) (ins : List (Recv × Poll)) (outs : List (Poll × ℕ))
    → client_data_process s fd ins outs ≡ some t
    → t.n_run ≡ s.n_run
unfolding client_data_process
data_process-n_run s t fd ins outs e =
    let (r, _, e₁) = >>=-eq-some (n_recv ins max_buffer) _ e in
    respond-n_run s t fd outs r r.stored e₁

served : ServerState → Outcome → ServerState
served s (returned code) = s
served s (serving t) = t

serving_inj : (s t : ServerState) → serving s ≡ serving t → s ≡ t
unfolding served
serving_inj s t e = ap (served s) e

-- What one event does to `nRun` and to the jobs.
record Handled (fds : List ℕ) (job : ℕ) (s t : ServerState) (e : Ready) : Type 0 where
  stays : s.n_run ≡ true → t.n_run ≡ true
  jobs :
      t.n_run ≡ false
      → everywhere job t.workqueue
        ≡ everywhere job s.workqueue + (if listenfd e.fd fds == 0 then is_job job e.fd else 0)

accept_client-Handled :
    (fds : List ℕ) (job : ℕ) (s t : ServerState) (e : Ready)
    → (listenfd e.fd fds == 0) ≡ false
    → accept_client s e.client ≡ serving t
    → Handled fds job s t e
accept_client-Handled fds job s t e listens o = go e.client o
  where
    go : (client : Option ℕ) → accept_client s client ≡ serving t → Handled fds job s t e
    go none o = absurd (unfold accept_client in cc o)
    go (some c) o =
        unfold accept_client in
        rw (sym (serving_inj _ t o))
          (record { stays = λ h. rw h refl; jobs = λ h. rw listens (omega arith) })

add_job-Handled :
    (fds : List ℕ) (job : ℕ) (s t : ServerState) (e : Ready) (q : Pool)
    → (listenfd e.fd fds == 0) ≡ true
    → s.n_run ≡ false
    → step s.workqueue (add_job e.fd) ≡ some q
    → t ≡ record s { workqueue = q }
    → Handled fds job s t e
add_job-Handled fds job s t e q at_client off added same = rw same (record {
  stays = λ h. h;
  jobs = λ h.
      rw at_client
        (omega (arith, step-everywhere job s.workqueue (add_job e.fd) added, adds_one job e.fd));
})

abbrev answer : ServerState → Ready → Option Outcome
answer s e = do s' ← client_data_process s e.fd e.ins e.outs; some (serving s')

abbrev queue_up : ServerState → Ready → Option Outcome
queue_up s e = do q ← step s.workqueue (add_job e.fd); some (serving (record s { workqueue = q }))

handle_ready-chosen :
    (fds : List ℕ) (s : ServerState) (e : Ready) (b : Bool)
    → (listenfd e.fd fds == 0) ≡ true
    → s.n_run ≡ b
    → handle_ready fds s e ≡ (if b then answer s e else queue_up s e)
unfolding handle_ready
handle_ready-chosen fds s e b l on =
    let open_case : handle_ready fds s e ≡ (if s.n_run then answer s e else queue_up s e) =
      rw (handle_ready, l) refl in
    open_case ∙ ap (λ x. if x then answer s e else queue_up s e) on

handle_ready-Handled :
    (fds : List ℕ) (job : ℕ) (s t : ServerState) (e : Ready)
    → handle_ready fds s e ≡ some (serving t)
    → Handled fds job s t e
unfolding handle_ready
handle_ready-Handled fds job s t e h = elim (Bool-cases (listenfd e.fd fds == 0)) [
  | inr l ↦
      accept_client-Handled fds job s t e l (some_inj _ (serving t) (rw (handle_ready, l) at h))
  | inl l ↦ elim (Bool-cases s.n_run) [
    | inl b ↦
        let (s', done, h₁) =
          >>=-eq-some (client_data_process s e.fd e.ins e.outs) _
            (sym (handle_ready-chosen fds s e true l b) ∙ h) in
        let same = serving_inj s' t (some_inj _ (serving t) h₁) in
        let set : t.n_run ≡ true =
          ap (λ (x : ServerState). x.n_run) (sym same)
          ∙ data_process-n_run s s' e.fd e.ins e.outs done
          ∙ b in
        record { stays = λ h'. set; jobs = λ off. absurd (cc (set, off)) }
    | inr b ↦
        let (q, added, h₁) =
          >>=-eq-some (step s.workqueue (add_job e.fd)) _
            (sym (handle_ready-chosen fds s e false l b) ∙ h) in
        add_job-Handled fds job s t e q l b added
          (sym (serving_inj _ t (some_inj _ (serving t) h₁)))
  ]
]

-- A pass that goes on: the first event, the steps behind it, and the rest.
serve_ready-cons :
    (fds : List ℕ) (s t : ServerState) (e : Ready) (steps : List Action)
    (es : List (Ready × List Action))
    → serve_ready fds s ((e, steps) ∷ es) ≡ some (serving t)
    → (s' : ServerState) × (q : Pool) × (handle_ready fds s e ≡ some (serving s'))
      × (run s'.workqueue steps ≡ some q)
      × (serve_ready fds (record s' { workqueue = q }) es ≡ some (serving t))
unfolding serve_ready
serve_ready-cons fds s t e steps es r =
    let (o, h, r₁) = >>=-eq-some (handle_ready fds s e) _ r in go o h r₁
  where
    go :
        (o : Outcome)
        → handle_ready fds s e ≡ some o
        → (elim o [
          | returned code ↦ some (returned code)
          | serving s' ↦ do
            q ← run s'.workqueue steps
            serve_ready fds (record s' { workqueue = q }) es
        ])
          ≡ some (serving t)
        → (s' : ServerState) × (q : Pool) × (handle_ready fds s e ≡ some (serving s'))
          × (run s'.workqueue steps ≡ some q)
          × (serve_ready fds (record s' { workqueue = q }) es ≡ some (serving t))
    go (returned code) h r₁ = absurd (cc (some_inj _ (serving t) r₁))
    go (serving s') h r₁ =
        let (q, ran, r₂) = >>=-eq-some (run s'.workqueue steps) _ r₁ in (s', q, h, ran, r₂)

-- `nRun` once set stays set.
serve_ready-n_run :
    (fds : List ℕ) (s t : ServerState) (es : List (Ready × List Action))
    → serve_ready fds s es ≡ some (serving t)
    → s.n_run ≡ true
    → t.n_run ≡ true
unfolding serve_ready
serve_ready-n_run fds s t [] r set = rw (sym (serving_inj s t (some_inj _ (serving t) r))) set
serve_ready-n_run fds s t ((e, steps) ∷ es) r set =
    let (s', q, h, ran, r₁) = serve_ready-cons fds s t e steps es r in
    serve_ready-n_run fds (record s' { workqueue = q }) t es r₁
      ((handle_ready-Handled fds 0 s s' e h).stays set)

-- A pass over the events that goes on and leaves `nRun` unset, whatever the threads of the pool do
-- between the events: each event at a client puts its descriptor into the pool once, beside the jobs
-- that these steps themselves add, and the pool loses and doubles none. A job is waiting, being run,
-- run, or dropped by a shutdown.
pub serve_ready_conserves :
    (fds : List ℕ) (job : ℕ) (s t : ServerState) (es : List (Ready × List Action))
    → serve_ready fds s es ≡ some (serving t)
    → t.n_run ≡ false
    → everywhere job t.workqueue ≡ everywhere job s.workqueue + queued fds job es
unfolding serve_ready queued
serve_ready_conserves fds job s t [] r off = omega (
  arith,
  ap (λ (x : ServerState). everywhere job x.workqueue) (serving_inj s t (some_inj _ (serving t) r)),
)
serve_ready_conserves fds job s t ((e, steps) ∷ es) r off =
    let (s', q, h, ran, r₁) = serve_ready-cons fds s t e steps es r in
    let next : ServerState = record s' { workqueue = q } in
    let slow : s'.n_run ≡ false = elim (Bool-cases s'.n_run) [
      | inl set ↦ absurd (cc (serve_ready-n_run fds next t es r₁ set, off))
      | inr unset ↦ unset
    ] in
    omega (
      arith,
      (handle_ready-Handled fds job s s' e h).jobs slow,
      run_conserves job steps s'.workqueue q ran,
      serve_ready_conserves fds job next t es r₁ off,
    )
