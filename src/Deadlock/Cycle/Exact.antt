-- ===== src/Deadlock/Cycle/Exact.antt =====
-- check_dead_lock on a graph where each thread waits for one other at most, as threads that block do.
use linux_command.Base.{
  ℕ, zero, suc, ◌+◌, ◌≤◌, ◌<◌, ◌≡◌, refl, sym, ◌∙◌, ap, ◌↔◌, ◌⊎◌, inl, inr, Option, none, some,
  List, [], ◌∷◌, ◌==◌, >>=-eq-some, Bool-cases, some_inj, get_elem?, set, store, length,
  store-eq-set, get_elem?-bound, get_elem?-set_ne, ==_iff, arith,
}
use native.Mathlib.Decide.{ℕ_discrete}
use linux_command.Deadlock.Graph.{Source, Vertex, TaskGraph, search_vertex}
use linux_command.Deadlock.Graph.Links.{
  IsValid, IsSingle, Elem, Edge, here, Way, OnCycle, Walk-snoc,
}
use linux_command.Deadlock.Cycle.{
  Search, push_path, enter, dfs_edges, dfs, reset_visited, search_edges, search_for_cycle,
  check_from, check_dead_lock,
}
use linux_command.Deadlock.Cycle.Marks.{reset_visited-clears}
use linux_command.Deadlock.Cycle.Trail.{search_vertex-bound}
use linux_command.Deadlock.Cycle.Check.{IsSized, check_dead_lock-detects}

abbrev pub Cyclic : TaskGraph → Type 0
Cyclic g = (c : ℕ) × (c < g.num) × OnCycle g c

-- A report comes with a cycle.
abbrev Honest : TaskGraph → Search → Search → Type 0
Honest g s t = (t.deadlock ≡ s.deadlock) ⊎ Cyclic g

-- Every visited vertex leads to `idx`.
abbrev Behind : TaskGraph → List ℕ → ℕ → Type 0
Behind g ms idx = (u : ℕ) → u < g.num → get_elem? ms u ≡ some 1 → Way g u idx

push_path-rest :
    (idx : ℕ) (s : Search) {t : Search}
    → push_path idx s ≡ some t
    → (t.visited ≡ s.visited) × (t.deadlock ≡ s.deadlock)
unfolding push_path
push_path-rest idx s e =
    let (path, e₁, e₂) = >>=-eq-some (store s.path s.k (some idx)) _ e in (cc, cc)

enter-rest :
    (idx m : ℕ) (s : Search) {t : Search}
    → get_elem? s.visited idx ≡ some m
    → enter idx s ≡ some t
    → (t.visited ≡ set s.visited idx 1) × (t.deadlock ≡ s.deadlock)
unfolding enter
enter-rest idx m s h e =
    let (ms, e₁, e₂) = >>=-eq-some (store s.visited idx 1) _ e in
    let (kept, flag) = push_path-rest idx (record s { visited = ms }) e₂ in
    (cc (kept, e₁, store-eq-set s.visited idx 1 (get_elem?-bound s.visited idx h)), flag)

Behind-enter :
    (g : TaskGraph) (ms : List ℕ) (idx j : ℕ)
    → Behind g ms idx
    → Edge g idx j
    → Behind g (set ms idx 1) j
Behind-enter g ms idx j b ed u lt h = elim (ℕ_discrete idx u) [
  | yes e ↦ (j, rw (← e) ed, here)
  | no ne ↦
      let (k, first, w) = b u lt (sym (get_elem?-set_ne ms idx u 1 ne) ∙ h) in
      (k, first, Walk-snoc w ed)
]

module _ (g : TaskGraph) (single : IsSingle g) where
  -- The loop over at most one edge.
  dfs_edges-Honest :
      (fuel idx : ℕ) (ver : Vertex) (ts : List Source)
      → ((i : ℕ) (s t : Search)
          → dfs fuel g i s ≡ some t
          → i < g.num
          → Behind g s.visited i
          → Honest g s t)
      → (s : Search) {t : Search} → get_elem? g.list idx ≡ some ver
      → ver.next ≡ ts
      → length ts ≤ 1
      → ((j : ℕ) → Edge g idx j → Behind g s.visited j)
      → dfs_edges (dfs fuel g) g ts s ≡ some t
      → Honest g s t
  unfolding dfs_edges
  dfs_edges-Honest fuel idx ver [] rec s at e le b h = inl (cc)
  dfs_edges-Honest fuel idx ver (u ∷ []) rec s {t} at e le b h =
      let (found, e₁, h₁) = >>=-eq-some (search_vertex g u) _ h in
      let (j, e₂, h₂) = >>=-eq-some found _ h₁ in
      let (s₁, e₃, h₃) = >>=-eq-some (dfs fuel g j s) _ h₂ in
      let hit : search_vertex g u ≡ some (some j) = cc in
      let linked : Elem u ver.next = rw e (inl refl) in
      let ed : Edge g idx j = record {
        ver = ver;
        at = at;
        target = u;
        linked = linked;
        found = hit;
      } in
      elim (rec j s s₁ e₃ (search_vertex-bound g u hit) (b j ed)) [
        | inl same ↦
            inl (
              sym (ap (λ (x : Option Search). elim x [ none ↦ 0 | some y ↦ y.deadlock ]) h₃) ∙ same)
        | inr cyclic ↦ inr cyclic
      ]
  dfs_edges-Honest fuel idx ver (u ∷ w ∷ ts) rec s at e le b h = absurd (omega arith)

  dfs-Honest :
      (fuel i : ℕ) (s t : Search)
      → dfs fuel g i s ≡ some t
      → i < g.num
      → Behind g s.visited i
      → Honest g s t
  unfolding dfs
  dfs-Honest zero i s t h lt b = cc
  dfs-Honest (suc fuel) i s t h lt b =
      let (ver, e₁, h₁) = >>=-eq-some (get_elem? g.list i) _ h in
      let (m, e₂, h₂) = >>=-eq-some (get_elem? s.visited i) _ h₁ in
      elim (Bool-cases (m == 1)) [
        | inl seen ↦ let one : m ≡ 1 = (==_iff m 1).0 seen in inr (i, lt, b i lt (e₂ ∙ ap some one))
        | inr new ↦
            let (s₁, e₃, h₃) = >>=-eq-some (enter i s) _ (rw new at h₂) in
            let (kept, flag) = enter-rest i m s e₂ e₃ in
            let after =
              dfs_edges-Honest fuel i ver ver.next (dfs-Honest fuel) s₁ e₁ refl
                (single.one i ver lt e₁) (λ j ed. rw kept (Behind-enter g s.visited i j b ed)) h₃ in
            elim after [ inl same ↦ inl (same ∙ flag) | inr cyclic ↦ inr cyclic ]
      ]

  -- The loop over the edges of the start vertex, which is marked.
  search_edges-Honest :
      (fuel idx : ℕ) (ver : Vertex) (ts : List Source) (s t : Search)
      → get_elem? g.list idx ≡ some ver
      → ver.next ≡ ts
      → length ts ≤ 1
      → search_edges fuel g idx ts s ≡ some t
      → Honest g s t
  unfolding search_edges
  search_edges-Honest fuel idx ver [] s t at e le h = inl (cc)
  search_edges-Honest fuel idx ver (u ∷ []) s t at e le h =
      let (ms, e₁, h₁) = >>=-eq-some (reset_visited g.num 0 idx s.visited) _ h in
      let (found, e₂, h₂) = >>=-eq-some (search_vertex g u) _ h₁ in
      let (j, e₃, h₃) = >>=-eq-some found _ h₂ in
      let (s₁, e₄, h₄) = >>=-eq-some (dfs fuel g j _) _ h₃ in
      let hit : search_vertex g u ≡ some (some j) = cc in
      let linked : Elem u ver.next = rw e (inl refl) in
      let ed : Edge g idx j = record {
        ver = ver;
        at = at;
        target = u;
        linked = linked;
        found = hit;
      } in
      elim (dfs-Honest fuel j _ s₁ e₄ (search_vertex-bound g u hit) (only_start s ms idx j e₁ ed)) [
        | inl same ↦ inl (ap (λ (x : Search). x.deadlock) (some_inj t s₁ (sym h₄)) ∙ same)
        | inr cyclic ↦ inr cyclic
      ]
    where
      only_start :
          (s : Search) (ms : List ℕ) (idx j : ℕ)
          → reset_visited g.num 0 idx s.visited ≡ some ms
          → Edge g idx j
          → Behind g ms j
      only_start s ms idx j e ed v lt h = elim (ℕ_discrete v idx) [
        | yes same ↦ (j, rw same ed, here)
        | no ne ↦ absurd (ground (arith, h, reset_visited-clears g.num idx v s.visited ms e lt ne))
      ]
  search_edges-Honest fuel idx ver (u ∷ w ∷ ts) s t at e le h = absurd (omega arith)

  search_for_cycle-Honest :
      (fuel idx : ℕ) (s t : Search)
      → idx < g.num
      → search_for_cycle fuel g idx s ≡ some t
      → Honest g s t
  unfolding search_for_cycle enter
  search_for_cycle-Honest fuel idx s t lt h =
      let (ver, e₁, h₁) = >>=-eq-some (get_elem? g.list idx) _ h in
      let (s₁, e₂, h₂) = >>=-eq-some (enter idx (record s { k = 0 })) _ h₁ in
      let (ms, e₃, h₃) = >>=-eq-some (store s.visited idx 1) _ e₂ in
      let (kept, flag) = push_path-rest idx (record s { k = 0; visited = ms }) h₃ in
      elim (search_edges-Honest fuel idx ver ver.next s₁ t e₁ refl (single.one idx ver lt e₁) h₂) [
        | inl same ↦ inl (same ∙ flag)
        | inr cyclic ↦ inr cyclic
      ]

  check_from-Honest :
      (fuel i n : ℕ) (s t : Search)
      → i + n ≤ g.num
      → check_from fuel g i n s ≡ some t
      → Honest g s t
  unfolding check_from
  check_from-Honest fuel i zero s t le h = inl (cc)
  check_from-Honest fuel i (suc n) s t le h = elim (Bool-cases (s.deadlock == 1)) [
    | inl hit ↦ inl (ap (λ (x : Search). x.deadlock) (some_inj t s (sym (rw hit at h))))
    | inr miss ↦
        let (s₁, e₁, h₁) = >>=-eq-some (search_for_cycle fuel g i s) _ (rw miss at h) in
        elim (check_from-Honest fuel (i + 1) n s₁ t (omega arith) h₁) [
          | inr cyclic ↦ inr cyclic
          | inl same ↦ elim (search_for_cycle-Honest fuel i s s₁ (omega arith) e₁) [
            | inl same' ↦ inl (same ∙ same')
            | inr cyclic ↦ inr cyclic
          ]
        ]
  ]

  check_dead_lock-Honest : (s t : Search) → check_dead_lock g s ≡ some t → t.deadlock ≡ 1 → Cyclic g
  unfolding check_dead_lock
  check_dead_lock-Honest s t h d =
      elim (check_from-Honest (g.num + 1) 0 g.num (record s { deadlock = 0 }) t (omega arith) h) [
        | inl same ↦ absurd (omega arith)
        | inr cyclic ↦ cyclic
      ]

-- On a valid graph with at most one edge from each vertex, and a search with its arrays at their
-- sizes, check_dead_lock returns, and leaves `deadlock` 1 exactly when some vertex lies on a cycle.
pub check_dead_lock_exact :
    (g : TaskGraph) (s : Search)
    → IsValid g
    → IsSingle g
    → IsSized s
    → (t : Search) × (check_dead_lock g s ≡ some t) × ((t.deadlock ≡ 1) ↔ Cyclic g)
check_dead_lock_exact g s v single z =
    let (t, e, zt, detects) = check_dead_lock-detects g s v z in
    (t, e, (check_dead_lock-Honest g single s t e, λ (c, lt, cycle). detects c lt cycle))
