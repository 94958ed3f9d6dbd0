-- ===== src/Deadlock/Cycle/Total.antt =====
-- DFS of mycode/deadlock/deadlock.c, its arrays and its end.
use linux_command.Base.{
  ℕ, zero, suc, ◌+◌, ◌-◌, ◌≤◌, ◌<◌, ◌≡◌, refl, sym, ◌∙◌, ap, false, inl, inr, Option, some, List,
  [], ◌∷◌, ◌++◌, ◌==◌, ◌>>=◌, Bool-cases, some_inj, get_elem?, set, length, length-set,
  store-eq-set, get_elem?-total, get_elem?-set_self, get_elem?-set_ne, arith,
}
use mathlib.Core.Path.{subst}
use native.Mathlib.Decide.{ℕ_discrete}
use linux_command.Deadlock.Graph.{Source, Vertex, TaskGraph, search_vertex}
use linux_command.Deadlock.Graph.Links.{IsValid, Found, Elem, here, next}
use linux_command.Deadlock.Cycle.{
  Search, print_deadlock, push_path, close_cycle, enter, dfs_edges, dfs,
}
use linux_command.Deadlock.Cycle.Marks.{unmarked, unmarked-set}
use linux_command.Deadlock.Cycle.Trail.{
  IsReady, Apart, Leaves, search_vertex-bound, Trail-set, print_ids-total,
}

module _ (g : TaskGraph) (v : IsValid g) where
  close_cycle-Leaves :
      (idx : ℕ) (s : Search)
      → idx < g.num
      → IsReady g s
      → (t : Search) × (close_cycle g idx s ≡ some t) × Leaves g idx s t
  unfolding close_cycle push_path print_deadlock
  close_cycle-Leaves idx s lt r =
      let inside : s.k < length s.path = omega (arith, r.room, r.cells, v.bound) in
      let tr = Trail-set g s.path s.k idx v inside lt r.trail in
      let (ids, e) =
        print_ids-total g (set s.path s.k (some idx)) (s.k + 1) 0 (s.k + 1 - 1) tr (omega arith) in
      (
        record s {
          path = set s.path s.k (some idx);
          k = s.k + 1;
          deadlock = 1;
          printed = s.printed ++ ids ∷ [];
        },
        rw (store-eq-set s.path s.k (some idx) inside) (rw (e, ◌>>=◌) refl),
        record {
          marks = r.marks;
          cells = length-set s.path s.k (some idx) ∙ r.cells;
          depth = refl;
          fewer = omega arith;
          trail = tr;
          flag = omega arith;
          keeps = λ j h. h;
          clear = λ h. absurd (omega arith);
        },
      )

  -- The state after a vertex that was not visited is entered.
  entered : ℕ → Search → Search
  entered idx s = record s {
    visited = set s.visited idx 1;
    path = set s.path s.k (some idx);
    k = s.k + 1;
  }

  enter-IsReady :
      (idx m : ℕ) (s : Search)
      → idx < g.num
      → get_elem? s.visited idx ≡ some m
      → (m == 1) ≡ false
      → IsReady g s
      → (enter idx s ≡ some (entered idx s))
        × IsReady g (entered idx s)
        × (unmarked g.num (entered idx s).visited + 1 ≡ unmarked g.num s.visited)
  unfolding enter push_path entered
  enter-IsReady idx m s lt e f r =
      let less = unmarked-set g.num idx s.visited lt e f in
      let inside : s.k < length s.path = omega (arith, r.room, r.cells, v.bound) in
      (
        rw (store-eq-set s.visited idx 1 (omega (arith, r.marks, v.bound)))
            (rw (store-eq-set s.path s.k (some idx) inside) refl),
        record {
          marks = length-set s.visited idx 1 ∙ r.marks;
          cells = length-set s.path s.k (some idx) ∙ r.cells;
          room = omega (arith, r.room, less);
          trail = Trail-set g s.path s.k idx v inside lt r.trail;
          flag = r.flag;
        },
        less,
      )

  -- What the recursive calls of a depth do, with `b` bounding the vertices not visited.
  abbrev pub Visits : (ℕ → Search → Option Search) → ℕ → Type 0
  Visits visit b =
      (i : ℕ) (s : Search)
      → i < g.num
      → IsReady g s
      → unmarked g.num s.visited < b
      → (t : Search) × (visit i s ≡ some t) × Leaves g i s t

  -- The same of the loop over the edges `ts`, with `k` put back.
  record Stays (ts : List Source) (s t : Search) : Type 0 where
    ready : IsReady g t
    depth : t.k ≡ s.k
    fewer : unmarked g.num t.visited ≤ unmarked g.num s.visited
    keeps : (j : ℕ) → get_elem? s.visited j ≡ some 1 → get_elem? t.visited j ≡ some 1
    clear :
        t.deadlock ≡ 0
        → (s.deadlock ≡ 0)
          × ((u : Source) (i : ℕ) → Elem u ts → search_vertex g u ≡ some (some i) → Apart g s i)

  Leaves-IsReady :
      (idx : ℕ) (s t : Search)
      → IsReady g s
      → Leaves g idx s t
      → IsReady g (record t { k = t.k - 1 })
  Leaves-IsReady idx s t r l = record {
    marks = l.marks;
    cells = l.cells;
    room = omega (arith, l.depth, l.fewer, r.room);
    trail = λ i h. l.trail i (omega arith);
    flag = l.flag;
  }

  search_vertex-same :
      (t u : Source) (i j : ℕ)
      → u ≡ t
      → search_vertex g t ≡ some (some j)
      → search_vertex g u ≡ some (some i)
      → j ≡ i
  search_vertex-same t u i j e p q =
      some_inj j i (some_inj (some j) (some i) (sym p ∙ ap (search_vertex g) (sym e) ∙ q))

  Stays-cons :
      (t : Source) (ts : List Source) (j : ℕ) (s s₁ s₂ : Search)
      → search_vertex g t ≡ some (some j)
      → Leaves g j s s₁
      → Stays ts (record s₁ { k = s₁.k - 1 }) s₂
      → Stays (t ∷ ts) s s₂
  Stays-cons t ts j s s₁ s₂ e l st = record {
    ready = st.ready;
    depth = omega (arith, st.depth, l.depth);
    fewer = omega (arith, st.fewer, l.fewer);
    keeps = λ i h. st.keeps i (l.keeps i h);
    clear = λ h.
        let (none_yet, rest) = st.clear h in
        let (was, first) = l.clear none_yet in
        (
          was,
          λ u i el q k w m. elim el [
            | inl eq ↦ first k (rw (search_vertex-same t u i j eq e q) w) m
            | inr tail ↦ rest u i tail q k w (l.keeps k m)
          ],
        );
  }

  dfs_edges-total :
      (visit : ℕ → Search → Option Search) (b : ℕ)
      → Visits visit b
      → (ts : List Source) (s : Search) → Found g ts
      → IsReady g s
      → unmarked g.num s.visited < b
      → (t : Search) × (dfs_edges visit g ts s ≡ some t) × Stays ts s t
  unfolding dfs_edges
  dfs_edges-total visit b hv [] s found r lt = (
    s,
    refl,
    record {
      ready = r;
      depth = refl;
      fewer = omega arith;
      keeps = λ j h. h;
      clear = λ h. (h, λ u i el. absurd el);
    },
  )
  dfs_edges-total visit b hv (t ∷ ts) s ((j, e), found) r lt =
      let (s₁, e₁, l) = hv j s (search_vertex-bound g t e) r lt in
      let r₁ = Leaves-IsReady j s s₁ r l in
      let (s₂, e₂, st) =
        dfs_edges-total visit b hv ts (record s₁ { k = s₁.k - 1 }) found r₁
          (omega (arith, l.fewer)) in
      (s₂, rw (e, ◌>>=◌) (rw (e₁, ◌>>=◌) e₂), Stays-cons t ts j s s₁ s₂ e l st)

  entered-keeps :
      (idx : ℕ) (s : Search) (j : ℕ)
      → idx < length s.visited
      → get_elem? s.visited j ≡ some 1
      → get_elem? (entered idx s).visited j ≡ some 1
  unfolding entered
  entered-keeps idx s j lt h = elim (ℕ_discrete idx j) [
    | yes e ↦ rw (← e) (get_elem?-set_self s.visited idx 1 lt)
    | no ne ↦ get_elem?-set_ne s.visited idx j 1 ne ∙ h
  ]

  -- A walk from a fresh vertex goes on along one of its edges.
  entered-Apart :
      (idx m : ℕ) (s : Search) (ver : Vertex)
      → idx < length s.visited
      → get_elem? g.list idx ≡ some ver
      → get_elem? s.visited idx ≡ some m
      → (m == 1) ≡ false
      → ((u : Source) (i : ℕ)
          → Elem u ver.next
          → search_vertex g u ≡ some (some i)
          → Apart g (entered idx s) i)
      → Apart g s idx
  entered-Apart idx m s ver lt e e' new rest j here h = ground (arith, some_inj m 1 (sym e' ∙ h))
  entered-Apart idx m s ver lt e e' new rest j (next ed w) h =
      rest ed.target _ (subst (λ (x : Vertex). Elem ed.target x.next) same ed.linked) ed.found j w
        (entered-keeps idx s j lt h)
    where
      same : ed.ver ≡ ver
      same = some_inj ed.ver ver (sym ed.at ∙ e)

  dfs_open-Leaves :
      (idx m : ℕ) (s t : Search) (ver : Vertex)
      → idx < length s.visited
      → get_elem? g.list idx ≡ some ver
      → get_elem? s.visited idx ≡ some m
      → (m == 1) ≡ false
      → unmarked g.num (entered idx s).visited + 1 ≡ unmarked g.num s.visited
      → Stays ver.next (entered idx s) t
      → Leaves g idx s t
  unfolding entered
  dfs_open-Leaves idx m s t ver lt e e' new u₁ st = record {
    marks = st.ready.marks;
    cells = st.ready.cells;
    depth = st.depth;
    fewer = omega (arith, st.fewer);
    trail = st.ready.trail;
    flag = st.ready.flag;
    keeps = λ j h. st.keeps j (entered-keeps idx s j lt h);
    clear = λ h. let (was, rest) = st.clear h in (was, entered-Apart idx m s ver lt e e' new rest);
  }

  pub dfs-total : (fuel : ℕ) → Visits (dfs fuel g) fuel
  unfolding dfs
  dfs-total zero idx s lt r h = absurd (omega arith)
  dfs-total (suc fuel) idx s lt r h =
      let inside : idx < length s.visited = omega (arith, r.marks, v.bound) in
      let (ver, e) = get_elem?-total g.list idx (omega (arith, v.size, v.bound)) in
      let (m, e') = get_elem?-total s.visited idx inside in
      elim (Bool-cases (m == 1)) [
        | inl seen ↦ rw (e, ◌>>=◌) (rw (e', ◌>>=◌) (rw seen (close_cycle-Leaves idx s lt r)))
        | inr new ↦
            let (e₁, r₁, u₁) = enter-IsReady idx m s lt e' new r in
            let (t, e₂, st) =
              dfs_edges-total (dfs fuel g) fuel (dfs-total fuel) ver.next (entered idx s)
                (v.closed idx ver lt e) r₁ (omega arith) in
            (
              t,
              rw (e, ◌>>=◌) (rw (e', ◌>>=◌) (rw new (rw (e₁, ◌>>=◌) e₂))),
              dfs_open-Leaves idx m s t ver inside e e' new u₁ st,
            )
      ]
