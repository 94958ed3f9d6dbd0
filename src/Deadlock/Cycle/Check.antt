-- ===== src/Deadlock/Cycle/Check.antt =====
-- check_dead_lock of mycode/deadlock/deadlock.c as a whole.
use linux_command.Base.{
  ℕ, zero, suc, ◌+◌, ◌≤◌, ◌<◌, ◌≡◌, refl, sym, ◌∙◌, ap, inl, inr, Option, none, some, List, [], ◌∷◌,
  ◌==◌, ◌>>=◌, Bool-cases, some_inj, get_elem?, set, length, length-set, store-eq-set,
  get_elem?-total, get_elem?-set_self, map, ==_iff, arith,
}
use mathlib.Core.Path.{subst}
use native.Mathlib.Decide.{ℕ_discrete}
use linux_command.Deadlock.Graph.{Source, Vertex, TaskGraph, max, search_vertex}
use linux_command.Deadlock.Graph.Links.{IsValid, Found, Elem, Walk, OnCycle}
use linux_command.Deadlock.Cycle.{
  Search, path_id, push_path, enter, reset_visited, clear_path, search_edges, search_for_cycle,
  check_from, check_dead_lock,
}
use linux_command.Deadlock.Cycle.Marks.{
  unmarked-marked, reset_visited-total, length-reset_visited, reset_visited-start,
}
use linux_command.Deadlock.Cycle.Trail.{IsReady, search_vertex-bound, path_id-set}
use linux_command.Deadlock.Cycle.Total.{dfs-total}

-- The arrays `visited` and `path` have their declared sizes, and `deadlock` is 0 or 1.
pub record IsSized (s : Search) : Type 0 where
  pub marks : length s.visited ≡ max
  pub cells : length s.path ≡ max + 1
  pub flag : s.deadlock ≤ 1

length-clear_path : (ps : List (Option ℕ)) → length (clear_path ps) ≡ length ps
unfolding clear_path
length-clear_path [] = refl
length-clear_path (p ∷ ps) = ap suc (go ps)
  where
    go :
        (qs : List (Option ℕ))
        → length (map {A = Option ℕ} {B = Option ℕ} (λ _. none) qs) ≡ length qs
    go [] = refl
    go (q ∷ qs) = ap suc (go qs)

path_id-clear_path :
    (g : TaskGraph) (ps : List (Option ℕ)) → path_id g (clear_path ps) 0 ≡ path_id g ps 0
unfolding path_id clear_path
path_id-clear_path g [] = refl
path_id-clear_path g (p ∷ ps) = refl

module _ (g : TaskGraph) (v : IsValid g) where
  -- What a search over the edges `ts` of `idx` starts from.
  record Scanning (idx : ℕ) (s : Search) : Type 0 where
    sized : IsSized s
    mark : get_elem? s.visited idx ≡ some 1
    first : (n : ℕ) × (path_id g s.path 0 ≡ some n)

  abbrev NoReturn : ℕ → List Source → Type 0
  NoReturn idx ts =
      (u : Source) (i : ℕ) → Elem u ts → search_vertex g u ≡ some (some i) → ¬ Walk g i idx

  restart : List ℕ → Search → Search
  restart ms s = record s { visited = ms; path = clear_path s.path; k = 1 }

  restart-IsReady :
      (idx : ℕ) (s : Search) (ms : List ℕ)
      → idx < g.num
      → Scanning idx s
      → reset_visited g.num 0 idx s.visited ≡ some ms
      → IsReady g (restart ms s) × (get_elem? ms idx ≡ some 1)
  unfolding restart
  restart-IsReady idx s ms lt sc e =
      let zero_add : idx ≡ 0 + idx = omega arith in
      let mark = reset_visited-start g.num 0 idx s.visited (rw (← zero_add) e) sc.mark in
      (
        record {
          marks = length-reset_visited g.num 0 idx s.visited e ∙ sc.sized.marks;
          cells = length-clear_path s.path ∙ sc.sized.cells;
          room = omega (arith, unmarked-marked g.num idx ms lt mark);
          trail = λ i h.
              let (n, p) = sc.first in
              let same : i ≡ 0 = omega arith in (n, rw same (path_id-clear_path g s.path ∙ p));
          flag = sc.sized.flag;
        },
        mark,
      )

  search_edges-total :
      (idx : ℕ)
      → idx < g.num
      → (ts : List Source) (s : Search) → Found g ts
      → Scanning idx s
      → (t : Search) × (search_edges (g.num + 1) g idx ts s ≡ some t)
        × IsSized t
        × (t.deadlock ≡ 0 → (s.deadlock ≡ 0) × NoReturn idx ts)
  unfolding search_edges restart
  search_edges-total idx lt [] s found sc = (s, refl, sc.sized, λ h. (h, λ u i el. absurd el))
  search_edges-total idx lt (t ∷ ts) s ((j, e), found) sc =
      let (ms, e₁) =
        reset_visited-total g.num 0 idx s.visited (omega (arith, sc.sized.marks, v.bound)) in
      let (r, mark) = restart-IsReady idx s ms lt sc e₁ in
      let (s₁, e₂, l) =
        dfs-total g v (g.num + 1) j (restart ms s) (search_vertex-bound g t e) r
          (omega (arith, unmarked-marked g.num idx ms lt mark)) in
      let sc₁ : Scanning idx s₁ = record {
        sized = record { marks = l.marks; cells = l.cells; flag = l.flag };
        mark = l.keeps idx mark;
        first = l.trail 0 (omega (arith, l.depth));
      } in
      let (s₂, e₃, z, rest) = search_edges-total idx lt ts s₁ found sc₁ in
      (
        s₂,
        rw (e₁, ◌>>=◌) (rw (e, ◌>>=◌) (rw (e₂, ◌>>=◌) e₃)),
        z,
        λ h.
            let (none_yet, others) = rest h in
            let (was, apart) = l.clear none_yet in
            (
              was,
              λ u i el q w. elim el [
                | inl eq ↦
                    let hit : j ≡ i =
                      some_inj j i
                        (some_inj (some j) (some i) (sym e ∙ ap (search_vertex g) (sym eq) ∙ q)) in
                    apart idx (rw hit w) mark
                | inr tail ↦ others u i tail q w
              ],
            ),
      )

  -- The start vertex as search_for_cycle enters it.
  begun : ℕ → Search → Search
  begun idx s = record s {
    visited = set s.visited idx 1;
    path = set s.path 0 (some idx);
    k = 0 + 1;
  }

  begun-Scanning : (idx : ℕ) (s : Search) → idx < g.num → IsSized s → Scanning idx (begun idx s)
  unfolding begun
  begun-Scanning idx s lt z = record {
    sized = record {
      marks = length-set s.visited idx 1 ∙ z.marks;
      cells = length-set s.path 0 (some idx) ∙ z.cells;
      flag = z.flag;
    };
    mark = get_elem?-set_self s.visited idx 1 (omega (arith, z.marks, v.bound));
    first = path_id-set g s.path 0 idx v (omega (arith, z.cells)) lt;
  }

  enter-begun :
      (idx : ℕ) (s : Search)
      → idx < g.num
      → IsSized s
      → enter idx (record s { k = 0 }) ≡ some (begun idx s)
  unfolding enter push_path begun
  enter-begun idx s lt z =
      rw (store-eq-set s.visited idx 1 (omega (arith, z.marks, v.bound)))
        (rw (store-eq-set s.path 0 (some idx) (omega (arith, z.cells))) refl)

  search_for_cycle-total :
      (idx : ℕ) (s : Search)
      → idx < g.num
      → IsSized s
      → (t : Search) × (search_for_cycle (g.num + 1) g idx s ≡ some t)
        × IsSized t
        × (t.deadlock ≡ 0 → (s.deadlock ≡ 0) × ¬ OnCycle g idx)
  unfolding search_for_cycle begun
  search_for_cycle-total idx s lt z =
      let (ver, e) = get_elem?-total g.list idx (omega (arith, v.size, v.bound)) in
      let (t, e₁, zt, rest) =
        search_edges-total idx lt ver.next (begun idx s) (v.closed idx ver lt e)
          (begun-Scanning idx s lt z) in
      (
        t,
        rw (e, ◌>>=◌) (rw (enter-begun idx s lt z) e₁),
        zt,
        λ h.
            let (was, away) = rest h in
            (
              was,
              λ (j, ed, w).
                  away ed.target j
                    (subst (λ (x : Vertex). Elem ed.target x.next)
                      (some_inj ed.ver ver (sym ed.at ∙ e)) ed.linked)
                    ed.found w,
            ),
      )

  check_from-total :
      (n i : ℕ) (s : Search)
      → i + n ≤ g.num
      → IsSized s
      → (t : Search) × (check_from (g.num + 1) g i n s ≡ some t)
        × IsSized t
        × (t.deadlock ≡ 0 → (s.deadlock ≡ 0) × ((j : ℕ) → i ≤ j → j < i + n → ¬ OnCycle g j))
  unfolding check_from
  check_from-total zero i s le z = (s, refl, z, λ h. (h, λ j p q. absurd (omega arith)))
  check_from-total (suc n) i s le z = elim (Bool-cases (s.deadlock == 1)) [
    | inl hit ↦ (s, rw hit refl, z, λ h. absurd (omega (arith, (==_iff s.deadlock 1).0 hit)))
    | inr miss ↦
        let (s₁, e₁, z₁, first) = search_for_cycle-total i s (omega arith) z in
        let (t, e₂, z₂, rest) = check_from-total n (i + 1) s₁ (omega arith) z₁ in
        (
          t,
          rw miss (rw (e₁, ◌>>=◌) e₂),
          z₂,
          λ h.
              let (none_yet, later) = rest h in
              let (was, now) = first none_yet in
              (
                was,
                λ j p q. elim (ℕ_discrete i j) [
                  | yes same ↦ rw (← same) now
                  | no other ↦ later j (omega arith) (omega arith)
                ],
              ),
        )
  ]

-- On a graph whose edges lead to vertices, with the arrays of the search at their sizes and
-- `deadlock` 0 or 1, check_dead_lock returns with no access outside an array, and leaves `deadlock`
-- 0 or 1; if some vertex lies on a cycle of edges, it leaves 1.
pub check_dead_lock-detects :
    (g : TaskGraph) (s : Search)
    → IsValid g
    → IsSized s
    → (t : Search) × (check_dead_lock g s ≡ some t)
      × IsSized t
      × ((i : ℕ) → i < g.num → OnCycle g i → t.deadlock ≡ 1)
unfolding check_dead_lock
check_dead_lock-detects g s v z =
    let (t, e, zt, rest) =
      check_from-total g v g.num 0 (record s { deadlock = 0 }) (omega arith)
        (record { marks = z.marks; cells = z.cells; flag = omega arith }) in
    (t, e, zt, λ i lt c. go t zt rest i lt c)
  where
    go :
        (t : Search)
        → IsSized t
        → (t.deadlock ≡ 0 → (◌≡◌ {A = ℕ} 0 0) × ((j : ℕ) → 0 ≤ j → j < 0 + g.num → ¬ OnCycle g j))
        → (i : ℕ) → i < g.num
        → OnCycle g i
        → t.deadlock ≡ 1
    go t zt rest i lt c = elim (ℕ_discrete t.deadlock 0) [
      | yes e ↦ absurd ((rest e).1 i (omega arith) (omega arith) c)
      | no ne ↦ omega (arith, zt.flag)
    ]
