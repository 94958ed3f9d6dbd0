-- ===== src/Deadlock/Cycle/Trail.antt =====
-- The state of the search of deadlock.c between two calls of DFS, and the cycle it prints.
use linux_command.Base.{
  ℕ, zero, suc, ◌+◌, ◌≤◌, ◌<◌, ◌≡◌, ◌≢◌, refl, Option, some, List, [], ◌∷◌, ◌>>=◌, get_elem?, set,
  length, get_elem?-total, get_elem?-set_self, get_elem?-set_ne, search_table-IsHit, arith,
}
use native.Mathlib.Decide.{ℕ_discrete}
use linux_command.Deadlock.Graph.{Source, TaskGraph, max, search_vertex}
use linux_command.Deadlock.Graph.Links.{IsValid, Walk}
use linux_command.Deadlock.Cycle.{Search, path_id, print_ids}
use linux_command.Deadlock.Cycle.Marks.{unmarked}

-- The first `k` entries of the path are vertices.
abbrev pub Trail : TaskGraph → List (Option ℕ) → ℕ → Type 0
Trail g path k = (i : ℕ) → i < k → (n : ℕ) × (path_id g path i ≡ some n)

pub record IsReady (g : TaskGraph) (s : Search) : Type 0 where
  pub marks : length s.visited ≡ max
  pub cells : length s.path ≡ max + 1
  pub room : s.k + unmarked g.num s.visited ≤ g.num
  pub trail : Trail g s.path s.k
  pub flag : s.deadlock ≤ 1

-- No walk from `i` meets a vertex that `s` has visited.
abbrev pub Apart : TaskGraph → Search → ℕ → Type 0
Apart g s i = (j : ℕ) → Walk g i j → get_elem? s.visited j ≢ some 1

-- What a call of DFS at `idx` does to the globals. If it reports nothing, then nothing was
-- reported before, and no vertex that it can reach was visited before.
pub record Leaves (g : TaskGraph) (idx : ℕ) (s t : Search) : Type 0 where
  pub marks : length t.visited ≡ max
  pub cells : length t.path ≡ max + 1
  pub depth : t.k ≡ s.k + 1
  pub fewer : unmarked g.num t.visited ≤ unmarked g.num s.visited
  pub trail : Trail g t.path t.k
  pub flag : t.deadlock ≤ 1
  pub keeps : (j : ℕ) → get_elem? s.visited j ≡ some 1 → get_elem? t.visited j ≡ some 1
  pub clear : t.deadlock ≡ 0 → (s.deadlock ≡ 0) × Apart g s idx

pub search_vertex-bound :
    (g : TaskGraph) (t : Source) {j : ℕ} → search_vertex g t ≡ some (some j) → j < g.num
unfolding search_vertex
search_vertex-bound g t e = (search_table-IsHit _ g.list g.num e).bound

pub path_id-set :
    (g : TaskGraph) (path : List (Option ℕ)) (k idx : ℕ)
    → IsValid g
    → k < length path
    → idx < g.num
    → (n : ℕ) × (path_id g (set path k (some idx)) k ≡ some n)
unfolding path_id
path_id-set g path k idx v lt lt' =
    let (ver, e) = get_elem?-total g.list idx (omega (arith, v.size, v.bound)) in
    (ver.s.id, rw (get_elem?-set_self path k (some idx) lt) (rw e refl))

pub path_id-set_ne :
    (g : TaskGraph) (path : List (Option ℕ)) (k i idx : ℕ)
    → i < k
    → path_id g (set path k (some idx)) i ≡ path_id g path i
unfolding path_id
path_id-set_ne g path k i idx lt = rw (get_elem?-set_ne path k i (some idx) (omega arith)) refl

pub Trail-set :
    (g : TaskGraph) (path : List (Option ℕ)) (k idx : ℕ)
    → IsValid g
    → k < length path
    → idx < g.num
    → Trail g path k
    → Trail g (set path k (some idx)) (k + 1)
Trail-set g path k idx v lt lt' tr i h = elim (ℕ_discrete i k) [
  | yes e ↦ rw e (path_id-set g path k idx v lt lt')
  | no ne ↦ rw (path_id-set_ne g path k i idx (omega arith)) (tr i (omega arith))
]

pub print_ids-total :
    (g : TaskGraph) (path : List (Option ℕ)) (k i n : ℕ)
    → Trail g path k
    → i + n < k
    → (ids : List ℕ) × (print_ids g path i n ≡ some ids)
unfolding print_ids
print_ids-total g path k i zero tr h =
    let (id, e) = tr i (omega arith) in (id ∷ [], rw (e, ◌>>=◌) refl)
print_ids-total g path k i (suc n) tr h =
    let (id, e) = tr i (omega arith) in
    let (ids, e') = print_ids-total g path k (i + 1) n tr (omega arith) in
    (id ∷ ids, rw (e, ◌>>=◌) (rw (e', ◌>>=◌) refl))
