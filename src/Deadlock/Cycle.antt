-- ===== src/Deadlock/Cycle.antt =====
-- The search for a cycle of mycode/deadlock/deadlock.c, over the globals `visited`, `path`, `k`
-- and `deadlock`. `none` is an access outside an array, or the end of the fuel.
pub mod Marks
pub mod Trail
pub mod Total
pub mod Check
pub mod Exact
use linux_command.Base.{
  ℕ, zero, suc, ◌+◌, ◌-◌, Option, none, some, List, [], ◌∷◌, ◌++◌, map, ◌==◌, if◌then◌else◌, ◌>>=◌,
  get_elem?, store,
}
use linux_command.Deadlock.Graph.{TaskGraph, Source, search_vertex}

-- The globals of the search. An entry -1 of `path` is `none`; `printed` holds the ids of each
-- cycle that print_deadlock wrote.
pub record Search : Type 0 where
  pub visited : List ℕ
  pub path : List (Option ℕ)
  pub k : ℕ
  pub deadlock : ℕ
  pub printed : List (List ℕ)

-- tg->list[path[i]].s.id
pub path_id : TaskGraph → List (Option ℕ) → ℕ → Option ℕ
path_id g path i = do entry ← get_elem? path i; j ← entry; v ← get_elem? g.list j; some v.s.id

-- `n` rounds of the loop, and the entry after it.
pub print_ids : TaskGraph → List (Option ℕ) → ℕ → ℕ → Option (List ℕ)
unfolding path_id
print_ids g path i zero = do id ← path_id g path i; some (id ∷ [])
print_ids g path i (suc n) = do
  id ← path_id g path i
  rest ← print_ids g path (i + 1) n
  some (id ∷ rest)

pub print_deadlock : TaskGraph → Search → Option (List ℕ)
unfolding print_ids
print_deadlock g s = print_ids g s.path 0 (s.k - 1)

-- path[k++] = idx
push_path : ℕ → Search → Option Search
push_path idx s = do
  path ← store s.path s.k (some idx)
  some (record s { path = path; k = s.k + 1 })

-- The branch of a vertex that was visited before.
pub close_cycle : TaskGraph → ℕ → Search → Option Search
close_cycle g idx s = do
  s₁ ← push_path idx s
  cycle ← print_deadlock g s₁
  some (record s₁ { deadlock = 1; printed = s₁.printed ++ cycle ∷ [] })

pub enter : ℕ → Search → Option Search
enter idx s = do visited ← store s.visited idx 1; push_path idx (record s { visited = visited })

-- `while (ver->next != NULL) { DFS(search_vertex(ver->next->s)); k--; ver = ver->next; }`.
-- DFS leaves `k` one higher, so the decrement does not go below 0.
pub dfs_edges : (ℕ → Search → Option Search) → TaskGraph → List Source → Search → Option Search
dfs_edges visit g [] s = some s
dfs_edges visit g (t ∷ ts) s = do
  found ← search_vertex g t
  i ← found
  s₁ ← visit i s
  dfs_edges visit g ts (record s₁ { k = s₁.k - 1 })

pub dfs : ℕ → TaskGraph → ℕ → Search → Option Search
dfs zero g idx s = none
dfs (suc fuel) g idx s = do
  ver ← get_elem? g.list idx
  mark ← get_elem? s.visited idx
  if mark == 1
      then close_cycle g idx s
      else (do s₁ ← enter idx s; dfs_edges (dfs fuel g) g ver.next s₁)

-- visited[i] = 0 for `n` entries from `i` on, but for `idx`.
pub reset_visited : ℕ → ℕ → ℕ → List ℕ → Option (List ℕ)
reset_visited zero i idx ms = some ms
reset_visited (suc n) i idx [] = none
reset_visited (suc n) i idx (m ∷ ms) = do
  rest ← reset_visited n (i + 1) idx ms
  some ((if i == idx then m else 0) ∷ rest)

-- path[i] = -1 for i from 1 to MAX, which is all but the first of its MAX + 1 entries.
pub clear_path : List (Option ℕ) → List (Option ℕ)
clear_path [] = []
clear_path (p ∷ ps) = p ∷ map (λ _. none) ps

-- The loop over the edges of the start vertex.
pub search_edges : ℕ → TaskGraph → ℕ → List Source → Search → Option Search
search_edges fuel g idx [] s = some s
search_edges fuel g idx (t ∷ ts) s = do
  visited ← reset_visited g.num 0 idx s.visited
  found ← search_vertex g t
  i ← found
  s₁ ← dfs fuel g i (record s { visited = visited; path = clear_path s.path; k = 1 })
  search_edges fuel g idx ts s₁

pub search_for_cycle : ℕ → TaskGraph → ℕ → Search → Option Search
search_for_cycle fuel g idx s = do
  ver ← get_elem? g.list idx
  s₁ ← enter idx (record s { k = 0 })
  search_edges fuel g idx ver.next s₁

-- `n` rounds of the loop from `i` on, with its break.
pub check_from : ℕ → TaskGraph → ℕ → ℕ → Search → Option Search
check_from fuel g i zero s = some s
check_from fuel g i (suc n) s =
    if s.deadlock == 1
    then some s
    else (do s₁ ← search_for_cycle fuel g i s; check_from fuel g (i + 1) n s₁)

-- A search goes through at most `num` vertices, one for each unit of fuel, and sees one twice.
pub check_dead_lock : TaskGraph → Search → Option Search
check_dead_lock g s = check_from (g.num + 1) g 0 g.num (record s { deadlock = 0 })

-- check_dead_lock of deadlock-default.c: it goes on behind a cycle, and never sets `deadlock` back.
pub check_all_from : ℕ → TaskGraph → ℕ → ℕ → Search → Option Search
check_all_from fuel g i zero s = some s
check_all_from fuel g i (suc n) s = do
  s₁ ← search_for_cycle fuel g i s
  check_all_from fuel g (i + 1) n s₁

pub check_all : TaskGraph → Search → Option Search
check_all g s = check_all_from (g.num + 1) g 0 g.num s
