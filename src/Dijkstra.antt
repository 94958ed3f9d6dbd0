-- ===== src/Dijkstra.antt =====
-- mycode/algorithm/Dijkstra.cpp, for weights that are not negative. The outer `none` is an access
-- outside an array or the end of the fuel; `some none` is a sum above INT32_MAX, which overflows an int.
-- The priority queue is a list in the order of its pairs.
pub mod Walks
pub mod Sound
pub mod Lower
pub mod Relax
pub mod Loop
pub mod Shortest
mod Tests
use linux_command.Base.{
  ℕ, zero, suc, ◌+◌, ◌*◌, Bool, true, false, ◌&&◌, ◌||◌, Option, none, some, List, [], ◌∷◌, ◌==◌,
  if◌then◌else◌, ◌>>=◌, ltb, get_elem?, store, length, replicate,
}

abbrev pub int_max : ℕ
int_max = 2147483647

-- A pair of the adjacency list: the neighbour and the weight.
pub record Edge : Type 0 where
  pub target : ℕ
  pub weight : ℕ

abbrev pub Graph : Type 0
Graph = List (List Edge)

-- A pair of the heap.
pub record Entry : Type 0 where
  pub cur_dist : ℕ
  pub node : ℕ

pub record Search : Type 0 where
  pub dist : List ℕ
  pub pre : List (Option ℕ)
  pub min_heap : List Entry

entry_lt : Entry → Entry → Bool
entry_lt a b = ltb a.cur_dist b.cur_dist || (a.cur_dist == b.cur_dist && ltb a.node b.node)

pub push_entry : Entry → List Entry → List Entry
push_entry e [] = e ∷ []
push_entry e (x ∷ xs) = let rest = push_entry e xs in if entry_lt e x then e ∷ x ∷ xs else x ∷ rest

-- `d` for the neighbour `v`, reached from `u`.
pub lower : ℕ → ℕ → ℕ → Search → Option (Option Search)
lower u v d s = do
  dist' ← store s.dist v d
  pre' ← store s.pre v (some u)
  some (
      some (record {
        dist = dist';
        pre = pre';
        min_heap = push_entry (record { cur_dist = d; node = v }) s.min_heap;
      }))

-- The test of the loop over the neighbours of `u`, and what stands under it.
pub relax_by : ℕ → Edge → ℕ → ℕ → Search → Option (Option Search)
relax_by u e du dv s =
    if ltb int_max (du + e.weight)
    then some none
    else if ltb (du + e.weight) dv
    then lower u e.target (du + e.weight) s
    else some (some s)

pub relax : ℕ → Edge → Search → Option (Option Search)
relax u e s = do du ← get_elem? s.dist u; dv ← get_elem? s.dist e.target; relax_by u e du dv s

pub relax_edges : ℕ → List Edge → Search → Option (Option Search)
relax_edges u [] s = some (some s)
relax_edges u (e ∷ es) s = do
  r ← relax u e s
  elim r [ none ↦ some none | some s' ↦ relax_edges u es s' ]

-- The loop over the heap, a round for each unit of fuel.
pub search_loop : ℕ → Graph → Search → Option (Option Search)
search_loop zero graph s = none
search_loop (suc fuel) graph s = elim (s.min_heap) [
  | [] ↦ some (some s)
  | e ∷ rest ↦ do
    du ← get_elem? s.dist e.node
    elim (ltb du e.cur_dist) [
      | true ↦ search_loop fuel graph (record s { min_heap = rest })
      | false ↦ do
        row ← get_elem? graph e.node
        r ← relax_edges e.node row (record s { min_heap = rest })
        elim r [ none ↦ some none | some s' ↦ search_loop fuel graph s' ]
    ]
]

-- Each push lowers an entry of dist, so the rounds are at most twice the sum of these and one more.
pub dijkstra : Graph → ℕ → Option (Option Search)
dijkstra graph start = do
  dist ← store (replicate (length graph) int_max) start 0
  search_loop (2 * (length graph * int_max) + 2) graph (record {
    dist = dist;
    pre = replicate (length graph) none;
    min_heap = record { cur_dist = 0; node = start } ∷ [];
  })
