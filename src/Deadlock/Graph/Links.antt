-- ===== src/Deadlock/Graph/Links.antt =====
-- Edges of the wait-for graph as the search follows them, and the graphs it can be run on.
use linux_command.Base.{ℕ, ◌≤◌, ◌<◌, ◌≡◌, ◌⊎◌, some, List, [], ◌∷◌, get_elem?, length}
use linux_command.Deadlock.Graph.{Source, Vertex, TaskGraph, max, search_vertex}

abbrev pub Elem : Source → List Source → Type 0
Elem t [] = ⊥
Elem t (u ∷ us) = (t ≡ u) ⊎ Elem t us

-- The search steps from vertex `i` to vertex `j`.
pub record Edge (g : TaskGraph) (i j : ℕ) : Type 0 where
  pub ver : Vertex
  pub at : get_elem? g.list i ≡ some ver
  pub target : Source
  pub linked : Elem target ver.next
  pub found : search_vertex g target ≡ some (some j)

pub data Walk (g : TaskGraph) : ℕ → ℕ → Type 0 where
  here : {i : ℕ} → Walk g i i
  next : {i j k : ℕ} → Edge g i j → Walk g j k → Walk g i k

-- What an edge leads to is a vertex.
abbrev pub Found : TaskGraph → List Source → Type 0
Found g [] = Unit {0}
Found g (t ∷ ts) = ((j : ℕ) × (search_vertex g t ≡ some (some j))) × Found g ts

pub record IsValid (g : TaskGraph) : Type 0 where
  pub size : length g.list ≡ max
  pub bound : g.num ≤ max
  pub closed : (i : ℕ) (v : Vertex) → i < g.num → get_elem? g.list i ≡ some v → Found g v.next

-- A walk of at least one edge.
abbrev pub Way : TaskGraph → ℕ → ℕ → Type 0
Way g i k = (j : ℕ) × Edge g i j × Walk g j k

abbrev pub OnCycle : TaskGraph → ℕ → Type 0
OnCycle g i = Way g i i

pub Walk-snoc : {g : TaskGraph} {i j k : ℕ} → Walk g i j → Edge g j k → Walk g i k
Walk-snoc here e = next e here
Walk-snoc (next d w) e = next d (Walk-snoc w e)

-- Every thread waits for one other at most.
pub record IsSingle (g : TaskGraph) : Type 0 where
  pub one : (i : ℕ) (v : Vertex) → i < g.num → get_elem? g.list i ≡ some v → length v.next ≤ 1
