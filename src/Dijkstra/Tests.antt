-- ===== src/Dijkstra/Tests.antt =====
-- Dijkstra on the graph of its main.
use linux_command.Base.{
  ℕ, zero, suc, ◌≡◌, ◌≤◌, ◌<◌, ◌⊎◌, sym, ◌∙◌, ap, refl, Option, none, some, List, [], ◌∷◌,
  get_elem?, some_inj, arith,
}
use linux_command.Dijkstra.{
  Edge, Graph, Search, int_max, push_entry, entry_lt, lower, relax_by, relax, relax_edges,
  search_loop, dijkstra,
}
use linux_command.Dijkstra.Walks.{Walk, value}
use linux_command.Dijkstra.Sound.{Overflows}
use linux_command.Dijkstra.Loop.{IsValid}
use linux_command.Dijkstra.Shortest.{dijkstra_shortest}

abbrev edge : ℕ → ℕ → Edge
edge v w = record { target = v; weight = w }

-- The graph of main, from node 1 on.
abbrev graph_of_main : Graph
graph_of_main =
    []
    ∷ (edge 2 2 ∷ edge 4 1 ∷ [])
    ∷ (edge 4 3 ∷ edge 5 10 ∷ [])
    ∷ (edge 1 4 ∷ edge 6 5 ∷ [])
    ∷ (edge 3 2 ∷ edge 5 2 ∷ edge 6 8 ∷ edge 7 4 ∷ [])
    ∷ (edge 7 6 ∷ [])
    ∷ []
    ∷ (edge 6 1 ∷ [])
    ∷ []

dist_of : Option (Option Search) → List ℕ
dist_of none = []
dist_of (some none) = []
dist_of (some (some s)) = s.dist

dist_of_main : dist_of (dijkstra graph_of_main 1) ≡ int_max ∷ 0 ∷ 2 ∷ 3 ∷ 1 ∷ 3 ∷ 6 ∷ 5 ∷ []
unfolding dist_of dijkstra search_loop relax_edges relax relax_by lower push_entry entry_lt
dist_of_main = refl

-- A graph of two nodes with an edge each way.
abbrev two_nodes : Graph
two_nodes = (edge 1 5 ∷ []) ∷ (edge 0 7 ∷ []) ∷ []

-- The one edge of a row.
only_edge :
    (x e : Edge) (row : List Edge) (k : ℕ)
    → some (x ∷ []) ≡ some row
    → get_elem? row k ≡ some e
    → x.target < 2
    → e.target < 2
only_edge x e row zero row_at edge_at lt =
    let first : get_elem? (x ∷ []) 0 ≡ some e =
      ap (λ r. get_elem? r 0) (some_inj (x ∷ []) row row_at) ∙ edge_at in
    rw (sym (some_inj x e first)) lt
only_edge x e row (suc k) row_at edge_at lt =
    let no_more : get_elem? (x ∷ []) (suc k) ≡ some e =
      ap (λ r. get_elem? r (suc k)) (some_inj (x ∷ []) row row_at) ∙ edge_at in
    absurd (cc no_more)

two_nodes-IsValid : IsValid two_nodes
two_nodes-IsValid zero e (row, k, row_at, edge_at) =
    only_edge (edge 1 5) e row k row_at edge_at (omega arith)
two_nodes-IsValid (suc zero) e (row, k, row_at, edge_at) =
    only_edge (edge 0 7) e row k row_at edge_at (omega arith)
two_nodes-IsValid (suc (suc u)) e (row, k, row_at, edge_at) = absurd (cc row_at)

dijkstra_shortest_example :
    ((dijkstra two_nodes 0 ≡ some none) × Overflows two_nodes 0)
    ⊎ ((s : Search) × (dijkstra two_nodes 0 ≡ some (some s))
        × ((k : ℕ) → value s.dist k < int_max → Walk two_nodes 0 k (value s.dist k))
        × ((k d : ℕ) → Walk two_nodes 0 k d → value s.dist k ≤ d))
dijkstra_shortest_example = dijkstra_shortest two_nodes 0 two_nodes-IsValid (omega arith)
