-- ===== src/Deadlock/Graph.antt =====
-- The wait-for graph of mycode/deadlock/deadlock.c (the same code stands in deadlock-default.c).
-- `none` is an access outside an array. The list of a vertex is the chain that hangs on its
-- `next`: each node comes fresh from create_vertex and hangs on one vertex, so nothing is shared.
pub mod Links
pub mod Grow
pub mod Edges
use linux_command.Base.{
  ℕ, ◌+◌, Bool, true, false, ◌&&◌, Option, none, some, List, [], ◌∷◌, ◌++◌, ◌==◌, if◌then◌else◌,
  ◌>>=◌, get_elem?, store, search_table,
}
use linux_command.Base.Int.{ℤ, pos}

-- enum Type
pub data Kind : Type 0 where
  process resource : Kind

abbrev pub same_kind : Kind → Kind → Bool
same_kind process process = true
same_kind resource resource = true
same_kind _ _ = false

-- struct source_type
pub record Source : Type 0 where
  pub id : ℕ
  pub kind : Kind
  pub lock_id : ℕ
  pub degress : ℤ

-- struct vertex: what the array entry holds, and what its chain holds.
pub record Vertex : Type 0 where
  pub s : Source
  pub next : List Source

-- struct task_graph, less the mutex that no function uses.
pub record TaskGraph : Type 0 where
  pub list : List Vertex
  pub num : ℕ
  pub locklist : List Source
  pub lockidx : ℕ

abbrev pub max : ℕ
max = 100

-- The local `from` and `to` of the hooks. They set two fields; the two that they leave alone
-- are read from no vertex.
abbrev pub process_node : ℕ → Source
process_node tid = record { id = tid; kind = process; lock_id = 0; degress = pos 0 }

unfoldable pub create_vertex : Source → Vertex
create_vertex t = record { s = t; next = [] }

abbrev pub is_vertex : Source → Vertex → Bool
is_vertex t v = same_kind v.s.kind t.kind && v.s.id == t.id

unfoldable pub search_vertex : TaskGraph → Source → Option (Option ℕ)
search_vertex g t = search_table (is_vertex t) g.list g.num

unfoldable pub append_vertex : TaskGraph → Source → Option TaskGraph
unfolding create_vertex
append_vertex g t = do
  list ← store g.list g.num (create_vertex t)
  some (record g { list = list; num = g.num + 1 })

unfoldable pub add_vertex : TaskGraph → Source → Option TaskGraph
unfolding append_vertex
add_vertex g t = do
  found ← search_vertex g t
  elim found [ none ↦ append_vertex g t | some i ↦ some g ]

-- `while (v->next != NULL) v = v->next; v->next = create_vertex(to);`
unfoldable pub append_edge : TaskGraph → ℕ → Source → Option TaskGraph
append_edge g i to = do
  v ← get_elem? g.list i
  list ← store g.list i (record v { next = v.next ++ to ∷ [] })
  some (record g { list = list })

unfoldable pub add_edge : TaskGraph → Source → Source → Option TaskGraph
add_edge g from to = do
  g₁ ← add_vertex g from
  g₂ ← add_vertex g₁ to
  found ← search_vertex g₂ from
  i ← found
  append_edge g₂ i to

pub has_id : ℕ → List Source → Bool
has_id n [] = false
has_id n (t ∷ ts) = if t.id == n then true else has_id n ts

-- The walk starts at the array entry itself, so a vertex always has an "edge" to its own id.
verify_from : TaskGraph → Option ℕ → Source → Option Bool
verify_from g none j = some false
verify_from g (some idx) j = do v ← get_elem? g.list idx; some (has_id j.id (v.s ∷ v.next))

pub verify_edge : TaskGraph → Source → Source → Option Bool
unfolding verify_from
verify_edge g i j =
    if g.num == 0 then some false else do found ← search_vertex g i; verify_from g found j

pub remove_first : ℕ → List Source → List Source
remove_first n [] = []
remove_first n (t ∷ ts) = if t.id == n then ts else t ∷ remove_first n ts

unlink : TaskGraph → ℕ → ℕ → Option TaskGraph
unlink g i n = do
  v ← get_elem? g.list i
  list ← store g.list i (record v { next = remove_first n v.next })
  some (record g { list = list })

remove_found : TaskGraph → Option ℕ → Option ℕ → ℕ → Option TaskGraph
remove_found g (some i) (some j) n = unlink g i n
remove_found g _ _ n = some g

pub remove_edge : TaskGraph → Source → Source → Option TaskGraph
unfolding remove_found unlink
remove_edge g from to = do
  i ← search_vertex g from
  j ← search_vertex g to
  remove_found g i j to.id
