-- ===== src/Deadlock/Graph/Grow.antt =====
-- What vertices and edges that are added leave of the wait-for graph.
use linux_command.Base.{
  ℕ, ◌+◌, ◌≤◌, ◌<◌, ◌≡◌, refl, sym, ◌∙◌, true, some, List, [], ◌∷◌, ◌++◌, ==_self, >>=-eq-some,
  some_inj, get_elem?, set, store, store_inside, length, length-set, get_elem?-set_self,
  get_elem?-set_ne, search_table-IsHit, search_table-finds, arith,
}
use native.Mathlib.Decide.{ℕ_discrete}
use linux_command.Deadlock.Graph.{
  Kind, process, resource, same_kind, Source, Vertex, TaskGraph, max, create_vertex, is_vertex,
  search_vertex, append_vertex,
}
use linux_command.Deadlock.Graph.Links.{IsValid, Found}

-- The vertices of `g` stand in `h`, each with its source.
pub record Extends (g h : TaskGraph) : Type 0 where
  pub more : g.num ≤ h.num
  pub inside : h.num ≤ length h.list
  pub same :
      (j : ℕ) (v : Vertex)
      → j < g.num
      → get_elem? g.list j ≡ some v
      → (w : Vertex) × (get_elem? h.list j ≡ some w) × (w.s ≡ v.s)

is_vertex-same :
    (t : Source) (v w : Vertex) → w.s ≡ v.s → is_vertex t v ≡ true → is_vertex t w ≡ true
is_vertex-same t v w e h = rw e h

pub search_vertex-Extends :
    (g h : TaskGraph) (t : Source) {j : ℕ}
    → Extends g h
    → search_vertex g t ≡ some (some j)
    → (k : ℕ) × (search_vertex h t ≡ some (some k))
unfolding search_vertex
search_vertex-Extends g h t {j} x e =
    let hit = search_table-IsHit (is_vertex t) g.list g.num e in
    let (w, at, same) = x.same j hit.entry hit.bound hit.at in
    search_table-finds (is_vertex t) h.list h.num j w x.inside (omega (arith, hit.bound, x.more)) at
      (is_vertex-same t hit.entry w same hit.test)

pub Found-Extends : (g h : TaskGraph) (ts : List Source) → Extends g h → Found g ts → Found h ts
Found-Extends g h [] x f = tt
Found-Extends g h (t ∷ ts) x ((j, e), f) =
    (search_vertex-Extends g h t x e, Found-Extends g h ts x f)

pub Found-append :
    (g : TaskGraph) (ts us : List Source) → Found g ts → Found g us → Found g (ts ++ us)
Found-append g [] us f f' = f'
Found-append g (t ∷ ts) us (e, f) f' = (e, Found-append g ts us f f')

same_kind_self : (k : Kind) → same_kind k k ≡ true
same_kind_self process = refl
same_kind_self resource = refl

is_vertex_self : (t : Source) → is_vertex t (create_vertex t) ≡ true
unfolding create_vertex
is_vertex_self t = rw (same_kind_self t.kind) (==_self t.id)

-- What add_vertex and add_edge keep and reach.
pub record Grows (g h : TaskGraph) : Type 0 where
  pub valid : IsValid h
  pub extends : Extends g h
  pub locks : h.locklist ≡ g.locklist
  pub count : h.lockidx ≡ g.lockidx

-- The vertices of `g` stand in `h` as they were, with their chains.
pub record Keeps (g h : TaskGraph) : Type 0 where
  pub kept :
      (k : ℕ) (v : Vertex) → k < g.num → get_elem? g.list k ≡ some v → get_elem? h.list k ≡ some v

pub Keeps-self : (g : TaskGraph) → Keeps g g
Keeps-self g = record { kept = λ k v lt e. e }

pub Extends-self : (g : TaskGraph) → IsValid g → Extends g g
Extends-self g v = record {
  more = omega arith;
  inside = omega (arith, v.size, v.bound);
  same = λ j w lt e. (w, e, refl);
}

pub append_vertex-Grows :
    (g h : TaskGraph) (t : Source)
    → IsValid g
    → append_vertex g t ≡ some h
    → Grows g h × Keeps g h × ((j : ℕ) × (search_vertex h t ≡ some (some j)))
unfolding append_vertex search_vertex
append_vertex-Grows g h t v e =
    let (list, e₁, e₂) = >>=-eq-some (store g.list g.num (create_vertex t)) _ e in
    let (lt, ls) = store_inside g.list g.num (create_vertex t) e₁ in
    rw (sym (some_inj _ h e₂)) (go list lt ls)
  where
    fresh :
        (list : List Vertex)
        → list ≡ set g.list g.num (create_vertex t)
        → g.num < length g.list
        → (h' : TaskGraph) (i : ℕ) (w : Vertex) → i ≡ g.num
        → get_elem? list i ≡ some w
        → Found h' w.next
    fresh list ls lt h' i w same at =
        let is_new : w ≡ create_vertex t =
          some_inj w (create_vertex t)
            (sym at ∙ rw (same, ls) (get_elem?-set_self g.list g.num (create_vertex t) lt)) in
        rw is_new (unfold create_vertex in tt)

    go :
        (list : List Vertex)
        → g.num < length g.list
        → list ≡ set g.list g.num (create_vertex t)
        → let h = record g { list = list; num = g.num + 1 } in
          Grows g h × Keeps g h × ((j : ℕ) × (search_vertex h t ≡ some (some j)))
    go list lt ls =
        let h' : TaskGraph = record g { list = list; num = g.num + 1 } in
        let size : length list ≡ max = rw ls (length-set g.list g.num (create_vertex t) ∙ v.size) in
        let old : Extends g h' = record {
          more = omega arith;
          inside = omega (arith, size, v.size);
          same = λ j w jlt at. (
            w,
            rw ls (get_elem?-set_ne g.list g.num j (create_vertex t) (omega arith)) ∙ at,
            refl,
          );
        } in
        (
          record {
            valid = record {
              size = size;
              bound = omega (arith, v.size);
              closed = λ i w ilt at. elim (ℕ_discrete i g.num) [
                | yes same ↦ fresh list ls lt h' i w same at
                | no ne ↦ Found-Extends g h' w.next old (
                    v.closed i w (omega arith) (
                      sym (rw ls (get_elem?-set_ne g.list g.num i (create_vertex t) (omega arith)))
                      ∙ at))
              ];
            };
            extends = old;
            locks = refl;
            count = refl;
          },
          record {
            kept = λ k w klt at.
                rw ls (get_elem?-set_ne g.list g.num k (create_vertex t) (omega arith)) ∙ at;
          },
          search_table-finds (is_vertex t) list (g.num + 1) g.num (create_vertex t)
              (omega (arith, size, v.size)) (omega arith)
              (rw ls (get_elem?-set_self g.list g.num (create_vertex t) lt)) (is_vertex_self t),
        )
