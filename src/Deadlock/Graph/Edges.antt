-- ===== src/Deadlock/Graph/Edges.antt =====
-- add_edge of mycode/deadlock/deadlock.c, and the edges that the search follows.
use linux_command.Base.{
  ℕ, ◌+◌, ◌≤◌, ◌<◌, ◌≡◌, ◌≢◌, true, false, ◌==◌, ==_self, if◌then◌else◌, append-nil, refl, sym, ◌∙◌,
  ap, inl, inr, Option, none, some, List, [], ◌∷◌, ◌++◌, ◌>>=◌, some_inj, get_elem?, set,
  store-eq-set, length-set, get_elem?-set_self, get_elem?-set_ne, get_elem?-total,
  search_table-total, search_table-IsHit, arith,
}
use native.Mathlib.Decide.{ℕ_discrete}
use linux_command.Deadlock.Graph.{
  Source, Vertex, TaskGraph, max, create_vertex, is_vertex, search_vertex, append_vertex,
  add_vertex, append_edge, add_edge,
}
use linux_command.Deadlock.Graph.Links.{IsValid, Elem, Edge}
use linux_command.Deadlock.Graph.Grow.{
  Extends, Extends-self, Grows, Keeps, Keeps-self, Found-Extends, Found-append, append_vertex-Grows,
  search_vertex-Extends,
}

abbrev IsFound : TaskGraph → Source → Type 0
IsFound g t = (j : ℕ) × (search_vertex g t ≡ some (some j))

-- add_vertex returns where one more vertex fits.
add_vertex-Grows :
    (g : TaskGraph) (t : Source)
    → IsValid g
    → g.num < max
    → (h : TaskGraph) × (add_vertex g t ≡ some h)
      × Grows g h
      × Keeps g h
      × IsFound h t
      × (h.num ≤ g.num + 1)
unfolding add_vertex search_vertex
add_vertex-Grows g t v room =
    go (search_table-total _ g.list g.num (omega (arith, v.size, v.bound)))
  where
    appended :
        (h : TaskGraph) (found : Option (Option ℕ))
        → search_vertex g t ≡ found
        → found ≡ some none
        → h ≡ record g { list = set g.list g.num (create_vertex t); num = g.num + 1 }
        → (h : TaskGraph) × (add_vertex g t ≡ some h)
          × Grows g h
          × Keeps g h
          × IsFound h t
          × (h.num ≤ g.num + 1)
    appended h found e none_found he =
        let fits = store-eq-set g.list g.num (create_vertex t) (omega (arith, v.size)) in
        let step : append_vertex g t ≡ some h =
          unfold append_vertex in rw (fits, ◌>>=◌) (rw he refl) in
        let (gr, ke, fd) = append_vertex-Grows g h t v step in
        (h, rw (e ∙ none_found, ◌>>=◌) step, gr, ke, fd, rw he (omega arith))

    go :
        (r : Option ℕ) × (search_vertex g t ≡ some r)
        → (h : TaskGraph) × (add_vertex g t ≡ some h)
          × Grows g h
          × Keeps g h
          × IsFound h t
          × (h.num ≤ g.num + 1)
    go (none, e) = appended _ (some none) e refl refl
    go (some i, e) = (
      g,
      rw (e, ◌>>=◌) refl,
      record { valid = v; extends = Extends-self g v; locks = refl; count = refl },
      Keeps-self g,
      (i, e),
      omega arith,
    )

-- The graph with `to` at the end of the chain of vertex `i`.
linked : TaskGraph → ℕ → Vertex → Source → TaskGraph
linked g i w to = record g { list = set g.list i (record w { next = w.next ++ to ∷ [] }) }

linked_locks :
    (g : TaskGraph) (i : ℕ) (w : Vertex) (to : Source) → (linked g i w to).locklist ≡ g.locklist
unfolding linked
linked_locks g i w to = refl

linked_count :
    (g : TaskGraph) (i : ℕ) (w : Vertex) (to : Source) → (linked g i w to).lockidx ≡ g.lockidx
unfolding linked
linked_count g i w to = refl

linked_num :
    (g : TaskGraph) (i : ℕ) (w : Vertex) (to : Source) → i < g.num → i < (linked g i w to).num
unfolding linked
linked_num g i w to lt = lt

found_bound : (g : TaskGraph) (t : Source) (j : ℕ) → search_vertex g t ≡ some (some j) → j < g.num
unfolding search_vertex
found_bound g t j e = (search_table-IsHit _ g.list g.num e).bound

found_test :
    (g : TaskGraph) (t : Source) (j : ℕ) (w : Vertex)
    → search_vertex g t ≡ some (some j)
    → get_elem? g.list j ≡ some w
    → is_vertex t w ≡ true
unfolding search_vertex
found_test g t j w e at =
    let hit = search_table-IsHit (is_vertex t) g.list g.num e in
    rw (some_inj w hit.entry (sym at ∙ hit.at)) hit.test

Extends-trans : (g h k : TaskGraph) → Extends g h → Extends h k → Extends g k
Extends-trans g h k x y = record {
  more = omega (arith, x.more, y.more);
  inside = y.inside;
  same = λ j v lt e.
      let (w, at, s) = x.same j v lt e in
      let (u, at', s') = y.same j w (omega (arith, x.more)) at in (u, at', s' ∙ s);
}

==_ne : (a b : ℕ) → a ≢ b → (a == b) ≡ false
==_ne a b ne = ground arith

-- In `h` the vertices of `g` have the chains that they had, vertex `i` with `to` behind its own.
pub record Lengthens (g h : TaskGraph) (i : ℕ) (to : Source) : Type 0 where
  pub chains :
      (k : ℕ) (v : Vertex)
      → k < g.num
      → get_elem? g.list k ≡ some v
      → get_elem? h.list k ≡ some (record v { next = v.next ++ (if k == i then to ∷ [] else []) })

module _ (g : TaskGraph) (v : IsValid g) (i : ℕ) (w : Vertex) (to : Source) (lt : i < g.num)
    (at : get_elem? g.list i ≡ some w) where
  linked-Extends : Extends g (linked g i w to)
  unfolding linked
  linked-Extends = record {
    more = omega arith;
    inside =
        omega (arith, length-set g.list i (record w { next = w.next ++ to ∷ [] }), v.size, v.bound);
    same = λ j x jlt e. elim (ℕ_discrete i j) [
      | yes same ↦ (
        record w { next = w.next ++ to ∷ [] },
        rw (← same) (get_elem?-set_self g.list i _ (omega (arith, v.size, v.bound))),
        ap (λ (y : Vertex). y.s) (some_inj w x (sym at ∙ rw same e)),
      )
      | no ne ↦ (x, get_elem?-set_ne g.list i j _ ne ∙ e, refl)
    ];
  }

  linked-Lengthens : Lengthens g (linked g i w to) i to
  unfolding linked
  linked-Lengthens = record {
    chains = λ k x klt e. elim (ℕ_discrete i k) [
      | yes same ↦
          rw (← same, ==_self i, ← some_inj w x (sym at ∙ rw same e))
            (get_elem?-set_self g.list i _ (omega (arith, v.size, v.bound)))
      | no ne ↦
          rw (==_ne k i (λ e'. ne (sym e')), append-nil x.next)
            (get_elem?-set_ne g.list i k _ ne ∙ e)
    ];
  }

  linked-IsValid : IsFound g to → IsValid (linked g i w to)
  unfolding linked
  linked-IsValid fd = record {
    size = length-set g.list i _ ∙ v.size;
    bound = v.bound;
    closed = λ j x jlt e. elim (ℕ_discrete i j) [
      | yes same ↦
          let new : record w { next = w.next ++ to ∷ [] } ≡ x = some_inj _ x (
            sym (get_elem?-set_self g.list i _ (omega (arith, v.size, v.bound)))
            ∙ (rw (← same) at e)) in
          rw (← new) (
            Found-Extends g (linked g i w to) (w.next ++ to ∷ []) linked-Extends
              (Found-append g w.next (to ∷ []) (v.closed i w lt at) (fd, tt)))
      | no ne ↦
          Found-Extends g (linked g i w to) x.next linked-Extends
            (v.closed j x jlt (sym (get_elem?-set_ne g.list i j _ ne) ∙ e))
    ];
  }

  append_edge-linked : append_edge g i to ≡ some (linked g i w to)
  unfolding append_edge linked
  append_edge-linked =
      rw (at, ◌>>=◌) (rw (store-eq-set g.list i _ (omega (arith, v.size, v.bound)), ◌>>=◌) refl)

  linked-Edge :
      (j k : ℕ)
      → search_vertex g to ≡ some (some j)
      → search_vertex (linked g i w to) to ≡ some (some k)
      → Edge (linked g i w to) i k
  unfolding linked
  linked-Edge j k e e' = record {
    ver = record w { next = w.next ++ to ∷ [] };
    at = get_elem?-set_self g.list i _ (omega (arith, v.size, v.bound));
    target = to;
    linked = Elem-last w.next;
    found = e';
  }
    where
      Elem-last : (ts : List Source) → Elem to (ts ++ to ∷ [])
      Elem-last [] = inl refl
      Elem-last (t ∷ ts) = inr (Elem-last ts)

-- On a valid graph with room for two more vertices, add_edge returns a valid graph in which the
-- search steps from a vertex with the kind and id of `from` to the one that a lookup of `to` finds.
-- All the old vertices are in it, the chain of that vertex with the target `to` behind the targets
-- that it had, and each other chain as it was; the lock table is as it was.
pub add_edge_links :
    (g : TaskGraph) (from to : Source)
    → IsValid g
    → g.num + 2 ≤ max
    → (h : TaskGraph) × (i : ℕ) × (j : ℕ) × (add_edge g from to ≡ some h)
      × Grows g h
      × (search_vertex h to ≡ some (some j))
      × (i < h.num)
      × ((ed : Edge h i j) × (is_vertex from ed.ver ≡ true))
      × Lengthens g h i to
unfolding add_edge linked-Edge
add_edge_links g from to v room =
    let (g₁, e₁, gr₁, k₁, (i₁, f₁), n₁) = add_vertex-Grows g from v (omega arith) in
    let (g₂, e₂, gr₂, k₂, (j₂, f₂), n₂) = add_vertex-Grows g₁ to gr₁.valid (omega arith) in
    let (i, fi) = search_vertex-Extends g₁ g₂ from gr₂.extends f₁ in
    let lt = found_bound g₂ from i fi in
    let (w, at) = get_elem?-total g₂.list i (omega (arith, gr₂.valid.size, gr₂.valid.bound)) in
    let ext = linked-Extends g₂ gr₂.valid i w to lt at in
    let (j, fj) = search_vertex-Extends g₂ (linked g₂ i w to) to ext f₂ in
    (
      linked g₂ i w to,
      i,
      j,
      rw (e₁, ◌>>=◌)
          (rw (e₂, ◌>>=◌) (rw (fi, ◌>>=◌) (append_edge-linked g₂ gr₂.valid i w to lt at))),
      record {
        valid = linked-IsValid g₂ gr₂.valid i w to lt at (j₂, f₂);
        extends =
            Extends-trans g g₁ (linked g₂ i w to) gr₁.extends
              (Extends-trans g₁ g₂ _ gr₂.extends ext);
        locks = linked_locks g₂ i w to ∙ gr₂.locks ∙ gr₁.locks;
        count = linked_count g₂ i w to ∙ gr₂.count ∙ gr₁.count;
      },
      fj,
      linked_num g₂ i w to lt,
      (linked-Edge g₂ gr₂.valid i w to lt at j₂ j f₂ fj, found_test g₂ from i w fi at),
      record {
        chains = λ k x klt e.
            (linked-Lengthens g₂ gr₂.valid i w to lt at).chains k x
              (omega (arith, gr₁.extends.more, gr₂.extends.more))
              (k₂.kept k x (omega (arith, gr₁.extends.more)) (k₁.kept k x klt e));
      },
    )
