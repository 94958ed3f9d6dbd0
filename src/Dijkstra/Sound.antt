-- ===== src/Dijkstra/Sound.antt =====
-- What holds of a search at every moment, and of the change from one moment to a later one.
use linux_command.Base.{ℕ, ◌+◌, ◌*◌, ◌≤◌, ◌<◌, ◌≡◌, ◌⊎◌, Option, none, some, List, length, arith}
use native.Mathlib.Decide.{dec_lt}
use mathlib.Core.Path.{subst}
use linux_command.Dijkstra.{int_max, Edge, Graph, Entry, Search}
use linux_command.Dijkstra.Walks.{HasEdge, Walk, value, In, sum}

-- The entry of the heap that the value of a node belongs to.
abbrev pub entry : List ℕ → ℕ → Entry
entry dist k = record { cur_dist = value dist k; node = k }

module _ (graph : Graph) (start : ℕ) where
  pub record Sound (s : Search) : Type 0 where
    pub sized : length s.dist ≡ length graph
    pub pre_sized : length s.pre ≡ length graph
    pub capped : (k : ℕ) → value s.dist k ≤ int_max
    pub walks : (k : ℕ) → value s.dist k < int_max → Walk graph start k (value s.dist k)
    pub entries :
        (y : Entry)
        → In y s.min_heap
        → (y.node < length graph) × (value s.dist y.node ≤ y.cur_dist) × (y.cur_dist < int_max)

  -- A walk and an edge behind it whose weights do not fit in an int.
  pub record Overflows : Type 0 where
    pub from : ℕ
    pub weight : ℕ
    pub walk : Walk graph start from weight
    pub edge : Edge
    pub has_edge : HasEdge graph from edge
    pub too_far : int_max < weight + edge.weight

-- From `s` to `s'` values only fall, and each that fell has its entry in the heap.
pub record Improves (s s' : Search) : Type 0 where
  pub lowers : (k : ℕ) → value s'.dist k ≤ value s.dist k
  pub noted : (k : ℕ) → value s'.dist k < value s.dist k → In (entry s'.dist k) s'.min_heap
  pub kept : (y : Entry) → In y s.min_heap → In y s'.min_heap
  pub cost : 2 * sum s'.dist + length s'.min_heap ≤ 2 * sum s.dist + length s.min_heap

pub Improves-refl : (s : Search) → Improves s s
Improves-refl s = record {
  lowers = λ k. omega arith;
  noted = λ k lt. absurd (omega arith);
  kept = λ y i. i;
  cost = omega arith;
}

pub Improves-trans : (s t u : Search) → Improves s t → Improves t u → Improves s u
Improves-trans s t u p q = record {
  lowers = λ k. omega (arith, p.lowers k, q.lowers k);
  noted = λ k lt. elim (dec_lt (value u.dist k) (value t.dist k)) [
    | yes now ↦ q.noted k now
    | no before ↦
        let same : value t.dist k ≡ value u.dist k = omega (arith, q.lowers k) in
        q.kept (entry u.dist k) (
          subst (λ d. In (record { cur_dist = d; node = k }) t.min_heap) same
            (p.noted k (omega arith)))
  ];
  kept = λ y i. q.kept y (p.kept y i);
  cost = omega (arith, p.cost, q.cost);
}

module _ (graph : Graph) (start : ℕ) where
  abbrev pub Outcome : Option (Option Search) → Search → (Search → Type 0) → Type 0
  Outcome r s Post =
      ((r ≡ some none) × Overflows graph start)
      ⊎ ((s' : Search) × (r ≡ some (some s')) × Sound graph start s' × Improves s s' × Post s')
