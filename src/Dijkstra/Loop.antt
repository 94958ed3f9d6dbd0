-- ===== src/Dijkstra/Loop.antt =====
-- The loop over the heap.
use linux_command.Base.{
  ℕ, zero, suc, ◌+◌, ◌*◌, ◌≤◌, ◌<◌, ◌≡◌, ◌⊎◌, refl, sym, ◌∙◌, ap, inl, inr, Option, none, some,
  List, [], ◌∷◌, get_elem?, get_elem?-total, some_inj, length, Bool-cases, true, false, ltb, ◌>>=◌,
  arith,
}
use native.Mathlib.Decide.{dec_lt, ℕ_discrete}
use mathlib.Core.Path.{subst}
use linux_command.Dijkstra.{int_max, Edge, Graph, Entry, Search, relax_edges, search_loop}
use linux_command.Dijkstra.Walks.{HasEdge, value, In, sum, get_elem?-value}
use linux_command.Dijkstra.Sound.{entry, Sound, Overflows, Improves}
use linux_command.Dijkstra.Relax.{Near, relax_edges-Outcome}

abbrev pub IsValid : Graph → Type 0
IsValid graph = (u : ℕ) (e : Edge) → HasEdge graph u e → e.target < length graph

module _ (graph : Graph) (start : ℕ) where
  -- No edge from `u` leads on a shorter way.
  abbrev pub Settled : List ℕ → ℕ → Type 0
  Settled dist u = (e : Edge) → HasEdge graph u e → value dist e.target ≤ value dist u + e.weight

  abbrev pub Open : Search → Type 0
  Open s = (u : ℕ) → value s.dist u < int_max → In (entry s.dist u) s.min_heap ⊎ Settled s.dist u

  abbrev rest_of : Search → List Entry → Search
  rest_of s rest = record s { min_heap = rest }

  module _ (s : Search) (e : Entry) (rest : List Entry) (heap : s.min_heap ≡ e ∷ rest)
      (sound : Sound graph start s) (open_s : Open s) where
    In-min_heap : (y : Entry) → In y (e ∷ rest) → In y s.min_heap
    In-min_heap y i = subst (In y) (sym heap) i

    rest-Sound : Sound graph start (rest_of s rest)
    rest-Sound = record {
      sized = sound.sized;
      pre_sized = sound.pre_sized;
      capped = sound.capped;
      walks = sound.walks;
      entries = λ y i. sound.entries y (In-min_heap y (inr i));
    }

    -- Whatever is open but for the node of the entry that is taken out.
    rest-Open :
        (u : ℕ)
        → value s.dist u < int_max
        → ((e ≡ entry s.dist u) → ⊥)
        → In (entry s.dist u) rest ⊎ Settled s.dist u
    rest-Open u lt other = elim (open_s u lt) [
      | inr done ↦ inr done
      | inl i ↦
          let i' : In (entry s.dist u) (e ∷ rest) = subst (In (entry s.dist u)) heap i in
          elim i' [ inl same ↦ absurd (other (sym same)) | inr more ↦ inl more ]
    ]

    -- An entry that is out of date.
    stale-Open : value s.dist e.node < e.cur_dist → Open (rest_of s rest)
    stale-Open old u lt = rest-Open u lt (λ same. differs u same)
      where
        differs : (k : ℕ) → e ≡ entry s.dist k → ⊥
        differs k same =
            let node : e.node ≡ k = ap (λ x. x.node) same in
            let far : e.cur_dist ≡ value s.dist k = ap (λ x. x.cur_dist) same in
            omega (arith, ap (value s.dist) node)

    fresh-Open :
        (row : List Edge) (s' : Search)
        → get_elem? graph e.node ≡ some row
        → Improves (rest_of s rest) s'
        → Near graph start e.node row (rest_of s rest) s'
        → Open s'
    fresh-Open row s' at better near u lt = elim (dec_lt (value s'.dist u) (value s.dist u)) [
      | yes fell ↦ inl (better.noted u fell)
      | no stayed ↦ elim (ℕ_discrete u e.node) [
        | yes here' ↦ inr (λ x has. relaxed u x here' has)
        | no ne ↦
            let same : value s.dist u ≡ value s'.dist u = omega (arith, better.lowers u) in
            elim (rest-Open u (omega arith) (λ eq. ne (sym (ap (λ x. x.node) eq)))) [
              | inl i ↦ inl (
                  better.kept (entry s'.dist u)
                    (subst (λ d. In (record { cur_dist = d; node = u }) rest) same i))
              | inr done ↦ inr (λ x has. omega (arith, done x has, better.lowers x.target))
            ]
      ]
    ]
      where
        relaxed :
            (k : ℕ) (x : Edge)
            → k ≡ e.node
            → HasEdge graph k x
            → value s'.dist x.target ≤ value s'.dist k + x.weight
        relaxed k x same (row', j, row_at, edge_at) =
            let one : row' ≡ row =
              some_inj row' row (sym row_at ∙ ap (get_elem? graph) same ∙ at) in
            let edge_of : get_elem? row j ≡ some x =
              subst (λ r. get_elem? r j ≡ some x) one edge_at in
            omega (arith, near.0 j x edge_of, near.1, ap (value s'.dist) same)

  -- A search that is finished: no node is open.
  pub record Finished (s : Search) : Type 0 where
    pub sound : Sound graph start s
    pub settled : (u : ℕ) → value s.dist u < int_max → Settled s.dist u
    pub begun : value s.dist start ≡ 0

  abbrev pub Ends : Option (Option Search) → Type 0
  Ends r =
      ((r ≡ some none) × Overflows graph start) ⊎ ((s : Search) × (r ≡ some (some s)) × Finished s)

  module _ (fuel : ℕ) (s : Search) (e : Entry) (rest : List Entry) (du : ℕ)
      (heap : s.min_heap ≡ e ∷ rest) (at : get_elem? s.dist e.node ≡ some du) where
    loop_stale :
        ltb du e.cur_dist ≡ true
        → search_loop (suc fuel) graph s ≡ search_loop fuel graph (rest_of s rest)
    unfolding search_loop
    loop_stale t = rw (search_loop, heap, at, ◌>>=◌, t) refl

    loop_over :
        (row : List Edge)
        → ltb du e.cur_dist ≡ false
        → get_elem? graph e.node ≡ some row
        → relax_edges e.node row (rest_of s rest) ≡ some none
        → search_loop (suc fuel) graph s ≡ some none
    unfolding search_loop
    loop_over row t row_at q = rw (search_loop, heap, at, ◌>>=◌, t, row_at, ◌>>=◌, q, ◌>>=◌) refl

    loop_fresh :
        (row : List Edge) (s' : Search)
        → ltb du e.cur_dist ≡ false
        → get_elem? graph e.node ≡ some row
        → relax_edges e.node row (rest_of s rest) ≡ some (some s')
        → search_loop (suc fuel) graph s ≡ search_loop fuel graph s'
    unfolding search_loop
    loop_fresh row s' t row_at q =
        rw (search_loop, heap, at, ◌>>=◌, t, row_at, ◌>>=◌, q, ◌>>=◌) refl

  Ends-same : (r r' : Option (Option Search)) → r ≡ r' → Ends r' → Ends r
  Ends-same r r' eq ends = subst Ends (sym eq) ends

  pub search_loop-Ends :
      (fuel : ℕ) (s : Search) (heap : List Entry)
      → IsValid graph
      → s.min_heap ≡ heap
      → Sound graph start s
      → Open s
      → value s.dist start ≡ 0
      → 2 * sum s.dist + length s.min_heap < fuel
      → Ends (search_loop fuel graph s)
  unfolding search_loop
  search_loop-Ends zero s heap valid eq sound open_s begun enough = absurd (omega arith)
  search_loop-Ends (suc fuel) s [] valid eq sound open_s begun enough = inr (
    s,
    rw (search_loop, eq) (ap (λ h. some (some (record s { min_heap = h }))) eq),
    record {
      sound = sound;
      settled = λ u lt. elim (open_s u lt) [
        | inl i ↦ absurd (subst (In (entry s.dist u)) eq i)
        | inr done ↦ done
      ];
      begun = begun;
    },
  )
  search_loop-Ends (suc fuel) s (e ∷ rest) valid eq sound open_s begun enough =
      let (lu, near, small) = sound.entries e (In-min_heap s e rest eq sound open_s e (inl refl)) in
      let du = value s.dist e.node in
      let at = get_elem?-value s.dist e.node (omega (arith, sound.sized)) in
      let shorter : length s.min_heap ≡ suc (length rest) = ap length eq in
      elim (Bool-cases (ltb du e.cur_dist)) [
        | inl stale ↦
            Ends-same (search_loop (suc fuel) graph s) (search_loop fuel graph (rest_of s rest))
              (loop_stale fuel s e rest du eq at stale)
              (search_loop-Ends fuel (rest_of s rest) rest valid refl
                (rest-Sound s e rest eq sound open_s)
                (stale-Open s e rest eq sound open_s (ground arith)) begun (omega arith))
        | inr fresh ↦
            let (row, row_at) = get_elem?-total graph e.node lu in
            let out =
              relax_edges-Outcome graph start e.node row (rest_of s rest)
                (rest-Sound s e rest eq sound open_s) lu (omega arith)
                (λ k x x_at. ((row, k, row_at, x_at), valid e.node x (row, k, row_at, x_at))) in
            elim out [
              | inl (q, over) ↦ inl (loop_over fuel s e rest du eq at row fresh row_at q, over)
              | inr (s', q, sound', better, near') ↦
                  Ends-same (search_loop (suc fuel) graph s) (search_loop fuel graph s')
                    (loop_fresh fuel s e rest du eq at row s' fresh row_at q)
                    (search_loop-Ends fuel s' s'.min_heap valid refl sound'
                      (fresh-Open s e rest eq sound open_s row s' row_at better near')
                      (omega (arith, better.lowers start)) (omega (arith, better.cost)))
            ]
      ]
