-- ===== src/Dijkstra/Shortest.antt =====
-- The shortest walks.
use linux_command.Base.{
  ℕ, zero, suc, ◌+◌, ◌*◌, ◌≤◌, ◌<◌, ◌≡◌, ◌≢◌, ◌⊎◌, refl, sym, ◌∙◌, ap, inl, inr, none, some, [],
  ◌∷◌, get_elem?-total, set, store-eq-set, length, length-set, length-replicate, replicate, ◌>>=◌,
  arith,
}
use native.Mathlib.Decide.{dec_lt, ℕ_discrete}
use mathlib.Core.Path.{subst}
use linux_command.Dijkstra.{int_max, Graph, Search, search_loop, dijkstra}
use linux_command.Dijkstra.Walks.{
  Walk, step, here, sum-replicate, value, sum, sum-set, value-set_self, value-set_ne,
}
use linux_command.Dijkstra.Sound.{Sound, Overflows}
use linux_command.Dijkstra.Loop.{IsValid, Open, Finished, search_loop-Ends}

value-none : (n k : ℕ) → value (replicate n int_max) k ≡ int_max
value-none zero k = refl
value-none (suc n) zero = refl
value-none (suc n) (suc k) = value-none n k

module _ (graph : Graph) (start : ℕ) where
  first : Search
  first = record {
    dist = set (replicate (length graph) int_max) start 0;
    pre = replicate (length graph) none;
    min_heap = record { cur_dist = 0; node = start } ∷ [];
  }

  module _ (inside : start < length graph) where
    at_start :
        (k : ℕ)
        → (k ≡ start) × (value first.dist k ≡ 0) ⊎ ((k ≢ start) × (value first.dist k ≡ int_max))
    unfolding first
    at_start k = elim (ℕ_discrete k start) [
      | yes e ↦ inl (
        e,
        ap (value first.dist) e
            ∙ value-set_self (replicate (length graph) int_max) start 0
                (omega (arith, length-replicate (length graph) int_max)),
      )
      | no ne ↦ inr (
        ne,
        value-set_ne (replicate (length graph) int_max) start k 0 (λ e. ne (sym e))
            ∙ value-none (length graph) k,
      )
    ]

    first-Sound : Sound graph start first
    unfolding first
    first-Sound = record {
      sized =
          length-set (replicate (length graph) int_max) start 0
          ∙ length-replicate (length graph) int_max;
      pre_sized = length-replicate (length graph) none;
      capped = λ k. elim (at_start k) [ inl (e, at) ↦ omega arith | inr (ne, at) ↦ omega arith ];
      walks = λ k lt. elim (at_start k) [
        | inl (e, at) ↦
            subst (λ j. Walk graph start j (value first.dist k)) (sym e)
              (subst (Walk graph start start) (sym at) here)
        | inr (ne, at) ↦ absurd (omega arith)
      ];
      entries = λ y i. elim i [
        | inl e ↦ rw e (
          inside,
          omega (
            arith,
            value-set_self (replicate (length graph) int_max) start 0
                (omega (arith, length-replicate (length graph) int_max)),
          ),
          omega arith,
        )
        | inr none_else ↦ absurd none_else
      ];
    }

    first-Open : Open graph start first
    unfolding first
    first-Open k lt = elim (at_start k) [
      | inl (e, at) ↦ inl (inl (cc (e, at)))
      | inr (ne, at) ↦ absurd (omega arith)
    ]

    first-sum : sum first.dist ≤ length graph * int_max
    unfolding first
    first-sum =
        let (a, at) =
          get_elem?-total (replicate (length graph) int_max) start
            (omega (arith, length-replicate (length graph) int_max)) in
        omega (
          arith,
          sum-set (replicate (length graph) int_max) start a 0 at,
          sum-replicate (length graph) int_max,
        )

    dijkstra-first :
        dijkstra graph start ≡ search_loop (2 * (length graph * int_max) + 2) graph first
    unfolding dijkstra first
    dijkstra-first =
        rw
          (
            dijkstra,
            store-eq-set (replicate (length graph) int_max) start 0
                (omega (arith, length-replicate (length graph) int_max)),
            ◌>>=◌,
          )
          refl

  -- No walk is shorter than the entry of its end.
  Walk-le :
      (s : Search) (k d : ℕ) → Finished graph start s → Walk graph start k d → value s.dist k ≤ d
  Walk-le s k d f here = omega (arith, f.begun)
  Walk-le s k d f (step {u} {d = d'} e w has) =
      let le = Walk-le s u d' f w in
      elim (dec_lt (value s.dist u) int_max) [
        | yes reached ↦ omega (arith, f.settled u reached e has)
        | no far ↦ omega (arith, f.sound.capped e.target)
      ]

-- For a graph whose edges end in it, and a start in it, Dijkstra returns within its fuel and inside its
-- arrays. Either a walk and an edge behind it have weights whose sum does not fit in an int, or `dist`
-- is right for every node: an entry below INT32_MAX is the weight of a walk from the start, and no walk
-- to the node has a smaller one.
pub dijkstra_shortest :
    (graph : Graph) (start : ℕ)
    → IsValid graph
    → start < length graph
    → ((dijkstra graph start ≡ some none) × Overflows graph start)
      ⊎ ((s : Search) × (dijkstra graph start ≡ some (some s))
          × ((k : ℕ) → value s.dist k < int_max → Walk graph start k (value s.dist k))
          × ((k d : ℕ) → Walk graph start k d → value s.dist k ≤ d))
unfolding first
dijkstra_shortest graph start valid inside =
    let eq = dijkstra-first graph start inside in
    let out =
      search_loop-Ends graph start (2 * (length graph * int_max) + 2) (first graph start)
        (first graph start).min_heap valid refl (first-Sound graph start inside)
        (first-Open graph start inside)
        (value-set_self (replicate (length graph) int_max) start 0
          (omega (arith, length-replicate (length graph) int_max)))
        (omega (arith, first-sum graph start inside)) in
    elim out [
      | inl (q, over) ↦ inl (eq ∙ q, over)
      | inr (s, q, f) ↦ inr (s, eq ∙ q, f.sound.walks, λ k d w. Walk-le graph start s k d f w)
    ]
