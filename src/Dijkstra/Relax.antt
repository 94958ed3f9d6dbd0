-- ===== src/Dijkstra/Relax.antt =====
-- The loop over the neighbours of a node.
use linux_command.Base.{
  ℕ, zero, suc, ◌+◌, ◌≤◌, ◌<◌, ◌≡◌, refl, ◌∙◌, ap, inl, inr, none, some, List, [], ◌∷◌, get_elem?,
  some_inj, length, ◌>>=◌, arith,
}
use native.Mathlib.Decide.{dec_lt}
use mathlib.Core.Path.{subst}
use linux_command.Dijkstra.{int_max, Edge, Graph, Search, lower, relax_by, relax, relax_edges}
use linux_command.Dijkstra.Walks.{
  HasEdge, step, value, value-set_self, value-set_ne, get_elem?-value,
}
use linux_command.Dijkstra.Sound.{Sound, Improves, Improves-refl, Improves-trans, Outcome}
use linux_command.Dijkstra.Lower.{lowered, lower-lowered, lowered-Improves, lowered-Sound}

module _ (graph : Graph) (start u : ℕ) where
  relax_eq :
      (e : Edge) (s : Search)
      → u < length s.dist
      → e.target < length s.dist
      → relax u e s ≡ relax_by u e (value s.dist u) (value s.dist e.target) s
  unfolding relax
  relax_eq e s lu lv =
      rw (relax, get_elem?-value s.dist u lu, ◌>>=◌, get_elem?-value s.dist e.target lv, ◌>>=◌) refl

  module _ (e : Edge) (du dv : ℕ) (s : Search) where
    too_large : int_max < du + e.weight → relax_by u e du dv s ≡ some none
    unfolding relax_by
    too_large over = ground arith

    falls :
        ¬ int_max < du + e.weight
        → du + e.weight < dv
        → relax_by u e du dv s ≡ lower u e.target (du + e.weight) s
    unfolding relax_by
    falls fits less = ground arith

    stays : ¬ int_max < du + e.weight → ¬ du + e.weight < dv → relax_by u e du dv s ≡ some (some s)
    unfolding relax_by
    stays fits more = ground arith

  relax-Outcome :
      (e : Edge) (s : Search)
      → Sound graph start s
      → u < length graph
      → value s.dist u < int_max
      → HasEdge graph u e
      → e.target < length graph
      → Outcome graph start (relax u e s) s (λ s'.
        (value s'.dist e.target ≤ value s.dist u + e.weight) × (value s'.dist u ≡ value s.dist u))
  relax-Outcome e s sound lu reached has lt =
      let du = value s.dist u in
      let dv = value s.dist e.target in
      let eq = relax_eq e s (omega (arith, sound.sized)) (omega (arith, sound.sized)) in
      elim (dec_lt int_max (du + e.weight)) [
        | yes over ↦ inl (
          eq ∙ too_large e du dv s over,
          record {
            from = u;
            weight = du;
            walk = sound.walks u reached;
            edge = e;
            has_edge = has;
            too_far = over;
          },
        )
        | no fits ↦ elim (dec_lt (du + e.weight) dv) [
          | yes less ↦
              let s' = lowered graph start u e.target (du + e.weight) s in
              let w = step e (sound.walks u reached) has in
              inr (
                s',
                eq
                    ∙ falls e du dv s fits less
                    ∙ lower-lowered graph start u e.target (du + e.weight) s sound lt less,
                lowered-Sound graph start u e.target (du + e.weight) s sound lt less w,
                lowered-Improves graph start u e.target (du + e.weight) s sound lt less,
                (
                  omega (
                    arith,
                    value-set_self s.dist e.target (du + e.weight) (omega (arith, sound.sized)),
                  ),
                  value-set_ne s.dist e.target u (du + e.weight) (λ same. other same less),
                ),
              )
          | no more ↦
              inr (s, eq ∙ stays e du dv s fits more, sound, Improves-refl s, (omega arith, refl))
        ]
      ]
    where
      other : e.target ≡ u → value s.dist u + e.weight < value s.dist e.target → ⊥
      other same less = absurd (omega (arith, ap (value s.dist) same))

  -- All edges of the list leave `u`, and end in the graph.
  abbrev pub Leave : List Edge → Type 0
  Leave es =
      (k : ℕ) (e : Edge) → get_elem? es k ≡ some e → HasEdge graph u e × (e.target < length graph)

  abbrev pub Near : List Edge → Search → Search → Type 0
  Near es s s' =
      ((k : ℕ) (e : Edge)
        → get_elem? es k ≡ some e
        → value s'.dist e.target ≤ value s.dist u + e.weight)
      × (value s'.dist u ≡ value s.dist u)

  relax_then :
      (e : Edge) (es : List Edge) (s s₁ : Search)
      → relax u e s ≡ some (some s₁)
      → Improves s s₁
      → value s₁.dist e.target ≤ value s.dist u + e.weight
      → value s₁.dist u ≡ value s.dist u
      → Outcome graph start (relax_edges u es s₁) s₁ (Near es s₁)
      → Outcome graph start (relax_edges u (e ∷ es) s) s (Near (e ∷ es) s)
  unfolding relax_edges
  relax_then e es s s₁ eq better near same rest = elim rest [
    | inl (q, over) ↦ inl (rw (relax_edges, eq, ◌>>=◌) q, over)
    | inr (s₂, q, sound₂, better₂, (all, same₂)) ↦ inr (
      s₂,
      rw (relax_edges, eq, ◌>>=◌) q,
      sound₂,
      Improves-trans s s₁ s₂ better better₂,
      (λ k e' at. every k e' at s₂ (better₂.lowers e.target) all, same₂ ∙ same),
    )
  ]
    where
      every :
          (k : ℕ) (e' : Edge)
          → get_elem? (e ∷ es) k ≡ some e'
          → (s₂ : Search) → value s₂.dist e.target ≤ value s₁.dist e.target
          → ((j : ℕ) (e'' : Edge)
              → get_elem? es j ≡ some e''
              → value s₂.dist e''.target ≤ value s₁.dist u + e''.weight)
          → value s₂.dist e'.target ≤ value s.dist u + e'.weight
      every zero e' at s₂ le all =
          subst (λ x. value s₂.dist x.target ≤ value s.dist u + x.weight) (some_inj e e' at)
            (omega arith)
      every (suc k) e' at s₂ le all = omega (arith, all k e' at)

  pub relax_edges-Outcome :
      (es : List Edge) (s : Search)
      → Sound graph start s
      → u < length graph
      → value s.dist u < int_max
      → Leave es
      → Outcome graph start (relax_edges u es s) s (Near es s)
  unfolding relax_edges
  relax_edges-Outcome [] s sound lu reached leave =
      inr (s, refl, sound, Improves-refl s, (λ k e at. absurd (cc at), refl))
  relax_edges-Outcome (e ∷ es) s sound lu reached leave =
      let (has, lt) = leave 0 e refl in
      elim (relax-Outcome e s sound lu reached has lt) [
        | inl (eq, over) ↦ inl (rw (eq, ◌>>=◌) refl, over)
        | inr (s₁, eq, sound₁, better, (near, same)) ↦
            relax_then e es s s₁ eq better near same
              (relax_edges-Outcome es s₁ sound₁ lu (omega arith) (λ k e' at. leave (suc k) e' at))
      ]
