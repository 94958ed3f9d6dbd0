-- ===== src/Dijkstra/Lower.antt =====
-- A value that falls.
use linux_command.Base.{
  ℕ, ◌≤◌, ◌<◌, ◌≡◌, ◌≢◌, ◌⊎◌, refl, sym, ◌∙◌, ap, inl, inr, some, set, store-eq-set, length,
  length-set, ◌>>=◌, arith,
}
use native.Mathlib.Decide.{ℕ_discrete}
use mathlib.Core.Path.{subst}
use linux_command.Dijkstra.{int_max, Graph, Entry, Search, push_entry, lower}
use linux_command.Dijkstra.Walks.{
  Walk, value, In, In-emplace_self, In-push_entry, In-emplace_inv, sum-set, length-push_entry,
  value-set_self, value-set_ne, get_elem?-value,
}
use linux_command.Dijkstra.Sound.{entry, Sound, Improves}

module _ (graph : Graph) (start u v d : ℕ) (s : Search) where
  abbrev new_entry : Entry
  new_entry = record { cur_dist = d; node = v }

  abbrev pub lowered : Search
  lowered = record {
    dist = set s.dist v d;
    pre = set s.pre v (some u);
    min_heap = push_entry new_entry s.min_heap;
  }

  module _ (sound : Sound graph start s) (inside : v < length graph)
      (less : d < value s.dist v) where
    value_at :
        (k : ℕ)
        → ((k ≡ v) × (value lowered.dist k ≡ d))
          ⊎ ((k ≢ v) × (value lowered.dist k ≡ value s.dist k))
    value_at k = elim (ℕ_discrete k v) [
      | yes e ↦ inl (
        e,
        ap (value (set s.dist v d)) e ∙ value-set_self s.dist v d (omega (arith, sound.sized)),
      )
      | no ne ↦ inr (ne, value-set_ne s.dist v k d (λ e. ne (sym e)))
    ]

    value_le : (k : ℕ) → value lowered.dist k ≤ value s.dist k
    value_le k = elim (value_at k) [
      | inl (e, at) ↦ subst (λ j. value lowered.dist k ≤ value s.dist j) (sym e) (omega arith)
      | inr (ne, at) ↦ omega arith
    ]

    pub lower-lowered : lower u v d s ≡ some (some lowered)
    unfolding lower
    lower-lowered =
        rw
          (
            store-eq-set s.dist v d (omega (arith, sound.sized)),
            ◌>>=◌,
            store-eq-set s.pre v (some u) (omega (arith, sound.pre_sized)),
            ◌>>=◌,
          )
          refl

    pub lowered-Improves : Improves s lowered
    lowered-Improves = record {
      lowers = value_le;
      noted = λ k fell. elim (value_at k) [
        | inl (e, at) ↦
            subst (λ j. In j lowered.min_heap) (entry_eq k e at)
              (In-emplace_self new_entry s.min_heap)
        | inr (ne, at) ↦ absurd (omega arith)
      ];
      kept = λ y i. In-push_entry new_entry y s.min_heap i;
      cost = omega (
        arith,
        sum-set s.dist v (value s.dist v) d (get_elem?-value s.dist v (omega (arith, sound.sized))),
        length-push_entry new_entry s.min_heap,
      );
    }
      where
        entry_eq : (k : ℕ) → k ≡ v → value lowered.dist k ≡ d → new_entry ≡ entry lowered.dist k
        entry_eq k e at = cc (e, at)

    pub lowered-Sound : Walk graph start v d → Sound graph start lowered
    lowered-Sound w = record {
      sized = length-set s.dist v d ∙ sound.sized;
      pre_sized = length-set s.pre v (some u) ∙ sound.pre_sized;
      capped = λ k. omega (arith, value_le k, sound.capped k);
      walks = λ k lt. elim (value_at k) [
        | inl (e, at) ↦
            subst (λ j. Walk graph start j (value lowered.dist k)) (sym e)
              (subst (Walk graph start v) (sym at) w)
        | inr (ne, at) ↦ subst (Walk graph start k) (sym at) (sound.walks k (omega arith))
      ];
      entries = λ y i. elim (In-emplace_inv new_entry y s.min_heap i) [
        | inl e ↦
            subst
              (λ z.
                (z.node < length graph)
                × (value lowered.dist z.node ≤ z.cur_dist)
                × (z.cur_dist < int_max))
              (sym e)
              (
                inside,
                omega (arith, value-set_self s.dist v d (omega (arith, sound.sized))),
                omega (arith, sound.capped v),
              )
        | inr old ↦
            let (lt, le, small) = sound.entries y old in (lt, omega (arith, value_le y.node), small)
      ];
    }
