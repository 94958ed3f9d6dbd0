-- ===== src/Dijkstra/Walks.antt =====
-- Walks through the graph, and what the searches prove of `dist` and of the heap.
use linux_command.Base.{
  ℕ, zero, suc, ◌+◌, ◌*◌, ◌<◌, ◌≡◌, ◌⊎◌, refl, sym, ◌∙◌, ap, inl, inr, Option, none, some, List, [],
  ◌∷◌, get_elem?, get_elem?-total, get_elem?-set_self, get_elem?-set_ne, ◌≢◌, set, length,
  replicate, Bool-cases, arith,
}
use linux_command.Dijkstra.{int_max, Edge, Graph, Entry, entry_lt, push_entry}

-- The graph has the edge from `u`.
abbrev pub HasEdge : Graph → ℕ → Edge → Type 0
HasEdge graph u e =
    (row : List Edge) × (k : ℕ) × (get_elem? graph u ≡ some row) × (get_elem? row k ≡ some e)

-- A walk from `start` to a node, of a weight.
pub data Walk (graph : Graph) (start : ℕ) : ℕ → ℕ → Type 0 where
  here : Walk graph start start 0
  step :
      {u d : ℕ}
      → (e : Edge) → Walk graph start u d
      → HasEdge graph u e
      → Walk graph start e.target (d + e.weight)

-- The entry of a node, INT32_MAX outside the array.
abbrev pub or_max : Option ℕ → ℕ
or_max none = int_max
or_max (some d) = d

abbrev pub value : List ℕ → ℕ → ℕ
value dist k = or_max (get_elem? dist k)

abbrev pub In : Entry → List Entry → Type 0
In e [] = ⊥
In e (x ∷ xs) = (e ≡ x) ⊎ In e xs

pub In-emplace_self : (e : Entry) (xs : List Entry) → In e (push_entry e xs)
unfolding push_entry
In-emplace_self e [] = inl refl
In-emplace_self e (x ∷ xs) = elim (Bool-cases (entry_lt e x)) [
  | inl first ↦ rw first (inl refl)
  | inr later ↦ rw later (inr (In-emplace_self e xs))
]

pub In-push_entry : (e y : Entry) (xs : List Entry) → In y xs → In y (push_entry e xs)
unfolding push_entry
In-push_entry e y [] i = absurd i
In-push_entry e y (x ∷ xs) i = elim (Bool-cases (entry_lt e x)) [
  | inl first ↦ rw first (inr i)
  | inr later ↦
      rw later (elim i [ inl same ↦ inl same | inr more ↦ inr (In-push_entry e y xs more) ])
]

pub In-emplace_inv : (e y : Entry) (xs : List Entry) → In y (push_entry e xs) → (y ≡ e) ⊎ In y xs
unfolding push_entry
In-emplace_inv e y [] i = i
In-emplace_inv e y (x ∷ xs) i = elim (Bool-cases (entry_lt e x)) [
  | inl first ↦ rw first at i
  | inr later ↦
      let i' : (y ≡ x) ⊎ In y (push_entry e xs) = rw later at i in
      elim i' [
        | inl same ↦ inr (inl same)
        | inr more ↦ elim (In-emplace_inv e y xs more) [
          | inl new ↦ inl new
          | inr old ↦ inr (inr old)
        ]
      ]
]

pub length-push_entry : (e : Entry) (xs : List Entry) → length (push_entry e xs) ≡ length xs + 1
unfolding push_entry
length-push_entry e [] = refl
length-push_entry e (x ∷ xs) = elim (Bool-cases (entry_lt e x)) [
  | inl first ↦ rw first (omega arith)
  | inr later ↦ rw later (omega (arith, length-push_entry e xs))
]

pub value-set_self : (dist : List ℕ) (k d : ℕ) → k < length dist → value (set dist k d) k ≡ d
value-set_self dist k d lt = ap or_max (get_elem?-set_self dist k d lt)

pub value-set_ne : (dist : List ℕ) (k j d : ℕ) → k ≢ j → value (set dist k d) j ≡ value dist j
value-set_ne dist k j d ne = ap or_max (get_elem?-set_ne dist k j d ne)

pub get_elem?-value :
    (dist : List ℕ) (k : ℕ) → k < length dist → get_elem? dist k ≡ some (value dist k)
get_elem?-value dist k lt =
    let (d, at) = get_elem?-total dist k lt in at ∙ ap some (sym (ap or_max at))

abbrev pub sum : List ℕ → ℕ
sum [] = 0
sum (x ∷ xs) = x + sum xs

pub sum-set :
    (xs : List ℕ) (i a v : ℕ) → get_elem? xs i ≡ some a → sum (set xs i v) + a ≡ sum xs + v
sum-set [] i a v at = absurd (cc at)
sum-set (x ∷ xs) zero a v at = ground arith
sum-set (x ∷ xs) (suc i) a v at = omega (arith, sum-set xs i a v at)

pub sum-replicate : (n a : ℕ) → sum (replicate n a) ≡ n * a
sum-replicate zero a = omega arith
sum-replicate (suc n) a = grind (arith, sum-replicate n a)
