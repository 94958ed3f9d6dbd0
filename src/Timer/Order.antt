-- ===== src/Timer/Order.antt =====
-- The order of the nodes, and the set that a list in this order stands for.
use linux_command.Base.{
  ◌≡◌, refl, ◌∙◌, ap, inl, inr, Bool, true, false, not, ◌&&◌, ◌||◌, List, [], ◌∷◌, ◌==◌, Bool-cases,
  arith,
}
use linux_command.Timer.{TimerNode, node_lt, emplace_node, erase}

abbrev pub Above : TimerNode → List TimerNode → Type 0
Above x [] = Unit {0}
Above x (y ∷ ys) = (node_lt x y ≡ true) × Above x ys

abbrev pub IsSorted : List TimerNode → Type 0
IsSorted [] = Unit {0}
IsSorted (x ∷ xs) = Above x xs × IsSorted xs

-- Two nodes with the same key, of which a set keeps one.
abbrev pub same : TimerNode → TimerNode → Bool
same a b = a.expire == b.expire && a.id == b.id

unfoldable pub has : TimerNode → List TimerNode → Bool
has k [] = false
has k (x ∷ xs) = same k x || has k xs

node_lt_trans : (a b c : TimerNode) → node_lt a b ≡ true → node_lt b c ≡ true → node_lt a c ≡ true
unfolding node_lt
node_lt_trans a b c p q = ground arith

Above-trans : (a b : TimerNode) (xs : List TimerNode) → node_lt a b ≡ true → Above b xs → Above a xs
Above-trans a b [] p q = tt
Above-trans a b (x ∷ xs) p q = (node_lt_trans a b x p q.0, Above-trans a b xs p q.1)

Above-emplace_node :
    (z n : TimerNode) (xs : List TimerNode)
    → node_lt z n ≡ true
    → Above z xs
    → Above z (emplace_node n xs)
unfolding emplace_node
Above-emplace_node z n [] p q = (p, tt)
Above-emplace_node z n (x ∷ xs) p q = elim (Bool-cases (node_lt n x)) [
  | inl less ↦ rw less (p, q)
  | inr no_less ↦ elim (Bool-cases (node_lt x n)) [
    | inl more ↦ rw (no_less, more) (q.0, Above-emplace_node z n xs p q.1)
    | inr equal ↦ rw (no_less, equal) q
  ]
]

pub emplace_node-IsSorted :
    (n : TimerNode) (xs : List TimerNode) → IsSorted xs → IsSorted (emplace_node n xs)
unfolding emplace_node
emplace_node-IsSorted n [] s = (tt, tt)
emplace_node-IsSorted n (x ∷ xs) s = elim (Bool-cases (node_lt n x)) [
  | inl less ↦ rw less ((less, Above-trans n x xs less s.0), s)
  | inr no_less ↦ elim (Bool-cases (node_lt x n)) [
    | inl more ↦
        rw (no_less, more) (Above-emplace_node x n xs more s.0, emplace_node-IsSorted n xs s.1)
    | inr equal ↦ rw (no_less, equal) s
  ]
]

Above-erase : (z n : TimerNode) (xs : List TimerNode) → Above z xs → Above z (erase n xs)
unfolding erase
Above-erase z n [] q = tt
Above-erase z n (x ∷ xs) q = elim (Bool-cases (node_lt x n)) [
  | inl less ↦ rw less (q.0, Above-erase z n xs q.1)
  | inr no_less ↦ elim (Bool-cases (node_lt n x)) [
    | inl more ↦ rw (no_less, more) q
    | inr equal ↦ rw (no_less, equal) q.1
  ]
]

pub erase-IsSorted : (n : TimerNode) (xs : List TimerNode) → IsSorted xs → IsSorted (erase n xs)
unfolding erase
erase-IsSorted n [] s = tt
erase-IsSorted n (x ∷ xs) s = elim (Bool-cases (node_lt x n)) [
  | inl less ↦ rw less (Above-erase x n xs s.0, erase-IsSorted n xs s.1)
  | inr no_less ↦ elim (Bool-cases (node_lt n x)) [
    | inl more ↦ rw (no_less, more) s
    | inr equal ↦ rw (no_less, equal) s.1
  ]
]

-- A node below all of the list is not in it.
absent : (k x : TimerNode) (xs : List TimerNode) → same k x ≡ true → Above x xs → has k xs ≡ false
unfolding has node_lt
absent k x [] e q = refl
absent k x (y ∷ ys) e q = ground (arith, absent k x ys e q.1)

-- Two nodes of which neither is below the other have one key.
level : (k n x : TimerNode) → node_lt n x ≡ false → node_lt x n ≡ false → same k x ≡ same k n
unfolding node_lt
level k n x p q = ground arith

apart : (k n x : TimerNode) → node_lt n x ≡ true → same k n ≡ true → same k x ≡ false
unfolding node_lt
apart k n x p q = ground arith

below : (k n x : TimerNode) → node_lt x n ≡ true → same k n ≡ true → same k x ≡ false
unfolding node_lt
below k n x p q = ground arith

pub has-emplace_node :
    (k n : TimerNode) (xs : List TimerNode) → has k (emplace_node n xs) ≡ (same k n || has k xs)
unfolding has emplace_node
has-emplace_node k n [] = refl
has-emplace_node k n (x ∷ xs) = elim (Bool-cases (node_lt n x)) [
  | inl less ↦ rw less refl
  | inr no_less ↦ elim (Bool-cases (node_lt x n)) [
    | inl more ↦
        rw (no_less, more)
          (ap (λ b. same k x || b) (has-emplace_node k n xs)
            ∙ swap (same k x) (same k n) (has k xs))
    | inr equal ↦
        rw (no_less, equal) (level_or (same k x) (same k n) (has k xs) (level k n x no_less equal))
  ]
]
  where
    swap : (a b c : Bool) → (a || (b || c)) ≡ (b || (a || c))
    swap true true c = refl
    swap true false c = refl
    swap false b c = refl

    level_or : (a b c : Bool) → a ≡ b → (a || c) ≡ (b || (a || c))
    level_or true true c e = refl
    level_or true false c e = refl
    level_or false true c e = cc e
    level_or false false c e = refl

pub has-erase :
    (k n : TimerNode) (xs : List TimerNode)
    → IsSorted xs
    → has k (erase n xs) ≡ (not (same k n) && has k xs)
unfolding has erase
has-erase k n [] s = nothing (same k n)
  where
    nothing : (b : Bool) → false ≡ (not b && false)
    nothing true = refl
    nothing false = refl
has-erase k n (x ∷ xs) s = elim (Bool-cases (node_lt x n)) [
  | inl less ↦ rw less (
      kept (same k x) (same k n) (has k xs) (has k (erase n xs)) (has-erase k n xs s.1)
        (below k n x less))
  | inr no_less ↦ elim (Bool-cases (node_lt n x)) [
    | inl more ↦
        rw (no_less, more)
          (unchanged (same k n) (same k x || has k xs) (λ e.
            neither (same k x) (has k xs) (apart k n x more e)
              (absent k n xs e (Above-trans n x xs more s.0))))
    | inr equal ↦
        rw (no_less, equal)
          (removed (same k x) (same k n) (has k xs) (level k n x equal no_less)
            (λ e. absent k x xs e s.0))
  ]
]
  where
    kept :
        (p q h r : Bool)
        → r ≡ (not q && h)
        → (q ≡ true → p ≡ false)
        → (p || r) ≡ (not q && (p || h))
    kept true true h r e f = cc (f refl)
    kept true false h r e f = refl
    kept false q h r e f = e

    unchanged : (q h : Bool) → (q ≡ true → h ≡ false) → h ≡ (not q && h)
    unchanged true h f = f refl
    unchanged false h f = refl

    neither : (p h : Bool) → p ≡ false → h ≡ false → (p || h) ≡ false
    neither p h e f = rw (e, f) refl

    removed : (p q h : Bool) → p ≡ q → (p ≡ true → h ≡ false) → h ≡ (not q && (p || h))
    removed true true h e f = f refl
    removed true false h e f = cc e
    removed false true h e f = cc e
    removed false false h e f = refl
