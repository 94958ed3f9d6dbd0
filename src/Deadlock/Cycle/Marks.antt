-- ===== src/Deadlock/Cycle/Marks.antt =====
-- How many vertices of a search are not visited yet: the measure of DFS.
use linux_command.Base.{
  ℕ, zero, suc, ◌+◌, ◌≤◌, ◌<◌, ◌≡◌, ◌≢◌, refl, false, some, List, [], ◌∷◌, ◌==◌, if◌then◌else◌,
  >>=-eq-some, get_elem?, set, length, arith,
}
use linux_command.Deadlock.Cycle.{reset_visited}

pub unmarked : ℕ → List ℕ → ℕ
unmarked zero ms = 0
unmarked (suc n) [] = 0
unmarked (suc n) (m ∷ ms) = (if m == 1 then 0 else 1) + unmarked n ms

pub unmarked-le : (n : ℕ) (ms : List ℕ) → unmarked n ms ≤ n
unfolding unmarked
unmarked-le zero ms = omega arith
unmarked-le (suc n) [] = omega arith
unmarked-le (suc n) (m ∷ ms) = ground (arith, unmarked-le n ms)

-- Visiting a vertex takes one off.
pub unmarked-set :
    (n i : ℕ) (ms : List ℕ) {m : ℕ}
    → i < n
    → get_elem? ms i ≡ some m
    → (m == 1) ≡ false
    → unmarked n (set ms i 1) + 1 ≡ unmarked n ms
unfolding unmarked
unmarked-set zero i ms lt e f = absurd (omega arith)
unmarked-set (suc n) i [] lt e f = cc
unmarked-set (suc n) zero (m ∷ ms) lt e f = ground arith
unmarked-set (suc n) (suc i) (m ∷ ms) lt e f = ground (arith, unmarked-set n i ms (omega arith) e f)

pub reset_visited-total :
    (n i idx : ℕ) (ms : List ℕ)
    → n ≤ length ms
    → (out : List ℕ) × (reset_visited n i idx ms ≡ some out)
unfolding reset_visited
reset_visited-total zero i idx ms h = (ms, refl)
reset_visited-total (suc n) i idx [] h = absurd (omega arith)
reset_visited-total (suc n) i idx (m ∷ ms) h =
    let (out, e) = reset_visited-total n (i + 1) idx ms (omega arith) in
    ((if i == idx then m else 0) ∷ out, rw e refl)

pub length-reset_visited :
    (n i idx : ℕ) (ms : List ℕ) {out : List ℕ}
    → reset_visited n i idx ms ≡ some out
    → length out ≡ length ms
unfolding reset_visited
length-reset_visited zero i idx ms e = ground arith
length-reset_visited (suc n) i idx [] e = cc
length-reset_visited (suc n) i idx (m ∷ ms) e =
    let (rest, e₁, e₂) = >>=-eq-some (reset_visited n (i + 1) idx ms) _ e in
    ground (arith, length-reset_visited n (i + 1) idx ms e₁)

-- The start vertex keeps its mark.
pub reset_visited-start :
    (n i k : ℕ) (ms : List ℕ) {out : List ℕ}
    → reset_visited n i (i + k) ms ≡ some out
    → get_elem? ms k ≡ some 1
    → get_elem? out k ≡ some 1
unfolding reset_visited
reset_visited-start zero i k ms e h = ground arith
reset_visited-start (suc n) i k [] e h = cc
reset_visited-start (suc n) i zero (m ∷ ms) e h =
    let (rest, e₁, e₂) = >>=-eq-some (reset_visited n (i + 1) (i + zero) ms) _ e in ground arith
reset_visited-start (suc n) i (suc k) (m ∷ ms) e h =
    let (rest, e₁, e₂) = >>=-eq-some (reset_visited n (i + 1) (i + suc k) ms) _ e in
    let same : i + suc k ≡ (i + 1) + k = omega arith in
    let rec = reset_visited-start n (i + 1) k ms (rw same at e₁) h in ground arith

-- So fewer than all are unmarked.
pub unmarked-marked : (n k : ℕ) (ms : List ℕ) → k < n → get_elem? ms k ≡ some 1 → unmarked n ms < n
unfolding unmarked
unmarked-marked zero k ms lt h = absurd (omega arith)
unmarked-marked (suc n) k [] lt h = cc
unmarked-marked (suc n) zero (m ∷ ms) lt h = ground (arith, unmarked-le n ms)
unmarked-marked (suc n) (suc k) (m ∷ ms) lt h =
    ground (arith, unmarked-marked n k ms (omega arith) h)

-- Past the start vertex every entry is cleared.
reset_visited_past :
    (n i idx j : ℕ) (ms : List ℕ) {out : List ℕ}
    → idx < i
    → reset_visited n i idx ms ≡ some out
    → j < n
    → get_elem? out j ≡ some 0
unfolding reset_visited
reset_visited_past zero i idx j ms lt e h = absurd (omega arith)
reset_visited_past (suc n) i idx j [] lt e h = cc
reset_visited_past (suc n) i idx zero (m ∷ ms) lt e h =
    let (rest, e₁, e₂) = >>=-eq-some (reset_visited n (i + 1) idx ms) _ e in ground arith
reset_visited_past (suc n) i idx (suc j) (m ∷ ms) lt e h =
    let (rest, e₁, e₂) = >>=-eq-some (reset_visited n (i + 1) idx ms) _ e in
    let rec = reset_visited_past n (i + 1) idx j ms (omega arith) e₁ (omega arith) in ground arith

pub reset_visited-others :
    (n i k j : ℕ) (ms : List ℕ) {out : List ℕ}
    → reset_visited n i (i + k) ms ≡ some out
    → j < n
    → j ≢ k
    → get_elem? out j ≡ some 0
unfolding reset_visited
reset_visited-others zero i k j ms e lt ne = absurd (omega arith)
reset_visited-others (suc n) i k j [] e lt ne = cc
reset_visited-others (suc n) i k zero (m ∷ ms) e lt ne =
    let (rest, e₁, e₂) = >>=-eq-some (reset_visited n (i + 1) (i + k) ms) _ e in ground arith
reset_visited-others (suc n) i zero (suc j) (m ∷ ms) e lt ne =
    let (rest, e₁, e₂) = >>=-eq-some (reset_visited n (i + 1) (i + zero) ms) _ e in
    ground (arith, reset_visited_past n (i + 1) (i + zero) j ms (omega arith) e₁ (omega arith))
reset_visited-others (suc n) i (suc k) (suc j) (m ∷ ms) e lt ne =
    let (rest, e₁, e₂) = >>=-eq-some (reset_visited n (i + 1) (i + suc k) ms) _ e in
    let same : i + suc k ≡ (i + 1) + k = omega arith in
    let rec = reset_visited-others n (i + 1) k j ms (rw same at e₁) (omega arith) (omega arith) in
    ground arith

-- The reset of a search from `idx` clears every other vertex.
pub reset_visited-clears :
    (n idx j : ℕ) (ms out : List ℕ)
    → reset_visited n 0 idx ms ≡ some out
    → j < n
    → j ≢ idx
    → get_elem? out j ≡ some 0
reset_visited-clears n idx j ms out e lt ne = reset_visited-others n 0 idx j ms (rw same at e) lt ne
  where
    same : idx ≡ 0 + idx
    same = omega arith
