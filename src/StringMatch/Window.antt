-- ===== src/StringMatch/Window.antt =====
-- The windows of rkMatch: their bytes and their hashes.
use linux_command.Base.{
  ℕ, zero, suc, ◌+◌, ◌-◌, ◌≤◌, ◌<◌, ◌≡◌, ◌↔◌, refl, sym, ◌∙◌, ap, true, some, List, [], ◌∷◌, ◌++◌,
  some_inj, get_elem?, get_elem?-total, get_elem?-bound, length, length-take, take, drop, arith,
}
use linux_command.StringMatch.{hash_step, hash_from, window_hash, base_pow, roll, bytes_eq}
use linux_command.StringMatch.Occurs.{Occurs}
use linux_command.Base.Int.{ℤ, pos}
use linux_command.StringMatch.Signed.{
  AllAscii, AllAscii-drop, AllAscii-take, get_elem?-AllAscii, roll_lem,
}

get_elem?-drop : (i k : ℕ) (S : List ℕ) → get_elem? (drop i S) k ≡ get_elem? S (i + k)
get_elem?-drop zero k S = ap (get_elem? S) (omega arith)
get_elem?-drop (suc i) k [] = refl
get_elem?-drop (suc i) k (x ∷ S) = get_elem?-drop i k S ∙ sym (ap (get_elem? (x ∷ S)) (suc_add i))
  where
    suc_add : (n : ℕ) → suc n + k ≡ suc (n + k)
    suc_add n = omega arith

drop-head : (i c : ℕ) (S : List ℕ) → get_elem? S i ≡ some c → drop i S ≡ c ∷ drop (suc i) S
drop-head i c [] at = cc at
drop-head zero c (x ∷ S) at = ap (λ y. y ∷ S) (some_inj x c at)
drop-head (suc i) c (x ∷ S) at = drop-head i c S at

take-last : (n d : ℕ) (T : List ℕ) → get_elem? T n ≡ some d → take (suc n) T ≡ take n T ++ d ∷ []
take-last n d [] at = cc at
take-last zero d (x ∷ T) at = ap (λ y. y ∷ []) (some_inj x d at)
take-last (suc n) d (x ∷ T) at = ap (λ ys. x ∷ ys) (take-last n d T at)

pub bytes_eq_iff : (xs ys : List ℕ) → (bytes_eq xs ys ≡ true) ↔ (xs ≡ ys)
unfolding bytes_eq
bytes_eq_iff [] [] = (λ h. refl, λ e. refl)
bytes_eq_iff [] (y ∷ ys) = (λ h. cc h, λ e. cc e)
bytes_eq_iff (x ∷ xs) [] = (λ h. cc h, λ e. cc e)
bytes_eq_iff (x ∷ xs) (y ∷ ys) =
    (λ h. ground (arith, (bytes_eq_iff xs ys).0), λ e. ground (arith, (bytes_eq_iff xs ys).1))

-- The window of the pattern's length is the pattern just where the pattern occurs.
take-Agrees :
    (T P : List ℕ) → take (length P) T ≡ P → (k : ℕ) → k < length P → get_elem? T k ≡ get_elem? P k
take-Agrees T [] e k lt = absurd (omega arith)
take-Agrees [] (p ∷ P) e k lt = cc e
take-Agrees (x ∷ T) (p ∷ P) e zero lt = ground (arith)
take-Agrees (x ∷ T) (p ∷ P) e (suc k) lt = take-Agrees T P (ground arith) k (omega arith)

Agrees-take :
    (T P : List ℕ)
    → ((k : ℕ) → k < length P → get_elem? T k ≡ get_elem? P k)
    → take (length P) T ≡ P
Agrees-take T [] h = refl
Agrees-take [] (p ∷ P) h = cc (h 0 (omega arith))
Agrees-take (x ∷ T) (p ∷ P) h =
    let rest = Agrees-take T P (λ k lt. h (suc k) (omega arith)) in
    let first : x ≡ p = some_inj x p (h 0 (omega arith)) in cc (rest, first)

abbrev pub window : List ℕ → List ℕ → ℕ → List ℕ
window S P i = take (length P) (drop i S)

pub window-Occurs : (S P : List ℕ) (i : ℕ) → (window S P i ≡ P) ↔ Occurs S P i
window-Occurs S P i = (
  λ e k lt. sym (get_elem?-drop i k S) ∙ take-Agrees (drop i S) P e k lt,
  λ o. Agrees-take (drop i S) P (λ k lt. get_elem?-drop i k S ∙ o k lt),
)

pub window_hash-hash_from :
    (n i : ℕ) (h : ℤ) (S : List ℕ)
    → i + n ≤ length S
    → window_hash n S i h ≡ some (hash_from h (take n (drop i S)))
unfolding window_hash hash_from
window_hash-hash_from zero i h S le = refl
window_hash-hash_from (suc n) i h S le =
    let (c, at) = get_elem?-total S i (omega arith) in
    let front : take (suc n) (drop i S) ≡ c ∷ take n (drop (suc i) S) =
      ap (take (suc n)) (drop-head i c S at) in
    rw at (
      window_hash-hash_from n (i + 1) (hash_step h c) S (omega arith)
      ∙ ap (λ k. some (hash_from (hash_step h c) (take n (drop k S)))) (next i)
      ∙ ap (λ xs. some (hash_from h xs)) (sym front))
  where
    next : (k : ℕ) → k + 1 ≡ suc k
    next k = omega arith

-- The next window and its hash.
roll_next :
    (m i c d : ℕ) (S : List ℕ)
    → AllAscii S
    → get_elem? S i ≡ some c
    → get_elem? S (i + suc m) ≡ some d
    → roll (base_pow m 1) (hash_from (pos 0) (take (suc m) (drop i S))) c d
      ≡ hash_from (pos 0) (take (suc m) (drop (suc i) S))
roll_next m i c d S ascii at last =
    ap (λ n. roll (base_pow n 1) (hash_from (pos 0) (take (suc m) (drop i S))) c d) (sym size)
    ∙ ap (λ xs. roll (base_pow (length ys) 1) (hash_from (pos 0) xs) c d)
        (ap (take (suc m)) (drop-head i c S at))
    ∙ roll_lem c d ys (get_elem?-AllAscii i c S ascii at)
        (get_elem?-AllAscii (i + suc m) d S ascii last)
        (AllAscii-take m T (AllAscii-drop (suc i) S ascii))
    ∙ ap (hash_from (pos 0)) (sym (take-last m d T end))
  where
    T : List ℕ
    T = drop (suc i) S

    ys : List ℕ
    ys = take m T

    end : get_elem? T m ≡ some d
    end = get_elem?-drop (suc i) m S ∙ ap (get_elem? S) (omega arith) ∙ last

    size : length ys ≡ m
    size = omega (arith, length-take m T, get_elem?-bound T m end)

pub roll-window :
    (i c d : ℕ) (S P : List ℕ)
    → AllAscii S
    → 0 < length P
    → get_elem? S i ≡ some c
    → get_elem? S (i + length P) ≡ some d
    → roll (base_pow (length P - 1) 1) (hash_from (pos 0) (window S P i)) c d
      ≡ hash_from (pos 0) (window S P (i + 1))
roll-window i c d S [] ascii some_byte at last = absurd (omega arith)
roll-window i c d S (p ∷ ps) ascii some_byte at last =
    ap (λ n. roll (base_pow n 1) (hash_from (pos 0) (take (length (p ∷ ps)) (drop i S))) c d)
      (less (length ps))
    ∙ roll_next (length ps) i c d S ascii at last
    ∙ ap (λ k. hash_from (pos 0) (take (length (p ∷ ps)) (drop k S))) (step i)
  where
    less : (n : ℕ) → suc n - 1 ≡ n
    less n = omega arith

    step : (k : ℕ) → suc k ≡ k + 1
    step k = omega arith
