-- ===== src/Base/Memory.antt =====
-- memcpy, memset and strings over checked arrays of bytes. `none` is an access outside the array.
use Prim.Native.Nat.{◌≤◌, ℕ, zero, suc, ◌+◌}
use mathlib.Core.Path.{◌≡◌, refl, ap, sym, ◌∙◌}
use mathlib.Core.List.{List, [], ◌∷◌, ◌++◌, append_assoc}
use mathlib.Core.Option.{Option, none, some}
use native.Mathlib.Omega.{arith}
use linux_command.Base.Tests.{if◌then◌else◌, ◌==◌, ◌>>=◌}
use linux_command.Base.Lists.{split_at, length, get_elem?, store, length-append}

-- Stores the bytes from index `at` on.
unfoldable pub write_bytes : List ℕ → ℕ → List ℕ → Option (List ℕ)
write_bytes xs at [] = some xs
write_bytes xs at (b ∷ bs) = do ys ← store xs at b; write_bytes ys (at + 1) bs

-- `n` bytes from index `at` on.
unfoldable pub read_bytes : List ℕ → ℕ → ℕ → Option (List ℕ)
read_bytes xs at zero = some []
read_bytes xs at (suc n) = do b ← get_elem? xs at; rest ← read_bytes xs (at + 1) n; some (b ∷ rest)

-- The bytes before the first NUL.
unfoldable pub c_string : List ℕ → Option (List ℕ)
c_string [] = none
c_string (b ∷ bs) = if b == 0 then some [] else (do rest ← c_string bs; some (b ∷ rest))

pub get_elem?-append :
    (xs ys : List ℕ) (i : ℕ) → get_elem? (xs ++ ys) (length xs + i) ≡ get_elem? ys i
get_elem?-append [] ys i = ap (get_elem? ys) (omega arith)
get_elem?-append (x ∷ xs) ys i = ap (get_elem? (x ∷ (xs ++ ys))) same ∙ get_elem?-append xs ys i
  where
    same : length (x ∷ xs) + i ≡ suc (length xs + i)
    same = omega arith

pub store-append :
    (xs ys : List ℕ) (y b : ℕ) → store (xs ++ (y ∷ ys)) (length xs) b ≡ some (xs ++ (b ∷ ys))
store-append [] ys y b = refl
store-append (x ∷ xs) ys y b = rw (store-append xs ys y b) refl

-- A write in the middle of an array replaces as many bytes.
pub write_bytes-append :
    (xs bs old ys : List ℕ) (at : ℕ)
    → at ≡ length xs
    → length bs ≡ length old
    → write_bytes (xs ++ (old ++ ys)) at bs ≡ some (xs ++ (bs ++ ys))
unfolding write_bytes
write_bytes-append xs [] [] ys at e h = refl
write_bytes-append xs [] (o ∷ old) ys at e h = absurd (omega arith)
write_bytes-append xs (b ∷ bs) [] ys at e h = absurd (omega arith)
write_bytes-append xs (b ∷ bs) (o ∷ old) ys at e h =
    rw (e, store-append xs (old ++ ys) o b, ◌>>=◌)
      (rw (← append_assoc xs (b ∷ []) (old ++ ys), ← append_assoc xs (b ∷ []) (bs ++ ys))
        (write_bytes-append (xs ++ b ∷ []) bs old ys (length xs + 1)
          (sym (length-append xs (b ∷ []))) (omega arith)))

-- A read in the middle of an array.
pub read_bytes-append :
    (xs bs ys : List ℕ) (at n : ℕ)
    → at ≡ length xs
    → n ≡ length bs
    → read_bytes (xs ++ (bs ++ ys)) at n ≡ some bs
unfolding read_bytes
read_bytes-append xs [] ys at zero e h = refl
read_bytes-append xs [] ys at (suc n) e h = absurd (omega arith)
read_bytes-append xs (b ∷ bs) ys at zero e h = absurd (omega arith)
read_bytes-append xs (b ∷ bs) ys at (suc n) e h =
    let here : get_elem? (xs ++ (b ∷ (bs ++ ys))) at ≡ some b =
      ap (get_elem? (xs ++ (b ∷ (bs ++ ys)))) (omega (arith, e))
      ∙ get_elem?-append xs (b ∷ (bs ++ ys)) 0 in
    let rest : read_bytes ((xs ++ b ∷ []) ++ (bs ++ ys)) (at + 1) n ≡ some bs =
      read_bytes-append (xs ++ b ∷ []) bs ys (at + 1) n (omega (arith, length-append xs (b ∷ [])))
        (omega arith) in
    let same : read_bytes (xs ++ (b ∷ (bs ++ ys))) (at + 1) n ≡ some bs =
      rw (append_assoc xs (b ∷ []) (bs ++ ys)) at rest in
    rw (here, ◌>>=◌) (rw (same, ◌>>=◌) refl)

-- Bytes written at the start of an array that has room are read back.
pub write_bytes_start :
    (xs bs : List ℕ)
    → length bs ≤ length xs
    → (ys : List ℕ) × (write_bytes xs 0 bs ≡ some ys)
      × (length ys ≡ length xs)
      × (read_bytes ys 0 (length bs) ≡ some bs)
write_bytes_start xs bs h =
    let (old, rest, cut, n, m) = split_at (length bs) xs h in
    (
      bs ++ rest,
      rw cut (write_bytes-append [] bs old rest 0 refl (sym n)),
      omega (arith, length-append bs rest),
      read_bytes-append [] bs rest 0 (length bs) refl refl,
    )

-- As many bytes as fit can be read.
pub read_bytes_start :
    (xs : List ℕ) (n : ℕ)
    → n ≤ length xs
    → (bs : List ℕ) × (read_bytes xs 0 n ≡ some bs) × (length bs ≡ n)
read_bytes_start xs n h =
    let (bs, rest, cut, k, m) = split_at n xs h in
    (bs, rw cut (read_bytes-append [] bs rest 0 n refl (sym k)), k)
