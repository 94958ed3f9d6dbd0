-- ===== src/Deadlock/Locks/Free.antt =====
-- The lock table of deadlock.c with no lock in it.
use linux_command.Base.{
  ℕ, zero, suc, ◌+◌, ◌≤◌, ◌<◌, ◌≡◌, ◌≢◌, refl, true, Option, none, some, List, [], ◌∷◌, ◌>>=◌,
  get_elem?, length, search_loop, arith,
}
use linux_command.Base.Int.{is_zero}
use linux_command.Deadlock.Graph.{Source, TaskGraph}
use linux_command.Deadlock.Locks.{holds, mutex_lock, mutex_unlock}

-- No entry is of a lock, and no thread waits at one.
abbrev pub AllFree : List Source → Type 0
AllFree [] = Unit {0}
AllFree (e ∷ es) = (e.lock_id ≡ 0) × (is_zero e.degress ≡ true) × AllFree es

-- `n` times pthread_mutex_lock and pthread_mutex_unlock by one thread, which never waits.
unfoldable pub rounds : ℕ → TaskGraph → ℕ → ℕ → Option TaskGraph
rounds zero g tid mutex = some g
rounds (suc n) g tid mutex = do
  g₁ ← mutex_lock g tid mutex
  g₂ ← mutex_unlock g₁ mutex
  rounds n g₂ tid mutex

pub search_loop-AllFree :
    (es : List Source) (n i m : ℕ)
    → AllFree es
    → m ≢ 0
    → n ≤ length es
    → search_loop (holds m) es n i ≡ some none
unfolding search_loop
search_loop-AllFree es zero i m f nz h = refl
search_loop-AllFree [] (suc n) i m f nz h = absurd (omega arith)
search_loop-AllFree (e ∷ es) (suc n) i m f nz h =
    ground (arith, search_loop-AllFree es n (i + 1) m f.2 nz (omega arith), f.0)

pub AllFree-at :
    (es : List Source) (i : ℕ)
    → AllFree es
    → i < length es
    → (e : Source) × (get_elem? es i ≡ some e) × (e.lock_id ≡ 0)
AllFree-at [] i f h = absurd (omega arith)
AllFree-at (e ∷ es) zero f h = (e, refl, f.0)
AllFree-at (e ∷ es) (suc i) f h = AllFree-at es i f.2 (omega arith)

pub get_elem?-past : (es : List Source) (i : ℕ) → length es ≤ i → get_elem? es i ≡ none
get_elem?-past [] i h = refl
get_elem?-past (e ∷ es) zero h = absurd (omega arith)
get_elem?-past (e ∷ es) (suc i) h = get_elem?-past es i (omega arith)
