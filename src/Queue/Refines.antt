-- ===== src/Queue/Refines.antt =====
-- Sequences of calls, on the circular array and on a list.
use linux_command.Base.{
  ℕ, ◌≡◌, refl, ap, Bool, true, false, Option, none, some, List, [], ◌∷◌, ◌++◌, ◌>>=◌, ◌+◌, ◌<◌,
  ◌⊎◌, zero, suc, inl, inr, length, length-replicate, arith,
}
use linux_command.Queue.{CircularQueue, new_queue, push, pop, get_front, print_queue}
use linux_command.Queue.Wrap.{wrap}
use linux_command.Queue.Holds.{
  Holds, pop-empty, pop-Holds, get_front-empty, get_front-Holds, print_queue-Holds,
}
use linux_command.Queue.Grow.{push-Holds}

pub data Call (A : Type 0) : Type 0 where
  append : A → Call A
  remove : Call A
  first : Call A
  count : Call A
  show : Call A

pub data Output (A : Type 0) : Type 0 where
  done : Bool → Output A
  front : Option A → Output A
  size : ℕ → Output A
  items : List A → Output A

started_at : (n : ℕ) → (0 < n) ⊎ (0 + n ≡ 0)
started_at zero = inr refl
started_at (suc n) = inl (omega arith)

ended_at : (n : ℕ) → 0 ≡ wrap n 0
ended_at n = ground arith

module _ {A : Type 0} where
  unfoldable pub call : A → Call A → CircularQueue A → Option (CircularQueue A × Output A)
  call blank (append v) q = do q' ← push blank v q; some (q', done true)
  call blank remove q = let (q', r) = pop q in some (q', done r)
  call blank first q = do r ← get_front q; some (q, front r)
  call blank count q = some (q, size q.size)
  call blank show q = do vs ← print_queue q; some (q, items vs)

  unfoldable pub calls : A → List (Call A) → CircularQueue A → Option (List (Output A))
  calls blank [] q = some []
  calls blank (c ∷ cs) q = do (q', r) ← call blank c q; rs ← calls blank cs q'; some (r ∷ rs)

  -- The same on a list.
  pub call_list : Call A → List A → List A × Output A
  call_list (append v) xs = (xs ++ v ∷ [], done true)
  call_list remove [] = ([], done false)
  call_list remove (x ∷ xs) = (xs, done true)
  call_list first [] = ([], front none)
  call_list first (x ∷ xs) = (x ∷ xs, front (some x))
  call_list count xs = (xs, size (length xs))
  call_list show xs = (xs, items xs)

  pub calls_list : List (Call A) → List A → List (Output A)
  calls_list [] xs = []
  calls_list (c ∷ cs) xs = let (xs', r) = call_list c xs in r ∷ calls_list cs xs'

  call-Holds :
      (blank : A) (c : Call A) (q : CircularQueue A) (xs : List A)
      → Holds q xs
      → (q' : CircularQueue A) × (call blank c q ≡ some (q', (call_list c xs).1))
        × Holds q' (call_list c xs).0
  unfolding call call_list
  call-Holds blank (append v) q xs h =
      let (q', e, h') = push-Holds blank v q xs h in (q', rw (e, ◌>>=◌) refl, h')
  call-Holds blank remove q [] h = (q, rw (pop-empty q h) refl, h)
  call-Holds blank remove q (x ∷ xs) h = let (q', e, h') = pop-Holds x xs q h in (q', rw e refl, h')
  call-Holds blank first q [] h = (q, rw (get_front-empty q h, ◌>>=◌) refl, h)
  call-Holds blank first q (x ∷ xs) h = (q, rw (get_front-Holds x xs q h, ◌>>=◌) refl, h)
  call-Holds blank count q xs h = (q, ap (λ n. some (q, size n)) h.counted, h)
  call-Holds blank show q xs h = (q, rw (print_queue-Holds q xs h, ◌>>=◌) refl, h)

  calls-Holds :
      (blank : A) (cs : List (Call A)) (q : CircularQueue A) (xs : List A)
      → Holds q xs
      → calls blank cs q ≡ some (calls_list cs xs)
  unfolding calls calls_list
  calls-Holds blank [] q xs h = refl
  calls-Holds blank (c ∷ cs) q xs h =
      let (q', e, h') = call-Holds blank c q xs h in
      rw (e, ◌>>=◌, calls-Holds blank cs q' (call_list c xs).0 h', ◌>>=◌) refl

  new_queue-Holds : (blank : A) (n : ℕ) → Holds (new_queue blank n) []
  unfolding new_queue
  new_queue-Holds blank n = record {
    sized = length-replicate n blank;
    counted = refl;
    fits = omega arith;
    started = started_at n;
    ended = ended_at n;
    stored = λ k lt. absurd (omega arith);
  }

  -- On a new queue of any capacity, 0 included, every sequence of calls returns what it returns on a
  -- list: no call goes outside the array, and the queue grows, goes round its array and keeps the order
  -- unseen.
  pub calls-new_queue :
      (blank : A) (capacity : ℕ) (cs : List (Call A))
      → calls blank cs (new_queue blank capacity) ≡ some (calls_list cs [])
  calls-new_queue blank capacity cs =
      calls-Holds blank cs (new_queue blank capacity) [] (new_queue-Holds blank capacity)
