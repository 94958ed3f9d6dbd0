-- ===== src/Queue/Holds.antt =====
-- The elements that a queue holds, and push, pop, getFront and printQueue on them.
use linux_command.Base.{
  ℕ, zero, suc, ◌+◌, ◌-◌, ◌%◌, ◌≤◌, ◌<◌, ◌≡◌, ◌⊎◌, refl, sym, ◌∙◌, ap, inl, inr, true, false, none,
  some, List, [], ◌∷◌, ◌++◌, ◌==◌, ◌>>=◌, get_elem?, get_elem?-set_self, get_elem?-set_ne, set,
  store-eq-set, length, length-append, length-set, arith,
}
use native.Mathlib.Decide.{ℕ_discrete}
use linux_command.Queue.{
  CircularQueue, is_empty, append_cell, pop, get_front, print_from, print_queue,
}
use linux_command.Queue.Wrap.{
  wrap, mod-wrap, wrap-next, wrap-ne, wrap-shift, wrap-moved, wrap-lt', wrap-lt,
}

module _ {A : Type 0} where
  -- The queue holds the list, from `front` on round the array.
  pub record Holds (q : CircularQueue A) (xs : List A) : Type 0 where
    pub sized : length q.arr ≡ q.capacity
    pub counted : q.size ≡ length xs
    pub fits : q.size ≤ q.capacity
    pub started : (q.front < q.capacity) ⊎ (q.front + q.capacity ≡ 0)
    pub ended : q.rear ≡ wrap q.capacity (q.front + q.size)
    pub stored :
        (k : ℕ) → k < length xs → get_elem? q.arr (wrap q.capacity (q.front + k)) ≡ get_elem? xs k

module _ {A : Type 0} where
  get_elem?-end : (xs : List A) (v : A) → get_elem? (xs ++ v ∷ []) (length xs) ≡ some v
  get_elem?-end [] v = refl
  get_elem?-end (x ∷ xs) v = get_elem?-end xs v

  get_elem?-front :
      (xs ys : List A) (k : ℕ) → k < length xs → get_elem? (xs ++ ys) k ≡ get_elem? xs k
  get_elem?-front [] ys k lt = absurd (omega arith)
  get_elem?-front (x ∷ xs) ys zero lt = refl
  get_elem?-front (x ∷ xs) ys (suc k) lt = get_elem?-front xs ys k (omega arith)

  pub begun :
      (q : CircularQueue A) (xs : List A) → Holds q xs → 0 < q.capacity → q.front < q.capacity
  begun q xs h pos = elim h.started [ inl lt ↦ lt | inr e ↦ absurd (omega arith) ]

  pub append_cell-Holds :
      (v : A) (q : CircularQueue A) (xs : List A)
      → Holds q xs
      → q.size < q.capacity
      → (q' : CircularQueue A) × (append_cell v q ≡ some q') × Holds q' (xs ++ v ∷ [])
  unfolding append_cell
  append_cell-Holds v q xs h room = (
    record q { arr = set q.arr q.rear v; rear = (q.rear + 1) % q.capacity; size = q.size + 1 },
    rw (store-eq-set q.arr q.rear v (omega (arith, h.sized, last)), ◌>>=◌) refl,
    record {
      sized = length-set q.arr q.rear v ∙ h.sized;
      counted = omega (arith, h.counted, length-append xs (v ∷ []));
      fits = omega arith;
      started = h.started;
      ended = ap (λ r. (r + 1) % q.capacity) h.ended ∙ wrap-next q.capacity q.front q.size lt room;
      stored = λ k less. elim (ℕ_discrete k (length xs)) [
        | yes e ↦
            let here : wrap q.capacity (q.front + k) ≡ q.rear =
              ap (λ n. wrap q.capacity (q.front + n)) (e ∙ sym h.counted) ∙ sym h.ended in
            ap (get_elem? (set q.arr q.rear v)) here
            ∙ get_elem?-set_self q.arr q.rear v (omega (arith, h.sized, last))
            ∙ sym (ap (get_elem? (xs ++ v ∷ [])) e ∙ get_elem?-end xs v)
        | no ne ↦
            let inside : k < length xs = omega (arith, length-append xs (v ∷ [])) in
            get_elem?-set_ne q.arr q.rear (wrap q.capacity (q.front + k)) v (λ same.
              wrap-ne q.capacity q.front k q.size lt (omega (arith, h.counted)) room
                (sym h.ended ∙ same))
            ∙ h.stored k inside
            ∙ sym (get_elem?-front xs (v ∷ []) k inside)
      ];
    },
  )
    where
      lt : q.front < q.capacity
      lt = begun q xs h (omega arith)

      last : q.rear < q.capacity
      last = rw h.ended (wrap-lt q.capacity q.front q.size lt room)

  pub pop-empty : (q : CircularQueue A) → Holds q [] → pop q ≡ (q, false)
  unfolding pop is_empty
  pop-empty q h = rw (none_left h.counted) refl
    where
      none_left : q.size ≡ 0 → (q.size == 0) ≡ true
      none_left e = ground arith

  pub pop-Holds :
      (x : A) (xs : List A) (q : CircularQueue A)
      → Holds q (x ∷ xs)
      → (q' : CircularQueue A) × (pop q ≡ (q', true)) × Holds q' xs
  unfolding pop is_empty
  pop-Holds x xs q h = (
    record q { front = (q.front + 1) % q.capacity; size = q.size - 1 },
    rw some_left refl,
    record {
      sized = h.sized;
      counted = omega (arith, h.counted);
      fits = omega (arith, h.fits);
      started = inl (rw next (wrap-lt' q.capacity q.front lt));
      ended = h.ended ∙ shifted ∙ ap (λ f. wrap q.capacity (f + (q.size - 1))) (sym next);
      stored = λ k less.
          ap (λ f. get_elem? q.arr (wrap q.capacity (f + k))) next
          ∙ ap (get_elem? q.arr) (moved k (omega (arith, h.counted, h.fits)))
          ∙ h.stored (suc k) (omega arith);
    },
  )
    where
      lt : q.front < q.capacity
      lt = begun q (x ∷ xs) h (omega (arith, h.counted, h.fits))

      some_left : (q.size == 0) ≡ false
      some_left = ground (arith, h.counted)

      next : (q.front + 1) % q.capacity ≡ wrap q.capacity (q.front + 1)
      next = mod-wrap q.front q.capacity lt

      shifted :
          wrap q.capacity (q.front + q.size)
          ≡ wrap q.capacity (wrap q.capacity (q.front + 1) + (q.size - 1))
      shifted = wrap-shift q.capacity q.front q.size lt (omega (arith, h.counted)) h.fits

      moved :
          (k : ℕ)
          → suc k ≤ q.capacity
          → wrap q.capacity (wrap q.capacity (q.front + 1) + k) ≡ wrap q.capacity (q.front + suc k)
      moved k le = wrap-moved q.capacity q.front k lt le

  pub get_front-empty : (q : CircularQueue A) → Holds q [] → get_front q ≡ some none
  unfolding get_front is_empty
  get_front-empty q h = rw (none_left h.counted) refl
    where
      none_left : q.size ≡ 0 → (q.size == 0) ≡ true
      none_left e = ground arith

  pub get_front-Holds :
      (x : A) (xs : List A) (q : CircularQueue A) → Holds q (x ∷ xs) → get_front q ≡ some (some x)
  unfolding get_front is_empty
  get_front-Holds x xs q h = rw (some_left, at_front, ◌>>=◌) refl
    where
      some_left : (q.size == 0) ≡ false
      some_left = ground (arith, h.counted)

      lt : q.front < q.capacity
      lt = begun q (x ∷ xs) h (omega (arith, h.counted, h.fits))

      start : q.front ≡ wrap q.capacity (q.front + 0)
      start = ground arith

      at_front : get_elem? q.arr q.front ≡ some x
      at_front = ap (get_elem? q.arr) start ∙ h.stored 0 (omega arith)

  print_from-stored :
      (q : CircularQueue A) (ys : List A) (i : ℕ)
      → q.front < q.capacity
      → i + length ys ≤ q.capacity
      → ((k : ℕ)
          → k < length ys
          → get_elem? q.arr (wrap q.capacity (q.front + (i + k))) ≡ get_elem? ys k)
      → print_from (length ys) q (wrap q.capacity (q.front + i)) ≡ some ys
  unfolding print_from
  print_from-stored q [] i lt le h = refl
  print_from-stored q (y ∷ ys) i lt le h =
      let rest = print_from-stored q ys (i + 1) lt (omega arith) (λ k less.
        ap (λ n. get_elem? q.arr (wrap q.capacity (q.front + n))) (plus_one k)
        ∙ h (suc k) (omega arith)) in
      rw (first, ◌>>=◌, wrap-next q.capacity q.front i lt (omega arith), rest, ◌>>=◌) refl
    where
      plus_zero : i ≡ i + 0
      plus_zero = omega arith

      plus_one : (k : ℕ) → i + 1 + k ≡ i + suc k
      plus_one k = omega arith

      first : get_elem? q.arr (wrap q.capacity (q.front + i)) ≡ some y
      first =
          ap (λ n. get_elem? q.arr (wrap q.capacity (q.front + n))) plus_zero ∙ h 0 (omega arith)

  pub print_queue-Holds : (q : CircularQueue A) (xs : List A) → Holds q xs → print_queue q ≡ some xs
  unfolding print_queue is_empty
  print_queue-Holds q [] h = rw (none_left h.counted) refl
    where
      none_left : q.size ≡ 0 → (q.size == 0) ≡ true
      none_left e = ground arith
  print_queue-Holds q (x ∷ xs) h =
      let walk = print_from-stored q (x ∷ xs) 0 lt (omega (arith, h.counted, h.fits)) (λ k less.
        ap (λ n. get_elem? q.arr (wrap q.capacity (q.front + n))) (zero_plus k)
        ∙ h.stored k less) in
      rw some_left (
        ap (λ n. print_from n q q.front) h.counted
        ∙ ap (print_from (length (x ∷ xs)) q) start
        ∙ walk)
    where
      some_left : (q.size == 0) ≡ false
      some_left = ground (arith, h.counted)

      lt : q.front < q.capacity
      lt = begun q (x ∷ xs) h (omega (arith, h.counted, h.fits))

      zero_plus : (k : ℕ) → 0 + k ≡ k
      zero_plus k = omega arith

      start : q.front ≡ wrap q.capacity (q.front + 0)
      start = ground arith
