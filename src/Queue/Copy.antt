-- ===== src/Queue/Copy.antt =====
-- The copy constructor and the move constructor.
use linux_command.Base.{
  none, ◌==◌, ℕ, suc, ◌+◌, ◌-◌, ◌≤◌, ◌<◌, ◌≡◌, refl, sym, ◌∙◌, ap, inr, true, false, some, List, [],
  ◌∷◌, ◌>>=◌, ltb, leb, get_elem?, length, length-replicate, replicate, arith,
}
use native.Mathlib.Decide.{dec_lt}
use linux_command.Queue.{CircularQueue, copy_arr, copy_queue, get_front, is_empty, move_queue}
use linux_command.Queue.Wrap.{wrap}
use linux_command.Queue.Holds.{Holds, begun}
use linux_command.Queue.Cells.{copy_cells-Copied}

module _ {A : Type 0} (blank : A) where
  copy_arr-Holds :
      (q : CircularQueue A) (xs : List A)
      → Holds q xs
      → (arr' : List A) × (copy_arr q (replicate q.capacity blank) ≡ some arr')
        × Holds (record q { arr = arr' }) xs
  unfolding copy_arr
  copy_arr-Holds q [] h = (
    replicate q.capacity blank,
    rw (empty h.counted) refl,
    record {
      sized = length-replicate q.capacity blank;
      counted = h.counted;
      fits = h.fits;
      started = h.started;
      ended = h.ended;
      stored = λ k lt. absurd (omega arith);
    },
  )
    where
      empty : q.size ≡ 0 → ltb 0 q.size ≡ false
      empty e = ground arith
  copy_arr-Holds q (x ∷ xs) h =
      let fresh = replicate q.capacity blank in
      let len : length fresh ≡ q.capacity = length-replicate q.capacity blank in
      elim (dec_lt q.front q.rear) [
        | yes straight ↦
            let (t, e, c) =
              copy_cells-Copied (q.rear - q.front) q.arr q.front fresh q.front
                (omega (arith, h.sized, rear_le)) (omega (arith, rear_le)) in
            (
              t,
              rw (some_left, not_turned straight) e,
              record {
                sized = c.sized ∙ len;
                counted = h.counted;
                fits = h.fits;
                started = h.started;
                ended = h.ended;
                stored = λ k lt.
                    ap (get_elem? t) (sym (direct k straight lt))
                    ∙ c.written k (short k straight lt)
                    ∙ ap (get_elem? q.arr) (direct k straight lt)
                    ∙ h.stored k lt;
              },
            )
        | no turned ↦
            let (t1, e1, c1) =
              copy_cells-Copied (q.capacity - q.front) q.arr q.front fresh q.front
                (omega (arith, h.sized, lt)) (omega (arith, lt)) in
            let (t2, e2, c2) =
              copy_cells-Copied q.rear q.arr 0 t1 0 (omega (arith, h.sized, rear_le))
                (omega (arith, c1.sized, rear_le)) in
            (
              t2,
              rw (some_left, is_turned turned, e1, ◌>>=◌) e2,
              record {
                sized = c2.sized ∙ c1.sized ∙ len;
                counted = h.counted;
                fits = h.fits;
                started = h.started;
                ended = h.ended;
                stored = λ k lt. elim (dec_lt (q.front + k) q.capacity) [
                  | yes near ↦
                      ap (get_elem? t2) (at_near k near)
                      ∙ c2.kept (q.front + k) (inr (omega arith))
                      ∙ c1.written k (omega arith)
                      ∙ ap (get_elem? q.arr) (sym (at_near k near))
                      ∙ h.stored k lt
                  | no far ↦
                      let p = q.front + k - q.capacity in
                      ap (get_elem? t2) (at_far k far)
                      ∙ c2.written p (under k turned far lt)
                      ∙ ap (get_elem? q.arr) (sym (at_far k far))
                      ∙ h.stored k lt
                ];
              },
            )
      ]
    where
      lt : q.front < q.capacity
      lt = begun q (x ∷ xs) h (omega (arith, h.counted, h.fits))

      some_left : ltb 0 q.size ≡ true
      some_left = ground (arith, h.counted)

      rear_le : q.rear ≤ q.capacity
      rear_le = ground (arith, h.ended, h.fits)

      not_turned : q.front < q.rear → leb q.rear q.front ≡ false
      not_turned l = ground arith

      is_turned : ¬ q.front < q.rear → leb q.rear q.front ≡ true
      is_turned l = ground arith

      direct :
          (k : ℕ)
          → q.front < q.rear
          → k < suc (length xs)
          → q.front + k ≡ wrap q.capacity (q.front + k)
      direct k l less = ground (arith, h.ended, h.fits, h.counted)

      short : (k : ℕ) → q.front < q.rear → k < suc (length xs) → k < q.rear - q.front
      short k l less = ground (arith, h.ended, h.fits, h.counted)

      at_near : (k : ℕ) → q.front + k < q.capacity → wrap q.capacity (q.front + k) ≡ q.front + k
      at_near k near = ground arith

      at_far :
          (k : ℕ)
          → ¬ q.front + k < q.capacity
          → wrap q.capacity (q.front + k) ≡ 0 + (q.front + k - q.capacity)
      at_far k far = ground arith

      under :
          (k : ℕ)
          → ¬ q.front < q.rear
          → ¬ q.front + k < q.capacity
          → k < suc (length xs)
          → q.front + k - q.capacity < q.rear
      under k t far less = ground (arith, h.ended, h.fits, h.counted)

  -- The copy of a queue returns, and holds the elements that the queue holds, in their order.
  pub copy_queue-Holds :
      (q : CircularQueue A) (xs : List A)
      → Holds q xs
      → (q' : CircularQueue A) × (copy_queue blank q ≡ some q') × Holds q' xs
  unfolding copy_queue
  copy_queue-Holds q xs h =
      let (arr', e, h') = copy_arr-Holds q xs h in (record q { arr = arr' }, rw (e, ◌>>=◌) refl, h')

module _ {A : Type 0} where
  -- A queue with elements is lost by a move: its front is read from the deleted array.
  move_queue-get_front :
      (q : CircularQueue A) (x : A) (xs : List A)
      → Holds q (x ∷ xs)
      → get_front (move_queue q).0 ≡ none
  unfolding move_queue get_front is_empty
  move_queue-get_front q x xs h = rw some_left refl
    where
      some_left : (q.size == 0) ≡ false
      some_left = ground (arith, h.counted)
