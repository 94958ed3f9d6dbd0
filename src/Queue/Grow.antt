-- ===== src/Queue/Grow.antt =====
-- expand and push.
use linux_command.Base.{
  ℕ, ◌+◌, ◌-◌, ◌*◌, ◌≤◌, ◌<◌, ◌≡◌, refl, sym, ◌∙◌, ap, inl, true, false, some, List, [], ◌∷◌, ◌++◌,
  ◌==◌, if◌then◌else◌, ◌>>=◌, leb, get_elem?, length, length-replicate, replicate, arith,
}
use native.Mathlib.Decide.{dec_lt, ℕ_discrete}
use linux_command.Queue.{CircularQueue, is_full, unroll, expand, push}
use linux_command.Queue.Wrap.{wrap}
use linux_command.Queue.Holds.{Holds, append_cell-Holds}
use linux_command.Queue.Cells.{inside, copy_cells-Copied}

module _ {A : Type 0} where
  -- A full queue comes out in order.
  unroll-Holds :
      (q : CircularQueue A) (xs : List A) (dst : List A)
      → Holds q xs
      → q.size ≡ q.capacity
      → q.capacity ≤ length dst
      → (dst' : List A) × (unroll q dst ≡ some dst')
        × (length dst' ≡ length dst)
        × ((k : ℕ) → k < length xs → get_elem? dst' k ≡ get_elem? xs k)
  unfolding unroll
  unroll-Holds q xs dst h full room =
      let (t1, e1, c1) =
        copy_cells-Copied (q.capacity - q.front) q.arr q.front dst 0
          (omega (arith, h.sized, start_le)) (omega arith) in
      let (t2, e2, c2) =
        copy_cells-Copied q.rear q.arr 0 t1 (q.capacity - q.front)
          (omega (arith, h.sized, turned, start_le)) (omega (arith, c1.sized, turned, start_le)) in
      (
        t2,
        rw (test, e1, ◌>>=◌) e2,
        c2.sized ∙ c1.sized,
        λ k lt. elim (dec_lt k (q.capacity - q.front)) [
          | yes near ↦
              c2.kept k (inl near)
              ∙ ap (get_elem? t1) (zero_plus k)
              ∙ c1.written k near
              ∙ ap (get_elem? q.arr) (straight k near)
              ∙ h.stored k lt
          | no far ↦
              let m = k - (q.capacity - q.front) in
              ap (get_elem? t2) (split k far)
              ∙ c2.written m (omega (arith, turned, start_le, h.counted))
              ∙ ap (get_elem? q.arr) (round k far (omega (arith, h.counted)))
              ∙ h.stored k lt
        ],
      )
    where
      start_le : q.front ≤ q.capacity
      start_le = ground (arith, h.started)

      turned : q.rear ≡ q.front
      turned = h.ended ∙ ap (λ n. wrap q.capacity (q.front + n)) full ∙ around
        where
          around : wrap q.capacity (q.front + q.capacity) ≡ q.front
          around = ground arith

      test : leb q.rear q.front ≡ true
      test = ground (arith, turned)

      zero_plus : (k : ℕ) → k ≡ 0 + k
      zero_plus k = omega arith

      straight : (k : ℕ) → k < q.capacity - q.front → q.front + k ≡ wrap q.capacity (q.front + k)
      straight k near = ground arith

      split :
          (k : ℕ)
          → ¬ k < q.capacity - q.front
          → k ≡ q.capacity - q.front + (k - (q.capacity - q.front))
      split k far = omega arith

      round :
          (k : ℕ)
          → ¬ k < q.capacity - q.front
          → k < q.size
          → 0 + (k - (q.capacity - q.front)) ≡ wrap q.capacity (q.front + k)
      round k far lt = ground (arith, start_le)

module _ {A : Type 0} (blank : A) where
  expand-Holds :
      (q : CircularQueue A) (xs : List A)
      → Holds q xs
      → q.size ≡ q.capacity
      → (q' : CircularQueue A) × (expand blank q ≡ some q') × Holds q' xs × (q'.size < q'.capacity)
  unfolding expand
  expand-Holds q xs h full =
      let cap = if q.capacity == 0 then 4 else q.capacity * 2 in
      let grows : q.capacity < cap = ground arith in
      let size = length-replicate cap blank in
      let (arr', e, len, order) = unroll-Holds q xs (replicate cap blank) h full (omega arith) in
      (
        record { arr = arr'; capacity = cap; front = 0; rear = q.size; size = q.size },
        rw (e, ◌>>=◌) refl,
        record {
          sized = len ∙ size;
          counted = h.counted;
          fits = omega arith;
          started = inl (omega arith);
          ended = inside cap q.size (omega arith);
          stored = λ k lt.
              ap (get_elem? arr') (sym (inside cap k (omega (arith, h.counted)))) ∙ order k lt;
        },
        omega arith,
      )

  pub push-Holds :
      (v : A) (q : CircularQueue A) (xs : List A)
      → Holds q xs
      → (q' : CircularQueue A) × (push blank v q ≡ some q') × Holds q' (xs ++ v ∷ [])
  unfolding push is_full
  push-Holds v q xs h = elim (ℕ_discrete q.size q.capacity) [
    | yes full ↦
        let (q', e, h', room) = expand-Holds q xs h full in
        let (q'', e', h'') = append_cell-Holds v q' xs h' room in
        (q'', rw (test_full full, e, ◌>>=◌) e', h'')
    | no ne ↦
        let (q'', e', h'') = append_cell-Holds v q xs h (omega (arith, h.fits)) in
        (q'', rw (test_room ne, ◌>>=◌) e', h'')
  ]
    where
      test_full : q.size ≡ q.capacity → (q.size == q.capacity) ≡ true
      test_full e = ground arith

      test_room : ¬ (q.size ≡ q.capacity) → (q.size == q.capacity) ≡ false
      test_room ne = ground arith
