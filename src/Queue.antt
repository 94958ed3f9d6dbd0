-- ===== src/Queue.antt =====
-- mycode/reactor/CircularQueue.h and CircularQueue.cpp: a queue in a circular array that doubles
-- when it is full. `A` is T, `blank` what `new T[n]` leaves in a cell; none of the operations prints
-- but print_queue, whose value is the elements that it prints. `none` is an access outside an array.
pub mod Wrap
pub mod Holds
pub mod Cells
pub mod Grow
pub mod Copy
pub mod Refines
mod Tests
use linux_command.Base.{
  ℕ, zero, suc, ◌+◌, ◌-◌, ◌*◌, ◌%◌, Bool, true, false, Option, none, some, List, [], ◌∷◌, ◌==◌,
  if◌then◌else◌, ◌>>=◌, ltb, leb, get_elem?, store, replicate,
}

pub record CircularQueue (A : Type 0) : Type 0 where
  pub arr : List A
  pub capacity : ℕ
  pub front : ℕ
  pub rear : ℕ
  pub size : ℕ

-- The loop `for (i ...) dst[idx++] = src[i];`, with `n` rounds left.
pub copy_cells : {A : Type 0} → ℕ → List A → ℕ → List A → ℕ → Option (List A)
copy_cells zero src i dst idx = some dst
copy_cells (suc n) src i dst idx = do
  v ← get_elem? src i
  dst' ← store dst idx v
  copy_cells n src (i + 1) dst' (idx + 1)

module _ {A : Type 0} where
  pub is_empty : CircularQueue A → Bool
  is_empty q = q.size == 0

  pub is_full : CircularQueue A → Bool
  is_full q = q.size == q.capacity

  -- The elements in their order, at the start of the new array.
  pub unroll : CircularQueue A → List A → Option (List A)
  unroll q new_arr =
      if leb q.rear q.front
      then (do
        tail ← copy_cells (q.capacity - q.front) q.arr q.front new_arr 0
        copy_cells q.rear q.arr 0 tail (q.capacity - q.front))
      else copy_cells (q.rear - q.front) q.arr q.front new_arr 0

  -- The part of push behind the test for a full array.
  pub append_cell : A → CircularQueue A → Option (CircularQueue A)
  append_cell value q = do
    arr' ← store q.arr q.rear value
    some (record q { arr = arr'; rear = (q.rear + 1) % q.capacity; size = q.size + 1 })

  pub pop : CircularQueue A → CircularQueue A × Bool
  pop q =
      if is_empty q
      then (q, false)
      else (record q { front = (q.front + 1) % q.capacity; size = q.size - 1 }, true)

  -- The null pointer is `none`; a pointer into the array is the value there.
  pub get_front : CircularQueue A → Option (Option A)
  get_front q = if is_empty q then some none else (do v ← get_elem? q.arr q.front; some (some v))

  -- The loop of printQueue.
  pub print_from : ℕ → CircularQueue A → ℕ → Option (List A)
  print_from zero q idx = some []
  print_from (suc n) q idx = do
    v ← get_elem? q.arr idx
    vs ← print_from n q ((idx + 1) % q.capacity)
    some (v ∷ vs)

  pub print_queue : CircularQueue A → Option (List A)
  print_queue q = if is_empty q then some [] else print_from q.size q q.front

  -- The loops of the copy constructor, which leave each element where it stood.
  pub copy_arr : CircularQueue A → List A → Option (List A)
  copy_arr other new_arr =
      if ltb 0 other.size
      then (if leb other.rear other.front
          then (do
            tail ←
                copy_cells (other.capacity - other.front) other.arr other.front new_arr other.front
            copy_cells other.rear other.arr 0 tail 0)
          else copy_cells (other.rear - other.front) other.arr other.front new_arr other.front)
      else some new_arr

module _ {A : Type 0} (blank : A) where
  -- The constructor. The test of init_capacity stands behind the initialisation of `capacity`
  -- and assigns to the parameter only.
  pub new_queue : ℕ → CircularQueue A
  new_queue init_capacity = record {
    arr = replicate init_capacity blank;
    capacity = init_capacity;
    front = 0;
    rear = 0;
    size = 0;
  }

  pub expand : CircularQueue A → Option (CircularQueue A)
  expand q =
      let new_capacity = if q.capacity == 0 then 4 else q.capacity * 2 in
      do
        new_arr ← unroll q (replicate new_capacity blank)
        some (record {
          arr = new_arr;
          capacity = new_capacity;
          front = 0;
          rear = q.size;
          size = q.size;
        })

  pub push : A → CircularQueue A → Option (CircularQueue A)
  push value q = do q' ← if is_full q then expand q else some q; append_cell value q'

  -- The copy constructor.
  pub copy_queue : CircularQueue A → Option (CircularQueue A)
  copy_queue other = do
    arr' ← copy_arr other (replicate other.capacity blank)
    some (record other { arr = arr' })

  -- The copy assignment, after its test `same` for the object itself; the return that it lacks is left
  -- out.
  pub copy_assign : Bool → CircularQueue A → CircularQueue A → Option (CircularQueue A)
  copy_assign true q other = some q
  copy_assign false q other = copy_queue other

module _ {A : Type 0} where
  -- The move constructor, and what is left of the other queue. The array is deleted, so it stands as one
  -- in which every access is outside.
  pub move_queue : CircularQueue A → CircularQueue A × CircularQueue A
  move_queue other =
      (record other { arr = [] }, record { arr = []; capacity = 0; front = 0; rear = 0; size = 0 })

  -- The move assignment, after its test `same` for the object itself; it lacks its return too.
  pub move_assign : Bool → CircularQueue A → CircularQueue A → CircularQueue A × CircularQueue A
  move_assign true q other = (q, other)
  move_assign false q other = move_queue other
