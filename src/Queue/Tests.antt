-- ===== src/Queue/Tests.antt =====
-- The circular queue on concrete calls.
use linux_command.Base.{
  ℕ, ◌≡◌, refl, true, some, List, [], ◌∷◌, ◌<◌, ◌+◌, get_elem?, suc, zero, inl, arith,
}
use linux_command.Queue.{
  CircularQueue, copy_cells, new_queue, is_empty, is_full, unroll, expand, append_cell, push, pop,
  get_front, print_from, print_queue, copy_queue,
}
use linux_command.Queue.Wrap.{wrap}
use linux_command.Queue.Holds.{Holds}
use linux_command.Queue.Copy.{copy_queue-Holds}
use linux_command.Queue.Refines.{
  Call, append, remove, first, count, show, done, front, size, items, call, calls, calls_list,
  calls-new_queue,
}

-- The array is full and its elements go round its end when the fourth element is appended.
abbrev round_the_end : List (Call ℕ)
round_the_end =
    append 1
    ∷ append 2
    ∷ append 3
    ∷ remove
    ∷ append 4
    ∷ append 5
    ∷ show
    ∷ remove
    ∷ first
    ∷ count
    ∷ []

round_the_end_lem :
    calls 0 round_the_end (new_queue 0 3)
    ≡ some (
        done true
        ∷ done true
        ∷ done true
        ∷ done true
        ∷ done true
        ∷ done true
        ∷ items (2 ∷ 3 ∷ 4 ∷ 5 ∷ [])
        ∷ done true
        ∷ front (some 3)
        ∷ size 3
        ∷ [])
unfolding calls call push pop get_front print_queue print_from new_queue is_empty is_full expand
    unroll copy_cells append_cell
round_the_end_lem = refl

calls-new_queue_example : calls 0 round_the_end (new_queue 0 3) ≡ some (calls_list round_the_end [])
calls-new_queue_example = calls-new_queue 0 3 round_the_end

-- Two elements that go round the end of three cells.
abbrev turned : CircularQueue ℕ
turned = record { arr = 8 ∷ 9 ∷ 7 ∷ []; capacity = 3; front = 2; rear = 1; size = 2 }

turned_at : (k : ℕ) → k < 2 → get_elem? turned.arr (wrap 3 (2 + k)) ≡ get_elem? (7 ∷ 8 ∷ []) k
turned_at zero lt = refl
turned_at (suc zero) lt = refl
turned_at (suc (suc k)) lt = absurd (omega arith)

turned-Holds : Holds turned (7 ∷ 8 ∷ [])
turned-Holds = record {
  sized = refl;
  counted = refl;
  fits = omega arith;
  started = inl (omega arith);
  ended = refl;
  stored = turned_at;
}

copy_queue-Holds_example :
    (q' : CircularQueue ℕ) × (copy_queue 0 turned ≡ some q') × Holds q' (7 ∷ 8 ∷ [])
copy_queue-Holds_example = copy_queue-Holds 0 turned (7 ∷ 8 ∷ []) turned-Holds
