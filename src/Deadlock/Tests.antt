-- ===== src/Deadlock/Tests.antt =====
-- The theorems on the deadlock detectors at concrete graphs and tables.
use linux_command.Base.{
  ℕ, zero, suc, ◌+◌, ◌≤◌, ◌<◌, ◌≡◌, ◌≢◌, ◌↔◌, ◌⊎◌, refl, true, some, none, List, [], ◌∷◌, ◌==◌,
  ◌&&◌, if◌then◌else◌, replicate, length, get_elem?, some_inj, Bool, search_table, search_loop,
  arith,
}
use mathlib.Core.Path.{subst}
use linux_command.Base.Int.{is_zero}
use linux_command.Deadlock.Graph.{
  create_vertex, add_vertex, append_vertex, append_edge, Vertex, TaskGraph, max, process_node,
  add_edge, search_vertex, is_vertex,
}
use linux_command.Deadlock.Graph.Links.{IsValid, IsSingle, Edge, OnCycle, Found}
use linux_command.Deadlock.Graph.Grow.{Grows}
use linux_command.Deadlock.Graph.Edges.{Lengthens, add_edge_links}
use linux_command.Deadlock.Cycle.{Search, check_dead_lock}
use linux_command.Deadlock.Cycle.Check.{IsSized, check_dead_lock-detects}
use linux_command.Deadlock.Cycle.Exact.{Cyclic, check_dead_lock_exact}
use linux_command.Deadlock.Locks.{start_check}
use linux_command.Deadlock.Locks.Free.{AllFree, rounds}
use linux_command.Deadlock.Locks.Leak.{lockidx_leak}
use linux_command.Deadlock.Rela.{
  Rela, Detector, search_rela_table, add_rela_table, del_rela_table, before_lock, after_lock,
  after_unlock,
}
use linux_command.Deadlock.Rela.Lookup.{search-add_rela_table, search-del_rela_table}
use linux_command.Deadlock.Rela.Owner.{owner, has_unused, Absent, Unique}
use linux_command.Deadlock.Rela.Handover.{after_lock-owner, after_unlock-owner, handover_keeps_edge}

-- Threads 1 and 2 wait for one another.
abbrev two_threads : TaskGraph
two_threads = record {
  list =
      record { s = process_node 1; next = process_node 2 ∷ [] }
      ∷ record { s = process_node 2; next = process_node 1 ∷ [] }
      ∷ replicate 98 (record { s = process_node 0; next = [] });
  num = 2;
  locklist = replicate max (process_node 0);
  lockidx = 0;
}

abbrev no_marks : Search
no_marks = record {
  visited = replicate max 0;
  path = replicate (max + 1) none;
  k = 0;
  deadlock = 0;
  printed = [];
}

two_threads-IsValid : IsValid two_threads
unfolding search_vertex search_table search_loop
two_threads-IsValid = record { size = refl; bound = omega arith; closed = closed }
  where
    closed :
        (i : ℕ) (v : Vertex)
        → i < 2
        → get_elem? two_threads.list i ≡ some v
        → Found two_threads v.next
    closed zero v lt e =
        subst (λ (w : Vertex). Found two_threads w.next) (some_inj _ v e) ((1, refl), tt)
    closed (suc zero) v lt e =
        subst (λ (w : Vertex). Found two_threads w.next) (some_inj _ v e) ((0, refl), tt)
    closed (suc (suc i)) v lt e = absurd (omega arith)

two_threads-IsSingle : IsSingle two_threads
two_threads-IsSingle = record { one = one }
  where
    one : (i : ℕ) (v : Vertex) → i < 2 → get_elem? two_threads.list i ≡ some v → length v.next ≤ 1
    one zero v lt e = subst (λ (w : Vertex). length w.next ≤ 1) (some_inj _ v e) (omega arith)
    one (suc zero) v lt e = subst (λ (w : Vertex). length w.next ≤ 1) (some_inj _ v e) (omega arith)
    one (suc (suc i)) v lt e = absurd (omega arith)

no_marks-IsSized : IsSized no_marks
no_marks-IsSized = record { marks = refl; cells = refl; flag = omega arith }

check_dead_lock-detects_example :
    (t : Search) × (check_dead_lock two_threads no_marks ≡ some t)
    × IsSized t
    × ((i : ℕ) → i < 2 → OnCycle two_threads i → t.deadlock ≡ 1)
check_dead_lock-detects_example =
    check_dead_lock-detects two_threads no_marks two_threads-IsValid no_marks-IsSized

check_dead_lock_exact_example :
    (t : Search) × (check_dead_lock two_threads no_marks ≡ some t)
    × ((t.deadlock ≡ 1) ↔ Cyclic two_threads)
check_dead_lock_exact_example =
    check_dead_lock_exact two_threads no_marks two_threads-IsValid two_threads-IsSingle
      no_marks-IsSized

add_edge_links_example :
    (h : TaskGraph) × (i : ℕ) × (j : ℕ) × (add_edge two_threads (process_node 2) (process_node 3)
      ≡ some h)
    × Grows two_threads h
    × (search_vertex h (process_node 3) ≡ some (some j))
    × (i < h.num)
    × ((ed : Edge h i j) × (is_vertex (process_node 2) ed.ver ≡ true))
    × Lengthens two_threads h i (process_node 3)
add_edge_links_example =
    add_edge_links two_threads (process_node 2) (process_node 3) two_threads-IsValid (omega arith)

free-AllFree : (n : ℕ) → AllFree (replicate n (process_node 0))
unfolding is_zero
free-AllFree zero = tt
free-AllFree (suc n) = (refl, refl, free-AllFree n)

lockidx_leak_example :
    ((102 ≤ max + 1)
      × (h : TaskGraph) × (rounds 102 (start_check two_threads) 1 7 ≡ some h)
      × (h.lockidx ≡ 102))
    ⊎ ((max + 1 < 102) × (rounds 102 (start_check two_threads) 1 7 ≡ none))
lockidx_leak_example = lockidx_leak two_threads 1 7 102 (free-AllFree 100) refl (omega arith)

-- Thread 1 holds mutex 7.
abbrev held_table : List Rela
held_table = record { mtx = 7; thid = 1 } ∷ replicate 99 (record { mtx = 0; thid = 0 })

abbrev one_holder : Detector
one_holder = record {
  tg = record {
    list = replicate 100 (record { s = process_node 0; next = [] });
    num = 0;
    locklist = [];
    lockidx = 0;
  };
  rela_table = held_table;
}

held_table-Unique : Unique held_table
held_table-Unique = (λ h. absent 99, unused 99)
  where
    absent : (n : ℕ) → Absent (replicate n (record { mtx = 0; thid = 0 })) 7
    absent zero = tt
    absent (suc n) = (omega arith, absent n)

    unused : (n : ℕ) → Unique (replicate n (record { mtx = 0; thid = 0 }))
    unused zero = tt
    unused (suc n) = (λ h. absurd (h refl), unused n)

held_table-Absent : Absent held_table 8
held_table-Absent = (omega arith, absent 99)
  where
    absent : (n : ℕ) → Absent (replicate n (record { mtx = 0; thid = 0 })) 8
    absent zero = tt
    absent (suc n) = (omega arith, absent n)

after_lock-owner_example :
    (e : Detector) × (after_lock one_holder 2 8 ≡ some e)
    × (e.tg ≡ one_holder.tg)
    × (max ≡ length e.rela_table)
    × ((other : ℕ)
        → other ≢ 0
        → search_rela_table e.rela_table other
          ≡ some (if other == 8 then 2 else owner held_table other))
after_lock-owner_example = after_lock-owner one_holder 2 8 refl tt held_table-Absent

after_unlock-owner_example :
    (e : Detector) × (after_unlock one_holder 1 7 ≡ some e)
    × (e.tg ≡ one_holder.tg)
    × (max ≡ length e.rela_table)
    × ((other : ℕ)
        → other ≢ 0
        → search_rela_table e.rela_table other
          ≡ some (if other == 7 then 0 else owner held_table other))
after_unlock-owner_example =
    after_unlock-owner one_holder 1 7 refl held_table-Unique (unfold owner in refl) (omega arith)

-- What before_lock leaves when thread 2 is to wait for mutex 7.
abbrev waited : Detector
waited = record one_holder {
  tg = record one_holder.tg {
    list =
        record { s = process_node 2; next = process_node 1 ∷ [] }
        ∷ record { s = process_node 1; next = [] }
        ∷ replicate 98 (record { s = process_node 0; next = [] });
    num = 2;
  };
}

waited-before_lock : before_lock one_holder 2 7 ≡ some waited
unfolding before_lock search_rela_table search_table search_loop add_edge add_vertex append_edge
    append_vertex create_vertex search_vertex
waited-before_lock = refl

handover_keeps_edge_example :
    (e f : Detector) × (after_unlock waited 1 7 ≡ some e)
    × (after_lock e 2 7 ≡ some f)
    × (add_edge one_holder.tg (process_node 2) (process_node 1) ≡ some f.tg)
handover_keeps_edge_example =
    handover_keeps_edge one_holder waited 2 1 7 refl held_table-Unique (unfold owner in refl)
      (omega arith) (omega arith) waited-before_lock

search-add_rela_table_example :
    (before : ℕ) × (table : List Rela) × (search_rela_table held_table 8 ≡ some before)
    × (add_rela_table held_table 8 2 ≡ some (table, has_unused held_table))
    × (search_rela_table table 8 ≡ some (if has_unused held_table && 8 == 8 then 2 else before))
search-add_rela_table_example =
    search-add_rela_table held_table 8 2 8 refl held_table-Absent (omega arith)

search-del_rela_table_example :
    (holder before : ℕ) × (done : Bool) × (table : List Rela) × (search_rela_table held_table 7
      ≡ some holder)
    × (search_rela_table held_table 7 ≡ some before)
    × (del_rela_table held_table 7 1 ≡ some (table, done))
    × (done ≡ (holder == 1))
    × (search_rela_table table 7 ≡ some (if done && 7 == 7 then 0 else before))
search-del_rela_table_example =
    search-del_rela_table held_table 7 1 7 refl held_table-Unique (omega arith) (omega arith)
      (omega arith)
