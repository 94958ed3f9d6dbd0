-- ===== src/Deadlock/Rela/Handover.antt =====
-- The hooks of deadlock-default.c and the map of holders, through a lock that changes hands.
use linux_command.Base.{
  ℕ, ◌≡◌, ◌≢◌, refl, sym, ◌∙◌, ap, inl, inr, false, some, List, [], ◌∷◌, ◌==◌, ==_iff, ==_self,
  if◌then◌else◌, ◌>>=◌, >>=-eq-some, some_inj, Bool-cases, length, arith,
}
use linux_command.Deadlock.Graph.{TaskGraph, max, process_node, add_edge}
use linux_command.Deadlock.Rela.{
  Rela, is_unused, Detector, search_rela_table, before_lock, drop_wait, after_lock, after_unlock,
}
use linux_command.Deadlock.Rela.Owner.{
  owner, claim, release, HasUnused, Absent, Unique, rela_table_lem, owner-Absent, owner-claim,
  owner-release, length-claim, length-release,
}

-- The holder's entry goes, and leaves room.
release-Absent :
    (rs : List Rela) (mtx tid : ℕ)
    → Unique rs
    → owner rs mtx ≡ tid
    → mtx ≢ 0
    → tid ≢ 0
    → Absent (release rs mtx tid) mtx × HasUnused (release rs mtx tid)
unfolding owner release
release-Absent [] mtx tid u o nz ne = absurd (omega arith)
release-Absent (r ∷ rs) mtx tid u o nz ne = elim (Bool-cases (mtx == r.mtx)) [
  | inl e ↦
      let same : mtx ≡ r.mtx = (==_iff mtx r.mtx).0 e in
      let held : r.thid ≡ tid = rw e at o in
      rw (e, ← held, ==_self r.thid) ((nz, rw same (u.0 (omega arith))), tt)
  | inr e ↦
      let (a, h) = release-Absent rs mtx tid u.1 (rw e at o) nz ne in
      rw e ((ground arith, a), keep h)
]
  where
    keep : HasUnused (release rs mtx tid) → HasUnused (r ∷ release rs mtx tid)
    keep h = elim (Bool-cases (is_unused r)) [ inl e ↦ rw e tt | inr e ↦ rw e h ]

-- With the table at its size and an unused entry in it, and no entry of the mutex, after_lock
-- returns, leaves the graph alone and makes the thread the holder; the holders of the other mutexes
-- stay.
pub after_lock-owner :
    (d : Detector) (tid mtx : ℕ)
    → max ≡ length d.rela_table
    → HasUnused d.rela_table
    → Absent d.rela_table mtx
    → (e : Detector) × (after_lock d tid mtx ≡ some e)
      × (e.tg ≡ d.tg)
      × (max ≡ length e.rela_table)
      × ((other : ℕ)
          → other ≢ 0
          → search_rela_table e.rela_table other
            ≡ some (if other == mtx then tid else owner d.rela_table other))
unfolding after_lock drop_wait
after_lock-owner d tid mtx size room away =
    let (look, add, _) = rela_table_lem d.rela_table mtx tid size in
    let free = owner-Absent d.rela_table mtx away in
    let size' = size ∙ sym (length-claim d.rela_table mtx tid) in
    (
      record { tg = d.tg; rela_table = claim d.rela_table mtx tid },
      rw (look, ◌>>=◌) (rw free (rw (add, ◌>>=◌) refl)),
      refl,
      size',
      λ other ne.
          (rela_table_lem (claim d.rela_table mtx tid) other 0 size').0
          ∙ ap some (owner-claim d.rela_table mtx tid other room away ne),
    )

-- With the table at its size and no mutex twice in it, after_unlock by the holder of a mutex other
-- than NULL returns, leaves the graph alone and leaves the mutex with no holder; the holders of the
-- other mutexes stay.
pub after_unlock-owner :
    (d : Detector) (tid mtx : ℕ)
    → max ≡ length d.rela_table
    → Unique d.rela_table
    → owner d.rela_table mtx ≡ tid
    → mtx ≢ 0
    → (e : Detector) × (after_unlock d tid mtx ≡ some e)
      × (e.tg ≡ d.tg)
      × (max ≡ length e.rela_table)
      × ((other : ℕ)
          → other ≢ 0
          → search_rela_table e.rela_table other
            ≡ some (if other == mtx then 0 else owner d.rela_table other))
unfolding after_unlock
after_unlock-owner d tid mtx size once holds nz =
    let (look, add, del) = rela_table_lem d.rela_table mtx tid size in
    let size' = size ∙ sym (length-release d.rela_table mtx tid) in
    (
      record d { rela_table = release d.rela_table mtx tid },
      rw (del, ◌>>=◌) refl,
      refl,
      size',
      λ other ne.
          (rela_table_lem (release d.rela_table mtx tid) other 0 size').0
          ∙ ap some (owner-release d.rela_table mtx tid other once holds nz ne),
    )

-- A thread that waited for the holder of a mutex keeps its edge to it: with the table at its size
-- and no mutex twice in it, when before_lock by the waiter, after_unlock by the holder and
-- after_lock by the waiter follow one another, the calls return and the graph at the end is the one
-- with the waiter's edge.
pub handover_keeps_edge :
    (d d' : Detector) (waiter holder mtx : ℕ)
    → max ≡ length d.rela_table
    → Unique d.rela_table
    → owner d.rela_table mtx ≡ holder
    → mtx ≢ 0
    → holder ≢ 0
    → before_lock d waiter mtx ≡ some d'
    → (e f : Detector) × (after_unlock d' holder mtx ≡ some e)
      × (after_lock e waiter mtx ≡ some f)
      × (add_edge d.tg (process_node waiter) (process_node holder) ≡ some f.tg)
unfolding before_lock after_unlock
handover_keeps_edge d d' waiter holder mtx size once holds nz ne b =
    let (look, _, _) = rela_table_lem d.rela_table mtx waiter size in
    let b₁ = rw (look, ◌>>=◌) at b in
    let busy : (owner d.rela_table mtx == 0) ≡ false = ground (arith, holds) in
    let (tg, edge, d'_eq) =
      >>=-eq-some (add_edge d.tg (process_node waiter) (process_node (owner d.rela_table mtx))) _
        (rw busy at b₁) in
    rw (sym (some_inj _ d' d'_eq)) (rest tg (rw holds at edge))
  where
    rest :
        (tg : TaskGraph)
        → add_edge d.tg (process_node waiter) (process_node holder) ≡ some tg
        → let d' : Detector = record d { tg = tg } in
          (e f : Detector) × (after_unlock d' holder mtx ≡ some e)
          × (after_lock e waiter mtx ≡ some f)
          × (add_edge d.tg (process_node waiter) (process_node holder) ≡ some f.tg)
    rest tg edge =
        let (_, _, del) = rela_table_lem d.rela_table mtx holder size in
        let (away, room) = release-Absent d.rela_table mtx holder once holds nz ne in
        let e : Detector = record { tg = tg; rela_table = release d.rela_table mtx holder } in
        let (f, took, same, _, _) =
          after_lock-owner e waiter mtx (size ∙ sym (length-release d.rela_table mtx holder)) room
            away in
        (e, f, rw (del, ◌>>=◌) refl, took, edge ∙ ap some (sym same))
