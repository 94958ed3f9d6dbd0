-- ===== src/Deadlock/Rela.antt =====
-- The relation table and the hooks of mycode/deadlock/deadlock-default.c: which thread holds which
-- mutex. The graph is that of deadlock.c.
pub mod Owner
pub mod Lookup
pub mod Handover
use linux_command.Base.{
  ℕ, zero, suc, ◌+◌, Bool, true, false, not, ◌&&◌, Option, none, some, List, ◌==◌, if◌then◌else◌,
  ◌>>=◌, get_elem?, store, search_table,
}
use linux_command.Deadlock.Graph.{
  TaskGraph, max, process_node, add_vertex, add_edge, verify_edge, remove_edge,
}

-- struct rela_node_s
pub record Rela : Type 0 where
  pub mtx : ℕ
  pub thid : ℕ

abbrev pub is_of : ℕ → Rela → Bool
is_of mtx r = mtx == r.mtx

abbrev pub is_held : ℕ → ℕ → Rela → Bool
is_held mtx tid r = mtx == r.mtx && tid == r.thid

abbrev pub is_unused : Rela → Bool
is_unused r = r.mtx == 0 && r.thid == 0

-- The thread, or 0.
unfoldable pub search_rela_table : List Rela → ℕ → Option ℕ
search_rela_table table mtx = do
  found ← search_table (is_of mtx) table max
  elim found [ none ↦ some 0 | some i ↦ do r ← get_elem? table i; some r.thid ]

-- The table, and whether the function returned 0 and not -1.
pub del_rela_table : List Rela → ℕ → ℕ → Option (List Rela × Bool)
del_rela_table table mtx tid = do
  found ← search_table (is_held mtx tid) table max
  elim found [
    | none ↦ some (table, false)
    | some i ↦ do table' ← store table i (record { mtx = 0; thid = 0 }); some (table', true)
  ]

pub add_rela_table : List Rela → ℕ → ℕ → Option (List Rela × Bool)
add_rela_table table mtx tid = do
  found ← search_table is_unused table max
  elim found [
    | none ↦ some (table, false)
    | some i ↦ do table' ← store table i (record { mtx = mtx; thid = tid }); some (table', true)
  ]

-- The globals `tg` and `rela_table`.
pub record Detector : Type 0 where
  pub tg : TaskGraph
  pub rela_table : List Rela

-- init_graph sets `num` alone.
pub init_graph : TaskGraph → TaskGraph
init_graph block = record block { num = 0 }

unfoldable pub before_lock : Detector → ℕ → ℕ → Option Detector
before_lock d tid mtx = do
  otherid ← search_rela_table d.rela_table mtx
  if otherid == 0 then some d else (do
    tg ← add_edge d.tg (process_node tid) (process_node otherid)
    some (record d { tg = tg }))

-- The edge that the wait added goes away.
pub drop_wait : TaskGraph → ℕ → ℕ → Option TaskGraph
drop_wait tg tid otherid = if otherid == 0 then some tg else (do
  linked ← verify_edge tg (process_node tid) (process_node otherid)
  if linked then remove_edge tg (process_node tid) (process_node otherid) else some tg)

pub after_lock : Detector → ℕ → ℕ → Option Detector
after_lock d tid mtx = do
  otherid ← search_rela_table d.rela_table mtx
  tg ← drop_wait d.tg tid otherid
  (table, done) ← add_rela_table d.rela_table mtx tid
  some (record { tg = tg; rela_table = table })

pub after_unlock : Detector → ℕ → ℕ → Option Detector
after_unlock d tid mtx = do
  (table, done) ← del_rela_table d.rela_table mtx tid
  some (record d { rela_table = table })
