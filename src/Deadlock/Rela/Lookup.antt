-- ===== src/Deadlock/Rela/Lookup.antt =====
-- The relation table of deadlock-default.c: what a lookup finds behind an addition or a deletion.
use linux_command.Base.{
  ℕ, ◌≡◌, ◌≢◌, refl, sym, ◌∙◌, ap, inl, inr, Bool, false, ◌&&◌, some, List, [], ◌∷◌, ◌==◌, ==_iff,
  if◌then◌else◌, Bool-cases, length, arith,
}
use linux_command.Deadlock.Graph.{max}
use linux_command.Deadlock.Rela.{
  Rela, is_held, is_unused, search_rela_table, del_rela_table, add_rela_table,
}
use linux_command.Deadlock.Rela.Owner.{
  owner, claim, release, has_unused, has_held, Absent, Unique, rela_table_lem, owner-release,
  length-claim, length-release,
}

owner-added :
    (rs : List Rela) (mtx tid other : ℕ)
    → Absent rs mtx
    → other ≢ 0
    → owner (claim rs mtx tid) other
      ≡ (if has_unused rs && other == mtx then tid else owner rs other)
unfolding owner claim has_unused
owner-added [] mtx tid other a ne = refl
owner-added (r ∷ rs) mtx tid other a ne = elim (Bool-cases (is_unused r)) [
  | inl e ↦ rw e (ground arith)
  | inr e ↦ rw e (ground (arith, owner-added rs mtx tid other a.1 ne))
]

has_held-Absent : (rs : List Rela) (mtx tid : ℕ) → Absent rs mtx → has_held rs mtx tid ≡ false
unfolding has_held
has_held-Absent [] mtx tid a = refl
has_held-Absent (r ∷ rs) mtx tid a = ground (arith, has_held-Absent rs mtx tid a.1)

has_held-owner :
    (rs : List Rela) (mtx tid : ℕ)
    → Unique rs
    → mtx ≢ 0
    → tid ≢ 0
    → has_held rs mtx tid ≡ (owner rs mtx == tid)
unfolding has_held owner
has_held-owner [] mtx tid u nz tz = ground arith
has_held-owner (r ∷ rs) mtx tid u nz tz = elim (Bool-cases (mtx == r.mtx)) [
  | inl e ↦
      let same : mtx ≡ r.mtx = (==_iff mtx r.mtx).0 e in
      let gone : has_held rs mtx tid ≡ false =
        has_held-Absent rs mtx tid (rw same (u.0 (omega arith))) in
      ground (arith, gone)
  | inr e ↦ ground (arith, has_held-owner rs mtx tid u.1)
]

release-unheld :
    (rs : List Rela) (mtx tid : ℕ) → has_held rs mtx tid ≡ false → release rs mtx tid ≡ rs
unfolding has_held release
release-unheld [] mtx tid e = refl
release-unheld (r ∷ rs) mtx tid e = elim (Bool-cases (is_held mtx tid r)) [
  | inl h ↦ absurd (ground arith)
  | inr h ↦ rw h (ap (λ xs. r ∷ xs) (release-unheld rs mtx tid (rw h at e)))
]

owner-deleted :
    (rs : List Rela) (mtx tid other : ℕ)
    → Unique rs
    → mtx ≢ 0
    → tid ≢ 0
    → other ≢ 0
    → owner (release rs mtx tid) other
      ≡ (if has_held rs mtx tid && other == mtx then 0 else owner rs other)
owner-deleted rs mtx tid other u nz tz ne = elim (Bool-cases (has_held rs mtx tid)) [
  | inl h ↦
      let holds : owner rs mtx ≡ tid = ground (arith, has_held-owner rs mtx tid u nz tz) in
      rw h (owner-release rs mtx tid other u holds nz ne)
  | inr h ↦ rw h (ap (λ xs. owner xs other) (release-unheld rs mtx tid h))
]

-- add_rela_table of a mutex without an entry, on a table of the full length, returns 0 just where an
-- entry is unused. Then a lookup of the mutex finds the thread, and a lookup of any other mutex but
-- NULL finds what it found before; else every lookup does.
pub search-add_rela_table :
    (rs : List Rela) (mtx tid other : ℕ)
    → max ≡ length rs
    → Absent rs mtx
    → other ≢ 0
    → (before : ℕ) × (table : List Rela) × (search_rela_table rs other ≡ some before)
      × (add_rela_table rs mtx tid ≡ some (table, has_unused rs))
      × (search_rela_table table other
          ≡ some (if has_unused rs && other == mtx then tid else before))
search-add_rela_table rs mtx tid other size a ne = (
  owner rs other,
  claim rs mtx tid,
  (rela_table_lem rs other 0 size).0,
  (rela_table_lem rs mtx tid size).1,
  (rela_table_lem (claim rs mtx tid) other 0 (size ∙ sym (length-claim rs mtx tid))).0
      ∙ ap some (owner-added rs mtx tid other a ne),
)

-- del_rela_table of a mutex and a thread, neither of them 0, on a table of the full length in which no
-- mutex has two entries: it returns 0 just where a lookup of the mutex finds that thread. Then a
-- lookup of the mutex finds nobody, and a lookup of any other mutex but NULL finds what it found
-- before; else every lookup does.
pub search-del_rela_table :
    (rs : List Rela) (mtx tid other : ℕ)
    → max ≡ length rs
    → Unique rs
    → mtx ≢ 0
    → tid ≢ 0
    → other ≢ 0
    → (holder before : ℕ) × (done : Bool) × (table : List Rela) × (search_rela_table rs mtx
        ≡ some holder)
      × (search_rela_table rs other ≡ some before)
      × (del_rela_table rs mtx tid ≡ some (table, done))
      × (done ≡ (holder == tid))
      × (search_rela_table table other ≡ some (if done && other == mtx then 0 else before))
search-del_rela_table rs mtx tid other size u nz tz ne = (
  owner rs mtx,
  owner rs other,
  has_held rs mtx tid,
  release rs mtx tid,
  (rela_table_lem rs mtx 0 size).0,
  (rela_table_lem rs other 0 size).0,
  (rela_table_lem rs mtx tid size).2,
  has_held-owner rs mtx tid u nz tz,
  (rela_table_lem (release rs mtx tid) other 0 (size ∙ sym (length-release rs mtx tid))).0
      ∙ ap some (owner-deleted rs mtx tid other u nz tz ne),
)
