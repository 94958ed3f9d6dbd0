-- ===== src/Deadlock/Rela/Owner.antt =====
-- The relation table of deadlock-default.c as a map from mutexes to the threads that hold them.
use linux_command.Base.{
  ℕ, ◌≡◌, ◌≢◌, refl, inl, inr, Bool, true, false, Option, none, some, List, [], ◌∷◌, ◌==◌,
  if◌then◌else◌, ◌>>=◌, Bool-cases, get_elem?, store, length, index_of, search_table-index_of,
  arith,
}
use linux_command.Deadlock.Graph.{max}
use linux_command.Deadlock.Rela.{
  Rela, is_of, is_held, is_unused, search_rela_table, del_rela_table, add_rela_table,
}

-- The map that the table stands for: the thread of the first entry, or 0.
unfoldable pub owner : List Rela → ℕ → ℕ
owner [] mtx = 0
owner (r ∷ rs) mtx = if mtx == r.mtx then r.thid else owner rs mtx

-- The table with the first unused entry taken.
unfoldable pub claim : List Rela → ℕ → ℕ → List Rela
claim [] mtx tid = []
claim (r ∷ rs) mtx tid =
    if is_unused r then record { mtx = mtx; thid = tid } ∷ rs else r ∷ claim rs mtx tid

-- The table with the first entry of the pair cleared.
unfoldable pub release : List Rela → ℕ → ℕ → List Rela
release [] mtx tid = []
release (r ∷ rs) mtx tid =
    if is_held mtx tid r then record { mtx = 0; thid = 0 } ∷ rs else r ∷ release rs mtx tid

unfoldable pub has_unused : List Rela → Bool
has_unused [] = false
has_unused (r ∷ rs) = if is_unused r then true else has_unused rs

-- Whether the table has the pair.
unfoldable pub has_held : List Rela → ℕ → ℕ → Bool
has_held [] mtx tid = false
has_held (r ∷ rs) mtx tid = if is_held mtx tid r then true else has_held rs mtx tid

abbrev pub HasUnused : List Rela → Type 0
HasUnused [] = ⊥
HasUnused (r ∷ rs) = if is_unused r then Unit {0} else HasUnused rs

-- No entry is of the mutex.
abbrev pub Absent : List Rela → ℕ → Type 0
Absent [] mtx = Unit {0}
Absent (r ∷ rs) mtx = (mtx ≢ r.mtx) × Absent rs mtx

-- No mutex but NULL has two entries.
abbrev pub Unique : List Rela → Type 0
Unique [] = Unit {0}
Unique (r ∷ rs) = (r.mtx ≢ 0 → Absent rs r.mtx) × Unique rs

search-owner :
    (rs : List Rela) (mtx : ℕ)
    → elim (index_of (is_of mtx) rs) [
      | none ↦ some 0
      | some i ↦ (do r ← get_elem? rs i; some r.thid)
    ]
      ≡ some (owner rs mtx)
unfolding index_of owner
search-owner [] mtx = refl
search-owner (r ∷ rs) mtx = ground (arith, search-owner rs mtx)

abbrev added_at : List Rela → ℕ → ℕ → Option ℕ → Option (List Rela × Bool)
added_at rs mtx tid found = elim found [
  | none ↦ some (rs, false)
  | some i ↦ (do rs' ← store rs i (record { mtx = mtx; thid = tid }); some (rs', true))
]

claim-add :
    (rs : List Rela) (mtx tid : ℕ)
    → added_at rs mtx tid (index_of is_unused rs) ≡ some (claim rs mtx tid, has_unused rs)
unfolding index_of claim has_unused
claim-add [] mtx tid = refl
claim-add (r ∷ rs) mtx tid = elim (Bool-cases (is_unused r)) [
  | inl e ↦ rw e refl
  | inr e ↦ rw e (ground (arith, claim-add rs mtx tid))
]

abbrev removed_at : List Rela → ℕ → ℕ → Option ℕ → Option (List Rela × Bool)
removed_at rs mtx tid found = elim found [
  | none ↦ some (rs, false)
  | some i ↦ (do rs' ← store rs i (record { mtx = 0; thid = 0 }); some (rs', true))
]

release-del :
    (rs : List Rela) (mtx tid : ℕ)
    → removed_at rs mtx tid (index_of (is_held mtx tid) rs)
      ≡ some (release rs mtx tid, has_held rs mtx tid)
unfolding index_of release has_held
release-del [] mtx tid = refl
release-del (r ∷ rs) mtx tid = elim (Bool-cases (is_held mtx tid r)) [
  | inl e ↦ rw e refl
  | inr e ↦ rw e (ground (arith, release-del rs mtx tid))
]

-- With the table at its size, a lookup reads the map; an addition claims an unused entry, if one is
-- left, and reports whether one was; a deletion releases the pair, and reports whether it was there.
pub rela_table_lem :
    (rs : List Rela) (mtx tid : ℕ)
    → max ≡ length rs
    → (search_rela_table rs mtx ≡ some (owner rs mtx))
      × (add_rela_table rs mtx tid ≡ some (claim rs mtx tid, has_unused rs))
      × (del_rela_table rs mtx tid ≡ some (release rs mtx tid, has_held rs mtx tid))
unfolding search_rela_table add_rela_table del_rela_table
rela_table_lem rs mtx tid e = (
  rw (search_table-index_of (is_of mtx) rs max e, ◌>>=◌) (search-owner rs mtx),
  rw (search_table-index_of is_unused rs max e, ◌>>=◌) (claim-add rs mtx tid),
  rw (search_table-index_of (is_held mtx tid) rs max e, ◌>>=◌) (release-del rs mtx tid),
)

pub length-claim : (rs : List Rela) (mtx tid : ℕ) → length (claim rs mtx tid) ≡ length rs
unfolding claim
length-claim [] mtx tid = refl
length-claim (r ∷ rs) mtx tid = ground (arith, length-claim rs mtx tid)

pub length-release : (rs : List Rela) (mtx tid : ℕ) → length (release rs mtx tid) ≡ length rs
unfolding release
length-release [] mtx tid = refl
length-release (r ∷ rs) mtx tid = ground (arith, length-release rs mtx tid)

pub owner-Absent : (rs : List Rela) (mtx : ℕ) → Absent rs mtx → owner rs mtx ≡ 0
unfolding owner
owner-Absent [] mtx a = refl
owner-Absent (r ∷ rs) mtx a = ground (arith, owner-Absent rs mtx a.1)

pub owner-claim :
    (rs : List Rela) (mtx tid other : ℕ)
    → HasUnused rs
    → Absent rs mtx
    → other ≢ 0
    → owner (claim rs mtx tid) other ≡ (if other == mtx then tid else owner rs other)
unfolding owner claim
owner-claim [] mtx tid other h a ne = absurd h
owner-claim (r ∷ rs) mtx tid other h a ne = elim (Bool-cases (is_unused r)) [
  | inl e ↦ rw e (ground arith)
  | inr e ↦ rw e (ground (arith, owner-claim rs mtx tid other (rw e at h) a.1 ne))
]

pub owner-release :
    (rs : List Rela) (mtx tid other : ℕ)
    → Unique rs
    → owner rs mtx ≡ tid
    → mtx ≢ 0
    → other ≢ 0
    → owner (release rs mtx tid) other ≡ (if other == mtx then 0 else owner rs other)
unfolding owner release
owner-release [] mtx tid other u o nz ne = ground arith
owner-release (r ∷ rs) mtx tid other u o nz ne =
    ground (arith, owner-release rs mtx tid other u.1, owner-Absent rs mtx, u.0, o)
