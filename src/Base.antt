-- ===== src/Base.antt =====
-- The names that every component shares: the libraries', passed on, and those of the children.
mod Tests
mod Lists
mod Search
mod Memory
pub mod Int
pub use Tests.*
pub use Lists.*
unfoldable pub use Search.{search_loop, search_table, index_of}
pub use Search.{
  IsHit, search_table-IsHit, search_table-miss, search_table-total, search_table-finds,
  search_table-index_of,
}
unfoldable pub use Memory.{write_bytes, read_bytes, c_string}
pub use Memory.{
  write_bytes_start, read_bytes_start, get_elem?-append, store-append, write_bytes-append,
  read_bytes-append,
}
pub use Prim.Native.Nat.{ℕ, zero, suc, min, ◌+◌, ◌-◌, ◌*◌, ◌/◌, ◌%◌, ◌^◌, ◌≤◌, ◌<◌}
pub use mathlib.Core.Path.{◌≡◌, refl, sym, ap, ◌∙◌}
pub use mathlib.Core.Logic.{◌≢◌, ◌↔◌, ◌⊎◌, inl, inr}
pub use mathlib.Core.Bool.{Bool, true, false, not, ◌&&◌, ◌||◌}
pub use mathlib.Core.Option.{Option, none, some}
pub use mathlib.Core.List.{List, [], ◌∷◌, ◌++◌, map, append-nil, append_assoc}
pub use native.Mathlib.Omega.{arith}
