-- ===== src/Server/Links.antt =====
-- The macros LL_ADD and LL_REMOVE of server_mulport_epoll.c, over a heap of nodes.
pub mod Chain
pub mod Doubly
pub mod Remove
use linux_command.Base.{ℕ, Bool, true, false, Option, none, some, ◌==◌, if◌then◌else◌}

-- The two links of a worker or a job.
pub record Node : Type 0 where
  pub prev : Option ℕ
  pub next : Option ℕ

abbrev pub Heap : Type 0
Heap = ℕ → Node

unfoldable pub update : Heap → ℕ → Node → Heap
update h p n q = if q == p then n else h q

-- The heap and the variable `list`.
pub record Linked : Type 0 where
  pub heap : Heap
  pub list : Option ℕ

-- The head that was there keeps its `prev`.
pub ll_add : ℕ → Linked → Linked
ll_add item l = record {
  heap = update l.heap item (record { prev = none; next = l.list });
  list = some item;
}

-- if (item->prev != NULL) item->prev->next = item->next
pub unlink_prev : Heap → ℕ → Heap
unlink_prev h item = elim (h item).prev [
  | none ↦ h
  | some p ↦ update h p (record (h p) { next = (h item).next })
]

-- if (item->next != NULL) item->next->prev = item->prev
pub unlink_next : Heap → ℕ → Heap
unlink_next h item = elim (h item).next [
  | none ↦ h
  | some n ↦ update h n (record (h n) { prev = (h item).prev })
]

abbrev pub is_head : Option ℕ → ℕ → Bool
is_head none item = false
is_head (some p) item = p == item

pub ll_remove : ℕ → Linked → Linked
ll_remove item l =
    let h = unlink_next (unlink_prev l.heap item) item in
    let list = if is_head l.list item then (h item).next else l.list in
    record { heap = update h item (record { prev = none; next = none }); list = list }
