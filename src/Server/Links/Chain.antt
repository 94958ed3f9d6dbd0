-- ===== src/Server/Links/Chain.antt =====
-- LL_ADD as the work queue uses it: on chains of nodes.
use linux_command.Base.{
  ℕ, ◌≡◌, ◌≢◌, refl, ◌∙◌, ap, Option, none, some, List, [], ◌∷◌, ==_self, arith,
}
use linux_command.Server.Links.{Node, Heap, update, Linked, ll_add}

abbrev pub NotIn : ℕ → List ℕ → Type 0
NotIn p [] = Unit {0}
NotIn p (q ∷ qs) = (p ≢ q) × NotIn p qs

-- From `p` on the heap holds the nodes `xs` in this order, none twice, each with a null `prev`.
abbrev pub Chain : Heap → Option ℕ → List ℕ → Type 0
Chain h p [] = p ≡ none
Chain h p (x ∷ xs) = (p ≡ some x) × ((h x).prev ≡ none) × NotIn x xs × Chain h (h x).next xs

pub update_self : (h : Heap) (p : ℕ) (n : Node) → update h p n p ≡ n
unfolding update
update_self h p n = rw (==_self p) refl

pub update_ne : (h : Heap) (p q : ℕ) (n : Node) → p ≢ q → update h p n q ≡ h q
unfolding update
update_ne h p q n ne = ground arith

-- A node outside the chain may change.
Chain-update :
    (h : Heap) (p : Option ℕ) (xs : List ℕ) (q : ℕ) (n : Node)
    → NotIn q xs
    → Chain h p xs
    → Chain (update h q n) p xs
Chain-update h p [] q n out c = c
Chain-update h p (x ∷ xs) q n (ne, out) (head, prev, away, rest) = (
  head,
  ap (λ (m : Node). m.prev) (update_ne h q x n ne) ∙ prev,
  away,
  rw (update_ne h q x n ne) (Chain-update h (h x).next xs q n out rest),
)

-- LL_ADD of a node outside the list puts it at the front.
pub ll_add-Chain :
    (l : Linked) (xs : List ℕ) (item : ℕ)
    → NotIn item xs
    → Chain l.heap l.list xs
    → Chain (ll_add item l).heap (ll_add item l).list (item ∷ xs)
unfolding ll_add
ll_add-Chain l xs item out c = (
  refl,
  ap (λ (m : Node). m.prev) (update_self l.heap item _),
  out,
  rw (update_self l.heap item (record { prev = none; next = l.list }))
      (Chain-update l.heap l.list xs item _ out c),
)
