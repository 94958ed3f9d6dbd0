-- ===== src/Server/Links/Remove.antt =====
-- LL_REMOVE on a list whose nodes are linked both ways.
use linux_command.Base.{
  ℕ, ◌≡◌, ◌≢◌, refl, sym, ◌∙◌, ap, Option, none, some, List, [], ◌∷◌, ◌++◌, false, ◌==◌, ==_self,
  if◌then◌else◌, arith,
}
use linux_command.Server.Links.{
  Node, Heap, update, Linked, unlink_prev, unlink_next, is_head, ll_remove,
}
use linux_command.Server.Links.Chain.{update_self, update_ne}
use linux_command.Server.Links.Doubly.{
  Doubly, first, last, Away-head, NotIn-append, start_ne, item_prev, item_rest, last-Away, Removed,
  joined,
}

-- The two repairs of LL_REMOVE, with the nodes around the item at hand.
abbrev fix_prev : Heap → Option ℕ → Option ℕ → Heap
fix_prev h none next = h
fix_prev h (some p) next = update h p (record (h p) { next = next })

abbrev fix_next : Heap → Option ℕ → Option ℕ → Heap
fix_next h none prev = h
fix_next h (some n) prev = update h n (record (h n) { prev = prev })

unlink_prev-fix :
    (h : Heap) (item : ℕ) (o : Option ℕ)
    → (h item).prev ≡ o
    → unlink_prev h item ≡ fix_prev h o (h item).next
unfolding unlink_prev
unlink_prev-fix h item none e = rw (unlink_prev, e) refl
unlink_prev-fix h item (some p) e = rw (unlink_prev, e) refl

unlink_next-fix :
    (h : Heap) (item : ℕ) (o : Option ℕ)
    → (h item).next ≡ o
    → unlink_next h item ≡ fix_next h o (h item).prev
unfolding unlink_next
unlink_next-fix h item none e = rw (unlink_next, e) refl
unlink_next-fix h item (some n) e = rw (unlink_next, e) refl

fix_prev-ne : (h : Heap) (o next : Option ℕ) (x : ℕ) → o ≢ some x → fix_prev h o next x ≡ h x
fix_prev-ne h none next x ne = refl
fix_prev-ne h (some p) next x ne = update_ne h p x _ (λ e. ne (ap some e))

fix_next-ne : (h : Heap) (o prev : Option ℕ) (x : ℕ) → o ≢ some x → fix_next h o prev x ≡ h x
fix_next-ne h none prev x ne = refl
fix_next-ne h (some n) prev x ne = update_ne h n x _ (λ e. ne (ap some e))

fix_prev-at :
    (h : Heap) (o next : Option ℕ) (x : ℕ)
    → o ≡ some x
    → fix_prev h o next x ≡ record (h x) { next = next }
fix_prev-at h o next x e = rw e (update_self h x (record (h x) { next = next }))

fix_next-at :
    (h : Heap) (o prev : Option ℕ) (x : ℕ)
    → o ≡ some x
    → fix_next h o prev x ≡ record (h x) { prev = prev }
fix_next-at h o prev x e = rw e (update_self h x (record (h x) { prev = prev }))

module _ (h : Heap) (item : ℕ) (prev next : Option ℕ) (no_prev : prev ≢ some item)
    (no_next : next ≢ some item) where
  fixed : Heap
  fixed = fix_next (fix_prev h prev next) next prev

  unlinked :
      (h item).prev ≡ prev → (h item).next ≡ next → unlink_next (unlink_prev h item) item ≡ fixed
  unfolding fixed
  unlinked e e' =
      let kept = fix_prev-ne h prev next item no_prev in
      let step : unlink_prev h item ≡ fix_prev h prev next =
        unlink_prev-fix h item prev e ∙ ap (fix_prev h prev) e' in
      ap (λ g. unlink_next g item) step
      ∙ unlink_next-fix (fix_prev h prev next) item next (ap (λ (m : Node). m.next) kept ∙ e')
      ∙ ap (fix_next (fix_prev h prev next) next) (ap (λ (m : Node). m.prev) kept ∙ e)

  fixed_item : fixed item ≡ h item
  unfolding fixed
  fixed_item =
      fix_next-ne (fix_prev h prev next) next prev item no_next
      ∙ fix_prev-ne h prev next item no_prev

  fixed-Removed :
      (n : Node)
      → ((x : ℕ) → prev ≡ some x → next ≢ some x)
      → Removed h (update fixed item n) item prev next
  unfolding fixed
  fixed-Removed n apart = record {
    other = λ x ne np nn.
        update_ne fixed item x n (λ e. ne (sym e))
        ∙ fix_next-ne (fix_prev h prev next) next prev x nn
        ∙ fix_prev-ne h prev next x np;
    before = λ x e.
        update_ne fixed item x n (λ e'. no_prev (e ∙ ap some (sym e')))
        ∙ fix_next-ne (fix_prev h prev next) next prev x (apart x e)
        ∙ fix_prev-at h prev next x e;
    behind = λ x e.
        update_ne fixed item x n (λ e'. no_next (e ∙ ap some (sym e')))
        ∙ fix_next-at (fix_prev h prev next) next prev x e
        ∙ ap (λ (m : Node). record m { prev = prev })
            (fix_prev-ne h prev next x (λ e'. apart x e' e));
  }

-- The variable `list` behind LL_REMOVE.
head_after :
    (h : Heap) (list next : Option ℕ) (xs : List ℕ) (item : ℕ) (ys : List ℕ)
    → Doubly h none list (xs ++ item ∷ ys)
    → (if is_head list item then next else list) ≡ first xs next
head_after h list next [] item ys (head, _, _, _) = rw (head, ==_self item) refl
head_after h list next (x ∷ xs) item ys (head, _, away, _) =
    let (_, (ne, _)) = NotIn-append x xs (item ∷ ys) away in
    let miss : (x == item) ≡ false = ground arith in rw (head, miss) refl

-- LL_REMOVE of any node of a list that is linked both ways: the nodes before it and behind it are then
-- a list linked both ways, in their order, and both links of the node are null.
pub ll_remove-Doubly :
    (l : Linked) (xs : List ℕ) (item : ℕ) (ys : List ℕ)
    → Doubly l.heap none l.list (xs ++ item ∷ ys)
    → Doubly (ll_remove item l).heap none (ll_remove item l).list (xs ++ ys)
      × ((ll_remove item l).heap item ≡ record { prev = none; next = none })
unfolding ll_remove
ll_remove-Doubly l xs item ys d =
    let h = l.heap in
    let next = (h item).next in
    let prev = last none xs in
    let (out, tail) = item_rest h none l.list xs item ys d in
    let away = last-Away h none l.list xs item ys tt d in
    let no_prev = (Away-head prev item ys away).0 in
    let no_next = start_ne h (some item) next ys item tail out in
    let apart : (x : ℕ) → prev ≡ some x → next ≢ some x =
      λ x e. start_ne h (some item) next ys x tail (rw e at (Away-head prev item ys away).1) in
    let heap =
      unlinked h item prev next no_prev no_next (item_prev h none l.list xs item ys d) refl in
    let list =
      ap (λ q. if is_head l.list item then q else l.list)
        (ap (λ (m : Node). m.next) (fixed_item h item prev next no_prev no_next))
      ∙ head_after h l.list next xs item ys d in
    rw (heap, list)
      (
        joined h _ item prev next
            (fixed-Removed h item prev next no_prev no_next (record { prev = none; next = none })
              apart)
            none l.list xs ys refl refl away d,
        update_self _ item _,
      )
