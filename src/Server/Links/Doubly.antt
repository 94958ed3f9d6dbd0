-- ===== src/Server/Links/Doubly.antt =====
-- Lists whose nodes are linked both ways, and what joins the parts around a removed node.
use linux_command.Base.{
  ℕ, ◌≡◌, ◌≢◌, refl, sym, ◌∙◌, ap, Option, none, some, some_inj, List, [], ◌∷◌, ◌++◌,
}
use linux_command.Server.Links.{Node, Heap}
use linux_command.Server.Links.Chain.{NotIn}

-- From `p` on the heap holds the nodes `xs` in this order, none twice. The `prev` of the first is
-- `back`, and that of each other is the node before it.
abbrev pub Doubly : Heap → Option ℕ → Option ℕ → List ℕ → Type 0
Doubly h back p [] = p ≡ none
Doubly h back p (x ∷ xs) =
    (p ≡ some x) × ((h x).prev ≡ back) × NotIn x xs × Doubly h (some x) (h x).next xs

-- Where a list starts that has `xs` before the node `p`.
abbrev pub first : List ℕ → Option ℕ → Option ℕ
first [] p = p
first (x ∷ xs) p = some x

-- The node before a list that has `xs` before it.
abbrev pub last : Option ℕ → List ℕ → Option ℕ
last back [] = back
last back (x ∷ xs) = last (some x) xs

-- The node, if there is one, is not among `zs`.
abbrev pub Away : Option ℕ → List ℕ → Type 0
Away none zs = Unit {0}
Away (some x) zs = NotIn x zs

pub Away-head : (o : Option ℕ) (x : ℕ) (zs : List ℕ) → Away o (x ∷ zs) → (o ≢ some x) × Away o zs
Away-head none x zs a = (λ e. cc e, tt)
Away-head (some y) x zs (ne, a) = (λ e. ne (some_inj y x e), a)

pub NotIn-append : (x : ℕ) (xs ys : List ℕ) → NotIn x (xs ++ ys) → NotIn x xs × NotIn x ys
NotIn-append x [] ys out = (tt, out)
NotIn-append x (z ∷ xs) ys (ne, out) = let (a, b) = NotIn-append x xs ys out in ((ne, a), b)

last_ne :
    (back : Option ℕ) (xs : List ℕ) (x : ℕ) → back ≢ some x → NotIn x xs → last back xs ≢ some x
last_ne back [] x ne out = ne
last_ne back (z ∷ xs) x ne (nz, out) = last_ne (some z) xs x (λ e. nz (sym (some_inj z x e))) out

pub start_ne :
    (h : Heap) (back p : Option ℕ) (ys : List ℕ) (x : ℕ)
    → Doubly h back p ys
    → NotIn x ys
    → p ≢ some x
start_ne h back p [] x e out = λ e'. cc (e, e')
start_ne h back p (y ∷ ys) x (head, _, _, _) (ne, out) = λ e. ne (some_inj x y (sym e ∙ head))

start-Away :
    (h : Heap) (back p : Option ℕ) (y : ℕ) (ys : List ℕ) → Doubly h back p (y ∷ ys) → Away p ys
start-Away h back p y ys (head, _, away, _) = rw head away

-- What the list says about the node `item` behind `xs`.
pub item_prev :
    (h : Heap) (back p : Option ℕ) (xs : List ℕ) (item : ℕ) (ys : List ℕ)
    → Doubly h back p (xs ++ item ∷ ys)
    → (h item).prev ≡ last back xs
item_prev h back p [] item ys (_, prev, _, _) = prev
item_prev h back p (x ∷ xs) item ys (_, _, _, rest) =
    item_prev h (some x) (h x).next xs item ys rest

pub item_rest :
    (h : Heap) (back p : Option ℕ) (xs : List ℕ) (item : ℕ) (ys : List ℕ)
    → Doubly h back p (xs ++ item ∷ ys)
    → NotIn item ys × Doubly h (some item) (h item).next ys
item_rest h back p [] item ys (_, _, away, rest) = (away, rest)
item_rest h back p (x ∷ xs) item ys (_, _, _, rest) =
    item_rest h (some x) (h x).next xs item ys rest

pub last-Away :
    (h : Heap) (back p : Option ℕ) (xs : List ℕ) (item : ℕ) (ys : List ℕ)
    → Away back (xs ++ item ∷ ys)
    → Doubly h back p (xs ++ item ∷ ys)
    → Away (last back xs) (item ∷ ys)
last-Away h back p [] item ys a d = a
last-Away h back p (x ∷ xs) item ys a (_, _, away, rest) =
    last-Away h (some x) (h x).next xs item ys away rest

-- How the heap `g` behind the removal of `item` differs from `h`: `prev` and `next` are the nodes
-- around it.
pub record Removed (h g : Heap) (item : ℕ) (prev next : Option ℕ) : Type 0 where
  pub other : (x : ℕ) → x ≢ item → prev ≢ some x → next ≢ some x → g x ≡ h x
  pub before : (x : ℕ) → prev ≡ some x → g x ≡ record (h x) { next = next }
  pub behind : (x : ℕ) → next ≡ some x → g x ≡ record (h x) { prev = prev }

module _ (h g : Heap) (item : ℕ) (before behind : Option ℕ)
    (r : Removed h g item before behind) where
  tail_kept :
      (back p : Option ℕ) (zs : List ℕ)
      → NotIn item zs
      → Away before zs
      → Away behind zs
      → Doubly h back p zs
      → Doubly g back p zs
  tail_kept back p [] out a b d = d
  tail_kept back p (z ∷ zs) (ne, out) a b (head, prev, away, rest) =
      let (a₀, a₁) = Away-head before z zs a in
      let (b₀, b₁) = Away-head behind z zs b in
      let same = r.other z (λ e. ne (sym e)) a₀ b₀ in
      (
        head,
        ap (λ (m : Node). m.prev) same ∙ prev,
        away,
        rw same (tail_kept (some z) (h z).next zs out a₁ b₁ rest),
      )

  behind_joined :
      (ys : List ℕ)
      → NotIn item ys
      → Away before ys
      → Doubly h (some item) behind ys
      → Doubly g before behind ys
  behind_joined [] out a d = d
  behind_joined (y ∷ ys) (_, out) a (head, prev, away, rest) =
      let same = r.behind y head in
      (
        head,
        ap (λ (m : Node). m.prev) same,
        away,
        rw same (
            tail_kept (some y) (h y).next ys out (Away-head before y ys a).1
              (start-Away h (some item) behind y ys (head, prev, away, rest)) rest),
      )

  pub joined :
      (back p : Option ℕ) (xs ys : List ℕ)
      → behind ≡ (h item).next
      → last back xs ≡ before
      → Away before (item ∷ ys)
      → Doubly h back p (xs ++ item ∷ ys)
      → Doubly g back (first xs behind) (xs ++ ys)
  joined back p [] ys next e a (_, _, out, rest) =
      rw e (behind_joined ys out (Away-head before item ys a).1 (rw next rest))
  joined back p (x ∷ []) ys next e a (head, prev, away, rest) =
      let same = r.before x (sym e) in
      (
        refl,
        ap (λ (m : Node). m.prev) same ∙ prev,
        away.1,
        rw same (joined (some x) (h x).next [] ys next e a rest),
      )
  joined back p (x ∷ z ∷ ws) ys next e a (head, prev, away, rest) =
      let (out, (not_item, out')) = NotIn-append x (z ∷ ws) (item ∷ ys) away in
      let (_, tail) = item_rest h (some x) (h x).next (z ∷ ws) item ys rest in
      let same =
        r.other x not_item
          (rw (← e) (last_ne (some z) ws x (λ e'. out.0 (sym (some_inj z x e'))) out.1))
          (rw next (start_ne h (some item) (h item).next ys x tail out')) in
      (
        refl,
        ap (λ (m : Node). m.prev) same ∙ prev,
        NotIn-joined x (z ∷ ws) ys out out',
        rw (same, rest.0) (joined (some x) (h x).next (z ∷ ws) ys next e a rest),
      )
    where
      NotIn-joined : (x : ℕ) (xs ys : List ℕ) → NotIn x xs → NotIn x ys → NotIn x (xs ++ ys)
      NotIn-joined x [] ys o o' = o'
      NotIn-joined x (y ∷ xs) ys (ne, o) o' = (ne, NotIn-joined x xs ys o o')
