-- ===== src/Coroutine/Turns.antt =====
-- The turns that the coroutines of ucontext-backup.c take.
use linux_command.Base.{
  ℕ, zero, suc, ◌+◌, ◌%◌, ◌<◌, ◌≡◌, refl, sym, ◌∙◌, ap, ◌⊎◌, inl, inr, true, false, some, List, [],
  ◌∷◌, ◌++◌, append-nil, append_assoc, ◌>>=◌, ltb, get_elem?, set, store-eq-set, length, length-set,
  arith,
}
use linux_command.Coroutine.{
  Context, fresh, suspended, returned, Line, opens, closes, Coroutines, limit, run_loop, resume_at,
  swap_to, schedule,
}

-- No function has ended.
abbrev pub AllLive : List Context → Type 0
AllLive [] = Unit {0}
AllLive (fresh ∷ cs) = AllLive cs
AllLive (suspended ∷ cs) = AllLive cs
AllLive (returned ∷ cs) = ⊥

-- The coroutines that printed their first line, in order.
abbrev pub openers : List Line → List ℕ
openers [] = []
openers (opens i ∷ ls) = i ∷ openers ls
openers (closes i ∷ ls) = openers ls

-- `n` turns from count `c` on: the coroutines 0, 1 and 2 in a circle.
abbrev pub turns : ℕ → ℕ → List ℕ
turns c zero = []
turns c (suc n) = c % 3 ∷ turns (c + 1) n

openers-append : (ls ms : List Line) → openers (ls ++ ms) ≡ openers ls ++ openers ms
openers-append [] ms = refl
openers-append (opens i ∷ ls) ms = ap (◌∷◌ i) (openers-append ls ms)
openers-append (closes i ∷ ls) ms = openers-append ls ms

AllLive-at :
    (cs : List Context) (i : ℕ)
    → AllLive cs
    → i < length cs
    → (get_elem? cs i ≡ some fresh) ⊎ (get_elem? cs i ≡ some suspended)
AllLive-at [] i a lt = absurd (omega arith)
AllLive-at (fresh ∷ cs) zero a lt = inl refl
AllLive-at (suspended ∷ cs) zero a lt = inr refl
AllLive-at (returned ∷ cs) i a lt = absurd a
AllLive-at (fresh ∷ cs) (suc i) a lt = AllLive-at cs i a (omega arith)
AllLive-at (suspended ∷ cs) (suc i) a lt = AllLive-at cs i a (omega arith)

AllLive-set : (cs : List Context) (i : ℕ) → AllLive cs → AllLive (set cs i suspended)
AllLive-set [] i a = tt
AllLive-set (fresh ∷ cs) zero a = a
AllLive-set (suspended ∷ cs) zero a = a
AllLive-set (returned ∷ cs) i a = absurd a
AllLive-set (fresh ∷ cs) (suc i) a = AllLive-set cs i a
AllLive-set (suspended ∷ cs) (suc i) a = AllLive-set cs i a

-- What a turn of coroutine `i` below the limit leaves.
record Turned (s : Coroutines) (i : ℕ) (t : Coroutines) : Type 0 where
  live : AllLive t.ctx
  three : length t.ctx ≡ 3
  counted : t.count ≡ s.count + 1
  opened : openers t.printed ≡ openers s.printed ++ i ∷ []

run_loop-Turned :
    (s : Coroutines) (i : ℕ)
    → AllLive s.ctx
    → length s.ctx ≡ 3
    → i < 3
    → s.count < limit
    → (t : Coroutines) × (run_loop s i ≡ some t) × Turned s i t
unfolding run_loop
run_loop-Turned s i a three lt le = (
  t,
  rw below (rw (store-eq-set s.ctx i suspended (omega arith)) refl),
  record {
    live = AllLive-set s.ctx i a;
    three = length-set s.ctx i suspended ∙ three;
    counted = refl;
    opened = openers-append s.printed (opens i ∷ []);
  },
)
  where
    t : Coroutines
    t = record {
      ctx = set s.ctx i suspended;
      count = s.count + 1;
      printed = s.printed ++ opens i ∷ [];
    }

    below : ltb s.count limit ≡ true
    below = ground arith

-- The last turn, at the limit: the function ends.
run_loop-last :
    (s : Coroutines) (i : ℕ)
    → length s.ctx ≡ 3
    → i < 3
    → s.count ≡ limit
    → (t : Coroutines) × (run_loop s i ≡ some t) × (t.count ≡ limit + 1) × (t.printed ≡ s.printed)
unfolding run_loop
run_loop-last s i three lt e =
    (t, rw above (rw (store-eq-set s.ctx i returned (omega arith)) refl), omega arith, refl)
  where
    t : Coroutines
    t = record { ctx = set s.ctx i returned; count = s.count + 1; printed = s.printed }

    above : ltb s.count limit ≡ false
    above = ground arith

closed_first : (s : Coroutines) (i : ℕ) → openers (s.printed ++ closes i ∷ []) ≡ openers s.printed
closed_first s i = openers-append s.printed (closes i ∷ []) ∙ append-nil (openers s.printed)

swap_to-Turned :
    (s : Coroutines) (i : ℕ)
    → AllLive s.ctx
    → length s.ctx ≡ 3
    → i < 3
    → s.count < limit
    → (t : Coroutines) × (swap_to s i ≡ some t) × Turned s i t
unfolding swap_to resume_at
swap_to-Turned s i a three lt le = elim (AllLive-at s.ctx i a (omega arith)) [
  | inl at ↦ let (t, e, r) = run_loop-Turned s i a three lt le in (t, rw (at, ◌>>=◌) e, r)
  | inr at ↦
      let s' : Coroutines = record s { printed = s.printed ++ closes i ∷ [] } in
      let (t, e, r) = run_loop-Turned s' i a three lt le in
      (
        t,
        rw (at, ◌>>=◌) e,
        record {
          live = r.live;
          three = r.three;
          counted = r.counted;
          opened = r.opened ∙ ap (λ ls. ls ++ i ∷ []) (closed_first s i);
        },
      )
]

swap_to-last :
    (s : Coroutines) (i : ℕ)
    → AllLive s.ctx
    → length s.ctx ≡ 3
    → i < 3
    → s.count ≡ limit
    → (t : Coroutines) × (swap_to s i ≡ some t)
      × (t.count ≡ limit + 1)
      × (openers t.printed ≡ openers s.printed)
unfolding swap_to resume_at
swap_to-last s i a three lt same = elim (AllLive-at s.ctx i a (omega arith)) [
  | inl at ↦
      let (t, e, n, p) = run_loop-last s i three lt same in (t, rw (at, ◌>>=◌) e, n, ap openers p)
  | inr at ↦
      let s' : Coroutines = record s { printed = s.printed ++ closes i ∷ [] } in
      let (t, e, n, p) = run_loop-last s' i three lt same in
      (t, rw (at, ◌>>=◌) e, n, ap openers p ∙ closed_first s i)
]

mod_three : (c : ℕ) → c % 3 < 3
mod_three c = omega arith

-- With three coroutines of which none has ended, and `count` at 30 less `n`, the scheduler returns
-- on n + 2 units of fuel, with `count` at 31; from there on the coroutines printed their first lines
-- in a circle, one for each number from `count` below 30.
pub schedule-turns :
    (n : ℕ) (s : Coroutines)
    → AllLive s.ctx
    → length s.ctx ≡ 3
    → s.count + n ≡ limit
    → (t : Coroutines) × (schedule (n + 2) s ≡ some t)
      × (t.count ≡ limit + 1)
      × (openers t.printed ≡ openers s.printed ++ turns s.count n)
unfolding schedule
schedule-turns zero s a three e =
    let (t, w, c, p) = swap_to-last s (s.count % 3) a three (mod_three s.count) (omega arith) in
    let going : ltb limit s.count ≡ false = ground arith in
    let over : ltb limit t.count ≡ true = ground (arith, c) in
    (t, rw (going, w, ◌>>=◌, over) refl, c, p ∙ sym (append-nil (openers s.printed)))
schedule-turns (suc n) s a three e =
    let (t, w, r) = swap_to-Turned s (s.count % 3) a three (mod_three s.count) (omega arith) in
    let (u, ih, c, p) = schedule-turns n t r.live r.three (omega (arith, r.counted)) in
    let going : ltb limit s.count ≡ false = ground arith in
    (
      u,
      fuel going w ih,
      c,
      p
          ∙ ap (λ ls. ls ++ turns t.count n) r.opened
          ∙ append_assoc (openers s.printed) (s.count % 3 ∷ []) (turns t.count n)
          ∙ ap (λ k. openers s.printed ++ (s.count % 3 ∷ turns k n)) r.counted,
    )
  where
    fuel :
        {t u : Coroutines}
        → ltb limit s.count ≡ false
        → swap_to s (s.count % 3) ≡ some t
        → schedule (n + 2) t ≡ some u
        → schedule (suc n + 2) s ≡ some u
    fuel going w ih = ap (λ k. schedule k s) more ∙ rw (schedule, going, w, ◌>>=◌) ih
      where
        more : suc n + 2 ≡ suc (n + 2)
        more = omega arith
