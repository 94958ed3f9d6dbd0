-- ===== src/Timer/Expiry.antt =====
-- Sequences of calls, and what handleTimer runs.
use linux_command.Base.{
  ℕ, ◌+◌, ◌≤◌, ◌<◌, ◌≡◌, ◌^◌, ◌%◌, refl, sym, ◌∙◌, ap, inl, inr, Bool, true, false, not, ◌&&◌, ◌||◌,
  List, [], ◌∷◌, ◌++◌, ltb, leb, Bool-cases, arith,
}
use linux_command.Timer.{
  TimerNode, Timer, node_lt, get_id, expire_loop, add_timer, del_timer, handle_timer,
}
use linux_command.Timer.Order.{
  Above, IsSorted, same, has, emplace_node-IsSorted, erase-IsSorted, has-emplace_node, has-erase,
}

pub data Call : Type 0 where
  add : ℕ → ℕ → ℕ → Call
  del : TimerNode → Call
  handle : ℕ → Call

abbrev pub new_timer : Timer
new_timer = record { gid = 0; timeouts = [] }

pub call : Call → Timer → Timer
call (add tick msec func) t = (add_timer tick msec func t).1
call (del n) t = del_timer n t
call (handle now) t = (handle_timer now t).0

unfoldable pub calls : List Call → Timer → Timer
unfolding call
calls [] t = t
calls (c ∷ cs) t = calls cs (call c t)

-- The keys that are to wait, said without a list: the number of the next node, and a test of a key.
pub wait_step : Call → ℕ × (TimerNode → Bool) → ℕ × (TimerNode → Bool)
wait_step (add tick msec func) (id, waits) = (
  (id + 1) % 2 ^ 64,
  λ k. same k (record { expire = tick + msec; id = id; func = func }) || waits k,
)
wait_step (del n) (id, waits) = (id, λ k. not (same k n) && waits k)
wait_step (handle now) (id, waits) = (id, λ k. ltb now k.expire && waits k)

pub waiting : List Call → ℕ × (TimerNode → Bool) → TimerNode → Bool
waiting [] s = s.1
waiting (c ∷ cs) s = waiting cs (wait_step c s)

abbrev pub All : (TimerNode → Type 0) → List TimerNode → Type 0
All P [] = Unit {0}
All P (x ∷ xs) = P x × All P xs

All-later :
    (now : ℕ) (x : TimerNode) (xs : List TimerNode)
    → now < x.expire
    → Above x xs
    → All (λ y. now < y.expire) xs
unfolding node_lt
All-later now x [] lt q = tt
All-later now x (y ∷ ys) lt q = (ground (arith, q.0), All-later now x ys lt q.1)

-- What the loop ran and what it left.
record Expired (now : ℕ) (xs left ran : List TimerNode) : Type 0 where
  parts : (ran ++ left) ≡ xs
  due : All (λ x. x.expire ≤ now) ran
  later : All (λ x. now < x.expire) left

expire_loop-Expired :
    (now : ℕ) (xs : List TimerNode)
    → IsSorted xs
    → Expired now xs (expire_loop now xs).0 (expire_loop now xs).1
unfolding expire_loop
expire_loop-Expired now [] s = record { parts = refl; due = tt; later = tt }
expire_loop-Expired now (x ∷ xs) s = elim (Bool-cases (leb x.expire now)) [
  | inl is_due ↦
      let r = expire_loop-Expired now xs s.1 in
      let le : x.expire ≤ now = ground arith in
      rw is_due (record { parts = ap (λ ys. x ∷ ys) r.parts; due = (le, r.due); later = r.later })
  | inr not_due ↦
      let lt : now < x.expire = ground arith in
      rw not_due (record { parts = refl; due = tt; later = (lt, All-later now x xs lt s.0) })
]

-- The later part of a sorted list is sorted.
Sorted-right : (xs ys : List TimerNode) → IsSorted (xs ++ ys) → IsSorted ys
Sorted-right [] ys s = s
Sorted-right (x ∷ xs) ys s = Sorted-right xs ys s.1

has-append : (k : TimerNode) (xs ys : List TimerNode) → has k (xs ++ ys) ≡ (has k xs || has k ys)
unfolding has
has-append k [] ys = refl
has-append k (x ∷ xs) ys =
    ap (λ b. same k x || b) (has-append k xs ys) ∙ assoc (same k x) (has k xs) (has k ys)
  where
    assoc : (a b c : Bool) → (a || (b || c)) ≡ ((a || b) || c)
    assoc true b c = refl
    assoc false b c = refl

module _ (k : TimerNode) (now : ℕ) where
  has-due : (xs : List TimerNode) → All (λ x. x.expire ≤ now) xs → now < k.expire → has k xs ≡ false
  unfolding has
  has-due [] h lt = refl
  has-due (x ∷ xs) h lt = ground (arith, h.0, has-due xs h.1 lt)

  has-later :
      (xs : List TimerNode) → All (λ x. now < x.expire) xs → k.expire ≤ now → has k xs ≡ false
  unfolding has
  has-later [] h le = refl
  has-later (x ∷ xs) h le = ground (arith, h.0, has-later xs h.1 le)

  -- A key is left just when it waited and is not due.
  has-left :
      (xs : List TimerNode)
      → IsSorted xs
      → has k (expire_loop now xs).0 ≡ (ltb now k.expire && has k xs)
  has-left xs s =
      let r = expire_loop-Expired now xs s in
      let left = (expire_loop now xs).0 in
      let ran = (expire_loop now xs).1 in
      let all : has k xs ≡ (has k ran || has k left) =
        ap (has k) (sym r.parts) ∙ has-append k ran left in
      elim (Bool-cases (ltb now k.expire)) [
        | inl later ↦
            let gone : has k ran ≡ false = has-due ran r.due (ground arith) in
            sym (rw (later, all, gone) refl)
        | inr due ↦
            let none_left : has k left ≡ false = has-later left r.later (ground arith) in
            none_left ∙ sym (rw due refl)
      ]

left-IsSorted : (now : ℕ) (xs : List TimerNode) → IsSorted xs → IsSorted (expire_loop now xs).0
left-IsSorted now xs s =
    let r = expire_loop-Expired now xs s in
    Sorted-right (expire_loop now xs).1 (expire_loop now xs).0 (rw r.parts s)

call-IsSorted : (c : Call) (t : Timer) → IsSorted t.timeouts → IsSorted (call c t).timeouts
unfolding call add_timer get_id del_timer handle_timer
call-IsSorted (add tick msec func) t s =
    emplace_node-IsSorted (record { expire = tick + msec; id = t.gid; func = func }) t.timeouts s
call-IsSorted (del n) t s = erase-IsSorted n t.timeouts s
call-IsSorted (handle now) t s = left-IsSorted now t.timeouts s

-- The timer waits for the keys that `waits` tells.
record Waits (t : Timer) (s : ℕ × (TimerNode → Bool)) : Type 0 where
  sorted : IsSorted t.timeouts
  counter : t.gid ≡ s.0
  keys : (k : TimerNode) → has k t.timeouts ≡ s.1 k

call-Waits :
    (c : Call) (t : Timer) (s : ℕ × (TimerNode → Bool))
    → Waits t s
    → Waits (call c t) (wait_step c s)
unfolding call add_timer get_id del_timer handle_timer wait_step
call-Waits (add tick msec func) t s w = record {
  sorted = call-IsSorted (add tick msec func) t w.sorted;
  counter = ap (λ n. (n + 1) % 2 ^ 64) w.counter;
  keys = λ k.
      has-emplace_node k (record { expire = tick + msec; id = t.gid; func = func }) t.timeouts
      ∙ ap (λ n. same k (record { expire = tick + msec; id = n; func = func }) || has k t.timeouts)
          w.counter
      ∙ ap (λ b. same k (record { expire = tick + msec; id = s.0; func = func }) || b) (w.keys k);
}
call-Waits (del n) t s w = record {
  sorted = call-IsSorted (del n) t w.sorted;
  counter = w.counter;
  keys = λ k. has-erase k n t.timeouts w.sorted ∙ ap (λ b. not (same k n) && b) (w.keys k);
}
call-Waits (handle now) t s w = record {
  sorted = call-IsSorted (handle now) t w.sorted;
  counter = w.counter;
  keys = λ k. has-left k now t.timeouts w.sorted ∙ ap (λ b. ltb now k.expire && b) (w.keys k);
}

calls-Waits :
    (cs : List Call) (t : Timer) (s : ℕ × (TimerNode → Bool)) (k : TimerNode)
    → Waits t s
    → IsSorted (calls cs t).timeouts × (has k (calls cs t).timeouts ≡ waiting cs s k)
unfolding calls waiting
calls-Waits [] t s k w = (w.sorted, w.keys k)
calls-Waits (c ∷ cs) t s k w = calls-Waits cs (call c t) (wait_step c s) k (call-Waits c t s w)

new_timer-Waits : Waits new_timer (0, λ k. false)
unfolding has
new_timer-Waits = record { sorted = tt; counter = refl; keys = λ k. refl }

-- After any calls of addTimer, delTimer and handleTimer the set is sorted, and holds a key just when
-- the calls leave it waiting: added, not deleted since, and not due at a handleTimer since. Ids wrap
-- round at 2^64.
pub calls-waiting :
    (cs : List Call) (k : TimerNode)
    → IsSorted (calls cs new_timer).timeouts
      × (has k (calls cs new_timer).timeouts ≡ waiting cs (0, λ k'. false) k)
calls-waiting cs k = calls-Waits cs new_timer (0, λ k'. false) k new_timer-Waits

-- handleTimer, after any calls, takes the front of the set in its order: every callback that it runs is
-- of a node that is due, and every node that it leaves is due later.
pub handle_timer-due :
    (cs : List Call) (now : ℕ)
    → (((handle_timer now (calls cs new_timer)).1
          ++ (handle_timer now (calls cs new_timer)).0.timeouts)
        ≡ (calls cs new_timer).timeouts)
      × All (λ x. x.expire ≤ now) (handle_timer now (calls cs new_timer)).1
      × All (λ x. now < x.expire) (handle_timer now (calls cs new_timer)).0.timeouts
unfolding handle_timer
handle_timer-due cs now =
    let s = (calls-Waits cs new_timer (0, λ k'. false) new_timer_node new_timer-Waits).0 in
    let r = expire_loop-Expired now (calls cs new_timer).timeouts s in (r.parts, r.due, r.later)
  where
    new_timer_node : TimerNode
    new_timer_node = record { expire = 0; id = 0; func = 0 }
