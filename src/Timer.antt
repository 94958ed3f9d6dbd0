-- ===== src/Timer.antt =====
-- mycode/timer/timer_with_timerfd.cpp. The set of nodes is a list in the order of `<`, from the
-- smallest node on. Times are not negative. What handleTimer runs is a list of nodes: that a callback
-- calls the timer itself is left out.
pub mod Order
pub mod Expiry
mod Tests
use linux_command.Base.{
  ℕ, ◌+◌, ◌*◌, ◌/◌, ◌%◌, ◌^◌, Bool, true, false, Option, none, some, List, [], ◌∷◌, ◌++◌,
  if◌then◌else◌, ltb, leb,
}

-- TimerNode, with the number of its callback.
pub record TimerNode : Type 0 where
  pub expire : ℕ
  pub id : ℕ
  pub func : ℕ

-- operator <
unfoldable pub node_lt : TimerNode → TimerNode → Bool
node_lt lhd rhd =
    if ltb lhd.expire rhd.expire
    then true
    else if ltb rhd.expire lhd.expire
    then false
    else ltb lhd.id rhd.id

pub record Timer : Type 0 where
  pub gid : ℕ
  pub timeouts : List TimerNode

-- emplace of a set: a node that is neither below nor above one of the set is not put in. The hint of
-- emplace_hint changes the cost only.
pub emplace_node : TimerNode → List TimerNode → List TimerNode
emplace_node n [] = n ∷ []
emplace_node n (x ∷ xs) =
    let rest = emplace_node n xs in
    if node_lt n x then n ∷ x ∷ xs else if node_lt x n then x ∷ rest else x ∷ xs

-- getId, with the number of a 64-bit counter.
pub get_id : Timer → ℕ × Timer
get_id t = (t.gid, record t { gid = (t.gid + 1) % 2 ^ 64 })

-- addTimer at the time `tick`; both of its branches put the same node in.
pub add_timer : ℕ → ℕ → ℕ → Timer → TimerNode × Timer
add_timer tick msec func t =
    let (id, t') = get_id t in
    let node : TimerNode = record { expire = tick + msec; id = id; func = func } in
    (node, record t' { timeouts = emplace_node node t.timeouts })

-- find and erase of a set.
pub erase : TimerNode → List TimerNode → List TimerNode
erase n [] = []
erase n (x ∷ xs) =
    let rest = erase n xs in if node_lt x n then x ∷ rest else if node_lt n x then x ∷ xs else xs

pub del_timer : TimerNode → Timer → Timer
del_timer n t = record t { timeouts = erase n t.timeouts }

-- The loop of handleTimer: the nodes that are left, and those whose callback ran.
pub expire_loop : ℕ → List TimerNode → List TimerNode × List TimerNode
expire_loop now [] = ([], [])
expire_loop now (x ∷ xs) =
    let (left, ran) = expire_loop now xs in
    if leb x.expire now then (left, x ∷ ran) else (x ∷ xs, [])

pub handle_timer : ℕ → Timer → Timer × List TimerNode
handle_timer now t =
    let (left, ran) = expire_loop now t.timeouts in (record t { timeouts = left }, ran)

-- updateTimerfd: the absolute time that timerfd_settime gets, in seconds and nanoseconds; 0 stops it.
pub update_timerfd : Timer → ℕ × ℕ
update_timerfd t = elim (t.timeouts) [
  | [] ↦ (0, 0)
  | x ∷ xs ↦ (x.expire / 1000, x.expire % 1000 * 1000000)
]
