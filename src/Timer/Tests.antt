-- ===== src/Timer/Tests.antt =====
-- The timer on concrete calls.
use linux_command.Base.{◌≡◌, ◌≤◌, ◌<◌, refl, false, List, [], ◌∷◌, ◌++◌}
use linux_command.Timer.{
  TimerNode, node_lt, emplace_node, erase, get_id, add_timer, del_timer, expire_loop, handle_timer,
  update_timerfd,
}
use linux_command.Timer.Order.{IsSorted, has}
use linux_command.Timer.Expiry.{
  Call, add, del, calls, new_timer, waiting, All, calls-waiting, handle_timer-due,
}

-- Three nodes of which the second and the third expire at one time; the first is deleted.
abbrev first_node : TimerNode
first_node = record { expire = 1500; id = 0; func = 7 }

abbrev second_node : TimerNode
second_node = record { expire = 1200; id = 1; func = 8 }

abbrev some_calls : List Call
some_calls = add 1000 500 7 ∷ add 1000 200 8 ∷ add 1100 100 9 ∷ del first_node ∷ []

two_due :
    (handle_timer 1200 (calls some_calls new_timer)).1
    ≡ second_node ∷ record { expire = 1200; id = 2; func = 9 } ∷ []
unfolding calls add_timer get_id emplace_node node_lt del_timer erase handle_timer expire_loop
two_due = refl

next_wake : update_timerfd (calls some_calls new_timer) ≡ (1, 200000000)
unfolding calls add_timer get_id emplace_node node_lt del_timer erase update_timerfd
next_wake = refl

calls-waiting_example :
    IsSorted (calls some_calls new_timer).timeouts
    × (has second_node (calls some_calls new_timer).timeouts
        ≡ waiting some_calls (0, λ k'. false) second_node)
calls-waiting_example = calls-waiting some_calls second_node

handle_timer-due_example :
    (((handle_timer 1200 (calls some_calls new_timer)).1
        ++ (handle_timer 1200 (calls some_calls new_timer)).0.timeouts)
      ≡ (calls some_calls new_timer).timeouts)
    × All (λ x. x.expire ≤ 1200) (handle_timer 1200 (calls some_calls new_timer)).1
    × All (λ x. 1200 < x.expire) (handle_timer 1200 (calls some_calls new_timer)).0.timeouts
handle_timer-due_example = handle_timer-due some_calls 1200
