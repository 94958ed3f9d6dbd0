-- ===== src/Coroutine/Tests.antt =====
-- The theorem on the coroutines at their start.
use linux_command.Base.{◌+◌, ◌≡◌, ◌++◌, refl, some, []}
use linux_command.Coroutine.{Coroutines, limit, make_contexts, schedule}
use linux_command.Coroutine.Turns.{openers, turns, schedule-turns}

schedule-turns_example :
    (t : Coroutines) × (schedule 32 make_contexts ≡ some t)
    × (t.count ≡ limit + 1)
    × (openers t.printed ≡ [] ++ turns 0 30)
schedule-turns_example = schedule-turns 30 make_contexts tt refl refl
