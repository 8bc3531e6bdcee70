-- ===== src/Tests/Ends.antt =====
-- All of three tasks exit.
use green_threads.Base.{◌≡◌, [], ◌∷◌, ◌++◌, length}
use green_threads.Outcome.{ok}
use green_threads.World.{World, RuntimeState}
use green_threads.Runtime.Invariant.{IsConsistent}
use green_threads.Runtime.Execution.Finish.{exit_tasks, exit_tasks-stops}
use green_threads.Tests.Threads.{host, busy, busy_runs, waiting_two}

exit_tasks-stops_example :
    (w' : World) × (exit_tasks host (length waiting_two) busy ≡ ok (busy.rt.main_context, w'))
    × IsConsistent host w' [] [] ([] ++ 1000 ∷ waiting_two)
    × (w'.rt.state ≡ RuntimeState.stopped)
    × (w'.rt.current ≡ 0)
exit_tasks-stops_example =
    exit_tasks-stops host busy 1000 waiting_two (1000 ∷ 2000 ∷ 3000 ∷ []) [] busy_runs
