-- ===== src/Tests/Exits.antt =====
-- Exits of three tasks and of the last one.
use green_threads.Base.{◌≡◌, [], ◌∷◌, ◌++◌}
use green_threads.Outcome.{ok}
use green_threads.World.{World, RuntimeState}
use green_threads.Runtime.Invariant.{IsConsistent, IsRunning}
use green_threads.Runtime.Resources.{SameHoldings}
use green_threads.Runtime.Execution.{task_exit}
use green_threads.Runtime.Execution.Laws.{SameContexts}
use green_threads.Runtime.Execution.Exit.{task_exit-next, task_exit-last}
use green_threads.Tests.Threads.{host, busy, busy_runs, ending, ending_runs}

task_exit-next_example :
    (w' : World) × (task_exit host busy ≡ ok ((busy.tasks 2000).context, w'))
    × IsRunning host w' 2000 (3000 ∷ []) ([] ++ (2000 ∷ 3000 ∷ [])) ([] ++ 1000 ∷ [])
    × (w'.rt.main_context ≡ busy.rt.main_context)
    × SameContexts [] busy w'
    × SameHoldings busy w'
task_exit-next_example =
    task_exit-next host busy 1000 2000 (3000 ∷ []) [] (2000 ∷ 3000 ∷ []) [] busy_runs

task_exit-last_example :
    (w' : World) × (task_exit host ending ≡ ok (ending.rt.main_context, w'))
    × IsConsistent host w' [] [] ((2000 ∷ []) ++ 1000 ∷ [])
    × (w'.rt.state ≡ RuntimeState.stopped)
    × (w'.rt.current ≡ 0)
    × SameHoldings ending w'
task_exit-last_example = task_exit-last host ending 1000 (2000 ∷ []) ending_runs
