-- ===== src/Tests/Rounds.antt =====
-- A round of three tasks.
use green_threads.Base.{refl, ◌≡◌, [], ◌∷◌, ◌++◌}
use green_threads.Outcome.{ok}
use green_threads.World.{World}
use green_threads.Runtime.Invariant.{IsRunning}
use green_threads.Runtime.Execution.Rounds.{yield_tasks, yield_tasks-reaches}
use green_threads.Tests.Threads.{host, busy, busy_runs, context_at}

yield_tasks-reaches_example :
    (w' : World) × (yield_tasks host (context_at 66) (context_at 67 ∷ []) busy
      ≡ ok ((busy.tasks 3000).context, w'))
    × IsRunning host w' 3000 ([] ++ 1000 ∷ (2000 ∷ [])) (1000 ∷ 2000 ∷ 3000 ∷ []) []
yield_tasks-reaches_example =
    yield_tasks-reaches host busy 1000 (2000 ∷ []) 3000 [] (1000 ∷ 2000 ∷ 3000 ∷ []) []
      (context_at 66) (context_at 67 ∷ []) refl busy_runs
