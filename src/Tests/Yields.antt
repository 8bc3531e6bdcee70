-- ===== src/Tests/Yields.antt =====
-- Yielding and running at two and three tasks.
use green_threads.Base.{◌≡◌, refl, [], ◌∷◌, ◌++◌}
use green_threads.Outcome.{ok}
use green_threads.World.{World}
use green_threads.Runtime.Invariant.{IsRunning}
use green_threads.Runtime.Resources.{SameHoldings}
use green_threads.Runtime.Execution.{yield_task, run}
use green_threads.Runtime.Execution.Laws.{SameContexts, yield_task-next, run-next}
use green_threads.Base.{inl}
use green_threads.Tests.Threads.{
  host, busy, busy_runs, idle, idle-IsConsistent, idle_all, context_at,
}

yield_task-next_example :
    (w' : World) × (yield_task host (context_at 66) busy ≡ ok ((busy.tasks 2000).context, w'))
    × IsRunning host w' 2000 ((3000 ∷ []) ++ 1000 ∷ []) (1000 ∷ 2000 ∷ 3000 ∷ []) []
    × ((w'.tasks 1000).context ≡ (context_at 66))
    × SameContexts (1000 ∷ []) busy w'
    × (w'.rt.main_context ≡ busy.rt.main_context)
    × SameHoldings busy w'
yield_task-next_example =
    yield_task-next host busy 1000 2000 (3000 ∷ []) (1000 ∷ 2000 ∷ 3000 ∷ []) [] (context_at 66)
      busy_runs

run-next_example :
    (w' : World) × (run host (context_at 66) idle ≡ ok ((idle.tasks 1000).context, w'))
    × IsRunning host w' 1000 (2000 ∷ []) (1000 ∷ 2000 ∷ []) []
    × (w'.rt.main_context ≡ (context_at 66))
    × SameContexts [] idle w'
    × SameHoldings idle w'
run-next_example =
    run-next host idle 1000 (2000 ∷ []) (1000 ∷ 2000 ∷ []) [] (context_at 66) idle-IsConsistent
      (inl refl) idle_all
