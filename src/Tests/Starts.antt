-- ===== src/Tests/Starts.antt =====
-- A process starts the runtime.
use green_threads.Base.{◌≡◌, refl, inr, false, [], arith}
use green_threads.Outcome.{ok}
use green_threads.Status.{success}
use green_threads.World.{World, RuntimeState}
use green_threads.Runtime.Resources.{IsSound}
use green_threads.Runtime.Lifecycle
use green_threads.Runtime.Lifecycle.{is_uninitialized, clear_runtime, init_parts}
use green_threads.Runtime.Lifecycle.Start.{init-IsSound}
use green_threads.Tests.Process.{process, blank, blank-HoldsNothing, fitting}

init-IsSound_example :
    (w' : World) × (Lifecycle.init process blank ≡ ok (success, w'))
    × (w'.rt.state ≡ RuntimeState.initialized)
    × IsSound process 4096 w' [] [] [] (λ _. false)
init-IsSound_example =
    init-IsSound process 4096 blank refl (ground arith) (inr (refl, refl, fitting))
      blank-HoldsNothing
