-- ===== src/Tests/Destructions.antt =====
-- A runtime with two tasks is destroyed.
use green_threads.Base.{◌≡◌, refl, [], ◌∷◌, arith}
use green_threads.Outcome.{ok}
use green_threads.Platform.Page.Laws.{IsPaged}
use green_threads.World.{World, cleared_runtime}
use green_threads.Runtime.Lifecycle
use green_threads.Runtime.Lifecycle.{is_uninitialized, clear_runtime}
use green_threads.Runtime.Lifecycle.Laws.{HoldsNothing, destroy-HoldsNothing}
use green_threads.Tests.Halted.{two_out, halted, halted-IsSound}
use green_threads.Tests.Process.{process, process-Behaves}

destroy-HoldsNothing_example :
    (w' : World) × (Lifecycle.destroy 2 process halted ≡ ok (tt, w'))
    × (w'.rt ≡ cleared_runtime)
    × HoldsNothing w'.machine
    × IsPaged w'.machine.page 4096
destroy-HoldsNothing_example =
    destroy-HoldsNothing process 4096 2 halted (200000 ∷ []) (200000 ∷ []) (300000 ∷ []) two_out
      process-Behaves halted-IsSound refl (omega arith) (omega arith)
