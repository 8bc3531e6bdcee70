-- ===== src/Tests/Creations.antt =====
-- A third task joins two.
use green_threads.Base.{◌≡◌, [], ◌∷◌, arith}
use green_threads.Outcome.{ok}
use green_threads.Status.{Status}
use green_threads.World.{World}
use green_threads.Runtime.Tasks.{task_create}
use green_threads.Runtime.Tasks.Create.{CreateEnds, task_create-CreateEnds}
use green_threads.Tests.Process.{process, process-Behaves}
use green_threads.Tests.Halted.{two_out, halted, halted-IsSound}

task_create-CreateEnds_example :
    (st : Status) × (w' : World) × (task_create process 700 800 10000 halted ≡ ok (st, w'))
    × CreateEnds process 4096 halted
        (200000 ∷ [])
        (200000 ∷ [])
        (300000 ∷ [])
        two_out
        700
        800
        10000
        st
        w'
task_create-CreateEnds_example =
    task_create-CreateEnds process 4096 process-Behaves halted (200000 ∷ []) (200000 ∷ [])
      (300000 ∷ []) two_out halted-IsSound 700 800 10000 (ground arith) (ground arith) (omega arith)
