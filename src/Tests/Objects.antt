-- ===== src/Tests/Objects.antt =====
-- A task object with a stack of 10000 bytes.
use green_threads.Base.{◌≡◌, arith}
use green_threads.Outcome.{ok}
use green_threads.Status.{Status}
use green_threads.World.{World}
use green_threads.Task
use green_threads.Task.{clear_node, update_task, init_context}
use green_threads.Task.Laws.{OneTask, TaskEnds, init-TaskEnds}
use green_threads.Tests.Halted.{halted}
use green_threads.Tests.Process.{process, process-Behaves, page-IsPaged}

init-TaskEnds_example :
    (st : Status) × (w' : World) × (Task.init process 400000 2 700 800 10000 halted ≡ ok (st, w'))
    × OneTask 400000 halted w'
    × TaskEnds 4096 400000 2 700 800 10000 halted st w'
init-TaskEnds_example =
    init-TaskEnds process halted 4096 page-IsPaged process-Behaves 400000 2 700 800 10000
      (ground arith) (ground arith) (omega arith)
