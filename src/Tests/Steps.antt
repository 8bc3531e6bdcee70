-- ===== src/Tests/Steps.antt =====
-- A runtime with a task that waits runs.
use green_threads.Base.{◌≡◌, refl, Bool, true, List, arith}
use green_threads.Outcome.{ok}
use green_threads.World.{World}
use green_threads.Runtime.Session.{Plan, runs, Reply, Result, ends, calls, Step, perform, Follows}
use green_threads.Runtime.Session.Switch.{Means, Runs}
use green_threads.Runtime.Session.Holds.{Holds}
use green_threads.Runtime.Session.Runs.{perform-Step, run_program-Follows}
use green_threads.Tests.Halted.{halted}
use green_threads.Tests.Process.{process, process-Behaves}
use green_threads.Tests.Programs.{halted_plan, halted-Holds}
use green_threads.Tests.Threads.{context_at}

perform-Step_example :
    (result : Result) × (reply : Reply) × (w' : World) × (q : Plan) × (perform 100001 process
        (runs (context_at 66))
        halted
      ≡ ok (result, w'))
    × Means process w' result reply
    × Step halted_plan (runs (context_at 66)) reply q
    × Holds process 4096 w' q
perform-Step_example =
    perform-Step process 4096 100001 process-Behaves (ground arith) (omega arith) halted halted_plan
      (runs (context_at 66)) halted-Holds refl

run_program-Follows_example :
    (replies : List Reply) × (r : Bool) × (w' : World) × (q : Plan) × Runs 100001 process halted
      (calls (runs (context_at 66)) (λ r. ends true))
      replies
      r
      w'
    × Follows halted_plan (calls (runs (context_at 66)) (λ r. ends true)) replies r q
    × Holds process 4096 w' q
run_program-Follows_example =
    run_program-Follows process 4096 100001 process-Behaves (ground arith) (omega arith) halted
      halted_plan (calls (runs (context_at 66)) (λ r. ends true)) halted-Holds (refl, λ r q s. tt)
