-- ===== src/Tests/Sessions.antt =====
-- A process starts the runtime, runs a task and destroys the runtime.
use green_threads.Base.{ℕ, ◌≡◌, refl, inr, List, [], some, arith}
use green_threads.Outcome.{ok}
use green_threads.Status.{success}
use green_threads.World.{World}
use green_threads.Api.{gt_init}
use green_threads.Runtime.Session.{Plan, Reply, Follows}
use green_threads.Runtime.Session.Switch.{Runs}
use green_threads.Runtime.Session.Whole.{first_plan, SessionEnds, session-HoldsNothing}
use green_threads.Platform.Context.{cleared}
use green_threads.Runtime.Session.Turns.{answers, turns, session-turns}
use green_threads.Tests.Process.{process, process-Behaves, blank, blank-HoldsNothing, fitting}
use green_threads.Tests.Programs.{one_task, one_task-Obeys}

session-HoldsNothing_example :
    (v : World) × (replies : List Reply) × (r : ℕ) × (u : World) × (q : Plan) × (gt_init process
        blank
      ≡ ok (success, v))
    × Runs 100001 process v one_task replies r u
    × Follows first_plan one_task replies r q
    × SessionEnds 4096 100001 process q.control u
session-HoldsNothing_example =
    session-HoldsNothing process 4096 100001 blank one_task process-Behaves (ground arith)
      (omega arith) refl (ground arith) (inr (refl, refl, fitting)) blank-HoldsNothing
      one_task-Obeys

session-turns_example :
    (v : World) × (replies : List Reply) × (r : ℕ) × (u : World) × (q : Plan) × (gt_init process
        blank
      ≡ ok (success, v))
    × Runs 100001 process v one_task replies r u
    × (turns [] cleared (answers replies) one_task ≡ some r)
    × Follows first_plan one_task replies r q
    × SessionEnds 4096 100001 process q.control u
session-turns_example =
    session-turns process 4096 100001 blank one_task process-Behaves (ground arith) (omega arith)
      refl (ground arith) (inr (refl, refl, fitting)) blank-HoldsNothing one_task-Obeys
