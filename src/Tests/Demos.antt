-- ===== src/Tests/Demos.antt =====
-- The examples in the concrete process.
use green_threads.Base.{ℕ, ◌≡◌, refl, inr, List, [], ◌∷◌, map, if◌then◌else◌, arith}
use green_threads.Status.{Status}
use green_threads.Examples.{main_runs}
use green_threads.Examples.Whole.{MayStart, Completes}
use green_threads.Examples.Ends.{any_failed}
use green_threads.Examples.Pipeline.{
  pipeline_code, pipeline_main, channel, channel_after, pipeline_main-Completes,
}
use green_threads.Examples.Fibonacci.{
  fib_task_entry, fib_of, fib_code, fib_main, fib_tasks, with_fib, fib_main-Completes,
}
use green_threads.Examples.Fibonacci.Interference.{EndsBy, Within, effect, fib_task_entry-EndsBy}
use green_threads.Examples.Nested
use green_threads.Examples.Nested.{nested_code, nested_main, nested_ends, nested_main-Completes}
use green_threads.Examples.Workers.{
  worker_code, generation_worker, run_generation, running_inside, run_generation-again,
}
use green_threads.Platform.Interface.{pos}
use green_threads.Tests.Process.{process, process-Behaves, blank, blank-HoldsNothing, fitting}

blank-MayStart : MayStart process 4096 blank
blank-MayStart = record {
  behaves = process-Behaves;
  trampoline = ground arith;
  fresh = refl;
  given = ground arith;
  known = inr (refl, refl, fitting);
  nothing = blank-HoldsNothing;
}

pipeline_main-Completes_example :
    (sts : List Status) × Completes process 4096 100001 blank
      (main_runs 20 pipeline_code (pipeline_main 8) channel)
      sts
      (if any_failed sts then (1, channel) else (0, channel_after))
pipeline_main-Completes_example =
    pipeline_main-Completes process 4096 100001 blank 8 blank-MayStart (omega arith) (omega arith)

fib_main-Completes_example :
    (sts : List Status) × Completes process 4096 100001 blank
      (main_runs 30 fib_code fib_main fib_tasks)
      sts
      (if any_failed sts then (1, fib_tasks) else (0, map with_fib fib_tasks))
fib_main-Completes_example =
    fib_main-Completes process 4096 100001 blank blank-MayStart (omega arith) (omega arith)

nested_main-Completes_example :
    (sts : List Status) × (r : ℕ × List Nested.Line) × Completes process 4096 100001 blank
      (main_runs 5 (nested_code 16) (nested_main 8) [])
      sts
      r
    × (r ≡ nested_ends 8 16 sts)
nested_main-Completes_example =
    nested_main-Completes process 4096 100001 blank 8 16 blank-MayStart (omega arith) (omega arith)

run_generation-again_example :
    (sts sts' : List Status) × (first : Completes process 4096 100001 blank
      (main_runs 2 (worker_code generation_worker) (run_generation 8) [])
      sts
      (if any_failed sts then (1, []) else (0, running_inside 8 ∷ [])))
    × Completes process 4096 100001 first.left
        (main_runs 2 (worker_code generation_worker) (run_generation 16) [])
        sts'
        (if any_failed sts' then (1, []) else (0, running_inside 16 ∷ []))
run_generation-again_example =
    run_generation-again process 4096 100001 blank 8 16 blank-MayStart (omega arith) (omega arith)

fib_task_entry-EndsBy_example :
    EndsBy fib_code
      (Within 4112)
      (effect 4112 (fib_of (pos 10)))
      fib_tasks
      (fib_task_entry 4112 fib_tasks)
fib_task_entry-EndsBy_example =
    fib_task_entry-EndsBy 4112 (pos 10) fib_tasks (ground arith) refl refl
      (λ k e. ground (arith, e))
