-- ===== src/Examples/Yielding.antt =====
-- examples/04_yield.c: two tasks that yield to each other.
use green_threads.Base.{
  ℕ, ◌+◌, ◌*◌, ◌^◌, ◌≤◌, ◌<◌, refl, ◌==◌, List, [], ◌∷◌, ◌++◌, if◌then◌else◌, arith,
}
use green_threads.Status.{Status}
use green_threads.Platform.Interface.{Host}
use green_threads.Platform.Context.{Context, cleared}
use green_threads.World.{World, task_max_capacity}
use green_threads.Runtime.Session.Turns.{turns}
use green_threads.Examples.{
  Does, finishes, gives_way, Code, Main, exits_with, runs_tasks, Creation, creation, adds_all,
  main_runs, tasks_run, task_calls,
}
use green_threads.Examples.Obeys.{IsFit, if-IsFit, CodeIsFit, MainIsFit}
use green_threads.Examples.Whole.{MayStart, Completes}
use green_threads.Examples.Ends.{any_failed, adds_all-Completes}

-- What the tasks print.
pub data Line : Type 0 where
  a_started a_yielding a_resumed a_finished : Line
  b_started b_yielding b_resumed b_finished : Line

-- The registers at the call of `gt_yield` in the one task or the other.
abbrev at_call : ℕ → Context
at_call which = record cleared { rsp = 1; rbx = which }

-- `task_a_entry` up to its call, and from there.
abbrev pub task_a_entry : List Line → Does (List Line)
task_a_entry out = gives_way (out ++ a_started ∷ a_yielding ∷ []) (at_call 1)

abbrev pub task_a_resumed : List Line → Does (List Line)
task_a_resumed out = finishes (out ++ a_resumed ∷ a_finished ∷ [])

-- `task_b_entry` up to its call, and from there.
abbrev pub task_b_entry : List Line → Does (List Line)
task_b_entry out = gives_way (out ++ b_started ∷ b_yielding ∷ []) (at_call 2)

abbrev pub task_b_resumed : List Line → Does (List Line)
task_b_resumed out = finishes (out ++ b_resumed ∷ b_finished ∷ [])

-- The functions have the addresses 1 and 2.
abbrev pub yield_code : Code (List Line)
yield_code = record {
  entry = λ entry arg out. if entry == 1 then task_a_entry out else task_b_entry out;
  resume = λ regs out. if regs.rbx == 1 then task_a_resumed out else task_b_resumed out;
}

abbrev pub yielding_tasks : List Creation
yielding_tasks = creation 1 0 (16 * 1024) ∷ creation 2 0 (16 * 1024) ∷ []

abbrev pub yield_main : Main (List Line)
yield_main = adds_all yielding_tasks (runs_tasks (exits_with 0))

yield_code-CodeIsFit : (ps : ℕ) → CodeIsFit ps yield_code
unfolding IsFit
yield_code-CodeIsFit ps = record {
  entries = λ entry arg out. if-IsFit ps (entry == 1) _ _ refl refl;
  resumes = λ regs out. if-IsFit ps (regs.rbx == 1) _ _ tt tt;
}

abbrev yield_output : List Line
yield_output =
    a_started ∷ a_yielding ∷ b_started ∷ b_yielding ∷ a_resumed ∷ a_finished ∷ b_resumed
    ∷ b_finished ∷ []

pub yield_main-Completes :
    (host : Host) (ps fuel : ℕ) (w : World)
    → MayStart host ps w
    → task_max_capacity < fuel
    → 16 * 1024 + 3 * ps ≤ 2 ^ 64
    → (sts : List Status) × Completes host ps fuel w
        (main_runs 10 yield_code yield_main [])
        sts
        (if any_failed sts then (1, []) else (0, yield_output))
unfolding turns main_runs tasks_run task_calls MainIsFit
yield_main-Completes host ps fuel w may enough fits =
    adds_all-Completes host ps fuel w 10 yield_code yielding_tasks (runs_tasks (exits_with 0)) []
      (0, yield_output) may enough (yield_code-CodeIsFit ps)
      (omega arith, fits, (omega arith, fits, tt)) tt refl (λ st sts. refl)
