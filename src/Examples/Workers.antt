-- ===== src/Examples/Workers.antt =====
-- examples/01_runtime_init.c, 02_single_task.c, 03_multiple_tasks.c and 08_runtime_reinitialize.c:
-- tasks that run from their first line to the last.
use green_threads.Base.{ℕ, ◌+◌, ◌*◌, ◌^◌, ◌≤◌, ◌<◌, refl, List, [], ◌∷◌, ◌++◌, if◌then◌else◌, arith}
use green_threads.Status.{Status}
use green_threads.Platform.Interface.{Host}
use green_threads.World.{World, task_max_capacity}
use green_threads.Runtime.Session.Turns.{turns}
use green_threads.Examples.{
  Does, finishes, Code, Main, exits_with, runs_tasks, Creation, creation, adds_all, main_runs,
  tasks_run, task_calls,
}
use green_threads.Examples.Obeys.{IsFit, MainIsFit}
use green_threads.Examples.Whole.{MayStart, Completes}
use green_threads.Examples.Ends.{any_failed, adds_all-Completes}

-- What a worker prints about the text at `arg`.
pub data Line : Type 0 where
  worker_started : Line
  message : (arg : ℕ) → Line
  named_started named_working named_finished : (arg : ℕ) → Line
  running_inside : (arg : ℕ) → Line

-- `worker_task_entry` of 02_single_task.c.
abbrev pub single_worker : (arg : ℕ) → List Line → Does (List Line)
single_worker arg out = finishes (out ++ worker_started ∷ message arg ∷ [])

-- `worker_task_entry` of 03_multiple_tasks.c.
abbrev pub named_worker : (arg : ℕ) → List Line → Does (List Line)
named_worker arg out =
    finishes (out ++ named_started arg ∷ named_working arg ∷ named_finished arg ∷ [])

-- `worker_task_entry` of 08_runtime_reinitialize.c.
abbrev pub generation_worker : (arg : ℕ) → List Line → Does (List Line)
generation_worker arg out = finishes (out ++ running_inside arg ∷ [])

-- A program with one such function, and no call of `gt_yield`.
abbrev pub worker_code : (worker : (arg : ℕ) → List Line → Does (List Line)) → Code (List Line)
worker_code worker = record {
  entry = λ entry arg out. worker arg out;
  resume = λ regs out. finishes out;
}

-- `main` of 01_runtime_init.c, between `gt_init` and `gt_destroy`.
abbrev pub init_main : Main (List Line)
init_main = exits_with 0

-- `main` of 02_single_task.c, with the message at `payload`.
abbrev pub single_main : (payload : ℕ) → Main (List Line)
single_main payload = adds_all (creation 1 payload 0 ∷ []) (runs_tasks (exits_with 0))

abbrev pub worker_tasks : (a b c : ℕ) → List Creation
worker_tasks a b c = creation 1 a 0 ∷ creation 1 b 0 ∷ creation 1 c 0 ∷ []

-- `main` of 03_multiple_tasks.c, with the names at `a`, `b` and `c`.
abbrev pub multiple_main : (a b c : ℕ) → Main (List Line)
multiple_main a b c = adds_all (worker_tasks a b c) (runs_tasks (exits_with 0))

-- `run_generation`, between `gt_init` and `gt_destroy`, with the name at `generation`; it
-- returns nothing, and the status 1 stands for a creation that failed.
abbrev pub run_generation : (generation : ℕ) → Main (List Line)
run_generation generation =
    adds_all (creation 1 generation (16 * 1024) ∷ []) (runs_tasks (exits_with 0))

module _ (host : Host) (ps fuel : ℕ) (w : World) (may : MayStart host ps w)
    (enough : task_max_capacity < fuel) where
  pub init_main-Completes :
      (sts : List Status) × Completes host ps fuel w
        (main_runs 0 (worker_code single_worker) init_main [])
        sts
        (if any_failed sts then (1, []) else (0, []))
  unfolding turns main_runs tasks_run task_calls MainIsFit IsFit
  init_main-Completes =
      adds_all-Completes host ps fuel w 0 (worker_code single_worker) [] init_main [] (0, []) may
        enough (record { entries = λ entry arg out. tt; resumes = λ regs out. tt }) tt tt refl
        (λ st sts. refl)

  pub multiple_main-Completes :
      (a b c : ℕ)
      → 3 * ps ≤ 2 ^ 64
      → (sts : List Status) × Completes host ps fuel w
          (main_runs 4 (worker_code named_worker) (multiple_main a b c) [])
          sts
          (if any_failed sts then (1, []) else (
            0,
            named_started a
                ∷ named_working a
                ∷ named_finished a
                ∷ named_started b
                ∷ named_working b
                ∷ named_finished b
                ∷ named_started c
                ∷ named_working c
                ∷ named_finished c
                ∷ [],
          ))
  unfolding turns main_runs tasks_run task_calls MainIsFit IsFit
  multiple_main-Completes a b c fits =
      adds_all-Completes host ps fuel w 4 (worker_code named_worker) (worker_tasks a b c)
        (runs_tasks (exits_with 0)) [] _ may enough
        (record { entries = λ entry arg out. tt; resumes = λ regs out. tt })
        (
          omega arith,
          omega (arith, fits),
          (omega arith, omega (arith, fits), (omega arith, omega (arith, fits), tt)),
        )
        tt refl (λ st sts. refl)

  pub single_main-Completes :
      (payload : ℕ)
      → 3 * ps ≤ 2 ^ 64
      → (sts : List Status) × Completes host ps fuel w
          (main_runs 2 (worker_code single_worker) (single_main payload) [])
          sts
          (if any_failed sts then (1, []) else (0, worker_started ∷ message payload ∷ []))
  unfolding turns main_runs tasks_run task_calls MainIsFit IsFit
  single_main-Completes payload fits =
      adds_all-Completes host ps fuel w 2 (worker_code single_worker) (creation 1 payload 0 ∷ [])
        (runs_tasks (exits_with 0)) [] _ may enough
        (record { entries = λ entry arg out. tt; resumes = λ regs out. tt })
        (omega arith, omega (arith, fits), tt) tt refl (λ st sts. refl)

  pub run_generation-Completes :
      (generation : ℕ)
      → 16 * 1024 + 3 * ps ≤ 2 ^ 64
      → (sts : List Status) × Completes host ps fuel w
          (main_runs 2 (worker_code generation_worker) (run_generation generation) [])
          sts
          (if any_failed sts then (1, []) else (0, running_inside generation ∷ []))
  unfolding turns main_runs tasks_run task_calls MainIsFit IsFit
  run_generation-Completes generation fits =
      adds_all-Completes host ps fuel w 2 (worker_code generation_worker)
        (creation 1 generation (16 * 1024) ∷ []) (runs_tasks (exits_with 0)) [] _ may enough
        (record { entries = λ entry arg out. tt; resumes = λ regs out. tt }) (omega arith, fits, tt)
        tt refl (λ st sts. refl)

-- run_generation of 08_runtime_reinitialize.c, called twice, on a process that may start the
-- library (mmap, munmap and calloc behave as documented, the runtime is uninitialised, a page
-- size is known that fits, and neither mapping nor block is held), with more fuel than
-- GT_TASK_MAX_CAPACITY, where 16 KiB have room with guard pages: the first call ends with
-- nothing left, the second starts from what the first has left and ends likewise, and in each
-- the task has run unless its creation has failed.
pub run_generation-again :
    (host : Host) (ps fuel : ℕ) (w : World) (g1 g2 : ℕ)
    → MayStart host ps w
    → task_max_capacity < fuel
    → 16 * 1024 + 3 * ps ≤ 2 ^ 64
    → (sts sts' : List Status) × (first : Completes host ps fuel w
        (main_runs 2 (worker_code generation_worker) (run_generation g1) [])
        sts
        (if any_failed sts then (1, []) else (0, running_inside g1 ∷ [])))
      × Completes host ps fuel first.left
          (main_runs 2 (worker_code generation_worker) (run_generation g2) [])
          sts'
          (if any_failed sts' then (1, []) else (0, running_inside g2 ∷ []))
run_generation-again host ps fuel w g1 g2 may enough fits =
    let (sts, first) = run_generation-Completes host ps fuel w may enough g1 fits in
    let (sts', second) =
      run_generation-Completes host ps fuel first.left first.again enough g2 fits in
    (sts, sts', first, second)
