-- ===== src/Examples/Arguments.antt =====
-- examples/05_task_arguments.c and 07_stack_sizes.c: tasks that read what their arguments point to.
use green_threads.Base.{
  ℕ, ◌+◌, ◌*◌, ◌^◌, ◌≤◌, ◌<◌, refl, ◌==◌, List, [], ◌∷◌, ◌++◌, if◌then◌else◌, arith,
}
use green_threads.Status.{Status}
use green_threads.Platform.Interface.{Host}
use green_threads.World.{World, task_max_capacity}
use green_threads.Runtime.Session.Turns.{turns}
use green_threads.Examples.{
  Does, finishes, Code, Main, exits_with, runs_tasks, Creation, creation, adds_all, main_runs,
  tasks_run, task_calls,
}
use green_threads.Examples.Obeys.{IsFit, if-IsFit, MainIsFit}
use green_threads.Examples.Whole.{MayStart, Completes}
use green_threads.Examples.Ends.{any_failed, adds_all-Completes}

-- `struct custom_payload`
pub record CustomPayload : Type 0 where
  pub magic : ℕ
  pub data_word : ℕ
  pub flag : ℕ

-- What the tasks print.
pub data Line : Type 0 where
  integer_value : ℕ → Line
  payload_magic payload_data payload_flag : ℕ → Line
  null_argument : Line
  stack_kib : ℕ → Line

-- The variables of `main` in 05_task_arguments.c, `integer_data` at 8 and `structure_data` at 16; the
-- flag is 'G'.
abbrev pub integer_at : ℕ → ℕ
integer_at p = if p == 8 then 8888 else 0

abbrev pub payload_at : ℕ → CustomPayload
payload_at p =
    if p == 16
    then record { magic = 195939070; data_word = 195935983; flag = 71 }
    else record { magic = 0; data_word = 0; flag = 0 }

abbrev pub task_integer_entry : (arg : ℕ) → List Line → Does (List Line)
task_integer_entry arg out = finishes (out ++ integer_value (integer_at arg) ∷ [])

abbrev pub task_structure_entry : (arg : ℕ) → List Line → Does (List Line)
task_structure_entry arg out =
    let payload = payload_at arg in
    finishes (
      out
      ++ payload_magic (payload.magic)
        ∷ payload_data (payload.data_word)
        ∷ payload_flag (payload.flag)
        ∷ [])

abbrev pub task_null_entry : List Line → Does (List Line)
task_null_entry out = finishes (out ++ null_argument ∷ [])

-- The functions have the addresses 1, 2 and 3.
abbrev pub arguments_code : Code (List Line)
arguments_code = record {
  entry = λ entry arg out.
      if entry == 1
      then task_integer_entry arg out
      else if entry == 2
      then task_structure_entry arg out
      else task_null_entry out;
  resume = λ regs out. finishes out;
}

abbrev pub arguments_tasks : List Creation
arguments_tasks =
    creation 1 8 (16 * 1024) ∷ creation 2 16 (16 * 1024) ∷ creation 3 0 (16 * 1024) ∷ []

abbrev pub arguments_main : Main (List Line)
arguments_main = adds_all arguments_tasks (runs_tasks (exits_with 0))

-- The variables of `main` in 07_stack_sizes.c, from 8 on.
abbrev pub stack_at : ℕ → ℕ
stack_at p =
    if p == 8 then 4 else if p == 12 then 8 else if p == 16 then 16 else if p == 20 then 64 else 0

abbrev pub stack_size_task_entry : (arg : ℕ) → List Line → Does (List Line)
stack_size_task_entry arg out = finishes (out ++ stack_kib (stack_at arg) ∷ [])

abbrev pub sizes_code : Code (List Line)
sizes_code = record {
  entry = λ entry arg out. stack_size_task_entry arg out;
  resume = λ regs out. finishes out;
}

abbrev pub sizes_tasks : List Creation
sizes_tasks =
    creation 1 8 (4 * 1024)
    ∷ creation 1 12 (8 * 1024)
    ∷ creation 1 16 (16 * 1024)
    ∷ creation 1 20 (64 * 1024)
    ∷ []

abbrev pub sizes_main : Main (List Line)
sizes_main = adds_all sizes_tasks (runs_tasks (exits_with 0))

pub arguments_main-Completes :
    (host : Host) (ps fuel : ℕ) (w : World)
    → MayStart host ps w
    → task_max_capacity < fuel
    → 16 * 1024 + 3 * ps ≤ 2 ^ 64
    → (sts : List Status) × Completes host ps fuel w
        (main_runs 4 arguments_code arguments_main [])
        sts
        (if any_failed sts then (1, []) else (
          0,
          integer_value 8888
              ∷ payload_magic 195939070
              ∷ payload_data 195935983
              ∷ payload_flag 71
              ∷ null_argument
              ∷ [],
        ))
unfolding turns main_runs tasks_run task_calls MainIsFit IsFit
arguments_main-Completes host ps fuel w may enough fits =
    adds_all-Completes host ps fuel w 4 arguments_code arguments_tasks (runs_tasks (exits_with 0))
      [] _ may enough
      (record {
        entries =
            λ entry arg out. if-IsFit ps (entry == 1) _ _ tt (if-IsFit ps (entry == 2) _ _ tt tt);
        resumes = λ regs out. tt;
      })
      (omega arith, fits, (omega arith, fits, (omega arith, fits, tt))) tt refl (λ st sts. refl)

pub sizes_main-Completes :
    (host : Host) (ps fuel : ℕ) (w : World)
    → MayStart host ps w
    → task_max_capacity < fuel
    → 64 * 1024 + 3 * ps ≤ 2 ^ 64
    → (sts : List Status) × Completes host ps fuel w (main_runs 5 sizes_code sizes_main []) sts (
        if any_failed sts
        then (1, [])
        else (0, stack_kib 4 ∷ stack_kib 8 ∷ stack_kib 16 ∷ stack_kib 64 ∷ []))
unfolding turns main_runs tasks_run task_calls MainIsFit IsFit
sizes_main-Completes host ps fuel w may enough fits =
    adds_all-Completes host ps fuel w 5 sizes_code sizes_tasks (runs_tasks (exits_with 0)) [] _ may
      enough (record { entries = λ entry arg out. tt; resumes = λ regs out. tt })
      (
        omega arith,
        omega (arith, fits),
        (
          omega arith,
          omega (arith, fits),
          (omega arith, omega (arith, fits), (omega arith, fits, tt)),
        ),
      )
      tt refl (λ st sts. refl)
