-- ===== src/Examples/Nested.antt =====
-- examples/06_nested_tasks.c: a task that creates another.
use green_threads.Base.{
  ℕ, ◌+◌, ◌*◌, ◌^◌, ◌≤◌, ◌<◌, ◌≡◌, refl, ◌==◌, List, [], ◌∷◌, ◌++◌, Option, some, if◌then◌else◌,
  arith,
}
use green_threads.Status.{Status, success, is_success}
use green_threads.Platform.Interface.{Host}
use green_threads.Platform.Context.{cleared}
use green_threads.World.{World, task_max_capacity}
use green_threads.Runtime.Session.Turns.{turns}
use green_threads.Examples.{
  Does, finishes, adds, Code, Main, exits_with, runs_tasks, creation, adds_all, main_runs,
  tasks_run, task_calls,
}
use green_threads.Examples.Obeys.{IsFit, if-IsFit, CodeIsFit, MainIsFit, adds_all-MainIsFit}
use green_threads.Examples.Whole.{MayStart, Completes, main_runs-Completes}

-- What the tasks print, with the texts at their arguments.
pub data Line : Type 0 where
  parent_started child_ran : (arg : ℕ) → Line
  parent_admitted_child parent_failed : Line

-- STANDARD_STACK_SIZE
abbrev pub standard_stack_size : ℕ
standard_stack_size = 16 * 1024

abbrev pub child_task_entry : (arg : ℕ) → List Line → Does (List Line)
child_task_entry arg out = finishes (out ++ child_ran arg ∷ [])

-- The name of the child lies at `child_name`.
abbrev pub parent_task_entry : (child_name arg : ℕ) → List Line → Does (List Line)
parent_task_entry child_name arg out = adds 2 child_name standard_stack_size (λ st. finishes (
    out
    ++ parent_started arg ∷ (if is_success st then parent_admitted_child else parent_failed) ∷ []))

-- The functions have the addresses 1 and 2.
abbrev pub nested_code : (child_name : ℕ) → Code (List Line)
nested_code child_name = record {
  entry = λ entry arg out.
      if entry == 1 then parent_task_entry child_name arg out else child_task_entry arg out;
  resume = λ regs out. finishes out;
}

-- `main`, between `gt_init` and `gt_destroy`; the name of the parent lies at `parent_name`.
abbrev pub nested_main : (parent_name : ℕ) → Main (List Line)
nested_main parent_name =
    adds_all (creation 1 parent_name standard_stack_size ∷ []) (runs_tasks (exits_with 0))

-- What the answers to the two creations make of it.
abbrev pub nested_ends : (parent_name child_name : ℕ) → List Status → ℕ × List Line
nested_ends parent_name child_name [] = (1, [])
nested_ends parent_name child_name (parent ∷ []) = (1, [])
nested_ends parent_name child_name (parent ∷ child ∷ sts) =
    if is_success child
    then (0, parent_started parent_name ∷ parent_admitted_child ∷ child_ran child_name ∷ [])
    else (0, parent_started parent_name ∷ parent_failed ∷ [])

nested_code-CodeIsFit :
    (ps child_name : ℕ) → 16 * 1024 + 3 * ps ≤ 2 ^ 64 → CodeIsFit ps (nested_code child_name)
unfolding IsFit
nested_code-CodeIsFit ps child_name fits = record {
  entries = λ entry arg out. if-IsFit ps (entry == 1) _ _ (omega arith, fits, λ st. tt) tt;
  resumes = λ regs out. tt;
}

nested_main-MainIsFit :
    (ps parent_name : ℕ) → 16 * 1024 + 3 * ps ≤ 2 ^ 64 → MainIsFit ps (nested_main parent_name)
unfolding MainIsFit
nested_main-MainIsFit ps parent_name fits =
    adds_all-MainIsFit ps (creation 1 parent_name standard_stack_size ∷ [])
      (runs_tasks (exits_with 0)) (omega arith, fits, tt) tt

nested_turns :
    (parent_name child_name : ℕ) (sts : List Status) (r : Option (ℕ × List Line))
    → turns [] cleared sts (main_runs 5 (nested_code child_name) (nested_main parent_name) [])
      ≡ some r
    → (r' : ℕ × List Line) × (r ≡ some r') × (r' ≡ nested_ends parent_name child_name sts)
unfolding turns main_runs tasks_run task_calls
nested_turns parent_name child_name [] r e = absurd (ground (arith, e))
nested_turns parent_name child_name (success ∷ []) r e = absurd (ground (arith, e))
nested_turns parent_name child_name (success ∷ success ∷ []) r e = (_, ground (arith, e), refl)
nested_turns parent_name child_name (success ∷ st ∷ []) r e = (_, ground (arith, e), refl)
nested_turns parent_name child_name (success ∷ success ∷ x ∷ sts) r e = absurd (ground (arith, e))
nested_turns parent_name child_name (success ∷ st ∷ x ∷ sts) r e = absurd (ground (arith, e))
nested_turns parent_name child_name (st ∷ []) r e = (_, ground (arith, e), refl)
nested_turns parent_name child_name (st ∷ x ∷ sts) r e = absurd (ground (arith, e))

-- The example 06_nested_tasks.c, on a process that may start the library (mmap, munmap and
-- calloc behave as documented, the runtime is uninitialised, a page size is known that fits,
-- and neither mapping nor block is held), with more fuel than GT_TASK_MAX_CAPACITY, where 16
-- KiB have room with guard pages: the program ends with the exit status 1 and no line if the
-- creation of the parent fails; with 0 after the lines of the parent alone if that of the
-- child, called by the parent, fails; and otherwise with 0 after the lines of the parent and
-- then those of the child. gt_destroy ends and leaves a process that may start the library
-- again.
pub nested_main-Completes :
    (host : Host) (ps fuel : ℕ) (w : World) (parent_name child_name : ℕ)
    → MayStart host ps w
    → task_max_capacity < fuel
    → 16 * 1024 + 3 * ps ≤ 2 ^ 64
    → (sts : List Status) × (r : ℕ × List Line) × Completes host ps fuel w
        (main_runs 5 (nested_code child_name) (nested_main parent_name) [])
        sts
        r
      × (r ≡ nested_ends parent_name child_name sts)
nested_main-Completes host ps fuel w parent_name child_name may enough fits =
    main_runs-Completes host ps fuel w 5 (nested_code child_name) (nested_main parent_name) [] may
      enough (nested_code-CodeIsFit ps child_name fits) (nested_main-MainIsFit ps parent_name fits)
      (λ sts r. r ≡ nested_ends parent_name child_name sts) (nested_turns parent_name child_name)
