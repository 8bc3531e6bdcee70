-- ===== src/Examples.antt =====
-- examples: programs that call the library, as what the main program and the tasks do between two
-- calls.
pub mod Obeys
pub mod Meets
pub mod Whole
pub mod Ends
pub mod Pipeline
pub mod Fibonacci
pub mod Yielding
pub mod Nested
pub mod Versions
pub mod Workers
pub mod Arguments
use green_threads.Base.{
  ℕ, zero, suc, ◌+◌, ◌*◌, ◌^◌, ◌≤◌, ◌<◌, ◌≡◌, ◌≢◌, Bool, true, false, ◌==◌, List, [], ◌∷◌, Option,
  none, some, if◌then◌else◌,
}
use green_threads.Status.{Status, internal_error, is_success}
use green_threads.Platform.Context.{Context, cleared}
use green_threads.Runtime.Session.{
  Resume, starts, goes_on, Reply, switched, answered, continued, yields, runs, exits, returns,
  creates, Program, ends, calls,
}

-- What a task does up to its next call, on what the tasks share: its function returns, or it calls
-- `gt_yield` with its registers, or `gt_create_task`, or it takes a step that C leaves undefined.
pub data Does (S : Type 0) : Type 0 where
  finishes : S → Does S
  gives_way : S → (regs : Context) → Does S
  adds : (entry arg size : ℕ) → (Status → Does S) → Does S
  faults : Does S

-- The functions of the tasks, by their addresses, and what follows a `gt_yield` that returns with
-- these registers.
pub record Code (S : Type 0) : Type 0 where
  pub entry : (entry arg : ℕ) → S → Does S
  pub resume : Context → S → Does S

-- What a main program does between `gt_init` and `gt_destroy`, to its exit status.
pub data Main (S : Type 0) : Type 0 where
  exits_with : ℕ → Main S
  adds_task : (entry arg size : ℕ) → (Status → Main S) → Main S
  runs_tasks : Main S → Main S

-- Whether the registers are those of the main program: on its stack, at address 0 in these programs.
abbrev pub of_main : Resume → Bool
of_main (starts entry arg) = false
of_main (goes_on regs) = regs.rsp == 0

abbrev pub status_of : Reply → Status
status_of (answered st) = st
status_of (switched r) = internal_error
status_of continued = internal_error

-- A task calls the runtime; once its function has returned, the trampoline calls the exit. After a
-- fault the program has no result.
unfoldable pub task_calls :
    {S R : Type 0} → (next : Reply → S → Program (Option R)) → Does S → Program (Option R)
task_calls next (finishes s) = calls exits (λ reply. next reply s)
task_calls next (gives_way s regs) = calls (yields regs) (λ reply. next reply s)
task_calls next (adds entry arg size k) =
    calls (creates entry arg size) (λ reply. task_calls next (k (status_of reply)))
task_calls next faults = ends none

-- The tasks, for at most so many switches, and then the main program.
unfoldable pub tasks_run :
    {S R : Type 0}
    → (fuel : ℕ) → Code S
    → (main : S → Program (Option R)) → Reply
    → S
    → Program (Option R)
tasks_run zero code main reply s = ends none
tasks_run (suc n) code main (switched (starts entry arg)) s =
    task_calls (tasks_run n code main) (code.entry entry arg s)
tasks_run (suc n) code main (switched (goes_on regs)) s =
    if regs.rsp == 0 then main s else task_calls (tasks_run n code main) (code.resume regs s)
tasks_run (suc n) code main (answered st) s = ends none
tasks_run (suc n) code main continued s = ends none

-- The main program: it ends with its exit status and what the tasks have left.
unfoldable pub main_runs :
    {S : Type 0} → (fuel : ℕ) → Code S → Main S → S → Program (Option (ℕ × S))
main_runs fuel code (exits_with n) s = ends (some (n, s))
main_runs fuel code (adds_task entry arg size k) s =
    calls (creates entry arg size) (λ reply. main_runs fuel code (k (status_of reply)) s)
main_runs fuel code (runs_tasks rest) s = calls (runs cleared) (λ reply.
    tasks_run fuel code (λ s'. calls returns (λ reply'. main_runs fuel code rest s')) reply s)

-- `gt_create_task`, and `goto cleanup` unless it succeeds.
abbrev pub adds_or_cleans : {S : Type 0} → (entry arg size : ℕ) → Main S → Main S
adds_or_cleans entry arg size rest =
    adds_task entry arg size (λ st. if is_success st then rest else exits_with 1)

-- An argument list of `gt_create_task`.
pub record Creation : Type 0 where
  pub entry : ℕ
  pub arg : ℕ
  pub size : ℕ

abbrev pub creation : (entry arg size : ℕ) → Creation
creation entry arg size = record { entry = entry; arg = arg; size = size }

-- One creation after the other, and `goto cleanup` at the first that fails.
abbrev pub adds_all : {S : Type 0} → List Creation → Main S → Main S
adds_all [] rest = rest
adds_all (c ∷ cs) rest = adds_or_cleans (c.entry) (c.arg) (c.size) (adds_all cs rest)

abbrev pub starts_all : List Creation → List Resume
starts_all [] = []
starts_all (c ∷ cs) = starts (c.entry) (c.arg) ∷ starts_all cs
