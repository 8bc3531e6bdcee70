-- ===== src/Examples/Fibonacci.antt =====
-- examples/09_fibonacci.c: five tasks compute Fibonacci numbers and yield now and then.
pub mod Interference
use green_threads.Base.{
  ℕ, zero, suc, ◌+◌, ◌-◌, ◌*◌, ◌%◌, ◌^◌, ◌≤◌, ◌<◌, refl, Bool, false, ◌||◌, ◌==◌, leb, List, [],
  ◌∷◌, map, if◌then◌else◌, arith,
}
use green_threads.Status.{Status}
use green_threads.Platform.Interface.{Host, ℤ, pos, negsuc}
use green_threads.Platform.Context.{Context, cleared}
use green_threads.World.{World, task_max_capacity}
use green_threads.Runtime.Session.Turns.{turns}
use green_threads.Examples.{
  Does, finishes, gives_way, faults, Code, Main, exits_with, runs_tasks, Creation, creation,
  adds_all, main_runs, tasks_run, task_calls,
}
use green_threads.Examples.Obeys.{IsFit, if-IsFit, CodeIsFit, MainIsFit}
use green_threads.Examples.Whole.{MayStart, Completes}
use green_threads.Examples.Ends.{any_failed, adds_all-Completes}

-- `struct fibonacci_task`, of 16 bytes; the index is an `int`.
pub record FibonacciTask : Type 0 where
  pub index : ℤ
  pub result : ℕ

abbrev task_of : (index : ℤ) → (result : ℕ) → FibonacciTask
task_of index result = record { index = index; result = result }

-- INT_MAX
abbrev pub int_max : ℕ
int_max = 2147483647

-- Whether an element of an array at `base` lies at `p`.
abbrev pub in_array : (base p : ℕ) → List FibonacciTask → Bool
in_array base p [] = false
in_array base p (t ∷ ts) = let rest = in_array (base + 16) p ts in base == p || rest

-- The index in the element at `p` of an array at `base`, where it has one.
abbrev index_at : (base p : ℕ) → List FibonacciTask → ℤ
index_at base p [] = pos 0
index_at base p (t ∷ ts) =
    let rest = index_at (base + 16) p ts in if base == p then t.index else rest

-- The array with `value` as the result in the element at `p`, where it has one.
abbrev put_result : (base p value : ℕ) → List FibonacciTask → List FibonacciTask
put_result base p value [] = []
put_result base p value (t ∷ ts) =
    let rest = put_result (base + 16) p value ts in
    if base == p then record t { result = value } ∷ ts else t ∷ rest

-- Where the array lies.
abbrev pub array : ℕ
array = 4096

-- `task->result = value`, after which the function returns; outside the array it faults.
abbrev pub write_result : (arg value : ℕ) → List FibonacciTask → Does (List FibonacciTask)
write_result arg value s =
    if in_array array arg s then finishes (put_result array arg value s) else faults

-- The registers at `gt_yield`: the task, the counter, the bound and the two numbers.
abbrev at_yield : (arg i n a b : ℕ) → Context
at_yield arg i n a b = record cleared { rsp = 1; rbx = arg; rbp = i; r12 = a; r13 = b; r14 = n }

-- The loop of `fib_task_entry`, for `left` more values of the counter `i`, which is an `int`: its
-- increment faults at INT_MAX.
abbrev pub fib_loop : (left i n a b arg : ℕ) → List FibonacciTask → Does (List FibonacciTask)
fib_loop zero i n a b arg s = write_result arg b s
fib_loop (suc left) i n a b arg s =
    let next = (a + b) % 2 ^ 64 in
    let rest = fib_loop left (i + 1) n b next arg s in
    if i % 5 == 0
    then gives_way s (at_yield arg i n b next)
    else if i == int_max
    then faults
    else rest

-- `fib_task_entry` once the index is read.
abbrev pub fib_from : (index : ℤ) → (arg : ℕ) → List FibonacciTask → Does (List FibonacciTask)
fib_from (negsuc k) arg s = write_result arg 0 s
fib_from (pos n) arg s =
    if leb n 0
    then write_result arg 0 s
    else if n == 1
    then write_result arg 1 s
    else fib_loop (n - 1) 2 n 0 1 arg s

abbrev pub fib_task_entry : (arg : ℕ) → List FibonacciTask → Does (List FibonacciTask)
fib_task_entry arg s =
    if arg == 0
    then finishes s
    else if in_array array arg s
    then fib_from (index_at array arg s) arg s
    else faults

-- A `gt_yield` that returns is followed by the increment of the counter.
abbrev pub fib_resume : Context → List FibonacciTask → Does (List FibonacciTask)
fib_resume regs s =
    if regs.rbp == int_max
    then faults
    else fib_loop (regs.r14 - regs.rbp) (regs.rbp + 1) (regs.r14) (regs.r12) (regs.r13) (regs.rbx) s

abbrev pub fib_code : Code (List FibonacciTask)
fib_code = record {
  entry = λ entry arg s. fib_task_entry arg s;
  resume = λ regs s. fib_resume regs s;
}

abbrev pub fib_tasks : List FibonacciTask
fib_tasks =
    task_of (pos 5) 0
    ∷ task_of (pos 10) 0
    ∷ task_of (pos 20) 0
    ∷ task_of (pos 30) 0
    ∷ task_of (pos 40) 0
    ∷ []

-- `gt_create_task(fib_task_entry, &tasks[i], stack_size)` for each element.
abbrev pub fib_creations : (p : ℕ) → List FibonacciTask → List Creation
fib_creations p [] = []
fib_creations p (t ∷ ts) = creation 1 p (16 * 1024) ∷ fib_creations (p + 16) ts

abbrev pub fib_main : Main (List FibonacciTask)
fib_main = adds_all (fib_creations array fib_tasks) (runs_tasks (exits_with 0))

-- The Fibonacci numbers.
abbrev fib_pair : ℕ → ℕ × ℕ
fib_pair zero = (0, 1)
fib_pair (suc n) = let (a, b) = fib_pair n in (b, a + b)

abbrev pub fib : ℕ → ℕ
fib n = (fib_pair n).0

-- The number for an `int`: 0 below 0.
abbrev pub fib_of : ℤ → ℕ
fib_of (pos n) = fib n
fib_of (negsuc k) = 0

write_result-IsFit :
    (ps arg value : ℕ) (s : List FibonacciTask) → IsFit ps (write_result arg value s)
unfolding IsFit
write_result-IsFit ps arg value s = if-IsFit ps (in_array array arg s) _ _ tt tt

fib_loop-IsFit :
    (ps left i n a b arg : ℕ) (s : List FibonacciTask) → IsFit ps (fib_loop left i n a b arg s)
unfolding IsFit
fib_loop-IsFit ps zero i n a b arg s = write_result-IsFit ps arg b s
fib_loop-IsFit ps (suc left) i n a b arg s = if-IsFit ps (i % 5 == 0) _ _ refl (
    if-IsFit ps (i == int_max) _ _ tt (fib_loop-IsFit ps left (i + 1) n b ((a + b) % 2 ^ 64) arg s))

fib_from-IsFit : (ps : ℕ) (n : ℤ) (arg : ℕ) (s : List FibonacciTask) → IsFit ps (fib_from n arg s)
fib_from-IsFit ps (negsuc k) arg s = write_result-IsFit ps arg 0 s
fib_from-IsFit ps (pos n) arg s = if-IsFit ps (leb n 0) _ _ (write_result-IsFit ps arg 0 s) (
    if-IsFit ps (n == 1) _ _ (write_result-IsFit ps arg 1 s)
      (fib_loop-IsFit ps (n - 1) 2 n 0 1 arg s))

fib_code-CodeIsFit : (ps : ℕ) → CodeIsFit ps fib_code
unfolding IsFit
fib_code-CodeIsFit ps = record {
  entries = λ entry arg s.
      if-IsFit ps (arg == 0) _ _ tt (
        if-IsFit ps (in_array array arg s) _ _ (fib_from-IsFit ps (index_at array arg s) arg s) tt);
  resumes = λ regs s. if-IsFit ps (regs.rbp == int_max) _ _ tt (
      fib_loop-IsFit ps (regs.r14 - regs.rbp) (regs.rbp + 1) (regs.r14) (regs.r12) (regs.r13)
        (regs.rbx) s);
}

abbrev pub with_fib : FibonacciTask → FibonacciTask
with_fib t = record t { result = fib_of (t.index) }

-- The example 09_fibonacci.c, on a process that may start the library (mmap, munmap and calloc
-- behave as documented, the runtime is uninitialised, a page size is known that fits, and
-- neither mapping nor block is held), with more fuel than GT_TASK_MAX_CAPACITY, where 16 KiB
-- have room with guard pages: gt_init succeeds and the program ends. If a creation fails the
-- exit status is 1 and no task has run; otherwise it is 0 and the result of each task is the
-- Fibonacci number of its index, although the tasks are interleaved. gt_destroy ends and leaves
-- a process that may start the library again.
pub fib_main-Completes :
    (host : Host) (ps fuel : ℕ) (w : World)
    → MayStart host ps w
    → task_max_capacity < fuel
    → 16 * 1024 + 3 * ps ≤ 2 ^ 64
    → (sts : List Status) × Completes host ps fuel w
        (main_runs 30 fib_code fib_main fib_tasks)
        sts
        (if any_failed sts then (1, fib_tasks) else (0, map with_fib fib_tasks))
unfolding turns main_runs tasks_run task_calls MainIsFit
fib_main-Completes host ps fuel w may enough fits =
    adds_all-Completes host ps fuel w 30 fib_code (fib_creations array fib_tasks)
      (runs_tasks (exits_with 0)) fib_tasks (0, map with_fib fib_tasks) may enough
      (fib_code-CodeIsFit ps)
      (
        omega arith,
        fits,
        (omega arith, fits, (omega arith, fits, (omega arith, fits, (omega arith, fits, tt)))),
      )
      tt refl (λ st sts. refl)
