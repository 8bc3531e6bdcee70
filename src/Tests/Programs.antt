-- ===== src/Tests/Programs.antt =====
-- A program that creates a task, runs it to its exit and goes on.
use green_threads.Base.{ℕ, ◌≡◌, refl, inr, [], ◌∷◌, arith, if◌then◌else◌}
use green_threads.Status.{success, is_success}
use green_threads.Platform.Context.{Context}
use green_threads.Runtime.Session.{
  Plan, plan, main_program, task, goes_on, runs, exits, returns, creates, Reply, switched, answered,
  continued, Step, Program, ends, calls, Obeys, create_fails, create_adds, run_next, run_none,
  exit_next, exit_last,
}
use green_threads.Runtime.Session.Whole.{first_plan}
use green_threads.Platform.Context.{cleared}
use green_threads.Runtime.Session.Holds.{Holds}
use green_threads.Tests.Halted.{halted, halted-IsSound, two_out}
use green_threads.Tests.Process.{process}
use green_threads.Tests.Threads.{context_at}

-- After the creation.
abbrev then_run : Reply → Program ℕ
then_run (answered st) =
    if is_success st
    then calls (runs (context_at 66)) (λ r. calls exits (λ r. calls returns (λ r. ends 0)))
    else ends 1
then_run (switched to) = ends 1
then_run continued = ends 1

abbrev pub one_task : Program ℕ
one_task = calls (creates 700 800 10000) then_run

after_exit :
    (p q : Plan) (r : Reply) (c : ℕ)
    → p.control ≡ task c
    → p.waiting ≡ []
    → Step p exits r q
    → q.control ≡ main_program
after_exit p q r c e none (exit_next e' some) = absurd (ground (arith, none, some))
after_exit p q r c e none (exit_last e' none') = refl

after_run :
    (p q : Plan) (r : Reply) (t : ℕ) (ctx : Context)
    → p.waiting ≡ t ∷ []
    → Step p (runs ctx) r q
    → (q.control ≡ task t) × (q.waiting ≡ [])
after_run p q r t ctx one (run_next e some) = (ground (arith, one, some), ground (arith, one, some))
after_run p q r t ctx one (run_none e none) = absurd (ground (arith, one, none))

after_creation :
    (entry arg size : ℕ) (q : Plan)
    → Step first_plan (creates entry arg size) (answered success) q
    → (q.control ≡ main_program) × ((t : ℕ) × (q.waiting ≡ t ∷ []))
after_creation entry arg size q (create_fails bad) = absurd (bad refl)
after_creation entry arg size q (create_adds {t = t} other new) = (refl, (t, refl))

-- The rest of the program is allowed once the creation has succeeded.
rest-Obeys :
    (q : Plan) (t : ℕ)
    → q.control ≡ main_program
    → q.waiting ≡ t ∷ []
    → Obeys {R = ℕ} 4096 q
        (calls (runs (context_at 66)) (λ r. calls exits (λ r. calls returns (λ r. ends 0))))
rest-Obeys q t back one = (
  back,
  λ r q1 s1.
      let (runs_now, none) = after_run q q1 r t (context_at 66) one s1 in
      ((t, runs_now), λ r2 q2 s2. (after_exit q1 q2 r2 t runs_now none s2, λ r3 q3 s3. tt)),
)

then_run-Obeys :
    (reply : Reply) (q : Plan)
    → Step first_plan (creates 700 800 10000) reply q
    → Obeys 4096 q (then_run reply)
then_run-Obeys (answered success) q s =
    let (back, (t, one)) = after_creation 700 800 10000 q s in rest-Obeys q t back one
then_run-Obeys (answered st) q s = tt
then_run-Obeys (switched to) q s = tt
then_run-Obeys continued q s = tt

pub one_task-Obeys : Obeys 4096 first_plan one_task
one_task-Obeys = ((ground arith, omega arith), then_run-Obeys)

-- The plan of the runtime with a task that waits and one that has exited.
abbrev pub halted_plan : Plan
halted_plan =
    plan main_program (200000 ∷ []) (300000 ∷ []) (λ _. goes_on (context_at 1068576)) cleared

pub halted-Holds : Holds process 4096 halted halted_plan
halted-Holds = record {
  owned = 200000 ∷ [];
  taken = two_out;
  controls = (halted-IsSound.consistent, inr refl, λ a i. i);
  backed = halted-IsSound.backed;
  saves = record {
    tasks = λ t i. ground (arith, i);
    main_program = λ d e. absurd (ground (arith, e));
  };
}
