-- ===== src/Examples/Meets.antt =====
-- About examples: the calls of a program are allowed, whatever the library replies.
use green_threads.Base.{ℕ, zero, suc, ◌≡◌, inl, inr, ◌∙◌, Option, arith}
use green_threads.Runtime.Session.{
  Plan, main_program, task, starts, goes_on, Reply, switched, answered, continued, returns, Program,
  calls,
}
use green_threads.Examples.{
  Does, finishes, gives_way, adds, faults, Code, Main, exits_with, adds_task, runs_tasks, status_of,
  task_calls, tasks_run, main_runs,
}
use green_threads.Examples.Obeys.{
  Meets, IsFit, MainIsFit, CodeIsFit, Cooperates, Lands, yields-Lands, exits-Lands, runs-Lands,
  creates-Cooperates, returns-Cooperates,
}

task_calls-Meets :
    {S R : Type 0} (ps : ℕ) (next : Reply → S → Program (Option R))
    → ((reply : Reply) (q : Plan) (s : S) → Lands reply q → Meets ps q (next reply s))
    → (does : Does S) (p : Plan) (c : ℕ) → IsFit ps does
    → p.control ≡ task c
    → Cooperates p
    → Meets ps p (task_calls next does)
unfolding Meets task_calls IsFit
task_calls-Meets ps next goes (finishes s) p c fit e o =
    ((c, e), λ reply q step. goes reply q s (exits-Lands p reply q o step))
task_calls-Meets ps next goes (gives_way s regs) p c fit e o =
    ((c, e), λ reply q step. goes reply q s (yields-Lands p regs reply q fit o step))
task_calls-Meets ps next goes faults p c fit e o = λ r e'. absurd (ground (arith, e'))
task_calls-Meets ps next goes (adds entry arg size k) p c (he, fits, rest) e o = (
  (he, fits),
  λ reply q step.
      let (kept, same) = creates-Cooperates p entry arg size reply q o step in
      task_calls-Meets ps next goes (k (status_of reply)) q c (rest (status_of reply)) (same ∙ e)
        kept,
)

tasks_run-Meets :
    {S R : Type 0} (ps fuel : ℕ) (code : Code S) (main : S → Program (Option R))
    → CodeIsFit ps code
    → ((q : Plan) (s : S) → Cooperates q → q.control ≡ main_program → Meets ps q (main s))
    → (reply : Reply) (q : Plan) (s : S) → Lands reply q
    → Meets ps q (tasks_run fuel code main reply s)
unfolding tasks_run Meets Lands
tasks_run-Meets ps zero code main fit back reply q s lands = λ r e. absurd (ground (arith, e))
tasks_run-Meets ps (suc n) code main fit back (switched (starts entry arg)) q s
      (o, inl (e, (c, mine))) =
    task_calls-Meets ps (tasks_run n code main)
      (λ reply' q' s' l. tasks_run-Meets ps n code main fit back reply' q' s' l)
      (code.entry entry arg s) q c (fit.entries entry arg s) mine o
tasks_run-Meets ps (suc n) code main fit back (switched (starts entry arg)) q s (o, inr (e, at)) =
    absurd (ground (arith, e))
tasks_run-Meets ps (suc n) code main fit back (switched (goes_on regs)) q s
      (o, inl (e, (c, mine))) =
    rw e (
      task_calls-Meets ps (tasks_run n code main)
        (λ reply' q' s' l. tasks_run-Meets ps n code main fit back reply' q' s' l)
        (code.resume regs s) q c (fit.resumes regs s) mine o)
tasks_run-Meets ps (suc n) code main fit back (switched (goes_on regs)) q s (o, inr (e, at)) =
    rw e (back q s o at)
tasks_run-Meets ps (suc n) code main fit back (answered st) q s lands =
    λ r e. absurd (ground (arith, e))
tasks_run-Meets ps (suc n) code main fit back continued q s lands =
    λ r e. absurd (ground (arith, e))

-- A program of fit tasks and a fit main program calls what is allowed.
pub main_runs-Meets :
    {S : Type 0} (ps fuel : ℕ) (code : Code S)
    → CodeIsFit ps code
    → (main : Main S) (s : S) (p : Plan) → MainIsFit ps main
    → Cooperates p
    → p.control ≡ main_program
    → Meets ps p (main_runs fuel code main s)
unfolding Meets main_runs MainIsFit
main_runs-Meets ps fuel code fit (exits_with n) s p m o e = λ r' e'. e
main_runs-Meets ps fuel code fit (adds_task entry arg size k) s p (he, fits, rest) o e = (
  (he, fits),
  λ reply q step.
      let (kept, same) = creates-Cooperates p entry arg size reply q o step in
      main_runs-Meets ps fuel code fit (k (status_of reply)) s q (rest (status_of reply)) kept
        (same ∙ e),
)
main_runs-Meets ps fuel code fit (runs_tasks rest) s p m o e = (
  e,
  λ reply q step.
      tasks_run-Meets ps fuel code (λ s'. calls returns (λ reply'. main_runs fuel code rest s')) fit
        (λ q' s' o' back. (
          back,
          λ reply' q'' step'.
              let (kept, at) = returns-Cooperates q' reply' q'' o' step' in
              main_runs-Meets ps fuel code fit rest s' q'' m kept at,
        ))
        reply q s (runs-Lands p reply q o step),
)
