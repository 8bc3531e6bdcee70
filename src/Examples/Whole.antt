-- ===== src/Examples/Whole.antt =====
-- About examples: from `gt_init` to `gt_destroy`.
use green_threads.Base.{
  ℕ, ◌<◌, ◌≡◌, ◌≢◌, refl, ap, inl, inr, List, [], Option, some, arith, sym, ◌∙◌,
}
use green_threads.Outcome.{ok}
use green_threads.Status.{Status, success}
use green_threads.Platform.Interface.{Host}
use green_threads.Platform.Context.{cleared}
use green_threads.Platform.Ledger.{Behaves}
use green_threads.World.{World, RuntimeState, Runtime, cleared_runtime, task_max_capacity}
use green_threads.Api.{gt_init, gt_destroy}
use green_threads.Runtime.Lifecycle.Laws.{HoldsNothing}
use green_threads.Runtime.Lifecycle.Start.{PageKnown}
use green_threads.Runtime.Session.{Reply, Program}
use green_threads.Runtime.Session.Switch.{Runs}
use green_threads.Runtime.Session.Turns.{answers, turns, session-turns}
use green_threads.Runtime.Session.Tasks.{task_is_main}
use green_threads.Runtime.Session.Whole.{first_plan}
use green_threads.Examples.{Code, Main, main_runs}
use green_threads.Examples.Meets.{main_runs-Meets}
use green_threads.Examples.Obeys.{MainIsFit, CodeIsFit, Cooperates, Meets-Obeys, Meets-main_program}

-- A process that may start the library: the C library and the kernel behave as documented on pages
-- of `ps` bytes, and the runtime has not been initialised and holds nothing.
pub record MayStart (host : Host) (ps : ℕ) (w : World) : Type 0 where
  pub behaves : Behaves host ps
  pub trampoline : host.task_trampoline ≢ 0
  pub fresh : w.rt.state ≡ RuntimeState.uninitialized
  pub given : 0 < host.runtime
  pub known : PageKnown host w.machine ps
  pub nothing : HoldsNothing w.machine

-- A run of a program: `gt_init` succeeds, the program ends with `r` after its creations have had the
-- answers `sts`, and `gt_destroy` leaves a process that may start the library again.
pub record Completes {R : Type 0} (host : Host) (ps fuel : ℕ) (w : World)
    (program : Program (Option R)) (sts : List Status) (r : R) : Type 0 where
  pub begins : World
  pub replies : List Reply
  pub reached : World
  pub left : World
  pub inits : gt_init host w ≡ ok (success, begins)
  pub runs : Runs fuel host begins program replies (some r) reached
  pub answered : answers replies ≡ sts
  pub destroys : gt_destroy fuel host reached ≡ ok (tt, left)
  pub again : MayStart host ps left

first_plan-Cooperates : Cooperates first_plan
first_plan-Cooperates = record { tasks = λ t i. absurd (ground (arith, i)); main = λ c e. refl }

-- What the turns of the tasks determine is what the program ends with, on the runtime.
pub main_runs-Completes :
    {S : Type 0} (host : Host) (ps fuel : ℕ) (w : World) (turn_fuel : ℕ) (code : Code S)
    (main : Main S) (s : S)
    → MayStart host ps w
    → task_max_capacity < fuel
    → CodeIsFit ps code
    → MainIsFit ps main
    → (Expected : List Status → ℕ × S → Type 0)
    → ((sts : List Status) (r : Option (ℕ × S))
        → turns [] cleared sts (main_runs turn_fuel code main s) ≡ some r
        → (r' : ℕ × S) × (r ≡ some r') × Expected sts r')
    → (sts : List Status) × (r : ℕ × S) × Completes host ps fuel w
        (main_runs turn_fuel code main s)
        sts
        r
      × Expected sts r
unfolding cleared_runtime
main_runs-Completes host ps fuel w turn_fuel code main s may enough fit main_fit Expected
      determined =
    let program = main_runs turn_fuel code main s in
    let meets =
      main_runs-Meets ps turn_fuel code fit main s first_plan main_fit first_plan-Cooperates refl in
    let (v, replies, r, u, q, inits, run, turned, follows, last) =
      session-turns host ps fuel w program may.behaves may.trampoline enough may.fresh may.given
        may.known may.nothing (Meets-Obeys ps first_plan program meets) in
    let (r', e, expected) = determined (answers replies) r turned in
    let back = Meets-main_program ps first_plan program replies r' q (rw e at follows) meets in
    elim last [
      | inl (c, mine) ↦ absurd (task_is_main (sym back ∙ mine))
      | inr (at, (left, ran, gone, nothing, paged)) ↦ (
        answers replies,
        r',
        record {
          begins = v;
          replies = replies;
          reached = u;
          left = left;
          inits = inits;
          runs = rw e at run;
          answered = refl;
          destroys = ran;
          again = record {
            behaves = may.behaves;
            trampoline = may.trampoline;
            fresh = ap {A = Runtime} (λ rt. rt.state) gone;
            given = may.given;
            known = inl paged;
            nothing = nothing;
          };
        },
        expected,
      )
    ]
