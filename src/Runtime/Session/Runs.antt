-- ===== src/Runtime/Session/Runs.antt =====
-- About src/runtime: programs that call the runtime against the plan.
use green_threads.Base.{ℕ, ◌<◌, ◌≡◌, ◌≢◌, sym, List, [], ◌∷◌}
use green_threads.Outcome.{ok}
use green_threads.Platform.Interface.{Host}
use green_threads.Platform.Context.{Context}
use green_threads.Platform.Ledger.{Behaves}
use green_threads.World.{World, task_max_capacity}
use green_threads.Runtime.Session.{
  Plan, plan, Control, main_program, task, Resume, Action, yields, runs, exits, returns, creates,
  Reply, Result, Allowed, Program, ends, calls, Obeys, Step, perform, Follows, stays, steps,
}
use green_threads.Runtime.Session.Switch.{Means, Runs, halts, goes}
use green_threads.Runtime.Session.Holds.{Holds}
use green_threads.Runtime.Session.Tasks.{
  Performs, yields_next, yields_alone, exits_next, exits_last, task_is_main,
}
use green_threads.Runtime.Session.Creates.{creates_any}
use green_threads.Runtime.Session.Main.{runs_next, runs_none, returns_any}

module _ (host : Host) (ps fuel : ℕ) (behaves : Behaves host ps) (tramp : host.task_trampoline ≢ 0)
    (enough : task_max_capacity < fuel) where
  module _ (w : World) (ex : List ℕ) (saved : ℕ → Resume) (main : Context) where
    performs :
        (who : Control) (ts : List ℕ) (a : Action)
        → Holds host ps w (plan who ts ex saved main)
        → Allowed ps (plan who ts ex saved main) a
        → Performs host ps fuel w (plan who ts ex saved main) a
    performs (task c) (t ∷ ts) (yields regs) h good =
        yields_next host ps fuel w c ex saved main t ts regs h
    performs (task c) [] (yields regs) h good = yields_alone host ps fuel w c ex saved main regs h
    performs main_program ts (yields regs) h (c, e) = absurd (task_is_main e)
    performs (task c) (t ∷ ts) exits h good = exits_next host ps fuel w c ex saved main t ts h
    performs (task c) [] exits h good = exits_last host ps fuel w c ex saved main h
    performs main_program ts exits h (c, e) = absurd (task_is_main e)
    performs who ts (creates entry arg size) h (he, fits) =
        creates_any host ps fuel behaves tramp w who ts ex saved main h entry arg size he fits
    performs main_program (t ∷ ts) (runs regs) h good =
        runs_next host ps fuel w ex saved main t ts regs h
    performs main_program [] (runs regs) h good = runs_none host ps fuel w ex saved main regs h
    performs (task c) ts (runs regs) h e = absurd (task_is_main (sym e))
    performs main_program ts returns h good =
        returns_any host ps fuel w ex saved main ts behaves enough h
    performs (task c) ts returns h e = absurd (task_is_main (sym e))

  -- From a world that a plan stands for, each call that the plan allows (a yield or an exit
  -- of a task, a run or the return of the main program, a creation by either) returns without
  -- a failed assertion, makes a step of the plan with a reply that its result stands for, and
  -- leaves a world that the new plan stands for; a creation may fail and then the plan stays.
  -- A context that is loaded holds the registers of the last call of the task, or of the main
  -- program, that is switched to; at the first switch to a task it begins the function of the
  -- task with its argument, by way of gt_context_start and the trampoline. mmap, munmap and
  -- calloc behave as documented, and the fuel is more than GT_TASK_MAX_CAPACITY.
  pub perform-Step :
      (w : World) (p : Plan) (a : Action)
      → Holds host ps w p
      → Allowed ps p a
      → (result : Result) × (reply : Reply) × (w' : World) × (q : Plan) × (perform fuel host a w
          ≡ ok (result, w'))
        × Means host w' result reply
        × Step p a reply q
        × Holds host ps w' q
  perform-Step w p a h may = performs w p.exited p.saved p.main p.control p.waiting a h may

  -- The runtime refines the abstract plan of who has control, who waits in which order, who
  -- has exited and what each resumes with: where mmap, munmap and calloc behave as
  -- documented, from a world that the plan stands for, any program whose calls the plan
  -- allows runs to its end, its replies follow the plan, a task that is switched to for the
  -- first time begins its function with its argument, by way of gt_context_start and the
  -- trampoline, one that is switched to again does so with the registers of its last call,
  -- and the world at the end stands for the plan's last state. The fuel is more than
  -- GT_TASK_MAX_CAPACITY.
  pub run_program-Follows :
      {R : Type 0} (w : World) (p : Plan) (program : Program R)
      → Holds host ps w p
      → Obeys ps p program
      → (replies : List Reply) × (r : R) × (w' : World) × (q : Plan) × Runs fuel host w program
          replies r w'
        × Follows p program replies r q
        × Holds host ps w' q
  run_program-Follows w p (ends r) h obeys = ([], r, w, p, halts, stays, h)
  run_program-Follows w p (calls a k) h (may, rest) =
      let (result, reply, v, q, ran, means, step, next) = perform-Step w p a h may in
      let (replies, r, w', s, run, follows, last) =
        run_program-Follows v q (k reply) next (rest reply q step) in
      (reply ∷ replies, r, w', s, goes ran means run, steps step follows, last)
