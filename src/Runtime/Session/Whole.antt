-- ===== src/Runtime/Session/Whole.antt =====
-- About src/runtime: a program from the initialisation of the runtime to its destruction.
use green_threads.Base.{
  ℕ, ◌<◌, ◌≡◌, ◌≢◌, refl, ◌⊎◌, inl, inr, false, List, [], ◌++◌, arith, length-append,
}
use green_threads.Outcome.{ok}
use green_threads.Status.{success}
use green_threads.Platform.Interface.{Host}
use green_threads.Platform.Context.{cleared}
use green_threads.Platform.Page.Laws.{IsPaged}
use green_threads.Platform.Ledger.{Behaves}
use green_threads.World.{World, RuntimeState, cleared_runtime, task_max_capacity}
use green_threads.Runtime.Resources.{IsSound}
use green_threads.Runtime.Tasks.Count.{length-few}
use green_threads.Api.{gt_init, gt_destroy}
use green_threads.Runtime.Lifecycle.{is_uninitialized}
use green_threads.Runtime.Lifecycle.Laws.{HoldsNothing, destroy-HoldsNothing}
use green_threads.Runtime.Lifecycle.Start.{PageKnown, init-IsSound}
use green_threads.Runtime.Session.{
  Plan, plan, Control, main_program, task, goes_on, Reply, Program, Obeys, Follows,
}
use green_threads.Runtime.Session.Switch.{Runs}
use green_threads.Runtime.Session.Holds.{Holds}
use green_threads.Runtime.Session.Runs.{run_program-Follows}

-- The plan of a runtime that has just been initialised.
abbrev pub first_plan : Plan
first_plan = plan main_program [] [] (λ _. goes_on cleared) cleared

first_plan-Holds :
    (host : Host) (ps : ℕ) (w : World)
    → w.rt.state ≡ RuntimeState.initialized
    → IsSound host ps w [] [] [] (λ _. false)
    → Holds host ps w first_plan
first_plan-Holds host ps w phase sound = record {
  owned = [];
  taken = λ _. false;
  controls = (sound.consistent, inl phase, λ a i. i);
  backed = sound.backed;
  saves = record {
    tasks = λ a i. absurd (ground (arith, i));
    main_program = λ d e. absurd (ground (arith, e));
  };
}

is_initialized :
    (w : World)
    → (w.rt.state ≡ RuntimeState.initialized) ⊎ (w.rt.state ≡ RuntimeState.stopped)
    → is_uninitialized w.rt.state ≡ false
is_initialized w (inl e) = rw e refl
is_initialized w (inr e) = rw e refl

destroy_plan :
    (host : Host) (ps fuel : ℕ)
    → Behaves host ps
    → task_max_capacity < fuel
    → (w : World) (q : Plan) → Holds host ps w q
    → q.control ≡ main_program
    → (w' : World) × (gt_destroy fuel host w ≡ ok (tt, w'))
      × (w'.rt ≡ cleared_runtime)
      × HoldsNothing w'.machine
      × IsPaged w'.machine.page ps
destroy_plan host ps fuel behaves enough w q h back =
    let (c, may, all) = rw back at h.controls in
    let few =
      length-few (λ t. (w.tasks t).id) task_max_capacity (h.owned ++ q.exited) c.distinct
        (λ t i. (h.backed.ids t i).0) h.backed.ids_apart in
    let (w', ran, gone, nothing, page) =
      destroy-HoldsNothing host ps fuel w q.waiting h.owned q.exited h.taken behaves
        (record { consistent = c; backed = h.backed }) (is_initialized w may)
        (omega (arith, length-append h.owned q.exited))
        (omega (arith, length-append h.owned q.exited)) in
    (w', ran, gone, nothing, page)

-- How a session ends: a task has control, or the main program destroys the runtime, and nothing is
-- left.
abbrev pub SessionEnds : (ps fuel : ℕ) → Host → Control → World → Type 0
SessionEnds ps fuel host who u =
    ((c : ℕ) × (who ≡ task c))
    ⊎ ((who ≡ main_program)
        × ((w' : World) × (gt_destroy fuel host u ≡ ok (tt, w'))
            × (w'.rt ≡ cleared_runtime)
            × HoldsNothing w'.machine
            × IsPaged w'.machine.page ps))

control-cases : (who : Control) → ((c : ℕ) × (who ≡ task c)) ⊎ (who ≡ main_program)
control-cases main_program = inr refl
control-cases (task c) = inl (c, refl)

ended :
    (host : Host) (ps fuel : ℕ)
    → Behaves host ps
    → task_max_capacity < fuel
    → (w : World) (q : Plan) → Holds host ps w q
    → SessionEnds ps fuel host q.control w
ended host ps fuel behaves enough w q h = elim (control-cases q.control) [
  | inl c ↦ inl c
  | inr back ↦ inr (back, destroy_plan host ps fuel behaves enough w q h back)
]

-- Where mmap, munmap and calloc behave as documented, a page size is known that fits, and
-- neither mapping nor block is held, gt_init of an uninitialised runtime succeeds; any program
-- of creations, runs, yields, exits and returns to the main program whose calls are allowed by
-- the abstract plan then runs to its end without a failed assertion, its replies are those of
-- the plan, each task that is switched to for the first time begins its function with its
-- argument, by way of gt_context_start and the trampoline, and, unless a task has control at
-- the end, gt_destroy ends, and leaves a cleared runtime, no mapping and no block, and a page
-- size that is known, so that gt_init may follow again. The fuel is more than
-- GT_TASK_MAX_CAPACITY.
pub session-HoldsNothing :
    {R : Type 0} (host : Host) (ps fuel : ℕ) (w : World) (program : Program R)
    → Behaves host ps
    → host.task_trampoline ≢ 0
    → task_max_capacity < fuel
    → w.rt.state ≡ RuntimeState.uninitialized
    → 0 < host.runtime
    → PageKnown host w.machine ps
    → HoldsNothing w.machine
    → Obeys ps first_plan program
    → (v : World) × (replies : List Reply) × (r : R) × (u : World) × (q : Plan) × (gt_init host w
        ≡ ok (success, v))
      × Runs fuel host v program replies r u
      × Follows first_plan program replies r q
      × SessionEnds ps fuel host q.control u
session-HoldsNothing host ps fuel w program behaves tramp enough fresh given known nothing obeys =
    let (v, ran, phase, sound) = init-IsSound host ps w fresh given known nothing in
    let (replies, r, u, q, run, follows, h) =
      run_program-Follows host ps fuel behaves tramp enough v first_plan program
        (first_plan-Holds host ps v phase sound) obeys in
    (v, replies, r, u, q, ran, run, follows, ended host ps fuel behaves enough u q h)
