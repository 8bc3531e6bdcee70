-- ===== src/Runtime/Session/Tasks.antt =====
-- About runtime_execution.c and runtime_task.c: the calls of a task against the plan.
use green_threads.Base.{
  ℕ, ◌≡◌, ◌≢◌, refl, ap, ◌∙◌, sym, inl, inr, ◌==◌, Bool-cases, List, [], ◌∷◌, ◌++◌, arith, length,
  length-append, contains, contains-append, Distinct-append,
}
use green_threads.Outcome.{ok}
use green_threads.Platform.Interface.{Host}
use green_threads.Platform.Context.{Context}
use green_threads.World.{World}
use green_threads.Runtime.Resources.{Backed-holdings}
use green_threads.Runtime.Execution.Laws.{yield_task-next, yield_task-alone}
use green_threads.Runtime.Execution.Exit.{task_exit-next, task_exit-last}
use green_threads.Runtime.Execution.Finish.{place, only}
use green_threads.Runtime.Session.{
  Plan, plan, main_program, task, Action, yields, exits, Reply, Resume, goes_on, switched, Result,
  loads, Step, yield_next, yield_alone, exit_next, exit_last, save, perform,
}
use green_threads.Runtime.Invariant.{left_part}
use green_threads.Links.Seg.{◌∈◌}
use green_threads.Runtime.Session.Switch.{Means, resumed, Resumes, Resumes-held}
use green_threads.Runtime.Session.Holds.{Holds, IsRunning-Means}

contains-moved :
    (os os' xs : List ℕ) (c a : ℕ)
    → contains ((os ++ os') ++ (xs ++ c ∷ [])) a ≡ contains ((os ++ c ∷ os') ++ xs) a
contains-moved os os' xs c a = ground (
  arith,
  contains-append (os ++ os') (xs ++ c ∷ []) a,
  contains-append os os' a,
  contains-append xs (c ∷ []) a,
  contains-append (os ++ c ∷ os') xs a,
  contains-append os (c ∷ os') a,
)

length-moved :
    (os os' xs : List ℕ) (c : ℕ)
    → length ((os ++ os') ++ (xs ++ c ∷ [])) ≡ length ((os ++ c ∷ os') ++ xs)
length-moved os os' xs c = omega (
  arith,
  length-append (os ++ os') (xs ++ c ∷ []),
  length-append os os',
  length-append xs (c ∷ []),
  length-append (os ++ c ∷ os') xs,
  length-append os (c ∷ os'),
)

pub task_is_main : {c : ℕ} → main_program ≢ task c
task_is_main e = ground (arith, e)

-- A call that returns, and that the plan allows.
abbrev pub Performs : Host → (ps fuel : ℕ) → World → Plan → Action → Type 0
Performs host ps fuel w p a =
    (result : Result) × (reply : Reply) × (w' : World) × (q : Plan) × (perform fuel host a w
      ≡ ok (result, w'))
    × Means host w' result reply
    × Step p a reply q
    × Holds host ps w' q

module _ (host : Host) (ps fuel : ℕ) (w : World) (c : ℕ) (exited : List ℕ) (saved : ℕ → Resume)
    (main : Context) where
  pub yields_next :
      (t : ℕ) (ts : List ℕ) (regs : Context)
      → Holds host ps w (plan (task c) (t ∷ ts) exited saved main)
      → Performs host ps fuel w (plan (task c) (t ∷ ts) exited saved main) (yields regs)
  unfolding perform
  yields_next t ts regs h =
      let (w', ran, next, kept_regs, kept, same, holds) =
        yield_task-next host w c t ts h.owned exited regs h.controls in
      let live = h.owned ++ exited in
      let backed = Backed-holdings ps w w' live live h.taken h.backed holds (λ a. refl) refl in
      let as_before : (a : ℕ) → a ∈ t ∷ ts → Resumes host w' a (saved a) = λ a i.
        Resumes-held host ps w w' live h.taken a (saved a) h.backed holds
          (left_part h.owned exited a (h.controls.consistent.waiting_owned a i))
          (kept a (ground (arith, h.controls.current_apart))) (h.saves.tasks a i) in
      (
        loads (w.tasks t).context,
        switched (saved t),
        w',
        plan (task t) (ts ++ c ∷ []) exited (save saved c (goes_on regs)) main,
        rw ran refl,
        IsRunning-Means host ps w' t (ts ++ c ∷ []) h.owned exited h.taken (saved t)
            (w.tasks t).context next backed
            (sym (kept t (ground (arith, h.controls.current_apart)))) (as_before t (ground arith)),
        yield_next refl refl,
        record {
          owned = h.owned;
          taken = h.taken;
          controls = next;
          backed = backed;
          saves = record {
            tasks = λ a i. elim (Bool-cases (c == a)) [
              | inl e ↦
                  let e' : a ≡ c = ground arith in
                  rw e (ap (λ x. (w'.tasks x).context) e' ∙ kept_regs)
              | inr e ↦ rw e (as_before a (ground (arith, i, contains-append ts (c ∷ []) a)))
            ];
            main_program = λ d e. same ∙ h.saves.main_program c refl;
          };
        },
      )

  pub yields_alone :
      (regs : Context)
      → Holds host ps w (plan (task c) [] exited saved main)
      → Performs host ps fuel w (plan (task c) [] exited saved main) (yields regs)
  unfolding perform
  yields_alone regs h =
      let (w', ran, next, kept, same, holds) =
        yield_task-alone host w c h.owned exited regs h.controls in
      (
        loads regs,
        switched (goes_on regs),
        w',
        plan (task c) [] exited saved main,
        rw ran refl,
        resumed,
        yield_alone refl refl,
        record {
          owned = h.owned;
          taken = h.taken;
          controls = next;
          backed =
              Backed-holdings ps w w' (h.owned ++ exited) (h.owned ++ exited) h.taken h.backed holds
                (λ a. refl) refl;
          saves = record {
            tasks = λ a i. absurd (ground (arith, i));
            main_program = λ d e. same ∙ h.saves.main_program c refl;
          };
        },
      )

  pub exits_next :
      (t : ℕ) (ts : List ℕ)
      → Holds host ps w (plan (task c) (t ∷ ts) exited saved main)
      → Performs host ps fuel w (plan (task c) (t ∷ ts) exited saved main) exits
  unfolding perform
  exits_next t ts h =
      let (os, os', eq) = place h.owned c h.controls.current_owned in
      let (w', ran, next, same, kept, holds) =
        task_exit-next host w c t ts os os' exited (rw eq at h.controls) in
      let live = h.owned ++ exited in
      let backed =
        Backed-holdings ps w w' ((os ++ c ∷ os') ++ exited) ((os ++ os') ++ (exited ++ c ∷ []))
          h.taken (rw eq at h.backed) holds (contains-moved os os' exited c)
          (length-moved os os' exited c) in
      let as_before : (a : ℕ) → a ∈ t ∷ ts → Resumes host w' a (saved a) = λ a i.
        Resumes-held host ps w w' live h.taken a (saved a) h.backed holds
          (left_part h.owned exited a (h.controls.consistent.waiting_owned a i)) (kept a refl)
          (h.saves.tasks a i) in
      (
        loads (w.tasks t).context,
        switched (saved t),
        w',
        plan (task t) ts (exited ++ c ∷ []) saved main,
        rw ran refl,
        IsRunning-Means host ps w' t ts (os ++ os') (exited ++ c ∷ []) h.taken (saved t)
            (w.tasks t).context next backed (sym (kept t refl)) (as_before t (ground arith)),
        exit_next refl refl,
        record {
          owned = os ++ os';
          taken = h.taken;
          controls = next;
          backed = backed;
          saves = record {
            tasks = λ a i. as_before a (ground arith);
            main_program = λ d e. same ∙ h.saves.main_program c refl;
          };
        },
      )

  pub exits_last :
      Holds host ps w (plan (task c) [] exited saved main)
      → Performs host ps fuel w (plan (task c) [] exited saved main) exits
  unfolding perform
  exits_last h =
      let (d1, d2, apart) = Distinct-append h.owned exited h.controls.consistent.distinct in
      let one : h.owned ≡ c ∷ [] =
        only h.owned c d1 h.controls.current_owned
          (λ a i. ground (arith, h.controls.complete a i)) in
      let (w', ran, next, stopped, none_runs, holds) =
        task_exit-last host w c exited (rw one at h.controls) in
      (
        loads main,
        switched (goes_on main),
        w',
        plan main_program [] (exited ++ c ∷ []) saved main,
        rw (ran, h.saves.main_program c refl) refl,
        resumed,
        exit_last refl refl,
        record {
          owned = [];
          taken = h.taken;
          controls = (next, inr stopped, λ a i. i);
          backed =
              Backed-holdings ps w w' (c ∷ exited) (exited ++ c ∷ []) h.taken (rw one at h.backed)
                holds (contains-moved [] [] exited c) (length-moved [] [] exited c);
          saves = record {
            tasks = λ a i. absurd (ground (arith, i));
            main_program = λ d e. absurd (task_is_main e);
          };
        },
      )
