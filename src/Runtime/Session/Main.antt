-- ===== src/Runtime/Session/Main.antt =====
-- About runtime_execution.c: the calls of the main program against the plan.
use green_threads.Base.{
  sym, ap, ℕ, ◌<◌, ◌≡◌, refl, ◌⊎◌, inr, List, [], ◌∷◌, ◌++◌, arith, length-append,
}
use green_threads.Links.Seg.{◌∈◌}
use green_threads.Outcome.{ok}
use green_threads.Platform.Interface.{Host}
use green_threads.Platform.Context.{Context}
use green_threads.Platform.Ledger.{Behaves}
use green_threads.World.{World, Task, RuntimeState, task_max_capacity}
use green_threads.Runtime.Invariant.{left_part, IsConsistent}
use green_threads.Runtime.Resources.{IsSound, SameHoldings, Backed-holdings}
use green_threads.Runtime.Tasks.Count.{length-few}
use green_threads.Runtime.Tasks.Reap.{reap_zombies-IsSound}
use green_threads.Runtime.Schedule.Laws.{schedule-main}
use green_threads.Runtime.Execution.{run, run_resumed}
use green_threads.Runtime.Execution.Laws.{run-next}
use green_threads.Runtime.Session.{
  Resume, goes_on, loads, came_back, plan, main_program, task, runs, returns, switched, continued,
  run_next, run_none, reap, perform,
}
use green_threads.Runtime.Session.Switch.{resumed, went_on, Resumes, Resumes-held, Resumes-same}
use green_threads.Runtime.Session.Holds.{IsRunning-Means, Holds}
use green_threads.Runtime.Session.Tasks.{Performs, task_is_main}

-- gt_runtime_run with no task to run comes back at once.
run-none :
    (host : Host) (w : World) (owned exited : List ℕ) (regs : Context)
    → IsConsistent host w [] owned exited
    → (w.rt.state ≡ RuntimeState.initialized) ⊎ (w.rt.state ≡ RuntimeState.stopped)
    → (w' : World) × (run host regs w ≡ ok (regs, w'))
      × IsConsistent host w' [] owned exited
      × (w'.rt.state ≡ RuntimeState.stopped)
      × SameHoldings w w'
unfolding run
run-none host w owned exited regs c may =
    let v : World = record w {
      rt = record (w.rt) { main_context = regs; state = RuntimeState.running };
    } in
    let stopped : World = record v {
      rt = record (v.rt) { current = 0; state = RuntimeState.stopped };
    } in
    let same : (u : World)
        → u.links ≡ w.links
        → u.tasks ≡ w.tasks
        → IsConsistent host u [] owned exited =
      λ u el et. record {
        layout = c.layout;
        waiting_ring = rw el (c.waiting_ring);
        owned_ring = rw el (c.owned_ring);
        exited_ring = rw el (c.exited_ring);
        distinct = c.distinct;
        waiting_owned = c.waiting_owned;
        are_ready = λ t i. absurd (ground (arith, i));
        are_zombies = λ t i. rw et (c.are_zombies t i);
      } in
    (
      stopped,
      ground (arith, may, schedule-main host v owned exited (same v refl refl)),
      same stopped refl refl,
      refl,
      record {
        machine = refl;
        ids = refl;
        counted = refl;
        objects = λ a. (refl, refl, refl, refl);
      },
    )

module _ (host : Host) (ps fuel : ℕ) (w : World) (exited : List ℕ) (saved : ℕ → Resume)
    (main : Context) where
  pub runs_next :
      (t : ℕ) (ts : List ℕ) (regs : Context)
      → Holds host ps w (plan main_program (t ∷ ts) exited saved main)
      → Performs host ps fuel w (plan main_program (t ∷ ts) exited saved main) (runs regs)
  unfolding perform
  runs_next t ts regs h =
      let (c, may, all) = h.controls in
      let (w', ran, next, main_saved, kept, holds) =
        run-next host w t ts h.owned exited regs c may all in
      let live = h.owned ++ exited in
      let backed = Backed-holdings ps w w' live live h.taken h.backed holds (λ a. refl) refl in
      let as_before : (a : ℕ) → a ∈ t ∷ ts → Resumes host w' a (saved a) = λ a i.
        Resumes-held host ps w w' live h.taken a (saved a) h.backed holds
          (left_part h.owned exited a (c.waiting_owned a i)) (kept a refl) (h.saves.tasks a i) in
      (
        loads (w.tasks t).context,
        switched (saved t),
        w',
        plan (task t) ts exited saved regs,
        rw ran refl,
        IsRunning-Means host ps w' t ts h.owned exited h.taken (saved t) (w.tasks t).context next
            backed (sym (kept t refl)) (as_before t (ground arith)),
        run_next refl refl,
        record {
          owned = h.owned;
          taken = h.taken;
          controls = next;
          backed = backed;
          saves = record {
            tasks = λ a i. as_before a (ground arith);
            main_program = λ d e. main_saved;
          };
        },
      )

  pub runs_none :
      (regs : Context)
      → Holds host ps w (plan main_program [] exited saved main)
      → Performs host ps fuel w (plan main_program [] exited saved main) (runs regs)
  unfolding perform
  runs_none regs h =
      let (c, may, all) = h.controls in
      let (w', ran, next, stopped, holds) = run-none host w h.owned exited regs c may in
      (
        loads regs,
        switched (goes_on regs),
        w',
        plan main_program [] exited saved regs,
        rw ran refl,
        resumed,
        run_none refl refl,
        record {
          owned = h.owned;
          taken = h.taken;
          controls = (next, inr stopped, all);
          backed =
              Backed-holdings ps w w' (h.owned ++ exited) (h.owned ++ exited) h.taken h.backed holds
                (λ a. refl) refl;
          saves = record {
            tasks = λ a i. absurd (ground (arith, i));
            main_program = λ d e. absurd (task_is_main e);
          };
        },
      )

  pub returns_any :
      (waiting : List ℕ)
      → Behaves host ps
      → task_max_capacity < fuel
      → Holds host ps w (plan main_program waiting exited saved main)
      → Performs host ps fuel w (plan main_program waiting exited saved main) returns
  unfolding perform run_resumed
  returns_any waiting behaves enough h =
      let (c, may, all) = h.controls in
      let sound : IsSound host ps w waiting h.owned exited h.taken = record {
        consistent = c;
        backed = h.backed;
      } in
      let few =
        length-few (λ t. (w.tasks t).id) task_max_capacity (h.owned ++ exited) c.distinct
          (λ t i. (h.backed.ids t i).0) h.backed.ids_apart in
      let (w', taken, ran, sound', phase, kept, memory) =
        reap_zombies-IsSound host ps fuel w waiting h.owned exited h.taken behaves sound
          (omega (arith, length-append h.owned exited)) in
      (
        came_back,
        continued,
        w',
        plan main_program waiting [] saved main,
        rw ran refl,
        went_on,
        reap refl,
        record {
          owned = h.owned;
          taken = taken;
          controls = (sound'.consistent, rw phase.state may, all);
          backed = sound'.backed;
          saves = record {
            tasks = λ a i.
                let e = kept a (c.waiting_owned a i) in
                Resumes-same host ps w w' a (saved a) h.backed.paged
                  (h.backed.stacks a (left_part h.owned exited a (c.waiting_owned a i)))
                  (ap {A = Task} (λ t. t.context) e) (ap {A = Task} (λ t. t.stack) e)
                  (ap {A = Task} (λ t. t.entry) e) (ap {A = Task} (λ t. t.arg) e)
                  (λ x from below. rw memory refl) (h.saves.tasks a i);
            main_program = λ d e. absurd (task_is_main e);
          };
        },
      )
