-- ===== src/Runtime/Execution/Exit.antt =====
-- About runtime_execution.c: a task exits.
pub mod Move
use mathlib.Core.List.{map-append, append_assoc, append-nil}
use green_threads.Base.{
  ℕ, ◌+◌, ◌-◌, ◌≡◌, refl, List, [], ◌∷◌, ◌++◌, map, arith, inl, inr, contains-append, Distinct,
  Distinct-append, Distinct-insert, Distinct-remove,
}
use green_threads.Outcome.{ok}
use green_threads.Links
use green_threads.Links.{Links, null}
use green_threads.Links.Seg.{◌∈◌, ◌∉◌}
use green_threads.Links.Ring.{IsRing, SameOutside, IsRing-frame}
use green_threads.Links.Laws.{remove-IsRing, push_back-IsRing}
use green_threads.Platform.Interface.{Host}
use green_threads.Task.{update_task}
use green_threads.World.{
  World, TaskState, RuntimeState, ready_node, runtime_node, scheduler_of, tasks_of, zombies_of,
}
use green_threads.Runtime.Invariant.{
  IsConsistent, IsRunning, Layout, waiting_change, left_part, right_part, ◌⊆◌, runtime_apart,
  contains-runtime_node,
}
use green_threads.Runtime.Resources.{SameHoldings}
use green_threads.Runtime.Schedule.{schedule}
use green_threads.Runtime.Schedule.Laws.{schedule-main, schedule-task, resumed, head-apart}
use green_threads.Runtime.Execution.{task_exit}
use green_threads.Runtime.Execution.Laws.{SameContexts}
use green_threads.Runtime.Execution.Exit.Move.{
  left_owned, exited_apart, joined_exited, Distinct-moved, moved_part,
}

-- The world once the task `c` has left: its state is ZOMBIE and no task is the current one.
abbrev left : World → Links → ℕ → World
left w h c = record w {
  links = h;
  tasks = update_task w.tasks c (record (w.tasks c) { state = TaskState.zombie });
  rt = record (w.rt) { current = 0 };
}

exit-left :
    (host : Host) (w : World) (c : ℕ) (waiting os os' exited : List ℕ)
    → IsRunning host w c waiting (os ++ c ∷ os') exited
    → (h : Links) × (task_exit host w ≡ schedule host 0 (left w h c))
      × IsConsistent host (left w h c) waiting (os ++ os') (exited ++ c ∷ [])
unfolding task_exit
exit-left host w c waiting os os' exited r =
    let k = r.consistent in
    let all = (os ++ c ∷ os') ++ exited in
    let (distinct, once, fresh) = Distinct-moved os os' exited c k.distinct in
    let (d1, d2, apart) = Distinct-append (os ++ c ∷ os') exited k.distinct in
    let (g, ran, ro, same) = left_owned host w c waiting os os' exited k in
    let in_os = left_part (os ++ c ∷ os') exited in
    let in_exited = right_part (os ++ c ∷ os') exited in
    let moved : (os ++ os') ++ (exited ++ c ∷ []) ⊆ all = λ a i. moved_part os os' exited c a i in
    let in_waiting : waiting ⊆ all = λ a i. in_os a (k.waiting_owned a i) in
    let re =
      IsRing-frame w.links g (zombies_of host) (map runtime_node exited)
        (tasks_of host ∷ map runtime_node (os ++ c ∷ os')) k.exited_ring same
        (exited_apart host all (os ++ c ∷ os') exited k.layout in_os in_exited apart) in
    let rq =
      IsRing-frame w.links g (scheduler_of host) (map ready_node waiting)
        (tasks_of host ∷ map runtime_node (os ++ c ∷ os')) k.waiting_ring same
        (runtime_apart host all waiting (os ++ c ∷ os') k.layout in_waiting in_os (tasks_of host)
          (inl refl)) in
    let (h, ran', ro', re', rq') =
      joined_exited host g all waiting os os' exited c k.layout in_os in_exited in_waiting apart
        once ro re rq in
    (
      h,
      ground (arith, ran, ran', r.is_current, k.layout.far c, in_os c, r.current_owned),
      record {
        layout = record {
          placed = k.layout.placed;
          far = λ p i. k.layout.far p (moved p i);
          separate = λ p q i j. k.layout.separate p q (moved p i) (moved q j);
        };
        waiting_ring = rq';
        owned_ring = ro';
        exited_ring = re';
        distinct = distinct;
        waiting_owned = λ a i. ground (
          arith,
          k.waiting_owned a,
          r.current_apart,
          contains-append os os' a,
          contains-append os (c ∷ os') a,
        );
        are_ready = λ a i. ground (arith, k.are_ready a, r.current_apart);
        are_zombies = λ a i. ground (arith, k.are_zombies a, contains-append exited (c ∷ []) a);
      },
    )

-- In a runtime where a task runs and others wait, __gt_runtime_task_exit makes the running task
-- a zombie, moves it from the owned tasks to the end of the exited ones and resumes the saved
-- context of the task that has waited longest, which is the running task then; no task's
-- context and not the main context changes.
pub task_exit-next :
    (host : Host) (w : World) (c t : ℕ) (ts os os' exited : List ℕ)
    → IsRunning host w c (t ∷ ts) (os ++ c ∷ os') exited
    → (w' : World) × (task_exit host w ≡ ok ((w.tasks t).context, w'))
      × IsRunning host w' t ts (os ++ os') (exited ++ c ∷ [])
      × (w'.rt.main_context ≡ w.rt.main_context)
      × SameContexts [] w w'
      × SameHoldings w w'
task_exit-next host w c t ts os os' exited r =
    let (h, ran, cons) = exit-left host w c (t ∷ ts) os os' exited r in
    let v = left w h c in
    let (once, live) = head-apart host v t ts (os ++ os') (exited ++ c ∷ []) cons in
    let (g, ran', cons') = schedule-task host v t ts (os ++ os') (exited ++ c ∷ []) cons in
    (
      resumed v g t,
      ground (arith, ran, ran', r.current_apart),
      record {
        consistent = cons';
        is_current = refl;
        current_owned = cons.waiting_owned t (ground arith);
        current_apart = once;
        current_running = ground arith;
        phase = r.phase;
        complete = λ a i. ground (
          arith,
          r.complete a,
          contains-append os os' a,
          contains-append os (c ∷ os') a,
          (Distinct-moved os os' exited c r.consistent.distinct).1,
        );
      },
      refl,
      λ a out. ground arith,
      record {
        machine = refl;
        ids = refl;
        counted = refl;
        objects = λ a. (ground arith, ground arith, ground arith, ground arith);
      },
    )

-- When the only owned task runs and exits, the runtime resumes the main context, is STOPPED
-- with no current task, no task waits or is owned, and the task is the last of the exited ones.
pub task_exit-last :
    (host : Host) (w : World) (c : ℕ) (exited : List ℕ)
    → IsRunning host w c [] (c ∷ []) exited
    → (w' : World) × (task_exit host w ≡ ok (w.rt.main_context, w'))
      × IsConsistent host w' [] [] (exited ++ c ∷ [])
      × (w'.rt.state ≡ RuntimeState.stopped)
      × (w'.rt.current ≡ 0)
      × SameHoldings w w'
task_exit-last host w c exited r =
    let (h, ran, cons) = exit-left host w c [] [] [] exited r in
    let v = left w h c in
    let stopped = record v { rt = record (v.rt) { current = 0; state = RuntimeState.stopped } } in
    (
      stopped,
      ground (arith, ran, schedule-main host v [] (exited ++ c ∷ []) cons),
      waiting_change host v stopped [] [] [] (exited ++ c ∷ []) [] cons (λ a i. i)
          (λ a i. (refl, refl)) cons.waiting_ring cons.waiting_owned cons.are_ready (λ a i. refl),
      refl,
      refl,
      record {
        machine = refl;
        ids = refl;
        counted = refl;
        objects = λ a. (ground arith, ground arith, ground arith, ground arith);
      },
    )
