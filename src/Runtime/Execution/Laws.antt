-- ===== src/Runtime/Execution/Laws.antt =====
-- About runtime_execution.c: a task yields, and the runtime starts.
use green_threads.Base.{
  ℕ, ◌≡◌, refl, List, [], ◌∷◌, ◌++◌, arith, ◌⊎◌, contains-append, Distinct-append,
}
use green_threads.Outcome.{ok}
use green_threads.Links.{Links}
use green_threads.Links.Seg.{◌∉◌}
use green_threads.Platform.Interface.{Host}
use green_threads.Platform.Context.{Context}
use green_threads.Task.{update_task}
use green_threads.World.{World, Task, TaskState, RuntimeState}
use green_threads.Runtime.Invariant.{IsConsistent, IsRunning, waiting_change, left_part, ◌⊆◌}
use green_threads.Runtime.Resources.{SameHoldings}
use green_threads.Runtime.Schedule.{schedule}
use green_threads.Runtime.Schedule.Laws.{schedule-task, schedule-readmit, resumed, head-apart}
use green_threads.Runtime.Execution.{yield_task, run}

-- The world once the running task's registers are saved and it is marked ready.
abbrev readied : World → ℕ → ℕ → Task
readied w c = update_task w.tasks c (record (w.tasks c) { state = TaskState.ready })

abbrev paused : World → ℕ → Context → World
paused w c regs = record w {
  tasks = update_task (readied w c) c (record (readied w c c) { context = regs });
}

-- The tasks that have not run keep the context in which they were left.
abbrev pub SameContexts : List ℕ → World → World → Type 0
SameContexts ran w w' = (a : ℕ) → a ∉ ran → (w'.tasks a).context ≡ (w.tasks a).context

paused-IsConsistent :
    (host : Host) (w : World) (c : ℕ) (ts owned exited : List ℕ) (regs : Context)
    → IsRunning host w c ts owned exited
    → IsConsistent host (paused w c regs) ts owned exited
paused-IsConsistent host w c ts owned exited regs r =
    let (a, b, apart) = Distinct-append owned exited r.consistent.distinct in
    waiting_change host w (paused w c regs) ts ts owned exited ts r.consistent
      r.consistent.waiting_owned (λ a i. (refl, refl)) r.consistent.waiting_ring
      r.consistent.waiting_owned (λ a i. ground (arith, r.consistent.are_ready a, r.current_apart))
      (λ a i. ground (arith, apart c, r.current_owned))

yield-paused :
    (host : Host) (w : World) (c : ℕ) (ts owned exited : List ℕ) (regs : Context)
    → IsRunning host w c ts owned exited
    → (g : Links) × (yield_task host regs w
        ≡ schedule host 0 (record (paused w c regs) { links = g }))
      × IsConsistent host (record (paused w c regs) { links = g }) (ts ++ c ∷ []) owned exited
unfolding yield_task
yield-paused host w c ts owned exited regs r =
    let (g, ran, rest) =
      schedule-readmit host (paused w c regs) c ts owned exited
        (paused-IsConsistent host w c ts owned exited regs r) r.current_owned r.current_apart
        (ground arith) in
    (
      g,
      ground (
        arith,
        ran,
        r.is_current,
        r.current_owned,
        r.consistent.layout.far c,
        left_part owned exited c,
      ),
      rest,
    )

-- In a runtime where a task runs and others wait, gt_runtime_yield saves the running task's
-- registers, puts it behind the tasks that wait and resumes the saved context of the one that
-- has waited longest, which is the running task then; no other task's context changes.
pub yield_task-next :
    (host : Host) (w : World) (c t : ℕ) (ts owned exited : List ℕ) (regs : Context)
    → IsRunning host w c (t ∷ ts) owned exited
    → (w' : World) × (yield_task host regs w ≡ ok ((w.tasks t).context, w'))
      × IsRunning host w' t (ts ++ c ∷ []) owned exited
      × ((w'.tasks c).context ≡ regs)
      × SameContexts (c ∷ []) w w'
      × (w'.rt.main_context ≡ w.rt.main_context)
      × SameHoldings w w'
yield_task-next host w c t ts owned exited regs r =
    let (g, ran, cons) = yield-paused host w c (t ∷ ts) owned exited regs r in
    let v : World = record (paused w c regs) { links = g } in
    let (once, live) = head-apart host v t (ts ++ c ∷ []) owned exited cons in
    let (g', ran', cons') = schedule-task host v t (ts ++ c ∷ []) owned exited cons in
    (
      resumed v g' t,
      ground (arith, ran, ran', r.current_apart),
      record {
        consistent = cons';
        is_current = refl;
        current_owned = r.consistent.waiting_owned t (ground arith);
        current_apart = once;
        current_running = ground arith;
        phase = r.phase;
        complete = λ a i. ground (arith, r.complete a i, contains-append ts (c ∷ []) a);
      },
      ground (arith, r.current_apart),
      λ a out. ground (arith, out),
      refl,
      record {
        machine = refl;
        ids = refl;
        counted = refl;
        objects = λ a. (ground arith, ground arith, ground arith, ground arith);
      },
    )

-- A running task that yields while no task waits is resumed itself, with the registers of the
-- call, and runs on; no other task's context changes.
pub yield_task-alone :
    (host : Host) (w : World) (c : ℕ) (owned exited : List ℕ) (regs : Context)
    → IsRunning host w c [] owned exited
    → (w' : World) × (yield_task host regs w ≡ ok (regs, w'))
      × IsRunning host w' c [] owned exited
      × SameContexts (c ∷ []) w w'
      × (w'.rt.main_context ≡ w.rt.main_context)
      × SameHoldings w w'
yield_task-alone host w c owned exited regs r =
    let (g, ran, cons) = yield-paused host w c [] owned exited regs r in
    let v : World = record (paused w c regs) { links = g } in
    let (g', ran', cons') = schedule-task host v c [] owned exited cons in
    (
      resumed v g' c,
      ground (arith, ran, ran'),
      record {
        consistent = cons';
        is_current = refl;
        current_owned = r.current_owned;
        current_apart = refl;
        current_running = ground arith;
        phase = r.phase;
        complete = λ a i. ground (arith, r.complete a i);
      },
      λ a out. ground (arith, out),
      refl,
      record {
        machine = refl;
        ids = refl;
        counted = refl;
        objects = λ a. (ground arith, ground arith, ground arith, ground arith);
      },
    )

-- From the state INITIALIZED or STOPPED, with every owned task waiting and at least one,
-- gt_runtime_run saves the main context, resumes the saved context of the task that has waited
-- longest, and the runtime is RUNNING with this task current and the others waiting.
pub run-next :
    (host : Host) (w : World) (t : ℕ) (ts owned exited : List ℕ) (regs : Context)
    → IsConsistent host w (t ∷ ts) owned exited
    → (w.rt.state ≡ RuntimeState.initialized) ⊎ (w.rt.state ≡ RuntimeState.stopped)
    → owned ⊆ t ∷ ts
    → (w' : World) × (run host regs w ≡ ok ((w.tasks t).context, w'))
      × IsRunning host w' t ts owned exited
      × (w'.rt.main_context ≡ regs)
      × SameContexts [] w w'
      × SameHoldings w w'
unfolding run
run-next host w t ts owned exited regs c may all =
    let v : World = record w {
      rt = record (w.rt) { main_context = regs; state = RuntimeState.running };
    } in
    let cons : IsConsistent host v (t ∷ ts) owned exited =
      waiting_change host w v (t ∷ ts) (t ∷ ts) owned exited (t ∷ ts) c c.waiting_owned
        (λ a i. (refl, refl)) c.waiting_ring c.waiting_owned c.are_ready (λ a i. refl) in
    let (once, live) = head-apart host v t ts owned exited cons in
    let (g, ran, cons') = schedule-task host v t ts owned exited cons in
    (
      resumed v g t,
      ground (arith, ran, may),
      record {
        consistent = cons';
        is_current = refl;
        current_owned = c.waiting_owned t (ground arith);
        current_apart = once;
        current_running = ground arith;
        phase = refl;
        complete = λ a i. ground (arith, all a i);
      },
      refl,
      λ a out. ground arith,
      record {
        machine = refl;
        ids = refl;
        counted = refl;
        objects = λ a. (ground arith, ground arith, ground arith, ground arith);
      },
    )
