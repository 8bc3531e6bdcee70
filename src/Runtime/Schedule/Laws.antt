-- ===== src/Runtime/Schedule/Laws.antt =====
-- About runtime_scheduler.c: the choice of the next task.
use green_threads.Base.{
  ℕ, ◌+◌, ◌≡◌, refl, List, [], ◌∷◌, ◌++◌, arith, contains-append, Distinct-append,
}
use green_threads.Outcome.{ok}
use green_threads.Links.{Links}
use green_threads.Links.Seg.{◌∈◌, ◌∉◌}
use green_threads.Platform.Interface.{Host}
use green_threads.Scheduler.Laws.{next-none, next-some, admit_lem}
use green_threads.Task.{update_task}
use green_threads.World.{World, TaskState, RuntimeState, scheduler_of}
use green_threads.Runtime.Invariant.{IsConsistent, waiting_change, left_part, contains-ready_node}
use green_threads.Runtime.Schedule.{schedule}

-- With no task to run and none to put back, the scheduler resumes the main context, and the runtime
-- has stopped.
pub schedule-main :
    (host : Host) (w : World) (owned exited : List ℕ)
    → IsConsistent host w [] owned exited
    → schedule host 0 w
      ≡ ok (
        w.rt.main_context,
        record w { rt = record (w.rt) { current = 0; state = RuntimeState.stopped } },
      )
unfolding schedule
schedule-main host w owned exited c =
    ground (arith, next-none w (scheduler_of host), c.waiting_ring)

-- The world after task `t` is resumed.
abbrev pub resumed : World → Links → ℕ → World
resumed w g t = record w {
  links = g;
  tasks = update_task w.tasks t (record (w.tasks t) { state = TaskState.running });
  rt = record (w.rt) { current = t };
}

-- The head of the queue does not wait a second time, and is none of the exited tasks.
pub head-apart :
    (host : Host) (w : World) (t : ℕ) (ts owned exited : List ℕ)
    → IsConsistent host w (t ∷ ts) owned exited
    → (t ∉ ts) × (t ∉ exited)
head-apart host w t ts owned exited c =
    let (a, b, apart) = Distinct-append owned exited c.distinct in
    (
      ground (arith, c.waiting_ring.distinct, contains-ready_node ts (t + 120)),
      apart t (c.waiting_owned t (ground arith)),
    )

-- With none to put back, the scheduler resumes the saved context of the task that has waited
-- longest: it leaves the queue and is the running task.
pub schedule-task :
    (host : Host) (w : World) (t : ℕ) (ts owned exited : List ℕ)
    → IsConsistent host w (t ∷ ts) owned exited
    → (g : Links) × (schedule host 0 w ≡ ok ((w.tasks t).context, resumed w g t))
      × IsConsistent host (resumed w g t) ts owned exited
unfolding schedule
schedule-task host w t ts owned exited c =
    let (g, ran, ring, same) = next-some w (scheduler_of host) (ground arith) t ts c.waiting_ring in
    let (once, live) = head-apart host w t ts owned exited c in
    (
      g,
      ground (arith, ran, c.layout.far t, c.waiting_owned t, left_part owned exited t),
      waiting_change host w (resumed w g t) (t ∷ ts) ts owned exited (t ∷ ts) c c.waiting_owned same
          ring (λ a i. c.waiting_owned a (ground arith)) (λ a i. ground (arith, c.are_ready a))
          (λ a i. ground arith),
    )

-- A ready task that the runtime owns and that does not wait goes to the back of the queue before
-- the next one is selected.
pub schedule-readmit :
    (host : Host) (w : World) (prev : ℕ) (ts owned exited : List ℕ)
    → IsConsistent host w ts owned exited
    → prev ∈ owned
    → prev ∉ ts
    → (w.tasks prev).state ≡ TaskState.ready
    → (g : Links) × (schedule host prev w ≡ schedule host 0 (record w { links = g }))
      × IsConsistent host (record w { links = g }) (ts ++ prev ∷ []) owned exited
unfolding schedule
schedule-readmit host w prev ts owned exited c own new ready =
    let (placed, side) = c.layout.far prev (left_part owned exited prev own) in
    let (g, ran, ring, same) =
      admit_lem w (scheduler_of host) (ground arith) prev ts c.waiting_ring (ground arith) ready
        (ground (arith, contains-ready_node ts (prev + 120), c.waiting_ring.not_null)) in
    (
      g,
      ground (arith, ran),
      waiting_change host w (record w { links = g }) ts (ts ++ prev ∷ []) owned exited (prev ∷ ts) c
          (λ a i. ground (arith, c.waiting_owned a)) same ring
          (λ a i. ground (arith, c.waiting_owned a, contains-append ts (prev ∷ []) a))
          (λ a i. ground (arith, c.are_ready a, contains-append ts (prev ∷ []) a)) (λ a i. refl),
    )
