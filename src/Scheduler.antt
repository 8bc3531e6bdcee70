-- ===== src/Scheduler.antt =====
-- src/scheduler/scheduler.c: the ready queue. A scheduler is known by its address, which is that of
-- its only field.
pub mod Laws
use green_threads.Base.{ℕ, ◌-◌, Bool, true, false, not, ◌==◌, ltb, if◌then◌else◌}
use green_threads.Outcome.{ok, fault}
use green_threads.Outcome.Cmd.{Cmd, pure, ◌>>=◌, ◌>>◌, assert}
use green_threads.Queue
use green_threads.Status.{Status, success}
use green_threads.World.{World, Task, TaskState, ready_node, on_links}
use green_threads.Task.{get_task, clear_node}

abbrev pub validate_sched : ℕ → Cmd World (Unit {0})
validate_sched sched = assert (not (sched == 0)) "sched != NULL"

abbrev pub validate_task : ℕ → Cmd World (Unit {0})
validate_task task = assert (not (task == 0)) "task != NULL"

abbrev pub is_ready : TaskState → Bool
is_ready TaskState.ready = true
is_ready _ = false

abbrev pub validate_task_state : ℕ → Cmd World (Unit {0})
validate_task_state task = do
  t ← get_task task
  assert (is_ready t.state) "task->t_state == GT_TASK_STATE_READY"

-- `__gt_scheduler_clear`.
abbrev pub scheduler_clear : ℕ → Cmd World (Unit {0})
scheduler_clear sched w = ok (tt, record w { links = clear_node sched w.links })

-- `gt_scheduler_init`.
unfoldable pub init : ℕ → Cmd World Status
init sched = do
  validate_sched sched
  scheduler_clear sched
  on_links (Queue.init sched)
  pure success

-- `gt_scheduler_destroy`.
unfoldable pub destroy : ℕ → Cmd World (Unit {0})
destroy sched = do validate_sched sched; scheduler_clear sched

-- `gt_scheduler_admit`.
unfoldable pub admit : (sched task : ℕ) → Cmd World Status
admit sched task = do
  validate_sched sched
  validate_task task
  validate_task_state task
  on_links (Queue.enqueue sched (ready_node task))
  pure success

-- GT_CONTAINER_OF_SAFE of the ready node; an address below the offset of the member, from which the
-- subtraction is undefined, faults.
abbrev pub task_of_ready : ℕ → Cmd World ℕ
task_of_ready node =
    if node == 0 then pure 0 else if ltb node 120 then (λ _. fault) else pure (node - 120)

-- `gt_scheduler_next`.
unfoldable pub next : ℕ → Cmd World ℕ
next sched = do validate_sched sched; node ← on_links (Queue.dequeue sched); task_of_ready node
