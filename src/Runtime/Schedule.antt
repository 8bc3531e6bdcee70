-- ===== src/Runtime/Schedule.antt =====
-- src/runtime/runtime_scheduler.c: selecting who runs next.
pub mod Laws
use green_threads.Base.{ℕ, Bool, not, ◌==◌, ◌&&◌, if◌then◌else◌}
use green_threads.Outcome.Cmd.{Cmd, pure, ◌>>=◌, ◌>>◌, assert}
use green_threads.Platform.Interface.{Host}
use green_threads.Platform.Context.{Context}
use green_threads.World.{World, TaskState, RuntimeState, scheduler_of}
use green_threads.Task.{get_task, set_state}
use green_threads.Scheduler
use green_threads.Scheduler.{is_ready}
use green_threads.Runtime.Tasks.{get_rt, put_rt, validate_task}

-- `__gt_runtime_select_next`.
unfoldable pub select_next : Host → Cmd World ℕ
select_next host = Scheduler.next (scheduler_of host)

-- `__gt_runtime_resume_main`.
unfoldable pub resume_main : Cmd World Context
resume_main = do
  r ← get_rt
  put_rt (record r { current = 0; state = RuntimeState.stopped })
  pure (r.main_context)

-- `__gt_runtime_resume_task`.
unfoldable pub resume_task : (task : ℕ) → Cmd World Context
resume_task task = do
  validate_task task
  set_state task TaskState.running
  r ← get_rt
  put_rt (record r { current = task })
  t ← get_task task
  pure (t.context)

-- The first half of `__gt_runtime_schedule`: a task that yielded goes back into the queue.
unfoldable pub readmit : Host → (prev : ℕ) → Cmd World (Unit {0})
readmit host prev = if prev == 0 then pure tt else do
  t ← get_task prev
  if is_ready t.state
      then (do status ← Scheduler.admit (scheduler_of host) prev; pure tt)
      else pure tt

-- `__gt_runtime_schedule`.
unfoldable pub schedule : Host → (prev : ℕ) → Cmd World Context
unfolding readmit select_next resume_main resume_task
schedule host prev = do
  readmit host prev
  next ← select_next host
  if next == 0 then resume_main else resume_task next
