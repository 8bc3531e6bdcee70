-- ===== src/Runtime/Execution.antt =====
-- src/runtime/runtime_execution.c: running, yielding and exiting. `regs` are the callee-saved
-- registers at the call of `gt_context_save`, which returns zero at once and, when the context is
-- resumed, a second time with one: what follows then is a call of its own, `run_resumed`.
pub mod Laws
pub mod Rounds
pub mod Exit
pub mod Finish
use green_threads.Base.{ℕ, Bool, true, false, not, ◌==◌, ◌||◌, if◌then◌else◌}
use green_threads.Outcome.Cmd.{Cmd, pure, ◌>>=◌, ◌>>◌, assert}
use green_threads.Links
use green_threads.Platform.Interface.{Host}
use green_threads.Platform.Context.{Context}
use green_threads.World.{World, TaskState, RuntimeState, zombies_of, runtime_node, on_links}
use green_threads.Task.{get_task, put_task, set_state}
use green_threads.Runtime.Tasks.{get_rt, put_rt, reap_zombies}
use green_threads.Runtime.Schedule.{schedule}

abbrev pub validate_current_task : ℕ → Cmd World (Unit {0})
validate_current_task current = assert (not (current == 0)) "runtime.rt_current != NULL"

-- `__gt_runtime_task_exit`.
unfoldable pub task_exit : Host → Cmd World Context
task_exit host = do
  r ← get_rt
  validate_current_task (r.current)
  set_state (r.current) TaskState.zombie
  on_links (Links.remove (runtime_node (r.current)))
  on_links (Links.push_back (zombies_of host) (runtime_node (r.current)))
  r' ← get_rt
  put_rt (record r' { current = 0 })
  schedule host 0

-- `__gt_runtime_task_trampoline` up to the call of the entry function: the function and its
-- argument. When that returns, `task_exit` follows.
unfoldable pub task_trampoline : (arg : ℕ) → Cmd World (ℕ × ℕ)
task_trampoline arg = do
  assert (not (arg == 0)) "arg != NULL"
  t ← get_task arg
  pure (t.entry, t.arg)

abbrev pub may_run : RuntimeState → Bool
may_run RuntimeState.initialized = true
may_run RuntimeState.stopped = true
may_run _ = false

-- `gt_runtime_run` up to the first switch.
unfoldable pub run : Host → (regs : Context) → Cmd World Context
run host regs = do
  r ← get_rt
  assert (may_run r.state)
      "runtime.rt_state == GT_RUNTIME_STATE_INITIALIZED || runtime.rt_state == GT_RUNTIME_STATE_STOPPED"
  put_rt (record r { main_context = regs; state = RuntimeState.running })
  schedule host 0

-- `gt_runtime_run` once the main context is resumed.
unfoldable pub run_resumed : (fuel : ℕ) → Host → Cmd World (Unit {0})
run_resumed fuel host = reap_zombies fuel host

-- `gt_runtime_yield` up to the switch; nothing follows when the task is resumed.
unfoldable pub yield_task : Host → (regs : Context) → Cmd World Context
yield_task host regs = do
  r ← get_rt
  validate_current_task (r.current)
  set_state (r.current) TaskState.ready
  t ← get_task (r.current)
  put_task (r.current) (record t { context = regs })
  schedule host (r.current)
