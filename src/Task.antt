-- ===== src/Task.antt =====
-- src/task/task.c: the task object. A task is known by its address.
pub mod Laws
use green_threads.Base.{ℕ, not, ◌==◌, if◌then◌else◌, some}
use green_threads.Outcome.{ok}
use green_threads.Outcome.Cmd.{Cmd, pure, ◌>>=◌, ◌>>◌, assert}
use green_threads.Links.{Links, update}
use green_threads.Status.{Status, success, is_success}
use green_threads.Platform.Interface.{Host}
use green_threads.Platform.Context
use green_threads.Platform.Context.{Context}
use green_threads.Stack
use green_threads.Stack.{Stack}
use green_threads.World.{World, Task, TaskState, cleared_task, ready_node, runtime_node, on_machine}

abbrev pub update_task : (ℕ → Task) → ℕ → Task → ℕ → Task
update_task f p t q = if p == q then t else f q

abbrev pub get_task : ℕ → Cmd World Task
get_task p w = ok (w.tasks p, w)

abbrev pub put_task : ℕ → Task → Cmd World (Unit {0})
put_task p t w = ok (tt, record w { tasks = update_task w.tasks p t })

abbrev pub set_state : ℕ → TaskState → Cmd World (Unit {0})
set_state p s = do t ← get_task p; put_task p (record t { state = s })

-- The links of a node set to NULL.
abbrev pub clear_node : ℕ → Links → Links
clear_node n h = record { prev = update h.prev n 0; next = update h.next n 0 }

-- `__gt_task_clear`: the whole object is set to zero, its list nodes included.
abbrev pub task_clear : ℕ → Cmd World (Unit {0})
task_clear p w = ok (
  tt,
  record w {
    tasks = update_task w.tasks p cleared_task;
    links = clear_node (runtime_node p) (clear_node (ready_node p) w.links);
  },
)

abbrev pub validate_task : ℕ → Cmd World (Unit {0})
validate_task task = assert (not (task == 0)) "task != NULL"

abbrev pub validate_entry : ℕ → Cmd World (Unit {0})
validate_entry entry = assert (not (entry == 0)) "entry != NULL"

-- The second half of `gt_task_init`, with the stack in place.
unfoldable pub init_context : Host → ℕ → Cmd World Status
init_context host task = do
  t ← get_task task
  (status, ctx) ← on_machine (Context.init (some (t.context)) (t.stack.base) (t.stack.size))
  put_task task (record t { context = ctx })
  if is_success status
      then pure success
      else do stack ← on_machine (Stack.destroy host (some (t.stack))); task_clear task; pure status

-- `gt_task_init`.
unfoldable pub init : Host → (task id entry arg stack_size : ℕ) → Cmd World Status
unfolding init_context
init host task id entry arg stack_size = do
  validate_task task
  validate_entry entry
  task_clear task
  t ← get_task task
  put_task task (record t { id = id; state = TaskState.new; entry = entry; arg = arg })
  t ← get_task task
  (status, stack) ← on_machine (Stack.init host (some (t.stack)) stack_size)
  put_task task (record t { stack = stack })
  if is_success status then init_context host task else pure status

-- `gt_task_destroy`.
unfoldable pub destroy : Host → ℕ → Cmd World (Unit {0})
destroy host task = do
  validate_task task
  t ← get_task task
  ctx ← on_machine (Context.destroy (some (t.context)))
  stack ← on_machine (Stack.destroy host (some (t.stack)))
  task_clear task
