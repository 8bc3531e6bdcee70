-- ===== src/Runtime/Tasks.antt =====
-- src/runtime/runtime_task.c: creating and destroying tasks.
pub mod Admit
pub mod Count
pub mod Grow
pub mod Steps
pub mod Undo
pub mod Enter
pub mod Create
pub mod Held
pub mod Destroy
pub mod Drain
pub mod Reap
pub mod Teardown
use green_threads.Base.{
  ℕ, zero, suc, ◌+◌, ◌-◌, ◌%◌, not, ◌==◌, ltb, if◌then◌else◌, Option, none, some,
}
use green_threads.Outcome.{Outcome, ok, panic, fault, out_of_fuel}
use green_threads.Outcome.Cmd.{Cmd, pure, ◌>>=◌, ◌>>◌, assert}
use green_threads.IdPool
use green_threads.IdPool.{IdPool}
use green_threads.Links
use green_threads.Links.{null}
use green_threads.Status.{Status, success, is_success, resource_exhausted}
use green_threads.Word.{word_mod}
use green_threads.Platform.Interface.{Host}
use green_threads.Platform.Heap.{heap_alloc, heap_free}
use green_threads.Platform.Context
use green_threads.World.{
  World, Runtime, TaskState, task_size, runtime_node, tasks_of, zombies_of, scheduler_of,
  on_machine, on_links,
}
use green_threads.Task
use green_threads.Task.{get_task, put_task, set_state, update_task}
use green_threads.Scheduler

abbrev pub get_rt : Cmd World Runtime
get_rt w = ok (w.rt, w)

abbrev pub put_rt : Runtime → Cmd World (Unit {0})
put_rt r w = ok (tt, record w { rt = r })

abbrev pub validate_task : ℕ → Cmd World (Unit {0})
validate_task task = assert (not (task == 0)) "task != NULL"

-- A call that answers without a state of its own.
abbrev pub lift : {A : Type 0} → Outcome A → Cmd World A
lift (ok a) w = ok (a, w)
lift (panic t) w = panic t
lift fault w = fault
lift out_of_fuel w = out_of_fuel

-- The address of a local variable, which is never NULL.
abbrev pub local : ℕ
local = 1

-- `__gt_runtime_allocate_task`.
unfoldable pub allocate_task : Host → Cmd World (Status × ℕ)
allocate_task host = on_machine (heap_alloc host local task_size)

-- `__gt_runtime_free_task`.
unfoldable pub free_task : ℕ → Cmd World (Unit {0})
free_task task = on_machine (heap_free task)

abbrev pub allocated_id : Option ℕ → Status × ℕ
allocated_id none = (resource_exhausted, 0)
allocated_id (some id) = (success, id)

-- `__gt_runtime_allocate_task_id`.
unfoldable pub allocate_task_id : Cmd World (Status × ℕ)
allocate_task_id = do
  r ← get_rt
  (allocated, pool) ← lift (IdPool.allocate (some (r.task_ids)) local)
  put_rt (record r { task_ids = pool })
  pure (allocated_id allocated)

-- `__gt_runtime_release_task_id`.
unfoldable pub release_task_id : ℕ → Cmd World (Unit {0})
release_task_id id = do
  r ← get_rt
  pool ← lift (IdPool.release (some (r.task_ids)) id)
  put_rt (record r { task_ids = pool })

-- `__gt_runtime_task_create` from the moment that the task's context is configured.
unfoldable pub admit_task : Host → (task id : ℕ) → Cmd World Status
unfolding free_task release_task_id
admit_task host task id = do
  set_state task TaskState.ready
  on_links (Links.push_back (tasks_of host) (runtime_node task))
  status ← Scheduler.admit (scheduler_of host) task
  if is_success status
      then (do
        r ← get_rt
        put_rt (record r { task_count = (r.task_count + 1) % word_mod })
        pure success)
      else (do
        on_links (Links.remove (runtime_node task))
        Task.destroy host task
        release_task_id id
        free_task task
        pure status)

-- The same from the moment that the task is initialised.
unfoldable pub configure_task : Host → (task id : ℕ) → Cmd World Status
unfolding admit_task free_task release_task_id
configure_task host task id = do
  t ← get_task task
  (status, ctx) ← on_machine (Context.configure host (some (t.context)) host.task_trampoline task)
  put_task task (record t { context = ctx })
  if is_success status
      then admit_task host task id
      else do Task.destroy host task; release_task_id id; free_task task; pure status

-- The same from the moment that the task has its identifier.
unfoldable pub init_task : Host → (task id entry arg stack_size : ℕ) → Cmd World Status
unfolding configure_task free_task release_task_id
init_task host task id entry arg stack_size = do
  status ← Task.init host task id entry arg stack_size
  if is_success status
      then configure_task host task id
      else do release_task_id id; free_task task; pure status

-- `__gt_runtime_task_create`.
unfoldable pub task_create : Host → (entry arg stack_size : ℕ) → Cmd World Status
unfolding init_task allocate_task free_task allocate_task_id
task_create host entry arg stack_size = do
  (status, task) ← allocate_task host
  if not (is_success status) then pure status else do
    (status, id) ← allocate_task_id
    if not (is_success status)
        then (do free_task task; pure status)
        else init_task host task id entry arg stack_size

-- `__gt_runtime_task_destroy`.
unfoldable pub task_destroy : Host → (task : ℕ) → Cmd World (Unit {0})
unfolding free_task release_task_id
task_destroy host task = do
  validate_task task
  on_links (Links.remove (runtime_node task))
  t ← get_task task
  Task.destroy host task
  release_task_id t.id
  free_task task
  r ← get_rt
  assert (ltb 0 r.task_count) "runtime.rt_task_count > 0"
  put_rt (record r { task_count = r.task_count - 1 })

-- GT_CONTAINER_OF of the runtime node.
abbrev pub task_of_runtime : ℕ → ℕ
task_of_runtime node = (node + word_mod - 136) % word_mod

-- `__gt_runtime_destroy_task_list`, with fuel for its loop.
unfoldable pub destroy_task_list : (fuel : ℕ) → Host → (list : ℕ) → Cmd World (Unit {0})
destroy_task_list zero host list = λ _. out_of_fuel
destroy_task_list (suc k) host list = do
  node ← on_links (Links.front list)
  if node == null
      then pure tt
      else do task_destroy host (task_of_runtime node); destroy_task_list k host list

-- `__gt_runtime_reap_zombies`.
unfoldable pub reap_zombies : (fuel : ℕ) → Host → Cmd World (Unit {0})
reap_zombies fuel host = destroy_task_list fuel host (zombies_of host)
