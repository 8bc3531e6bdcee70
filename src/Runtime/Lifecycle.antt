-- ===== src/Runtime/Lifecycle.antt =====
-- src/runtime/runtime.c and src/platform/platform.c: initialising and destroying the runtime.
pub mod Laws
pub mod Start
use green_threads.Base.{ℕ, Bool, true, false, not, if◌then◌else◌, some}
use green_threads.Outcome.{ok}
use green_threads.Outcome.Cmd.{Cmd, pure, ◌>>=◌, ◌>>◌, assert}
use green_threads.IdPool
use green_threads.Links
use green_threads.Status.{Status, success, is_success}
use green_threads.Platform
use green_threads.Platform.Interface.{Host}
use green_threads.Platform.Context
use green_threads.World.{
  World, RuntimeState, cleared_runtime, scheduler_of, tasks_of, zombies_of, task_max_capacity,
  on_machine, on_links,
}
use green_threads.Task.{clear_node}
use green_threads.Scheduler
use green_threads.Runtime.Tasks.{get_rt, put_rt, lift, task_create, destroy_task_list, reap_zombies}

abbrev pub is_uninitialized : RuntimeState → Bool
is_uninitialized RuntimeState.uninitialized = true
is_uninitialized _ = false

-- `gt_mem_clear(&runtime, sizeof(runtime))`: the heads of its lists are set to NULL too.
abbrev pub clear_runtime : Host → Cmd World (Unit {0})
clear_runtime host w = ok (
  tt,
  record w {
    rt = cleared_runtime;
    links =
        clear_node (zombies_of host)
          (clear_node (tasks_of host) (clear_node (scheduler_of host) w.links));
  },
)

-- `gt_runtime_init` from the moment that the platform is initialised.
unfoldable pub init_parts : Host → Cmd World Status
init_parts host = do
  status ← Scheduler.init (scheduler_of host)
  if not (is_success status) then (do on_machine Platform.destroy; pure status) else do
    on_links (Links.init (tasks_of host))
    on_links (Links.init (zombies_of host))
    r ← get_rt
    pool ← lift (IdPool.init (some (r.task_ids)) (some (r.storage)) task_max_capacity)
    put_rt (record r {
      task_ids = pool;
      main_context = Context.cleared;
      task_count = 0;
      current = 0;
      state = RuntimeState.initialized;
    })
    pure success

-- `gt_runtime_init`.
unfoldable pub init : Host → Cmd World Status
unfolding init_parts
init host = do
  r ← get_rt
  assert (is_uninitialized r.state) "runtime.rt_state == GT_RUNTIME_STATE_UNINITIALIZED"
  clear_runtime host
  status ← on_machine (Platform.init host)
  if not (is_success status) then pure status else init_parts host

-- `gt_runtime_create_task`.
unfoldable pub create_task : Host → (entry arg stack_size : ℕ) → Cmd World Status
create_task host entry arg stack_size = do
  r ← get_rt
  assert (not (is_uninitialized r.state)) "runtime.rt_state != GT_RUNTIME_STATE_UNINITIALIZED"
  task_create host entry arg stack_size

-- `gt_runtime_destroy`, with fuel for its loops.
unfoldable pub destroy : (fuel : ℕ) → Host → Cmd World (Unit {0})
destroy fuel host = do
  r ← get_rt
  assert (not (is_uninitialized r.state)) "runtime.rt_state != GT_RUNTIME_STATE_UNINITIALIZED"
  destroy_task_list fuel host (tasks_of host)
  reap_zombies fuel host
  Scheduler.destroy (scheduler_of host)
  on_machine Platform.destroy
  clear_runtime host
