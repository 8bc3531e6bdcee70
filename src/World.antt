-- ===== src/World.antt =====
-- The memory of the process as the upper components see it: the platform's state, the links of every
-- list node, the task objects by address, and the runtime singleton. The structures of task.h and
-- runtime_internal.h.
use green_threads.Base.{ℕ, ◌+◌, ◌/◌, none, List, replicate}
use green_threads.Outcome.{ok}
use green_threads.Outcome.Cmd.{Cmd, and_then}
use green_threads.Links.{Links}
use green_threads.IdPool.{IdPool}
use green_threads.Stack
use green_threads.Stack.{Stack}
use green_threads.Platform.Interface.{Host, Machine}
use green_threads.Platform.Context
use green_threads.Platform.Context.{Context}

-- `gt_task_state_t`
pub data TaskState : Type 0 where
  new ready running zombie : TaskState

-- `gt_runtime_state_t`
pub data RuntimeState : Type 0 where
  uninitialized initialized running stopped : RuntimeState

-- `struct gt_task`, but for its two list nodes, which are among the links.
pub record Task : Type 0 where
  pub id : ℕ
  pub state : TaskState
  pub entry : ℕ
  pub arg : ℕ
  pub stack : Stack
  pub context : Context

-- The bytes of a task set to zero; GT_TASK_STATE_NEW is 0.
abbrev pub cleared_task : Task
cleared_task = record {
  id = 0;
  state = TaskState.new;
  entry = 0;
  arg = 0;
  stack = Stack.cleared;
  context = Context.cleared;
}

-- `sizeof(struct gt_task)` and the offsets of its two nodes, on x86-64.
abbrev pub task_size : ℕ
task_size = 152

abbrev pub ready_node : ℕ → ℕ
ready_node task = task + 120

abbrev pub runtime_node : ℕ → ℕ
runtime_node task = task + 136

-- GT_TASK_MAX_CAPACITY, and GT_RUNTIME_TASK_ID_STORAGE words of 64 bits for it.
abbrev pub task_max_capacity : ℕ
task_max_capacity = 100000

abbrev pub task_id_storage : ℕ
task_id_storage = (task_max_capacity + 63) / 64

-- `struct gt_runtime`, but for the heads of its lists, which are among the links. The storage of
-- the identifiers is in the pool, once that is initialised over it.
pub record Runtime : Type 0 where
  pub state : RuntimeState
  pub main_context : Context
  pub storage : List ℕ
  pub task_ids : IdPool
  pub task_count : ℕ
  pub current : ℕ

-- The bytes of the runtime set to zero; GT_RUNTIME_STATE_UNINITIALIZED is 0.
unfoldable pub cleared_runtime : Runtime
cleared_runtime = record {
  state = RuntimeState.uninitialized;
  main_context = Context.cleared;
  storage = replicate task_id_storage 0;
  task_ids = record { map = record { words = none; total_bits = 0; total_words = 0 } };
  task_count = 0;
  current = 0;
}

-- The addresses of the list heads in the singleton, on x86-64.
abbrev pub scheduler_of : Host → ℕ
scheduler_of host = host.runtime + 8

abbrev pub tasks_of : Host → ℕ
tasks_of host = host.runtime + 12608

abbrev pub zombies_of : Host → ℕ
zombies_of host = host.runtime + 12624

pub record World : Type 0 where
  pub machine : Machine
  pub links : Links
  pub tasks : ℕ → Task
  pub rt : Runtime

-- Running a command of a part in the whole.
abbrev pub on_machine : {A : Type 0} → Cmd Machine A → Cmd World A
on_machine c w = and_then (c w.machine) (λ a m. ok (a, record w { machine = m }))

abbrev pub on_links : {A : Type 0} → Cmd Links A → Cmd World A
on_links c w = and_then (c w.links) (λ a l. ok (a, record w { links = l }))
