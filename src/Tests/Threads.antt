-- ===== src/Tests/Threads.antt =====
-- Concrete runtimes: the tasks at 1000, 2000 and 3000, the singleton at 100000.
use green_threads.Base.{ℕ, ◌-◌, ◌^◌, refl, true, List, [], ◌∷◌, arith}
use green_threads.Links.{Links}
use green_threads.Platform.Interface.{Host, Machine, pos, mapped_at}
use green_threads.Platform.Context.Switch.{Cpu}
use green_threads.Platform.Context.{Context, cleared}
use green_threads.World.{World, Task, TaskState, RuntimeState, cleared_task, cleared_runtime}
use green_threads.Task.{update_task}
use green_threads.Runtime.Invariant.{IsConsistent, IsRunning, Layout, ◌⊆◌}
use green_threads.Tests.Data.{no_links, ring}

abbrev pub host : Host
host = record {
  page_size = pos 4096;
  enomem = 12;
  mmap = λ _ _. mapped_at 65536;
  mprotect = λ _ _ _ _. pos 0;
  munmap = λ _ _ _. pos 0;
  calloc = λ _ _. 4000;
  context_start = 500;
  task_trampoline = 600;
  runtime = 100000;
}

abbrev pub context_at : ℕ → Context
context_at sp = record cleared { rsp = sp }

abbrev pub task_in : TaskState → ℕ → Task
task_in s sp = record cleared_task { state = s; context = context_at sp }

abbrev pub machine : Machine
machine = record {
  page = record { size = 4096; initialized = true; max_alignable_size = 2 ^ 64 - 4096 };
  events = [];
  memory = λ _. 0;
}

abbrev pub world : RuntimeState → (current : ℕ) → (ℕ → Task) → Links → World
world state current tasks links = record {
  machine = machine;
  links = links;
  tasks = tasks;
  rt = record cleared_runtime { state = state; current = current; main_context = context_at 77 };
}

-- Task 1000 runs, 2000 and 3000 wait.
abbrev pub busy : World
busy =
    world RuntimeState.running 1000
      (update_task
        (update_task (update_task (λ _. cleared_task) 1000 (task_in TaskState.running 70)) 2000
          (task_in TaskState.ready 80))
        3000 (task_in TaskState.ready 90))
      (ring (ring (ring no_links 100008 (2120 ∷ 3120 ∷ [])) 112608 (1136 ∷ 2136 ∷ 3136 ∷ [])) 112624
        [])

pub busy-Layout : Layout host (1000 ∷ 2000 ∷ 3000 ∷ [])
busy-Layout = record {
  placed = omega arith;
  far = λ p i. ground (arith, i);
  separate = λ p q i j. ground (arith, i, j);
}

pub busy_runs : IsRunning host busy 1000 (2000 ∷ 3000 ∷ []) (1000 ∷ 2000 ∷ 3000 ∷ []) []
busy_runs = record {
  consistent = record {
    layout = busy-Layout;
    waiting_ring = record { seg = ground arith; distinct = ground arith; not_null = refl };
    owned_ring = record { seg = ground arith; distinct = ground arith; not_null = refl };
    exited_ring = record { seg = ground arith; distinct = ground arith; not_null = refl };
    distinct = ground arith;
    waiting_owned = λ a i. ground arith;
    are_ready = λ t i. ground arith;
    are_zombies = λ t i. ground arith;
  };
  is_current = refl;
  current_owned = refl;
  current_apart = refl;
  current_running = refl;
  phase = refl;
  complete = λ t i. ground arith;
}

-- Task 1000 runs and is the last; 2000 has exited.
abbrev pub ending : World
ending =
    world RuntimeState.running 1000
      (update_task (update_task (λ _. cleared_task) 1000 (task_in TaskState.running 70)) 2000
        (task_in TaskState.zombie 80))
      (ring (ring (ring no_links 100008 []) 112608 (1136 ∷ [])) 112624 (2136 ∷ []))

ending-Layout : Layout host (1000 ∷ 2000 ∷ [])
ending-Layout = record {
  placed = omega arith;
  far = λ p i. ground (arith, i);
  separate = λ p q i j. ground (arith, i, j);
}

pub ending_runs : IsRunning host ending 1000 [] (1000 ∷ []) (2000 ∷ [])
ending_runs = record {
  consistent = record {
    layout = ending-Layout;
    waiting_ring = record { seg = ground arith; distinct = ground arith; not_null = refl };
    owned_ring = record { seg = ground arith; distinct = ground arith; not_null = refl };
    exited_ring = record { seg = ground arith; distinct = ground arith; not_null = refl };
    distinct = ground arith;
    waiting_owned = λ a i. ground arith;
    are_ready = λ t i. ground arith;
    are_zombies = λ t i. ground arith;
  };
  is_current = refl;
  current_owned = refl;
  current_apart = refl;
  current_running = refl;
  phase = refl;
  complete = λ t i. ground arith;
}

-- Two tasks wait; none has run yet.
abbrev pub idle : World
idle =
    world RuntimeState.initialized 0
      (update_task (update_task (λ _. cleared_task) 1000 (task_in TaskState.ready 70)) 2000
        (task_in TaskState.ready 80))
      (ring (ring (ring no_links 100008 (1120 ∷ 2120 ∷ [])) 112608 (1136 ∷ 2136 ∷ [])) 112624 [])

pub idle-IsConsistent : IsConsistent host idle (1000 ∷ 2000 ∷ []) (1000 ∷ 2000 ∷ []) []
idle-IsConsistent = record {
  layout = ending-Layout;
  waiting_ring = record { seg = ground arith; distinct = ground arith; not_null = refl };
  owned_ring = record { seg = ground arith; distinct = ground arith; not_null = refl };
  exited_ring = record { seg = ground arith; distinct = ground arith; not_null = refl };
  distinct = ground arith;
  waiting_owned = λ a i. i;
  are_ready = λ t i. ground arith;
  are_zombies = λ t i. ground arith;
}

pub idle_all : 1000 ∷ 2000 ∷ [] ⊆ 1000 ∷ 2000 ∷ []
idle_all a i = i

-- Task 2000 waits and 1000 is ready, but not in the queue.
abbrev pub cpu_at : (sp : ℕ) → Cpu
cpu_at sp = record { callee_saved = context_at sp; rax = 5; rdi = 6; rip = 7 }

abbrev pub waiting_two : List ℕ
waiting_two = 2000 ∷ 3000 ∷ []
