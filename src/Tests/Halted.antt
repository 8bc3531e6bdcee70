-- ===== src/Tests/Halted.antt =====
-- A runtime of the concrete process: a task at 200000 that waits and one at 300000 that has exited.
use green_threads.Base.{
  ℕ, zero, suc, ◌∙◌, ◌+◌, ◌/◌, ◌%◌, ◌^◌, ◌<◌, ◌≡◌, refl, ◌⊎◌, inl, inr, Bool, ◌==◌, ltb, List, [],
  ◌∷◌, arith, some, replicate, get_or, get_or-replicate, length-replicate, Bool-cases,
}
use green_threads.Word.Bits.{testbit-mask, testbit-zero}
use green_threads.Bitmap.Words.{bit_at}
use green_threads.IdPool.{IdPool}
use green_threads.IdPool.Laws.{Pools}
use green_threads.Platform.Interface.{Event, mapped, protected, allocated}
use green_threads.Stack.Region.{IsStack, IsGuarded}
use green_threads.Links.Seg.{◌∈◌}
use green_threads.World.{
  World, Task, TaskState, RuntimeState, cleared_task, cleared_runtime, task_max_capacity,
}
use green_threads.Task.{update_task}
use green_threads.Runtime.Invariant.{Layout}
use green_threads.Runtime.Resources.{Backed, IsSound}
use green_threads.Tests.Data.{no_links, ring}
use green_threads.Tests.Threads.{context_at}
use green_threads.Tests.Process.{process, page, page-IsPaged}

-- The identifiers 0 and 1 are out.
abbrev pub two_out : ℕ → Bool
two_out j = ltb j 2

abbrev pool : IdPool
pool = record {
  map = record { words = some (3 ∷ replicate 1562 0); total_bits = 100000; total_words = 1563 };
}

abbrev words : List ℕ
words = 3 ∷ replicate 1562 0

word_at : (k : ℕ) → ((k ≡ 0) × (get_or words k 0 ≡ 3)) ⊎ ((0 < k) × (get_or words k 0 ≡ 0))
word_at zero = inl (refl, refl)
word_at (suc k) = inr (omega arith, get_or-replicate {A = ℕ} 1562 k 0)

pool-bits : (j : ℕ) → bit_at words j ≡ two_out j
pool-bits j = elim (word_at (j / 64)) [
  | inl (e, w) ↦ rw w (testbit-mask 2 (j % 64) ∙ ground arith)
  | inr (e, w) ↦ rw w (testbit-zero (j % 64) ∙ ground arith)
]

pool-Pools : Pools task_max_capacity two_out pool
pool-Pools = record {
  storage = words;
  valid = record {
    stored = refl;
    positive = omega arith;
    fits = omega arith;
    counted = refl;
    sized = omega (arith, length-replicate {A = ℕ} 1562 0);
    are_words =
        λ i. elim (word_at i) [ inl (e, w) ↦ rw w (omega arith) | inr (e, w) ↦ rw w (omega arith) ];
    trailing = λ j lo hi. pool-bits j ∙ ground arith;
  };
  same_size = refl;
  bits = λ j lt. pool-bits j;
}

-- A task in a state with an identifier, over the mapping at `base`.
abbrev task_on : TaskState → (id base : ℕ) → Task
task_on s id base = record cleared_task {
  id = id;
  state = s;
  entry = 700;
  arg = 800;
  stack = record {
    mapping = record { base = base; size = 24576 };
    base = base + 4096;
    size = 16384;
  };
  context = context_at (base + 20000);
}

abbrev pub events : List Event
events =
    protected 2101248 16384 3
    ∷ mapped 2097152 24576
    ∷ allocated 300000 152
    ∷ protected 1052672 16384 3
    ∷ mapped 1048576 24576
    ∷ allocated 200000 152
    ∷ []

-- The runtime has stopped.
abbrev pub halted : World
halted = record {
  machine = record { page = page; events = events; memory = λ _. 0 };
  links =
      ring (ring (ring no_links 100008 (200120 ∷ [])) 112608 (200136 ∷ [])) 112624 (300136 ∷ []);
  tasks =
      update_task (update_task (λ _. cleared_task) 200000 (task_on TaskState.ready 0 1048576))
        300000 (task_on TaskState.zombie 1 2097152);
  rt = record cleared_runtime {
    state = RuntimeState.stopped;
    main_context = context_at 77;
    task_ids = pool;
    task_count = 2;
  };
}

halted-Layout : Layout process (200000 ∷ 300000 ∷ [])
halted-Layout = record {
  placed = omega arith;
  far = λ p i. ground (arith, i);
  separate = λ p q i j. ground (arith, i, j);
}

which_task : (t : ℕ) → t ∈ 200000 ∷ 300000 ∷ [] → (t ≡ 200000) ⊎ (t ≡ 300000)
which_task t i = ground (arith, i)

task_on-IsStack :
    (s : TaskState) (id base : ℕ)
    → 0 < base
    → base % 4096 ≡ 0
    → base + 24576 < 2 ^ 64
    → IsStack 4096 (task_on s id base).stack
task_on-IsStack s id base given whole low = record {
  range = record { placed = given; base_whole = whole; sized = omega arith; size_whole = refl };
  in_memory = low;
  guard_below = refl;
  guard_above = omega arith;
  sized = omega arith;
  room = omega arith;
  base_aligned = omega (arith, whole);
  size_aligned = refl;
}

first-IsGuarded : IsGuarded (task_on TaskState.ready 0 1048576).stack events
first-IsGuarded = record {
  inside = λ a from below. ground arith;
  below = λ a from below. ground arith;
  above = λ a from below. ground arith;
}

second-IsGuarded : IsGuarded (task_on TaskState.zombie 1 2097152).stack events
second-IsGuarded = record {
  inside = λ a from below. ground arith;
  below = λ a from below. ground arith;
  above = λ a from below. ground arith;
}

halted-Backed : Backed 4096 halted (200000 ∷ 300000 ∷ []) two_out
halted-Backed = record {
  paged = page-IsPaged;
  pools = pool-Pools;
  stacks = λ t i. elim (which_task t i) [
    | inl e ↦ rw e (task_on-IsStack TaskState.ready 0 1048576 (omega arith) refl (omega arith))
    | inr e ↦ rw e (task_on-IsStack TaskState.zombie 1 2097152 (omega arith) refl (omega arith))
  ];
  mappings = λ t i. ground (arith, i);
  guarded =
      λ t i. elim (which_task t i) [ inl e ↦ rw e first-IsGuarded | inr e ↦ rw e second-IsGuarded ];
  blocks = λ t i. ground (arith, i);
  ids = λ t i. ground (arith, i);
  mappings_apart = λ t u i j e. ground (arith, i, j, e);
  stacks_apart = λ t u i j. ground (arith, i, j);
  ids_apart = λ t u i j e. ground (arith, i, j, e);
  only_mappings = λ a ne. elim (Bool-cases (a == 1048576)) [
    | inl e ↦ (200000, refl, ground arith)
    | inr other ↦ (300000, refl, ground (arith, ne))
  ];
  only_blocks = λ a ne. ground (arith, ne);
  only_ids = λ j lt out. elim (Bool-cases (j == 0)) [
    | inl e ↦ (200000, refl, ground arith)
    | inr other ↦ (300000, refl, ground (arith, out))
  ];
  words = λ t i. ground (arith, i);
  counted = refl;
}

pub halted-IsSound : IsSound process 4096 halted (200000 ∷ []) (200000 ∷ []) (300000 ∷ []) two_out
halted-IsSound = record {
  consistent = record {
    layout = halted-Layout;
    waiting_ring = record { seg = ground arith; distinct = ground arith; not_null = refl };
    owned_ring = record { seg = ground arith; distinct = ground arith; not_null = refl };
    exited_ring = record { seg = ground arith; distinct = ground arith; not_null = refl };
    distinct = ground arith;
    waiting_owned = λ a i. i;
    are_ready = λ t i. ground (arith, i);
    are_zombies = λ t i. ground (arith, i);
  };
  backed = halted-Backed;
}
