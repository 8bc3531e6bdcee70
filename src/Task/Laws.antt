-- ===== src/Task/Laws.antt =====
-- About task.c: what a call leaves of the task object and of the process's memory.
use green_threads.Base.{
  ℕ, ◌+◌, ◌-◌, ◌*◌, ◌^◌, ◌≤◌, ◌≡◌, ◌≢◌, refl, ◌∙◌, false, arith, ◌∷◌, some, ◌==◌, if◌then◌else◌,
  ◌⊎◌, inl, inr,
}
use green_threads.Outcome.{ok}
use green_threads.Outcome.Cmd.{Cmd, pure}
use green_threads.Status.{Status, is_success, success}
use green_threads.Platform.Interface.{Host, Machine, unmapped}
use green_threads.Platform.Ledger.{mapping_at, Behaves}
use green_threads.Platform.Page.Laws.{IsPaged}
use green_threads.Platform.Context
use green_threads.Platform.Context.{Context}
use green_threads.Platform.Context.Laws.{init-top}
use green_threads.Stack
use green_threads.Stack.{Stack}
use green_threads.Stack.Laws
use green_threads.Stack.Region.{IsStack, IsGuarded, SameMemory, OneMapping}
use green_threads.World.{World, Task, TaskState, ready_node, runtime_node, cleared_task}
use green_threads.Task
use green_threads.Task.{clear_node, update_task, init_context}

-- The object `t` has changed, its list nodes are cleared, and all else but the machine is the same.
pub record OneTask (t : ℕ) (w w' : World) : Type 0 where
  pub links : w'.links ≡ clear_node (runtime_node t) (clear_node (ready_node t) w.links)
  pub rt : w'.rt ≡ w.rt
  pub others : (a : ℕ) → a ≢ t → w'.tasks a ≡ w.tasks a

-- A task that is initialised on the stack `s` but has not run.
abbrev pub new_task : (id entry arg : ℕ) → Stack → Task
new_task id entry arg s = record {
  id = id;
  state = TaskState.new;
  entry = entry;
  arg = arg;
  stack = s;
  context = record (Context.cleared) { rsp = s.base + s.size };
}

-- The first switch to the task `t` starts at gt_context_start, on its own stack, for the function
-- `entry` with the address of the task.
pub record IsFramed (host : Host) (entry t : ℕ) (w : World) : Type 0 where
  pub context :
      (w.tasks t).context
      ≡ record (Context.cleared) { rsp = (w.tasks t).stack.base + (w.tasks t).stack.size - 24 }
  pub start : w.machine.memory ((w.tasks t).context.rsp) ≡ host.context_start
  pub entered : w.machine.memory ((w.tasks t).context.rsp + 8) ≡ entry
  pub argument : w.machine.memory ((w.tasks t).context.rsp + 16) ≡ t

abbrev pub TaskEnds : (ps t id entry arg size : ℕ) → World → Status → World → Type 0
TaskEnds ps t id entry arg size w st w' =
    ((st ≢ success) × SameMemory w.machine w'.machine)
    ⊎ ((st ≡ success)
        × ((s : Stack) × (w'.tasks t ≡ new_task id entry arg s)
            × IsStack ps s
            × IsGuarded s w'.machine.events
            × (size ≤ s.size)
            × OneMapping w.machine w'.machine s.mapping))

-- The stages of the object in gt_task_init.
abbrev named : (ℕ → Task) → (t id entry arg : ℕ) → ℕ → Task
named f t id entry arg =
    let g = update_task f t cleared_task in
    update_task g t (record (g t) { id = id; state = TaskState.new; entry = entry; arg = arg })

abbrev stacked : (ℕ → Task) → (t : ℕ) → Stack → ℕ → Task
stacked f t s = update_task f t (record (f t) { stack = s })

abbrev aimed : (ℕ → Task) → (t : ℕ) → Context → ℕ → Task
aimed f t ctx = update_task f t (record (f t) { context = ctx })

module _ (host : Host) (w : World) (ps : ℕ) (p : IsPaged w.machine.page ps)
    (behaves : Behaves host ps) (t id entry arg size : ℕ) (ht : t ≢ 0) (he : entry ≢ 0) where
  abbrev before : ℕ → Task
  before = named w.tasks t id entry arg

  abbrev after_stack : Stack → Machine → World
  after_stack s m' = record w {
    machine = m';
    links = clear_node (runtime_node t) (clear_node (ready_node t) w.links);
    tasks = stacked before t s;
  }

  init-context :
      (s : Stack) (m' : Machine)
      → IsStack ps s
      → init_context host t (after_stack s m')
        ≡ ok (
          success,
          record (after_stack s m') {
            tasks =
                aimed (stacked before t s) t (record (Context.cleared) { rsp = s.base + s.size });
          },
        )
  unfolding init_context
  init-context s m' i =
      let top =
        init-top (stacked before t s t).context s.base s.size m'
          (omega (arith, i.range.placed, i.guard_below)) (omega (arith, i.sized)) i.base_aligned
          i.size_aligned (omega (arith, i.guard_above, i.in_memory)) in
      ground (arith, top)

  abbrev go_on : Status → Cmd World Status
  go_on st = if is_success st then init_context host t else pure st

  starts :
      (st : Status) (s : Stack) (m' : Machine)
      → Stack.init host (some (before t).stack) size w.machine ≡ ok ((st, s), m')
      → Task.init host t id entry arg size w ≡ go_on st (after_stack s m')
  unfolding Task.init
  starts st s m' ran =
      let a : (t == 0) ≡ false = ground arith in
      let b : (entry == 0) ≡ false = ground arith in rw (a, b, ran) refl

  go_on_bad :
      (st : Status) (s : Stack) (m' : Machine)
      → st ≢ success
      → go_on st (after_stack s m') ≡ ok (st, after_stack s m')
  go_on_bad st s m' bad = ground (arith, bad)

  -- On pages of a fitting size, where mmap, munmap and calloc behave as documented,
  -- gt_task_init of a task with a function, for a size that leaves room for rounding and two
  -- guard pages, returns and changes no other task. Either its status is no success and no
  -- mapping is left behind; or it is success, and the task has its identifier, function and
  -- argument, the state NEW, a stack of at least that size in a new mapping, readable and
  -- writable between guard pages that cannot be accessed, and a context at the end of that
  -- stack.
  pub init-TaskEnds :
      size + 3 * ps ≤ 2 ^ 64
      → (st : Status) × (w' : World) × (Task.init host t id entry arg size w ≡ ok (st, w'))
        × OneTask t w w'
        × TaskEnds ps t id entry arg size w st w'
  init-TaskEnds fits =
      let (st, s, m', ran, ends) =
        Stack.Laws.init-StackEnds host w.machine ps p behaves (before t).stack size fits in
      elim ends [
        | inl (bad, e, same) ↦ (
          st,
          after_stack s m',
          starts st s m' ran ∙ go_on_bad st s m' bad,
          record { links = refl; rt = refl; others = λ a ne. ground arith },
          inl (bad, same),
        )
        | inr (good, i, g, low, one) ↦ (
          st,
          record (after_stack s m') {
            tasks =
                aimed (stacked before t s) t (record (Context.cleared) { rsp = s.base + s.size });
          },
          starts st s m' ran ∙ (rw good (init-context s m' i)),
          record { links = refl; rt = refl; others = λ a ne. ground arith },
          inr (good, (s, ground arith, i, g, low, one)),
        )
      ]

-- The world without the task `t`: its stack is given back and its object is cleared.
abbrev pub without : World → ℕ → World
without w t =
    let r = (w.tasks t).stack.mapping in
    record w {
      machine = record (w.machine) { events = unmapped r.base r.size ∷ w.machine.events };
      links = clear_node (runtime_node t) (clear_node (ready_node t) w.links);
      tasks = update_task w.tasks t cleared_task;
    }

-- gt_task_destroy of a task whose stack exists.
pub destroy_lem :
    (host : Host) (w : World) (ps : ℕ)
    → IsPaged w.machine.page ps
    → Behaves host ps
    → (t : ℕ) → t ≢ 0
    → IsStack ps (w.tasks t).stack
    → mapping_at w.machine.events (w.tasks t).stack.mapping.base ≡ (w.tasks t).stack.mapping.size
    → Task.destroy host t w ≡ ok (tt, without w t)
unfolding Task.destroy Context.destroy
destroy_lem host w ps p behaves t ht i known =
    let a : (t == 0) ≡ false = ground arith in
    rw (a, Stack.Laws.destroy_lem host w.machine ps p behaves (w.tasks t).stack i known) refl
