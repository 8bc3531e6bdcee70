-- ===== src/Runtime/Tasks/Enter.antt =====
-- About runtime_task.c: a task that was initialised is configured and admitted.
use green_threads.Base.{
  ◌⊎◌, ℕ, ◌+◌, ◌-◌, ◌%◌, ◌^◌, ◌≤◌, ◌<◌, ◌≡◌, ◌≢◌, refl, ap, ◌∙◌, Bool, not, List, [], ◌∷◌, ◌++◌,
  arith, some,
}
use green_threads.Outcome.{ok}
use green_threads.Links.{Links}
use green_threads.Links.Seg.{◌∈◌}
use green_threads.IdPool.{IdPool}
use green_threads.IdPool.Laws.{Pools, with_id}
use green_threads.Bitmap.Search.{IsFirst}
use green_threads.Status.{success}
use green_threads.Platform.Interface.{Host}
use green_threads.Platform.Ledger.{Behaves, access_at}
use green_threads.Platform.Context.Laws.{configure_lem}
use green_threads.Stack.{Stack}
use green_threads.Stack.Region.{IsStack, IsGuarded, OneMapping, OneMapping-SameAccess}
use green_threads.Task.{update_task}
use green_threads.Task.Laws.{IsFramed, OneTask, new_task}
use green_threads.World.{World, Task, Runtime, TaskState, task_size, task_max_capacity}
use green_threads.Runtime.Invariant.{IsConsistent}
use green_threads.Runtime.Resources.{SameStacks, IsSound, IsConsistent-apart}
use green_threads.Runtime.Tasks.{configure_task}
use green_threads.Runtime.Tasks.Admit.{admitted, admit_task-IsConsistent}
use green_threads.Runtime.Tasks.Grow.{OneMore, Backed-new}
use green_threads.Runtime.Tasks.Steps.{
  contains-insert, length-insert, new_apart, new_far, new-Layout,
}
use green_threads.Runtime.Tasks.Undo.{with_block, with_pool, facts}

-- The changes of a task object on the way into the queue.
abbrev lowered : Task → Task
lowered t = record t { context = record (t.context) { rsp = t.context.rsp - 24 } }

abbrev readied : Task → Task
readied t = record t { state = TaskState.ready }

update_self : (f : ℕ → Task) (p : ℕ) (t : Task) → update_task f p t p ≡ t
update_self f p t = ground arith

module _ (host : Host) (ps : ℕ) (behaves : Behaves host ps) (w : World)
    (waiting owned exited : List ℕ) (taken : ℕ → Bool)
    (sound : IsSound host ps w waiting owned exited taken)
    (got : host.calloc w.machine.events task_size ≢ 0) where
  abbrev p : ℕ
  p = host.calloc w.machine.events task_size

  -- The task was initialised with success.
  module _ (pool : IdPool) (id entry arg size : ℕ) (v : World) (stk : Stack)
      (tramp : host.task_trampoline ≢ 0)
      (first : IsFirst (λ j. not (taken j)) 0 task_max_capacity (some id))
      (pools : Pools task_max_capacity (with_id (some id) taken) pool)
      (one : OneTask p (with_pool host ps behaves w waiting owned exited taken sound got pool) v)
      (made : v.tasks p ≡ new_task id entry arg stk) (is_stack : IsStack ps stk)
      (guarded : IsGuarded stk v.machine.events)
      (more : OneMapping
        (with_block host ps behaves w waiting owned exited taken sound got).machine
        v.machine
        stk.mapping) where
    -- The world once its first frame stands on its stack.
    abbrev framed : (ℕ → ℕ) → World
    framed memory = record v {
      machine = record (v.machine) { memory = memory };
      tasks = update_task v.tasks p (record (v.tasks p) {
        context = record (v.tasks p).context { rsp = (v.tasks p).context.rsp - 24 };
      });
    }

    abbrev ready_task : Task
    ready_task = record (new_task id entry arg stk) {
      state = TaskState.ready;
      context = record (new_task id entry arg stk).context { rsp = stk.base + stk.size - 24 };
    }

    final : (memory : ℕ → ℕ) (h : Links) → (admitted (framed memory) h p).tasks p ≡ ready_task
    final memory h =
        let inner : (framed memory).tasks p ≡ lowered (new_task id entry arg stk) =
          update_self v.tasks p (lowered (v.tasks p)) ∙ ap lowered made in
        update_self (framed memory).tasks p (readied ((framed memory).tasks p)) ∙ ap readied inner

    top : (v.tasks p).context.rsp ≡ stk.base + stk.size
    top = ap {A = Task} (λ t. t.context.rsp) made

    room : (32 ≤ (v.tasks p).context.rsp) × ((v.tasks p).context.rsp < 2 ^ 64)
    room = (
      rw top (
          omega (
            arith, is_stack.base_aligned, is_stack.size_aligned, is_stack.sized,
            is_stack.guard_below, is_stack.range.placed,
          )),
      rw top (omega (arith, is_stack.guard_above, is_stack.in_memory)),
    )

    -- The first frame lies in the usable part of the stack.
    opened :
        (a : ℕ)
        → (v.tasks p).context.rsp - 24 ≤ a
        → a < (v.tasks p).context.rsp
        → access_at v.machine.events a ≡ 3
    opened a from below =
        guarded.inside a (omega (arith, top, from, is_stack.room, behaves.page_room))
          (omega (arith, top, below))

    grown :
        (memory : ℕ → ℕ) (h : Links)
        → OneMore ps w (admitted (framed memory) h p) (owned ++ exited) taken p id stk
    grown memory h = record {
      page = more.page;
      is_new = more.is_new;
      clear = more.clear;
      stack = ap {A = Task} (λ t. t.stack) (final memory h);
      is_stack = is_stack;
      guarded = guarded;
      accesses =
          OneMapping-SameAccess
            (with_block host ps behaves w waiting owned exited taken sound got).machine v.machine
            stk.mapping more;
      mappings = more.mappings;
      blocks = more.blocks;
      others = λ t ne.
          let e : (admitted (framed memory) h p).tasks t ≡ w.tasks t =
            ground (arith, one.others t ne) in
          rw e (refl, refl);
      has_id = ap {A = Task} (λ t. t.id) (final memory h);
      id_free = (ground (arith, first), ground (arith, first));
      pools = rw one.rt pools;
      counted = ap {A = Runtime} (λ r. (r.task_count + 1) % 2 ^ 64) one.rt;
      word = (facts host ps behaves w waiting owned exited taken sound got).1;
    }

    -- A word below the end of the stack, by its address.
    framed_at :
        (memory : ℕ → ℕ) (a below : ℕ) {x : ℕ}
        → a + below ≡ stk.base + stk.size
        → memory ((v.tasks p).context.rsp - below) ≡ x
        → memory a ≡ x
    framed_at memory a below place e = ap memory (omega (arith, place, top)) ∙ e

    -- The words of the other stacks lie outside the new frame.
    outside :
        (t a : ℕ)
        → t ∈ owned ++ exited
        → (w.tasks t).stack.mapping.base ≤ a
        → a < (w.tasks t).stack.mapping.base + (w.tasks t).stack.mapping.size
        → (a < (v.tasks p).context.rsp - 24) ⊎ ((v.tasks p).context.rsp ≤ a)
    outside t a i from below =
        let b = sound.backed in
        ground (
          arith,
          more.clear (w.tasks t).stack.mapping.base,
          b.mappings t i,
          (b.stacks t i).range.sized,
          top,
          is_stack.base_aligned,
          is_stack.guard_above,
          is_stack.guard_below,
        )

    pub entered :
        (w' : World) × (configure_task host p id v ≡ ok (success, w'))
        × IsSound host ps w' (waiting ++ p ∷ []) (owned ++ p ∷ []) exited (with_id (some id) taken)
        × ((w'.tasks p).entry ≡ entry)
        × ((w'.tasks p).arg ≡ arg)
        × ((w'.tasks p).id ≡ id)
        × ((w'.tasks p).stack ≡ stk)
        × (w'.rt ≡ record (w.rt) { task_ids = pool; task_count = (w.rt.task_count + 1) % 2 ^ 64 })
        × ((a : ℕ) → a ∈ owned ++ exited → w'.tasks a ≡ w.tasks a)
        × IsFramed host host.task_trampoline p w'
        × SameStacks (owned ++ exited) w w'
    unfolding configure_task
    entered =
        let far = new_far host ps behaves w waiting owned exited taken sound got in
        let apart = new_apart host ps behaves w waiting owned exited taken sound got in
        let (layout, distinct) =
          new-Layout host ps behaves w waiting owned exited taken sound got in
        let (memory, conf, at_start, at_entry, at_argument, elsewhere) =
          configure_lem host (v.tasks p).context host.task_trampoline p v.machine tramp room.0
            room.1 opened in
        let c : IsConsistent host (framed memory) waiting owned exited =
          IsConsistent-apart host w (framed memory) waiting owned exited p sound.consistent far
            apart (λ a out. rw one.links (ground (arith, out)))
            (λ t ne. ground (arith, one.others t)) in
        let (h, ran, cons) =
          admit_task-IsConsistent host (framed memory) p waiting owned exited c layout distinct
            id in
        (
          admitted (framed memory) h p,
          rw (conf, ran) refl,
          record {
            consistent = cons;
            backed =
                Backed-new ps w (admitted (framed memory) h p) (owned ++ exited)
                  ((owned ++ p ∷ []) ++ exited) taken p id stk sound.backed (grown memory h)
                  sound.consistent.distinct (ground (arith, apart p))
                  (contains-insert owned exited p) (length-insert owned exited p);
          },
          ap {A = Task} (λ t. t.entry) (final memory h),
          ap {A = Task} (λ t. t.arg) (final memory h),
          ap {A = Task} (λ t. t.id) (final memory h),
          ap {A = Task} (λ t. t.stack) (final memory h),
          ap {A = Runtime} {B = Runtime}
              (λ r. record r { task_count = (r.task_count + 1) % 2 ^ 64 }) one.rt,
          λ a i. let ne : a ≢ p = ground (arith, apart a i) in ground (arith, one.others a ne),
          record {
            context = rw (final memory h) refl;
            start = rw (final memory h) (
                framed_at memory (stk.base + stk.size - 24) 24 (omega (arith, room.0, top))
                  at_start);
            entered = rw (final memory h) (
                framed_at memory (stk.base + stk.size - 24 + 8) 16 (omega (arith, room.0, top))
                  at_entry);
            argument = rw (final memory h) (
                framed_at memory (stk.base + stk.size - 24 + 16) 8 (omega (arith, room.0, top))
                  at_argument);
          },
          λ t a i from below. elsewhere a (outside t a i from below) ∙ (rw more.memory refl),
        )
