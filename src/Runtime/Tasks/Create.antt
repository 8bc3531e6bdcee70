-- ===== src/Runtime/Tasks/Create.antt =====
-- About runtime_task.c: creating a task, to its success or back to where it began.
use green_threads.Base.{
  ℕ, ◌+◌, ◌*◌, ◌%◌, ◌^◌, ◌≤◌, ◌≡◌, ◌≢◌, refl, ap, ◌⊎◌, inl, inr, true, false, Bool, Bool-cases, not,
  ◌==◌, List, [], ◌∷◌, ◌++◌, arith, Option, none, some,
}
use green_threads.Outcome.{ok}
use green_threads.Links.Seg.{◌∈◌, ◌∉◌}
use green_threads.IdPool.{IdPool}
use green_threads.IdPool.Laws.{Pools, with_id}
use green_threads.IdPool.Fresh.{Pools-same}
use green_threads.Bitmap.Search.{IsFirst}
use green_threads.Status.{Status, is_success, success, resource_exhausted, out_of_memory}
use green_threads.Platform.Interface.{Host}
use green_threads.Platform.Ledger.{Behaves}
use green_threads.Platform.Heap.{heap_alloc}
use green_threads.Task
use green_threads.Task.{update_task}
use green_threads.Task.Laws
use green_threads.Task.Laws.{IsFramed, OneTask, new_task}
use green_threads.World.{World, Runtime, task_size, task_max_capacity}
use green_threads.Runtime.Resources.{SameStacks, IsSound, SamePhase}
use green_threads.Runtime.Tasks.{
  allocate_task, allocate_task_id, allocated_id, init_task, task_create,
}
use green_threads.Runtime.Tasks.Steps.{new_apart, allocate_task_id_lem}
use green_threads.Runtime.Tasks.Undo.{
  without_block, free_lem, with_block, with_pool, undone, allocated_lem, with_pool-OneBlock,
  gave_back,
}
use green_threads.Runtime.Tasks.Enter.{entered}

-- How __gt_runtime_task_create ends.
abbrev pub CreateEnds :
    Host
    → (ps : ℕ) → World
    → (waiting owned exited : List ℕ) → (ℕ → Bool)
    → (entry arg size : ℕ) → Status
    → World
    → Type 0
CreateEnds host ps w waiting owned exited taken entry arg size st w' =
    ((st ≢ success)
      × IsSound host ps w' waiting owned exited taken
      × (w'.rt ≡ record (w.rt) { task_ids = w'.rt.task_ids })
      × ((a : ℕ) → a ∈ owned ++ exited → w'.tasks a ≡ w.tasks a)
      × (w'.machine.memory ≡ w.machine.memory))
    ⊎ ((st ≡ success)
        × ((t id : ℕ) × IsSound host ps w' (waiting ++ t ∷ []) (owned ++ t ∷ []) exited
              (with_id (some id) taken)
            × IsFirst (λ j. not (taken j)) 0 task_max_capacity (some id)
            × ((w'.tasks t).entry ≡ entry)
            × ((w'.tasks t).arg ≡ arg)
            × ((w'.tasks t).id ≡ id)
            × (size ≤ (w'.tasks t).stack.size)
            × SamePhase w w'
            × (t ∉ owned ++ exited)
            × ((a : ℕ) → a ∈ owned ++ exited → w'.tasks a ≡ w.tasks a)
            × IsFramed host host.task_trampoline t w'
            × SameStacks (owned ++ exited) w w'))

not_success : (st : Status) → st ≢ success → is_success st ≡ false
not_success st bad = ground (arith, bad)

module _ (host : Host) (ps : ℕ) (behaves : Behaves host ps) (w : World)
    (waiting owned exited : List ℕ) (taken : ℕ → Bool)
    (sound : IsSound host ps w waiting owned exited taken) (entry arg size : ℕ) (he : entry ≢ 0)
    (tramp : host.task_trampoline ≢ 0) (fits : size + 3 * ps ≤ 2 ^ 64) where
  abbrev Ends : Status → World → Type 0
  Ends = CreateEnds host ps w waiting owned exited taken entry arg size

  module _ (got : host.calloc w.machine.events task_size ≢ 0) where
    abbrev p : ℕ
    p = host.calloc w.machine.events task_size

    phase_of :
        {w' : World} {pool : IdPool}
        → w'.rt ≡ record (w.rt) { task_ids = pool; task_count = (w.rt.task_count + 1) % 2 ^ 64 }
        → SamePhase w w'
    phase_of e = record {
      state = ap {A = Runtime} (λ r. r.state) e;
      current = ap {A = Runtime} (λ r. r.current) e;
      main_context = ap {A = Runtime} (λ r. r.main_context) e;
    }

    -- With the block and an identifier.
    from_init :
        (pool : IdPool) (id : ℕ)
        → IsFirst (λ j. not (taken j)) 0 task_max_capacity (some id)
        → Pools task_max_capacity (with_id (some id) taken) pool
        → (st : Status) × (w' : World) × (init_task host p id entry arg size
              (with_pool host ps behaves w waiting owned exited taken sound got pool)
            ≡ ok (st, w'))
          × Ends st w'
    unfolding init_task
    from_init pool id first pools =
        let v0 = with_pool host ps behaves w waiting owned exited taken sound got pool in
        let (st, v, ran, one, ends) =
          Task.Laws.init-TaskEnds host v0 ps sound.backed.paged behaves p id entry arg size got he
            fits in
        elim ends [
          | inl (bad, same) ↦
              let (w', back, sound', rt, kept, memory) =
                gave_back host ps behaves w waiting owned exited taken sound got pool id st v first
                  pools one same in
              (st, w', rw (ran, not_success st bad) back, inl (bad, sound', rt, kept, memory))
          | inr (good, (stk, made, is_stack, guarded, low, more)) ↦
              let (w', run, sound', e1, e2, e3, e4, rt, kept, framed, stacks) =
                entered host ps behaves w waiting owned exited taken sound got pool id entry arg
                  size v stk tramp first pools one made is_stack guarded more in
              (
                success,
                w',
                rw (ran, good) run,
                inr (
                  refl,
                  (
                    p,
                    id,
                    sound',
                    first,
                    e1,
                    e2,
                    e3,
                    rw e4 low,
                    phase_of rt,
                    ground
                        (arith, new_apart host ps behaves w waiting owned exited taken sound got p),
                    kept,
                    framed,
                    stacks,
                  ),
                ),
              )
        ]

    -- With the block.
    from_id :
        (r : Option ℕ) (pool : IdPool)
        → allocate_task_id (with_block host ps behaves w waiting owned exited taken sound got)
          ≡ ok (
            allocated_id r,
            with_pool host ps behaves w waiting owned exited taken sound got pool,
          )
        → IsFirst (λ j. not (taken j)) 0 task_max_capacity r
        → Pools task_max_capacity (with_id r taken) pool
        → (st : Status) × (w' : World) × (task_create host entry arg size w ≡ ok (st, w'))
          × Ends st w'
    unfolding task_create
    from_id none pool ran first pools =
        let v = with_pool host ps behaves w waiting owned exited taken sound got pool in
        let back : Pools task_max_capacity taken pool =
          Pools-same task_max_capacity (with_id none taken) taken pool pools (λ j lt. refl) in
        (
          resource_exhausted,
          without_block v p,
          rw
              (
                allocated_lem host ps behaves w waiting owned exited taken sound got,
                ran,
                free_lem v p got (ground arith),
              )
              refl,
          inl (
            (ground arith),
            undone host ps behaves w waiting owned exited taken sound got v (
                with_pool-OneBlock host ps behaves w waiting owned exited taken sound got pool
                  back),
            refl,
            λ a i. refl,
            refl,
          ),
        )
    from_id (some id) pool ran first pools =
        let (st, w', run, ends) = from_init pool id first pools in
        (
          st,
          w',
          rw (allocated_lem host ps behaves w waiting owned exited taken sound got, ran) run,
          ends,
        )

  no_block :
      (host.calloc w.machine.events task_size == 0) ≡ true
      → allocate_task host w ≡ ok ((out_of_memory, 0), w)
  unfolding allocate_task heap_alloc
  no_block e = ground (arith, e)

  -- Where mmap, munmap and calloc behave as documented, and the size leaves room for rounding
  -- and guard pages, __gt_runtime_task_create returns in a sound runtime. Either its status
  -- is no success, and the runtime is sound with the same tasks, the same identifiers,
  -- mappings and blocks in use and the same memory; or it is success, and a new task with the
  -- given function and argument, at least the given stack and the lowest free identifier is
  -- the last of the owned and of the waiting tasks, its first switch starts at
  -- gt_context_start on its own stack for the trampoline with the address of the task, and
  -- the runtime is sound. The other tasks, the words of their stacks, and who runs, stay as
  -- they are.
  pub task_create-CreateEnds :
      (st : Status) × (w' : World) × (task_create host entry arg size w ≡ ok (st, w'))
      × CreateEnds host ps w waiting owned exited taken entry arg size st w'
  unfolding task_create
  task_create-CreateEnds = elim (Bool-cases (host.calloc w.machine.events task_size == 0)) [
    | inl none_left ↦ (
      out_of_memory,
      w,
      rw (no_block none_left) refl,
      inl (ground arith, sound, refl, λ a i. refl, refl),
    )
    | inr some_left ↦
        let got : host.calloc w.machine.events task_size ≢ 0 = ground arith in
        let (r, pool, ran, first, pools) =
          allocate_task_id_lem (with_block host ps behaves w waiting owned exited taken sound got)
            taken sound.backed.pools in
        from_id got r pool ran first pools
  ]
