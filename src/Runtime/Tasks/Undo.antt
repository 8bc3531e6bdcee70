-- ===== src/Runtime/Tasks/Undo.antt =====
-- About runtime_task.c: a creation that fails gives back what it took.
use green_threads.Base.{
  ℕ, ◌+◌, ◌^◌, ◌<◌, ◌≡◌, ◌≢◌, refl, ap, Bool, not, ◌&&◌, ◌==◌, List, [], ◌∷◌, ◌++◌, arith,
  if◌then◌else◌, some,
}
use green_threads.Outcome.{ok}
use green_threads.Outcome.Cmd.{pure, ◌>>◌}
use green_threads.Links.Seg.{◌∈◌}
use green_threads.Links.Ring.{SameOutside}
use green_threads.IdPool.{IdPool}
use green_threads.IdPool.Laws.{Pools, with_id}
use green_threads.IdPool.Fresh.{Pools-same}
use green_threads.Bitmap.Search.{IsFirst}
use green_threads.Status.{Status, success}
use green_threads.Platform.Interface.{Host, allocated, freed}
use green_threads.Platform.Ledger.{mapping_at, block_at, SameAccess, Behaves}
use green_threads.Platform.Heap.{heap_alloc, heap_free}
use green_threads.Stack.Region.{SameMemory}
use green_threads.Task.Laws.{OneTask}
use green_threads.World.{World, Runtime, task_size, task_max_capacity, ready_node, runtime_node}
use green_threads.Runtime.Resources.{IsSound, Backed-same, IsConsistent-apart}
use green_threads.Runtime.Tasks.{allocate_task, free_task, release_task_id}
use green_threads.Runtime.Tasks.Steps.{new_apart, new_far, release_task_id_lem}

abbrev pub with_ids : IdPool → Runtime → Runtime
with_ids pool r = record r { task_ids = pool }

-- The world once the block `p` is freed.
abbrev pub without_block : World → ℕ → World
without_block v p = record v {
  machine = record (v.machine) { events = freed p ∷ v.machine.events };
}

pub free_lem :
    (v : World) (p : ℕ)
    → p ≢ 0
    → block_at v.machine.events p ≢ 0
    → free_task p v ≡ ok (tt, without_block v p)
unfolding free_task heap_free
free_lem v p ne held = ground arith

-- The world `v` has the block `p` on top of what `w` has, and its object may have changed.
pub record OneBlock (w v : World) (taken : ℕ → Bool) (p : ℕ) : Type 0 where
  pub page : v.machine.page ≡ w.machine.page
  pub mappings : (a : ℕ) → mapping_at v.machine.events a ≡ mapping_at w.machine.events a
  pub accesses : SameAccess w.machine.events v.machine.events
  pub is_new : block_at w.machine.events p ≡ 0
  pub blocks :
      (a : ℕ)
      → block_at v.machine.events a ≡ (if p == a then task_size else block_at w.machine.events a)
  pub links : SameOutside (ready_node p ∷ runtime_node p ∷ []) w.links v.links
  pub others : (t : ℕ) → t ≢ p → v.tasks t ≡ w.tasks t
  pub rt : v.rt ≡ record (w.rt) { task_ids = v.rt.task_ids }
  pub pools : Pools task_max_capacity taken v.rt.task_ids

module _ (host : Host) (ps : ℕ) (behaves : Behaves host ps) (w : World)
    (waiting owned exited : List ℕ) (taken : ℕ → Bool)
    (sound : IsSound host ps w waiting owned exited taken)
    (got : host.calloc w.machine.events task_size ≢ 0) where
  abbrev p : ℕ
  p = host.calloc w.machine.events task_size

  -- Freeing the block restores what the tasks stand on.
  pub undone :
      (v : World)
      → OneBlock w v taken p
      → IsSound host ps (without_block v p) waiting owned exited taken
  undone v o =
      let apart = new_apart host ps behaves w waiting owned exited taken sound got in
      let far = new_far host ps behaves w waiting owned exited taken sound got in
      record {
        consistent =
            IsConsistent-apart host w (without_block v p) waiting owned exited p sound.consistent
              far apart o.links o.others;
        backed =
            Backed-same ps w (without_block v p) (owned ++ exited) (owned ++ exited) taken
              sound.backed
              (record {
                page = o.page;
                mappings = o.mappings;
                accesses = o.accesses;
                blocks = λ a. ground (arith, o.blocks a, o.is_new);
                stacks = λ t i. let ne : t ≢ p = ground (arith, apart t) in rw (o.others t ne) refl;
                ids = λ t i. let ne : t ≢ p = ground (arith, apart t) in rw (o.others t ne) refl;
                counted = rw o.rt refl;
              })
              o.pools (λ a. refl) refl;
      }

  -- The worlds with the block, and then with the pool `pool`.
  abbrev pub with_block : World
  with_block = record w {
    machine = record (w.machine) { events = allocated p task_size ∷ w.machine.events };
  }

  abbrev pub with_pool : IdPool → World
  with_pool pool = record with_block { rt = record (w.rt) { task_ids = pool } }

  pub allocated_lem : allocate_task host w ≡ ok ((success, p), with_block)
  unfolding allocate_task heap_alloc
  allocated_lem = ground (arith, got)

  pub facts : (block_at w.machine.events p ≡ 0) × (p + task_size < 2 ^ 64)
  facts =
      let (is_new, word, far, apart) = behaves.calloc_new w.machine.events task_size got in
      (is_new, word)

  pub with_pool-OneBlock :
      (pool : IdPool) → Pools task_max_capacity taken pool → OneBlock w (with_pool pool) taken p
  with_pool-OneBlock pool h = record {
    page = refl;
    mappings = λ a. refl;
    accesses = λ q a used from below. refl;
    is_new = facts.0;
    blocks = λ a. refl;
    links = λ a out. (refl, refl);
    others = λ t ne. refl;
    rt = refl;
    pools = h;
  }

  -- The task was initialised without success: its identifier and its block are given back.
  module _ (pool : IdPool) (id : ℕ) (st : Status) (v : World)
      (first : IsFirst (λ j. not (taken j)) 0 task_max_capacity (some id))
      (pools : Pools task_max_capacity (with_id (some id) taken) pool)
      (one : OneTask p (with_pool pool) v) (same : SameMemory with_block.machine v.machine) where
    pub gave_back :
        (w' : World) × ((do release_task_id id; free_task p; pure st) v ≡ ok (st, w'))
        × IsSound host ps w' waiting owned exited taken
        × (w'.rt ≡ record (w.rt) { task_ids = w'.rt.task_ids })
        × ((a : ℕ) → a ∈ owned ++ exited → w'.tasks a ≡ w.tasks a)
        × (w'.machine.memory ≡ w.machine.memory)
    gave_back =
        let known : Pools task_max_capacity (with_id (some id) taken) v.rt.task_ids =
          rw one.rt pools in
        let (pool', ran, after) =
          release_task_id_lem v (with_id (some id) taken) id (ground (arith, first)) (ground arith)
            known in
        let u : World = record v { rt = record (v.rt) { task_ids = pool' } } in
        let back : Pools task_max_capacity taken pool' =
          Pools-same task_max_capacity (λ j. not (id == j) && with_id (some id) taken j) taken pool'
            after (λ j lt. ground (arith, first)) in
        let o : OneBlock w u taken p = record {
          page = same.page;
          mappings = same.mappings;
          accesses = same.accesses;
          is_new = facts.0;
          blocks = same.blocks;
          links = λ a out. rw one.links (ground (arith, out));
          others = λ t ne. one.others t ne;
          rt = ap (with_ids pool') one.rt;
          pools = back;
        } in
        (
          without_block u p,
          rw (ran, free_lem u p got (ground (arith, same.blocks p))) refl,
          undone u o,
          ap (with_ids pool') one.rt,
          λ a i. one.others a (
              ground (arith, new_apart host ps behaves w waiting owned exited taken sound got a i)),
          same.memory,
        )
