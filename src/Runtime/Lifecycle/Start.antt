-- ===== src/Runtime/Lifecycle/Start.antt =====
-- About runtime.c: what initialising the runtime leaves.
use green_threads.Base.{
  ℕ, ◌+◌, ◌*◌, ◌/◌, ◌%◌, ◌^◌, ◌≤◌, ◌<◌, ◌≡◌, refl, ◌⊎◌, inl, inr, true, false, ◌==◌, [], ◌∷◌, arith,
  length, some, get_or, get_or-replicate, length-replicate,
}
use green_threads.Outcome.{ok}
use green_threads.Status.{success}
use green_threads.IdPool
use green_threads.IdPool.{IdPool}
use green_threads.IdPool.Laws.{Pools}
use green_threads.IdPool.Fresh.{init_lem}
use green_threads.Links
use green_threads.Links.{Links}
use green_threads.Links.Ring.{IsRing, IsRing-frame}
use green_threads.Links.Laws.{init-IsRing}
use green_threads.Queue
use green_threads.Platform.Context.{cleared}
use green_threads.Queue.Laws.{init-empty}
use green_threads.Platform.Interface.{Host, Machine, Page, pos}
use green_threads.Platform.Page
use green_threads.Platform.Page.{is_pow2, align_down_any}
use green_threads.Word.{all_ones}
use green_threads.Platform.Page.Laws.{IsPaged}
use green_threads.Platform
use green_threads.Scheduler
use green_threads.World.{
  World, RuntimeState, cleared_runtime, task_max_capacity, task_id_storage, scheduler_of, tasks_of,
  zombies_of,
}
use green_threads.Task.{clear_node}
use green_threads.Runtime.Resources.{IsSound}
use green_threads.Runtime.Lifecycle
use green_threads.Runtime.Lifecycle.{is_uninitialized, clear_runtime, init_parts}
use green_threads.Runtime.Lifecycle.Laws.{HoldsNothing}

-- A page size that the platform can work with: a power of two that is a multiple of 16 and divides
-- both the address space and the default size of a stack.
pub record IsPageSize (ps : ℕ) : Type 0 where
  pub positive : 0 < ps
  pub power : is_pow2 ps ≡ true
  pub aligned : ps / 16 * 16 ≡ ps
  pub whole : 2 ^ 64 % ps ≡ 0
  pub default_whole : 64 * 1024 % ps ≡ 0

-- The page variables are set, or the C library tells a page size that fits.
abbrev pub PageKnown : Host → Machine → ℕ → Type 0
PageKnown host m ps =
    IsPaged m.page ps ⊎ ((m.page.initialized ≡ false) × (host.page_size ≡ pos ps) × IsPageSize ps)

-- gt_platform_init where the page size is known.
platform_init_lem :
    (host : Host) (m : Machine) (ps : ℕ)
    → PageKnown host m ps
    → (p : Page) × (Platform.init host m ≡ ok (success, record m { page = p })) × IsPaged p ps
unfolding Platform.init Page.init
platform_init_lem host m ps (inl p) = (m.page, rw (p.ready) refl, p)
platform_init_lem host m ps (inr (not_yet, size, s)) =
    let e : (ps == 0) ≡ false = ground (arith, s.positive) in
    (
      record { size = ps; initialized = true; max_alignable_size = align_down_any all_ones ps },
      rw (not_yet, size, e, s.power) refl,
      record {
        ready = refl;
        page_size = refl;
        positive = s.positive;
        aligned = s.aligned;
        whole = s.whole;
        default_whole = s.default_whole;
        alignable = refl;
      },
    )

-- The storage of the identifiers in a cleared runtime.
storage-length : (task_max_capacity + 63) / 64 ≤ length cleared_runtime.storage
unfolding cleared_runtime
storage-length = rw (length-replicate {A = ℕ} task_id_storage 0) (omega arith)

storage-words : (k : ℕ) → get_or cleared_runtime.storage k 0 < 2 ^ 64
unfolding cleared_runtime
storage-words k = rw (get_or-replicate {A = ℕ} task_id_storage k 0) (omega arith)

-- The three lists of the runtime, made one after the other.
empty_lists :
    (host : Host) (h : Links)
    → 0 < host.runtime
    → (h1 : Links) × (h2 : Links) × (g : Links) × (Queue.init (scheduler_of host) h ≡ ok (tt, h1))
      × (Links.init (tasks_of host) h1 ≡ ok (tt, h2))
      × (Links.init (zombies_of host) h2 ≡ ok (tt, g))
      × IsRing g (scheduler_of host) []
      × IsRing g (tasks_of host) []
      × IsRing g (zombies_of host) []
empty_lists host h given =
    let (h1, e1, r1, s1) = init-empty h (scheduler_of host) (ground arith) in
    let (h2, e2, r2, s2) = init-IsRing h1 (tasks_of host) (ground arith) in
    let (g, e3, r3, s3) = init-IsRing h2 (zombies_of host) (ground arith) in
    let r1' =
      IsRing-frame h1 h2 (scheduler_of host) [] (tasks_of host ∷ []) r1 s2 (λ a i. ground arith) in
    (
      h1,
      h2,
      g,
      e1,
      e2,
      e3,
      IsRing-frame h2 g (scheduler_of host) [] (zombies_of host ∷ []) r1' s3 (λ a i. ground arith),
      IsRing-frame h2 g (tasks_of host) [] (zombies_of host ∷ []) r2 s3 (λ a i. ground arith),
      r3,
    )

-- A runtime without tasks.
abbrev started : World → Links → Page → IdPool → World
started w g page pool = record w {
  machine = record (w.machine) { page = page };
  links = g;
  rt = record cleared_runtime {
    state = RuntimeState.initialized;
    main_context = cleared;
    task_ids = pool;
    task_count = 0;
    current = 0;
  };
}

started-IsSound :
    (host : Host) (ps : ℕ) (w : World) (g : Links) (page : Page) (pool : IdPool)
    → 0 < host.runtime
    → IsRing g (scheduler_of host) []
    → IsRing g (tasks_of host) []
    → IsRing g (zombies_of host) []
    → IsPaged page ps
    → Pools task_max_capacity (λ _. false) pool
    → HoldsNothing w.machine
    → IsSound host ps (started w g page pool) [] [] [] (λ _. false)
started-IsSound host ps w g page pool given r1 r2 r3 paged pools nothing = record {
  consistent = record {
    layout = record {
      placed = given;
      far = λ p i. ground (arith, i);
      separate = λ p q i j. ground (arith, i);
    };
    waiting_ring = r1;
    owned_ring = r2;
    exited_ring = r3;
    distinct = ground arith;
    waiting_owned = λ a i. i;
    are_ready = λ t i. absurd (ground (arith, i));
    are_zombies = λ t i. absurd (ground (arith, i));
  };
  backed = record {
    paged = paged;
    pools = pools;
    stacks = λ t i. absurd (ground (arith, i));
    mappings = λ t i. absurd (ground (arith, i));
    guarded = λ t i. absurd (ground (arith, i));
    blocks = λ t i. absurd (ground (arith, i));
    ids = λ t i. absurd (ground (arith, i));
    mappings_apart = λ t u i j e. absurd (ground (arith, i));
    stacks_apart = λ t u i j. absurd (ground (arith, i));
    ids_apart = λ t u i j e. absurd (ground (arith, i));
    only_mappings = λ a ne. absurd (ne (nothing.mappings a));
    only_blocks = λ a ne. absurd (ne (nothing.blocks a));
    only_ids = λ j lt out. absurd (ground (arith, out));
    words = λ t i. absurd (ground (arith, i));
    counted = refl;
  };
}

abbrev cleared_links : Host → Links → Links
cleared_links host h =
    clear_node (scheduler_of host)
      (clear_node (zombies_of host) (clear_node (tasks_of host) (clear_node (scheduler_of host) h)))

init_runs :
    (host : Host) (w : World) (page : Page) (pool : IdPool) (h1 h2 g : Links)
    → is_uninitialized w.rt.state ≡ true
    → 0 < host.runtime
    → Platform.init host w.machine ≡ ok (success, record (w.machine) { page = page })
    → Queue.init (scheduler_of host) (cleared_links host w.links) ≡ ok (tt, h1)
    → Links.init (tasks_of host) h1 ≡ ok (tt, h2)
    → Links.init (zombies_of host) h2 ≡ ok (tt, g)
    → IdPool.init
        (some (cleared_runtime.task_ids))
        (some (cleared_runtime.storage))
        task_max_capacity
      ≡ ok pool
    → Lifecycle.init host w ≡ ok (success, started w g page pool)
unfolding Lifecycle.init Scheduler.init
init_runs host w page pool h1 h2 g s given e e1 e2 e3 e4 =
    let a : (scheduler_of host == 0) ≡ false = ground arith in rw (s, e, a, e1, e2, e3, e4) refl

-- With a page size that is known and fits, and neither mapping nor block held, gt_runtime_init
-- of an uninitialised runtime succeeds and leaves it INITIALIZED and sound, without tasks and
-- with every identifier free.
pub init-IsSound :
    (host : Host) (ps : ℕ) (w : World)
    → w.rt.state ≡ RuntimeState.uninitialized
    → 0 < host.runtime
    → PageKnown host w.machine ps
    → HoldsNothing w.machine
    → (w' : World) × (Lifecycle.init host w ≡ ok (success, w'))
      × (w'.rt.state ≡ RuntimeState.initialized)
      × IsSound host ps w' [] [] [] (λ _. false)
init-IsSound host ps w s given known nothing =
    let (page, e, paged) = platform_init_lem host w.machine ps known in
    let (h1, h2, g, e1, e2, e3, r1, r2, r3) = empty_lists host (cleared_links host w.links) given in
    let (pool, ran, fresh) =
      init_lem (cleared_runtime.task_ids) (cleared_runtime.storage) task_max_capacity (omega arith)
        (omega arith) storage-length storage-words in
    let u : is_uninitialized w.rt.state ≡ true = rw s refl in
    (
      started w g page pool,
      init_runs host w page pool h1 h2 g u given e e1 e2 e3 ran,
      refl,
      started-IsSound host ps w g page pool given r1 r2 r3 paged fresh nothing,
    )
