-- ===== src/Tests/Process.antt =====
-- A concrete process, with the singleton at 100000, and what its C library and kernel answer.
use green_threads.Base.{
  ℕ, ◌+◌, ◌-◌, ◌*◌, ◌/◌, ◌%◌, ◌^◌, ◌≤◌, ◌<◌, ◌≡◌, ◌≢◌, refl, inl, inr, true, false, leb, List, [],
  ◌∷◌, arith, if◌then◌else◌, Bool-cases,
}
use green_threads.Platform.Interface.{
  Host, Page, Event, pos, mapped_at, map_failed, mapped, protected, unmapped, allocated, freed,
}
use green_threads.Platform.Ledger.{Behaves, mapping_at, block_at}
use green_threads.Platform.Page.Laws.{IsPaged}
use green_threads.World.{World, RuntimeState, cleared_task, cleared_runtime}
use green_threads.Runtime.Lifecycle.Laws.{HoldsNothing}
use green_threads.Runtime.Lifecycle.Start.{IsPageSize}
use green_threads.Tests.Data.{no_links}

-- The end of the heap, from 400000.
abbrev block_top : List Event → ℕ
block_top [] = 400000
block_top (allocated p size ∷ es) =
    let rest = block_top es in if leb (p + size) rest then rest else p + size
block_top (freed p ∷ es) = block_top es
block_top (mapped base size ∷ es) = block_top es
block_top (unmapped base size ∷ es) = block_top es
block_top (protected base size prot ∷ es) = block_top es

-- The first page after the mappings, from 2 ^ 22.
abbrev map_top : List Event → ℕ
map_top [] = 4194304
map_top (mapped base size ∷ es) =
    let rest = map_top es in
    if leb (base + size) rest then rest else (base + size + 4095) / 4096 * 4096
map_top (unmapped base size ∷ es) = map_top es
map_top (protected base size prot ∷ es) = map_top es
map_top (allocated p size ∷ es) = map_top es
map_top (freed p ∷ es) = map_top es

blocks_low : (es : List Event) (q : ℕ) → block_at es q ≢ 0 → q + block_at es q ≤ block_top es
blocks_low [] q ne = absurd (ground (arith, ne))
blocks_low (allocated p size ∷ es) q ne = ground (arith, blocks_low es q)
blocks_low (freed p ∷ es) q ne = ground (arith, blocks_low es q)
blocks_low (mapped base size ∷ es) q ne = blocks_low es q ne
blocks_low (unmapped base size ∷ es) q ne = blocks_low es q ne
blocks_low (protected base size prot ∷ es) q ne = blocks_low es q ne

block_top-high : (es : List Event) → 400000 ≤ block_top es
block_top-high [] = omega arith
block_top-high (allocated p size ∷ es) = ground (arith, block_top-high es)
block_top-high (freed p ∷ es) = block_top-high es
block_top-high (mapped base size ∷ es) = block_top-high es
block_top-high (unmapped base size ∷ es) = block_top-high es
block_top-high (protected base size prot ∷ es) = block_top-high es

mappings_low : (es : List Event) (q : ℕ) → mapping_at es q ≢ 0 → q + mapping_at es q ≤ map_top es
mappings_low [] q ne = absurd (ground (arith, ne))
mappings_low (mapped base size ∷ es) q ne = ground (arith, mappings_low es q)
mappings_low (unmapped base size ∷ es) q ne = ground (arith, mappings_low es q)
mappings_low (protected base size prot ∷ es) q ne = mappings_low es q ne
mappings_low (allocated p size ∷ es) q ne = mappings_low es q ne
mappings_low (freed p ∷ es) q ne = mappings_low es q ne

map_top-whole : (es : List Event) → (4194304 ≤ map_top es) × (map_top es % 4096 ≡ 0)
map_top-whole [] = (omega arith, refl)
map_top-whole (mapped base size ∷ es) =
    let (high, whole) = map_top-whole es in
    elim (Bool-cases (leb (base + size) (map_top es))) [
      | inl e ↦ rw e (high, whole)
      | inr e ↦
          let above : map_top es < base + size = ground (arith, e) in
          rw e (omega (arith, high, above), omega arith)
    ]
map_top-whole (unmapped base size ∷ es) = map_top-whole es
map_top-whole (protected base size prot ∷ es) = map_top-whole es
map_top-whole (allocated p size ∷ es) = map_top-whole es
map_top-whole (freed p ∷ es) = map_top-whole es

-- A C library with a heap from 400000 to 1000000, and a kernel with mappings from 2 ^ 22 to 2 ^ 40.
abbrev pub process : Host
process = record {
  page_size = pos 4096;
  enomem = 12;
  mmap =
      λ es size. if leb (map_top es + size) (2 ^ 40) then mapped_at (map_top es) else map_failed 12;
  mprotect = λ _ _ _ _. pos 0;
  munmap = λ _ _ _. pos 0;
  calloc = λ es size. if leb (block_top es + size) 1000000 then block_top es else 0;
  context_start = 500;
  task_trampoline = 600;
  runtime = 100000;
}

-- What a new mapping is: the first page after the mappings, in room.
mmap_top :
    (es : List Event) (size base : ℕ)
    → process.mmap es size ≡ mapped_at base
    → (base ≡ map_top es) × (map_top es + size ≤ 2 ^ 40)
mmap_top es size base e = ground (arith, e)

calloc_top :
    (es : List Event) (size : ℕ)
    → process.calloc es size ≢ 0
    → (process.calloc es size ≡ block_top es) × (block_top es + size ≤ 1000000)
calloc_top es size ne = ground (arith, ne)

pub process-Behaves : Behaves process 4096
process-Behaves = record {
  page_room = omega arith;
  mmap_new = λ es size base e.
      let (at, room) = mmap_top es size base e in
      let (high, whole) = map_top-whole es in
      rw at (
        omega (arith, high),
        whole,
        omega (arith, room),
        ground (arith, mappings_low es (map_top es)),
        λ q ne. inr (mappings_low es q ne),
      );
  munmap_known = λ es base size given known. refl;
  calloc_new = λ es size ne.
      let (at, room) = calloc_top es size ne in
      let high = block_top-high es in
      rw at (
        ground (arith, blocks_low es (block_top es), high),
        omega (arith, room),
        inr (omega (arith, high)),
        λ q taken. inr (blocks_low es q taken),
      );
}

abbrev pub page : Page
page = record { size = 4096; initialized = true; max_alignable_size = 2 ^ 64 - 4096 }

pub page-IsPaged : IsPaged page 4096
page-IsPaged = record {
  ready = refl;
  page_size = refl;
  positive = omega arith;
  aligned = refl;
  whole = refl;
  default_whole = refl;
  alignable = refl;
}

-- A process that has not touched the runtime.
abbrev pub blank : World
blank = record {
  machine = record {
    page = record { size = 0; initialized = false; max_alignable_size = 0 };
    events = [];
    memory = λ _. 0;
  };
  links = no_links;
  tasks = λ _. cleared_task;
  rt = record cleared_runtime { state = RuntimeState.uninitialized };
}

pub blank-HoldsNothing : HoldsNothing blank.machine
blank-HoldsNothing = record { mappings = λ a. refl; blocks = λ a. refl }

pub fitting : IsPageSize 4096
fitting = record {
  positive = omega arith;
  power = refl;
  aligned = refl;
  whole = refl;
  default_whole = refl;
}
