-- ===== src/Platform/Interface.antt =====
-- What the runtime finds outside its own sources: the C library's and the kernel's calls, and the
-- addresses that the linker chooses. The calls answer by the history of the calls before them, so a
-- host may behave in any way.
use green_threads.Base.{ℕ, Bool, List, ◌∷◌}
use green_threads.Outcome.{ok}
use green_threads.Outcome.Cmd.{Cmd}

-- A signed number; `negsuc n` is -(n + 1).
pub data ℤ : Type 0 where
  pos : ℕ → ℤ
  negsuc : ℕ → ℤ

-- A call that changed what the process owns.
pub data Event : Type 0 where
  mapped : (base size : ℕ) → Event
  protected : (base size prot : ℕ) → Event
  unmapped : (base size : ℕ) → Event
  allocated : (ptr size : ℕ) → Event
  freed : (ptr : ℕ) → Event

-- The result of mmap: an address, or MAP_FAILED with the value of errno.
pub data Mmap : Type 0 where
  mapped_at : ℕ → Mmap
  map_failed : (errno : ℕ) → Mmap

pub record Host : Type 0 where
  -- sysconf(_SC_PAGE_SIZE)
  pub page_size : ℤ
  pub enomem : ℕ
  pub mmap : List Event → (size : ℕ) → Mmap
  pub mprotect : List Event → (base size prot : ℕ) → ℤ
  pub munmap : List Event → (base size : ℕ) → ℤ
  -- calloc(1, size), zero being NULL
  pub calloc : List Event → (size : ℕ) → ℕ
  -- the addresses of gt_context_start, __gt_runtime_task_trampoline and the singleton `runtime`
  pub context_start : ℕ
  pub task_trampoline : ℕ
  pub runtime : ℕ

-- The static variables of page.c.
pub record Page : Type 0 where
  pub size : ℕ
  pub initialized : Bool
  pub max_alignable_size : ℕ

-- The state below the runtime: the page variables, the calls made so far (the latest first), and the
-- words of memory that context.c writes.
pub record Machine : Type 0 where
  pub page : Page
  pub events : List Event
  pub memory : ℕ → ℕ

abbrev pub record_event : Event → Cmd Machine (Unit {0})
record_event e m = ok (tt, record m { events = e ∷ m.events })
