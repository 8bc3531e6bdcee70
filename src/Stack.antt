-- ===== src/Stack.antt =====
-- src/memory/stack/stack.c: execution stacks with guard pages. A pointer to a stack is an optional
-- stack; a call returns the stack that it leaves behind.
pub mod Size
pub mod Region
pub mod Laws
use green_threads.Base.{ℕ, ◌+◌, ◌-◌, ◌*◌, ◌%◌, false, ◌==◌, if◌then◌else◌, Option, none, some}
use green_threads.Outcome.{fault}
use green_threads.Outcome.Cmd.{Cmd, pure, ◌>>=◌, ◌>>◌, assert}
use green_threads.Word.{word_mod}
use green_threads.Status.{Status, success, is_success}
use green_threads.Platform.Interface.{Host, Machine}
use green_threads.Platform.Page.{is_aligned, page_size, page_align_up}
use green_threads.Platform.Vm
use green_threads.Platform.Vm.{Mapping, read_write}

-- GT_STACK_ALIGNMENT, GT_STACK_GUARD_PAGES and GT_STACK_DEFAULT_SIZE.
abbrev pub alignment : ℕ
alignment = 16

abbrev pub guard_pages : ℕ
guard_pages = 2

abbrev pub default_size : ℕ
default_size = 64 * 1024

pub record Stack : Type 0 where
  pub mapping : Mapping
  pub base : ℕ
  pub size : ℕ

-- `__gt_stack_clear`.
abbrev pub cleared : Stack
cleared = record { mapping = Vm.reset; base = 0; size = 0 }

abbrev pub validate_stack : Option Stack → Cmd Machine Stack
validate_stack none = do assert false "s != NULL"; λ _. fault
validate_stack (some s) = pure s

abbrev pub validate_base : ℕ → Cmd Machine (Unit {0})
validate_base base =
    assert (is_aligned base alignment) "GT_IS_ALIGNED((uintptr_t)base, GT_STACK_ALIGNMENT)"

abbrev pub validate_size : ℕ → Cmd Machine (Unit {0})
validate_size size = assert (is_aligned size alignment) "GT_IS_ALIGNED(size, GT_STACK_ALIGNMENT)"

-- The usable part of the mapping, between the guard pages.
abbrev pub usable : Mapping → (page guard_size : ℕ) → Mapping
usable m page guard_size = record {
  base = (m.base + page) % word_mod;
  size = (m.size + word_mod - guard_size) % word_mod;
}

-- The rest of `gt_stack_init` once the range is reserved.
unfoldable pub init_mapped : Host → (page guard_size : ℕ) → Mapping → Cmd Machine (Status × Stack)
init_mapped host page guard_size m = do
  validate_base m.base
  validate_size m.size
  let inner = usable m page guard_size
  status ← Vm.protect host (some inner) read_write
  if is_success status
      then (do
        validate_base inner.base
        validate_size inner.size
        pure (success, record { mapping = m; base = inner.base; size = inner.size }))
      else (do released ← Vm.release host (some m); pure (status, cleared))

-- The size of the usable stack for a requested size.
unfoldable pub usable_size : ℕ → Cmd Machine ℕ
usable_size stack_size = if stack_size == 0 then pure default_size else page_align_up stack_size

-- `gt_stack_init`.
unfoldable pub init : Host → Option Stack → (stack_size : ℕ) → Cmd Machine (Status × Stack)
unfolding init_mapped usable_size
init host s stack_size = do
  s ← validate_stack s
  stack_size ← usable_size stack_size
  page ← page_size
  let guard_size = guard_pages * page % word_mod
  let mapping_size = (stack_size + guard_size) % word_mod
  (status, m) ← Vm.reserve host (some (cleared.mapping)) mapping_size
  if is_success status
      then init_mapped host page guard_size m
      else pure (status, record cleared { mapping = m })

-- `gt_stack_destroy`.
unfoldable pub destroy : Host → Option Stack → Cmd Machine Stack
destroy host s = do
  s ← validate_stack s
  released ← Vm.release host (some (s.mapping))
  pure cleared
