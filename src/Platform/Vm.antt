-- ===== src/Platform/Vm.antt =====
-- src/platform/vm/backend/linux/vm.c: reserving, protecting and releasing address ranges. A pointer
-- to a mapping is an optional mapping; a call returns the mapping that it leaves behind.
pub mod Laws
use green_threads.Base.{ℕ, Bool, false, not, ◌==◌, ltb, if◌then◌else◌, Option, none, some}
use green_threads.Outcome.{ok, fault}
use green_threads.Outcome.Cmd.{Cmd, pure, ◌>>=◌, ◌>>◌, assert}
use green_threads.Status.{
  Status, success, out_of_memory, vm_reservation_failed, vm_protection_failed, vm_release_failed,
}
use green_threads.Platform.Interface.{
  Host, Machine, ℤ, pos, negsuc, Mmap, mapped_at, map_failed, record_event, mapped, protected,
  unmapped,
}
use green_threads.Platform.Page.{page_is_aligned, page_is_size_aligned}

pub data Access : Type 0 where
  access_none read_write other_access : Access

pub record Mapping : Type 0 where
  pub base : ℕ
  pub size : ℕ

abbrev pub validate_mapping : Option Mapping → Cmd Machine Mapping
validate_mapping none = do assert false "m != NULL"; λ _. fault
validate_mapping (some m) = pure m

unfoldable pub validate_alignment : ℕ → Cmd Machine (Unit {0})
unfolding page_is_aligned
validate_alignment base = do
  assert (not (base == 0)) "vm_base != NULL"
  aligned ← page_is_aligned base
  assert aligned "gt_page_is_aligned(vm_base)"

unfoldable pub validate_size : ℕ → Cmd Machine (Unit {0})
unfolding page_is_size_aligned
validate_size size = do
  assert (ltb 0 size) "vm_size > 0UL"
  aligned ← page_is_size_aligned size
  assert aligned "gt_page_is_size_aligned(vm_size)"

-- `__gt_vm_mapping_reset`.
abbrev pub reset : Mapping
reset = record { base = 0; size = 0 }

-- PROT_NONE is 0, PROT_READ is 1 and PROT_WRITE is 2; any other value of the type is refused.
abbrev pub translate_access : Access → Cmd Machine ℕ
translate_access access_none = pure 0
translate_access read_write = pure 3
translate_access other_access = do assert false "Unsupported virtual memory access mode."; pure 0

abbrev pub is_zero : ℤ → Bool
is_zero (pos n) = n == 0
is_zero (negsuc n) = false

unfoldable pub reserved : Host → ℕ → Mmap → Cmd Machine (Status × Mapping)
reserved host vm_size (mapped_at base) = do
  record_event (mapped base vm_size)
  pure (success, record { base = base; size = vm_size })
reserved host vm_size (map_failed errno) =
    pure (if errno == host.enomem then out_of_memory else vm_reservation_failed, reset)

-- `gt_vm_mapping_reserve`.
unfoldable pub reserve : Host → Option Mapping → ℕ → Cmd Machine (Status × Mapping)
unfolding validate_size reserved
reserve host m vm_size = do
  m ← validate_mapping m
  validate_size vm_size
  base ← λ s. ok (host.mmap s.events vm_size, s)
  reserved host vm_size base

-- `gt_vm_mapping_protect`.
unfoldable pub protect : Host → Option Mapping → Access → Cmd Machine Status
unfolding validate_alignment validate_size
protect host m access = do
  m ← validate_mapping m
  validate_alignment m.base
  validate_size m.size
  prot ← translate_access access
  status ← λ s. ok (host.mprotect s.events m.base m.size prot, s)
  if not (is_zero status)
      then pure vm_protection_failed
      else do record_event (protected m.base m.size prot); pure success

-- `gt_vm_mapping_release`.
unfoldable pub release : Host → Option Mapping → Cmd Machine (Status × Mapping)
unfolding validate_alignment validate_size
release host m = do
  m ← validate_mapping m
  validate_alignment m.base
  validate_size m.size
  status ← λ s. ok (host.munmap s.events m.base m.size, s)
  if not (is_zero status)
      then pure (vm_release_failed, m)
      else do record_event (unmapped m.base m.size); pure (success, reset)
