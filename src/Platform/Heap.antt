-- ===== src/Platform/Heap.antt =====
-- src/platform/heap/heap.c: allocation of zeroed memory.
use green_threads.Base.{ℕ, not, ◌==◌, ltb, if◌then◌else◌}
use green_threads.Outcome.{ok, fault}
use green_threads.Outcome.Cmd.{Cmd, pure, ◌>>=◌, ◌>>◌, assert}
use green_threads.Status.{Status, success, out_of_memory}
use green_threads.Platform.Interface.{Host, Machine, record_event, allocated, freed}
use green_threads.Platform.Ledger.{block_at}

-- `gt_heap_alloc`: the status and what is stored through `out_ptr`.
unfoldable pub heap_alloc : Host → (out_ptr size : ℕ) → Cmd Machine (Status × ℕ)
heap_alloc host out_ptr size = do
  assert (not (out_ptr == 0)) "out_ptr != NULL"
  assert (ltb 0 size) "size > 0"
  local_ptr ← λ m. ok (host.calloc m.events size, m)
  if local_ptr == 0
      then pure (out_of_memory, 0)
      else do record_event (allocated local_ptr size); pure (success, local_ptr)

-- `gt_heap_free`: freeing NULL has no effect, and freeing what is not a block faults.
unfoldable pub heap_free : (ptr : ℕ) → Cmd Machine (Unit {0})
heap_free ptr = if ptr == 0 then pure tt else λ m.
    if block_at m.events ptr == 0 then fault else record_event (freed ptr) m
