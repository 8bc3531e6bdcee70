-- ===== src/Platform/Vm/Laws.antt =====
-- About vm.c: what its calls do when their conditions hold, by the kernel's answer.
use green_threads.Base.{ℕ, ◌%◌, ◌<◌, ◌≡◌, refl, arith, ◌∷◌, some, if◌then◌else◌, ◌⊎◌, inl, inr}
use green_threads.Outcome.{ok}
use green_threads.Status.{success, vm_protection_failed, vm_release_failed}
use green_threads.Platform.Interface.{
  Host, Machine, Mmap, mapped_at, map_failed, protected, unmapped,
}
use green_threads.Platform.Page.Laws.{IsPaged}
use green_threads.Platform.Vm
use green_threads.Platform.Vm.{Mapping, read_write, reserved, is_zero, reset}

pub Mmap-cases :
    (x : Mmap) → ((base : ℕ) × (x ≡ mapped_at base)) ⊎ ((errno : ℕ) × (x ≡ map_failed errno))
Mmap-cases (mapped_at base) = inl (base, refl)
Mmap-cases (map_failed errno) = inr (errno, refl)

-- A range that the calls accept: whole pages, at an address that is not NULL.
pub record IsRange (ps : ℕ) (m : Mapping) : Type 0 where
  pub placed : 0 < m.base
  pub base_whole : m.base % ps ≡ 0
  pub sized : 0 < m.size
  pub size_whole : m.size % ps ≡ 0

module _ (host : Host) (m : Machine) (ps : ℕ) (p : IsPaged m.page ps) where
  pub reserve_lem :
      (old : Mapping) (n : ℕ)
      → 0 < n
      → n % ps ≡ 0
      → Vm.reserve host (some old) n m ≡ reserved host n (host.mmap m.events n) m
  unfolding Vm.reserve
  reserve_lem old n sized whole = ground (arith, p.ready, p.page_size)

  pub protect_lem :
      (r : Mapping)
      → IsRange ps r
      → Vm.protect host (some r) read_write m ≡ (
          if is_zero (host.mprotect m.events r.base r.size 3)
          then ok (success, record m { events = protected r.base r.size 3 ∷ m.events })
          else ok (vm_protection_failed, m))
  unfolding Vm.protect
  protect_lem r i = ground (arith, p.ready, p.page_size)

  pub release_lem :
      (r : Mapping)
      → IsRange ps r
      → Vm.release host (some r) m ≡ (
          if is_zero (host.munmap m.events r.base r.size)
          then ok ((success, reset), record m { events = unmapped r.base r.size ∷ m.events })
          else ok ((vm_release_failed, r), m))
  unfolding Vm.release
  release_lem r i = ground (arith, p.ready, p.page_size)
