-- ===== src/Platform/Ledger.antt =====
-- What the library holds of the process's memory, read off the history of its calls, and what the
-- C library and the kernel promise about their answers.
use green_threads.Base.{
  ℕ, ◌+◌, ◌%◌, ◌^◌, ◌≤◌, ◌<◌, ◌≡◌, ◌≢◌, ◌⊎◌, List, [], ◌∷◌, ◌==◌, Bool, ◌&&◌, leb, ltb,
  if◌then◌else◌,
}
use green_threads.Platform.Interface.{
  Host, pos, Event, mapped, protected, unmapped, allocated, freed, mapped_at,
}

-- The size of the mapping that begins at `a`, 0 if none does.
abbrev pub mapping_at : List Event → ℕ → ℕ
mapping_at [] a = 0
mapping_at (mapped base size ∷ es) a = if base == a then size else mapping_at es a
mapping_at (unmapped base size ∷ es) a = if base == a then 0 else mapping_at es a
mapping_at (protected base size prot ∷ es) a = mapping_at es a
mapping_at (allocated p size ∷ es) a = mapping_at es a
mapping_at (freed p ∷ es) a = mapping_at es a

-- The size of the heap block at `a`, 0 if there is none.
abbrev pub block_at : List Event → ℕ → ℕ
block_at [] a = 0
block_at (allocated p size ∷ es) a = if p == a then size else block_at es a
block_at (freed p ∷ es) a = if p == a then 0 else block_at es a
block_at (mapped base size ∷ es) a = block_at es a
block_at (unmapped base size ∷ es) a = block_at es a
block_at (protected base size prot ∷ es) a = block_at es a

abbrev pub in_range : (base size a : ℕ) → Bool
in_range base size a = leb base a && ltb a (base + size)

-- The protection of the byte at `a`, by mmap, which reserves with PROT_NONE, mprotect and munmap:
-- PROT_NONE, which is 0, where there is no mapping.
abbrev pub access_at : List Event → ℕ → ℕ
access_at [] a = 0
access_at (mapped base size ∷ es) a = if in_range base size a then 0 else access_at es a
access_at (unmapped base size ∷ es) a = if in_range base size a then 0 else access_at es a
access_at (protected base size prot ∷ es) a = if in_range base size a then prot else access_at es a
access_at (allocated p size ∷ es) a = access_at es a
access_at (freed p ∷ es) a = access_at es a

-- The size of `struct gt_runtime`, on x86-64.
abbrev pub runtime_size : ℕ
runtime_size = 12656

-- The range of `size` bytes at `base` overlaps no mapping.
abbrev pub ClearOf : List Event → (base size : ℕ) → Type 0
ClearOf es base size =
    (q : ℕ) → mapping_at es q ≢ 0 → (base + size ≤ q) ⊎ (q + mapping_at es q ≤ base)

-- The bytes of the mappings that exist are protected as they were.
abbrev pub SameAccess : List Event → List Event → Type 0
SameAccess es es' =
    (q a : ℕ)
    → mapping_at es q ≢ 0
    → q ≤ a
    → a < q + mapping_at es q
    → access_at es' a ≡ access_at es a

-- mmap(2), munmap(2) and calloc(3) on pages of `ps` bytes: a new mapping is aligned and lies apart
-- from the mappings that exist, a mapping that exists can be given back, and a new block lies apart
-- from the blocks that exist and from the static variables. A page has room for a task's first frame.
pub record Behaves (host : Host) (ps : ℕ) : Type 0 where
  pub page_room : 32 ≤ ps
  pub mmap_new :
      (es : List Event) (size base : ℕ)
      → host.mmap es size ≡ mapped_at base
      → (0 < base)
        × (base % ps ≡ 0)
        × (base + size < 2 ^ 64)
        × (mapping_at es base ≡ 0)
        × ClearOf es base size
  pub munmap_known :
      (es : List Event) (base size : ℕ)
      → 0 < size
      → mapping_at es base ≡ size
      → host.munmap es base size ≡ pos 0
  pub calloc_new :
      (es : List Event) (size : ℕ)
      → host.calloc es size ≢ 0
      → let p = host.calloc es size in
        (block_at es p ≡ 0)
        × (p + size < 2 ^ 64)
        × ((p + size ≤ host.runtime) ⊎ (host.runtime + runtime_size ≤ p))
        × ((q : ℕ) → block_at es q ≢ 0 → (p + size ≤ q) ⊎ (q + block_at es q ≤ p))
