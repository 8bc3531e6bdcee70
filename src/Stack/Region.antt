-- ===== src/Stack/Region.antt =====
-- About stack.c: what a stack in its mapping is, and what a call leaves of the process's memory.
use green_threads.Base.{
  ℕ, ◌+◌, ◌%◌, ◌^◌, ◌≤◌, ◌<◌, ◌≡◌, ◌≢◌, ◌∙◌, arith, List, ◌==◌, if◌then◌else◌, ◌⊎◌,
}
use green_threads.Status.{Status, success}
use green_threads.Platform.Interface.{Machine, Event}
use green_threads.Platform.Ledger.{mapping_at, block_at, access_at, ClearOf, SameAccess}
use green_threads.Platform.Vm.{Mapping}
use green_threads.Platform.Vm.Laws.{IsRange}
use green_threads.Stack.{Stack, cleared}

-- A stack of whole pages with one guard page on either side of it in its mapping.
pub record IsStack (ps : ℕ) (s : Stack) : Type 0 where
  pub range : IsRange ps s.mapping
  pub in_memory : s.mapping.base + s.mapping.size < 2 ^ 64
  pub guard_below : s.base ≡ s.mapping.base + ps
  pub guard_above : s.mapping.base + s.mapping.size ≡ s.base + s.size + ps
  pub sized : 0 < s.size
  pub room : ps ≤ s.size
  pub base_aligned : s.base % 16 ≡ 0
  pub size_aligned : s.size % 16 ≡ 0

-- The usable part of the stack can be read and written, and its guard pages cannot be accessed.
pub record IsGuarded (s : Stack) (es : List Event) : Type 0 where
  pub inside : (a : ℕ) → s.base ≤ a → a < s.base + s.size → access_at es a ≡ 3
  pub below : (a : ℕ) → s.mapping.base ≤ a → a < s.base → access_at es a ≡ 0
  pub above :
      (a : ℕ) → s.base + s.size ≤ a → a < s.mapping.base + s.mapping.size → access_at es a ≡ 0

-- The same page variables, words of memory, mappings and blocks, and no byte that can be accessed more
-- than before.
pub record SameMemory (m m' : Machine) : Type 0 where
  pub page : m'.page ≡ m.page
  pub memory : m'.memory ≡ m.memory
  pub mappings : (a : ℕ) → mapping_at m'.events a ≡ mapping_at m.events a
  pub blocks : (a : ℕ) → block_at m'.events a ≡ block_at m.events a
  pub accesses : SameAccess m.events m'.events
  pub closed :
      (a : ℕ) → (access_at m'.events a ≡ access_at m.events a) ⊎ (access_at m'.events a ≡ 0)

-- One mapping more, clear of the others, and the same page variables, words of memory and blocks.
pub record OneMapping (m m' : Machine) (r : Mapping) : Type 0 where
  pub page : m'.page ≡ m.page
  pub memory : m'.memory ≡ m.memory
  pub is_new : mapping_at m.events r.base ≡ 0
  pub clear : ClearOf m.events r.base r.size
  pub mappings :
      (a : ℕ) → mapping_at m'.events a ≡ (if r.base == a then r.size else mapping_at m.events a)
  pub blocks : (a : ℕ) → block_at m'.events a ≡ block_at m.events a
  pub elsewhere :
      (a : ℕ) → (a < r.base) ⊎ (r.base + r.size ≤ a) → access_at m'.events a ≡ access_at m.events a

-- How gt_stack_init ends: with a status that is no success, a cleared stack and no more memory than
-- before, or with a stack of at least the size that was asked for, in a mapping of its own.
abbrev pub StackEnds : (ps size : ℕ) → Machine → Status → Stack → Machine → Type 0
StackEnds ps size m st s m' =
    ((st ≢ success) × (s ≡ cleared) × SameMemory m m')
    ⊎ ((st ≡ success)
        × IsStack ps s
        × IsGuarded s m'.events
        × (size ≤ s.size)
        × OneMapping m m' s.mapping)

-- The mappings that exist are protected as they were when there is one more.
pub OneMapping-SameAccess :
    (m m' : Machine) (r : Mapping) → OneMapping m m' r → SameAccess m.events m'.events
OneMapping-SameAccess m m' r o q a used from below =
    o.elsewhere a (ground (arith, o.clear q used, from, below))

-- A stack whose mapping exists stays guarded.
pub IsGuarded-same :
    (ps : ℕ) (s : Stack) (es es' : List Event)
    → IsStack ps s
    → mapping_at es s.mapping.base ≡ s.mapping.size
    → SameAccess es es'
    → IsGuarded s es
    → IsGuarded s es'
IsGuarded-same ps s es es' i known same g =
    let used : mapping_at es s.mapping.base ≢ 0 = ground (arith, known, i.range.sized) in
    let kept : (a : ℕ)
        → s.mapping.base ≤ a
        → a < s.mapping.base + s.mapping.size
        → access_at es' a ≡ access_at es a =
      λ a from below. same s.mapping.base a used from (omega (arith, known, below)) in
    record {
      inside = λ a from below.
          kept a (omega (arith, i.guard_below, from)) (omega (arith, i.guard_above, below))
          ∙ g.inside a from below;
      below = λ a from below.
          kept a from (omega (arith, i.guard_above, i.sized, below)) ∙ g.below a from below;
      above = λ a from below.
          kept a (omega (arith, i.guard_below, i.sized, from)) below ∙ g.above a from below;
    }
