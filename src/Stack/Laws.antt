-- ===== src/Stack/Laws.antt =====
-- About stack.c: how gt_stack_init ends, and gt_stack_destroy.
use green_threads.Base.{
  ℕ, ◌+◌, ◌-◌, ◌*◌, ◌%◌, ◌^◌, ◌≤◌, ◌<◌, ◌≡◌, refl, ◌∙◌, arith, ◌∷◌, some, ◌==◌, if◌then◌else◌, inl,
  inr, Bool-cases,
}
use green_threads.Outcome.{ok}
use green_threads.Outcome.Cmd.{Cmd, pure, and_then}
use green_threads.Status.{
  Status, is_success, success, vm_protection_failed, out_of_memory, vm_reservation_failed,
}
use green_threads.Platform.Interface.{Host, Machine, pos, mapped, protected, unmapped}
use green_threads.Platform.Ledger.{mapping_at, ClearOf, Behaves}
use green_threads.Platform.Page.{page_size}
use green_threads.Platform.Page.Laws.{IsPaged}
use green_threads.Platform.Vm.{Mapping, reserved, is_zero}
use green_threads.Platform.Vm.Laws.{Mmap-cases, IsRange, reserve_lem, protect_lem, release_lem}
use green_threads.Stack
use green_threads.Stack.{Stack, cleared, usable_size, init_mapped, usable}
use green_threads.Stack.Size.{usable_size_lem, page-aligned, page-add, page-le}
use green_threads.Stack.Region.{IsStack, StackEnds}

larger :
    (ps size u : ℕ) (m : Machine) (st : Status) (s : Stack) (m' : Machine)
    → size ≤ u
    → StackEnds ps u m st s m'
    → StackEnds ps size m st s m'
larger ps size u m st s m' low (inl e) = inl e
larger ps size u m st s m' low (inr (e, i, g, le, o)) = inr (e, i, g, omega arith, o)

module _ (host : Host) (m : Machine) (ps : ℕ) (p : IsPaged m.page ps)
    (behaves : Behaves host ps) where
  -- From a new mapping `r` for `u` usable bytes on.
  module _ (u : ℕ) (r : Mapping) (positive : 0 < u) (whole : u % ps ≡ 0)
      (fits : u + 2 * ps < 2 ^ 64) (size : r.size ≡ u + 2 * ps) (range : IsRange ps r)
      (memory : r.base + r.size < 2 ^ 64) (is_new : mapping_at m.events r.base ≡ 0)
      (clear : ClearOf m.events r.base r.size) where
    inner-IsRange : IsRange ps (record { base = r.base + ps; size = u })
    inner-IsRange = record {
      placed = omega (arith, range.placed);
      base_whole = page-add ps r.base range.base_whole;
      sized = positive;
      size_whole = whole;
    }

    made-IsStack : IsStack ps (record { mapping = r; base = r.base + ps; size = u })
    made-IsStack = record {
      range = range;
      in_memory = memory;
      guard_below = refl;
      guard_above = omega (arith, size);
      sized = positive;
      room = page-le ps u positive whole;
      base_aligned = page-aligned ps (r.base + ps) p.aligned (page-add ps r.base range.base_whole);
      size_aligned = page-aligned ps u p.aligned whole;
    }

    init_mapped_lem :
        (st : Status) × (s : Stack) × (m' : Machine) × (init_mapped host ps
            (2 * ps)
            r
            (record m { events = mapped r.base r.size ∷ m.events })
          ≡ ok ((st, s), m'))
        × StackEnds ps u m st s m'
    unfolding init_mapped
    init_mapped_lem =
        let m1 : Machine = record m { events = mapped r.base r.size ∷ m.events } in
        let prot =
          protect_lem host m1 ps p (record { base = r.base + ps; size = u }) inner-IsRange in
        let rel = release_lem host m1 ps p r range in
        let low : (r.base + ps) % 2 ^ 64 ≡ r.base + ps = omega arith in
        let high : (r.size + 2 ^ 64 - 2 * ps) % 2 ^ 64 ≡ u = omega arith in
        let base16 = page-aligned ps r.base p.aligned range.base_whole in
        let size16 = page-aligned ps r.size p.aligned range.size_whole in
        let freed_known : host.munmap m1.events r.base r.size ≡ pos 0 =
          behaves.munmap_known m1.events r.base r.size range.sized (ground arith) in
        elim (Bool-cases (is_zero (host.mprotect m1.events (r.base + ps) u 3))) [
          | inl good ↦ (
            success,
            record { mapping = r; base = r.base + ps; size = u },
            record m1 { events = protected (r.base + ps) u 3 ∷ m1.events },
            ground (
              arith, low, high, base16, size16, made-IsStack.base_aligned,
              made-IsStack.size_aligned, prot, good,
            ),
            inr (
              refl,
              made-IsStack,
              record {
                inside = λ a from below. ground arith;
                below = λ a from below. ground (arith, size);
                above = λ a from below. ground (arith, size);
              },
              omega arith,
              record {
                page = refl;
                memory = refl;
                is_new = is_new;
                clear = clear;
                mappings = λ a. refl;
                blocks = λ a. refl;
                elsewhere = λ a out. ground (arith, out, size);
              },
            ),
          )
          | inr bad ↦ (
            vm_protection_failed,
            cleared,
            record m1 { events = unmapped r.base r.size ∷ m1.events },
            ground (arith, low, high, base16, size16, prot, bad, rel, freed_known),
            inl (
              ground arith,
              refl,
              record {
                page = refl;
                memory = refl;
                mappings = λ a. ground (arith, is_new);
                blocks = λ a. refl;
                accesses = λ q a used from below. ground (arith, clear q used);
                closed = λ a. ground arith;
              },
            ),
          )
        ]

  pages_and_guards : (u : ℕ) → u % ps ≡ 0 → (u + 2 * ps) % ps ≡ 0
  pages_and_guards u whole =
      let e : u + 2 * ps ≡ u + ps + ps = omega arith in
      rw e (page-add ps (u + ps) (page-add ps u whole))

  page_size_lem : page_size m ≡ ok (ps, m)
  unfolding page_size
  page_size_lem = ground (arith, p.ready, p.page_size)

  -- What follows the reservation.
  abbrev go_on : Status × Mapping → Cmd Machine (Status × Stack)
  go_on x =
      if is_success x.0
      then init_mapped host ps (2 * ps) x.1
      else pure (x.0, record cleared { mapping = x.1 })

  reserved_run :
      (old : Stack) (size u : ℕ)
      → usable_size size m ≡ ok (u, m)
      → 0 < u
      → u % ps ≡ 0
      → u + 2 * ps < 2 ^ 64
      → Stack.init host (some old) size m
        ≡ and_then (reserved host (u + 2 * ps) (host.mmap m.events (u + 2 * ps)) m) go_on
  unfolding Stack.init
  reserved_run old size u sized positive whole word =
      let guards : 2 * ps % 2 ^ 64 ≡ 2 * ps = omega arith in
      let n_word : (u + 2 * ps) % 2 ^ 64 ≡ u + 2 * ps = omega arith in
      let res =
        reserve_lem host m ps p cleared.mapping (u + 2 * ps) (omega arith)
          (pages_and_guards u whole) in
      rw (sized, page_size_lem, guards, n_word, res) refl

  -- On pages of a fitting size, where mmap, munmap and calloc behave as documented,
  -- gt_stack_init for a size that leaves room for rounding and two guard pages returns.
  -- Either its status is no success, the stack is cleared, no mapping is left behind, the
  -- mappings that exist are protected as before and no byte has been made accessible; or it
  -- is success, and the stack has at least that size, is aligned, and lies in a new mapping
  -- between one guard page below and one above: its bytes can be read and written, those of
  -- the guard pages cannot be accessed, and outside the new mapping every byte is protected
  -- as before.
  pub init-StackEnds :
      (old : Stack) (size : ℕ)
      → size + 3 * ps ≤ 2 ^ 64
      → (st : Status) × (s : Stack) × (m' : Machine) × (Stack.init host (some old) size m
          ≡ ok ((st, s), m'))
        × StackEnds ps size m st s m'
  init-StackEnds old size fits =
      let (u, sized, whole, positive, low, word) = usable_size_lem m ps size p fits in
      let n_whole = pages_and_guards u whole in
      let run = reserved_run old size u sized positive whole word in
      elim (Mmap-cases (host.mmap m.events (u + 2 * ps))) [
        | inl (base, e) ↦
            let (at, at_page, fits', is_new, clear) =
              behaves.mmap_new m.events (u + 2 * ps) base e in
            let r : Mapping = record { base = base; size = u + 2 * ps } in
            let range : IsRange ps r = record {
              placed = at;
              base_whole = at_page;
              sized = omega arith;
              size_whole = n_whole;
            } in
            let (st, s, m', ran, ends) =
              init_mapped_lem u r positive whole word refl range fits' is_new clear in
            (st, s, m', run ∙ (rw e (unfold reserved in ran)), larger ps size u m st s m' low ends)
        | inr (errno, e) ↦ (
          (if errno == host.enomem then out_of_memory else vm_reservation_failed),
          cleared,
          m,
          run ∙ (rw e (unfold reserved in ground arith)),
          inl (
            ground arith,
            refl,
            record {
              page = refl;
              memory = refl;
              mappings = λ a. refl;
              blocks = λ a. refl;
              accesses = λ q a used from below. refl;
              closed = λ a. inl refl;
            },
          ),
        )
      ]

  -- gt_stack_destroy gives back the mapping of a stack that exists.
  pub destroy_lem :
      (s : Stack)
      → IsStack ps s
      → mapping_at m.events s.mapping.base ≡ s.mapping.size
      → Stack.destroy host (some s) m
        ≡ ok (cleared, record m { events = unmapped s.mapping.base s.mapping.size ∷ m.events })
  unfolding Stack.destroy
  destroy_lem s i known =
      let released = release_lem host m ps p s.mapping i.range in
      let answer =
        behaves.munmap_known m.events s.mapping.base s.mapping.size i.range.sized known in
      ground (arith, released, answer)
