-- ===== src/IdPool/Laws.antt =====
-- About id_pool.h: the pool against the set of identifiers that it has handed out.
use green_threads.Base.{
  ℕ, ◌≤◌, ◌<◌, ◌≡◌, ◌≢◌, refl, arith, ◌==◌, Bool, true, false, not, ◌&&◌, ◌||◌, ◌∙◌, Option, some,
  none,
}
use green_threads.Outcome.{ok, panic}
use green_threads.Bitmap
use green_threads.Bitmap.{Bitmap}
use green_threads.Bitmap.Words.{bit_at}
use green_threads.Bitmap.Valid.{Holds}
use green_threads.Bitmap.Update.{test-bit_at, set-Holds, clear-Holds}
use green_threads.Bitmap.Search.{IsFirst, find_first_clear-IsFirst}
use green_threads.IdPool
use green_threads.IdPool.{IdPool}

-- The pool hands out the identifiers below `total`, and has handed out those of `taken`.
abbrev pub Pools : ℕ → (ℕ → Bool) → IdPool → Type 0
Pools total taken p = Holds total taken p.map

abbrev pub with_id : Option ℕ → (ℕ → Bool) → ℕ → Bool
with_id none taken j = taken j
with_id (some k) taken j = (k == j) || taken j

module _ (p : IdPool) (total : ℕ) (taken : ℕ → Bool) (h : Pools total taken p) where
  Holds-bits :
      (after after' : ℕ → Bool) (b : Bitmap)
      → Holds p.map.total_bits after b
      → ((j : ℕ) → j < total → after j ≡ after' j)
      → Holds total after' b
  Holds-bits after after' b g same = record {
    storage = g.storage;
    valid = g.valid;
    same_size = g.same_size ∙ h.same_size;
    bits = λ j lt. g.bits j (omega (arith, h.same_size)) ∙ same j lt;
  }

  IsFirst-free :
      (r : Option ℕ)
      → IsFirst (λ j. not (bit_at h.storage j)) 0 p.map.total_bits r
      → IsFirst (λ j. not (taken j)) 0 total r
  IsFirst-free none first = λ j lo lt. ground (arith, first j, h.bits j, h.same_size)
  IsFirst-free (some k) first = (
    first.0,
    ground (arith, first, h.same_size),
    ground (arith, first, h.bits k, h.same_size),
    λ j lo lt. ground (arith, first, first.3 j, h.bits j, h.same_size),
  )

  -- On a pool that stands for a set of taken identifiers, with a place for the result,
  -- gt_id_pool_allocate returns the lowest identifier that is not taken, and the pool stands
  -- for the set with it; when there is none it returns false and the pool stays as it is.
  pub allocate_lem :
      (out : ℕ)
      → out ≢ 0
      → (r : Option ℕ) × (p' : IdPool) × (IdPool.allocate (some p) out ≡ ok (r, p'))
        × IsFirst (λ j. not (taken j)) 0 total r
        × Pools total (with_id r taken) p'
        × (r ≡ none → p' ≡ p)
  unfolding IdPool.allocate
  allocate_lem out given =
      let (r, ran, first) = find_first_clear-IsFirst p.map h.storage h.valid out given in
      found r ran first
    where
      found :
          (r : Option ℕ)
          → Bitmap.find_first_clear (some p.map) out ≡ ok r
          → IsFirst (λ j. not (bit_at h.storage j)) 0 p.map.total_bits r
          → (r : Option ℕ) × (p' : IdPool) × (IdPool.allocate (some p) out ≡ ok (r, p'))
            × IsFirst (λ j. not (taken j)) 0 total r
            × Pools total (with_id r taken) p'
            × (r ≡ none → p' ≡ p)
      found none ran first =
          (none, p, ground (arith, ran, given), IsFirst-free none first, h, λ _. refl)
      found (some k) ran first =
          let (b, set_ran, after) = set-Holds p.map h.storage h.valid k first.1 in
          (
            some k,
            record { map = b },
            ground (arith, ran, given, set_ran),
            IsFirst-free (some k) first,
            Holds-bits (λ j. (k == j) || bit_at h.storage j) (λ j. (k == j) || taken j) b after
                (λ j lt. ground (arith, h.bits j)),
            λ e. cc,
          )

  module _ (id : ℕ) (in_range : id < total) where
    -- `gt_id_pool_is_allocated` says whether the identifier has been handed out.
    pub is_allocated-taken : IdPool.is_allocated (some p) id ≡ ok (taken id)
    unfolding IdPool.is_allocated
    is_allocated-taken =
        ground (arith, h.same_size, h.bits id, test-bit_at p.map h.storage h.valid id)

    -- gt_id_pool_release of a taken identifier in range frees that identifier and no other.
    pub release_lem :
        taken id ≡ true
        → (p' : IdPool) × (IdPool.release (some p) id ≡ ok p')
          × Pools total (λ j. not (id == j) && taken j) p'
    unfolding IdPool.release
    release_lem e =
        let (b, ran, after) = clear-Holds p.map h.storage h.valid id (omega (arith, h.same_size)) in
        (
          record { map = b },
          ground (arith, h.same_size, h.bits id, test-bit_at p.map h.storage h.valid id, ran),
          Holds-bits (λ j. not (id == j) && bit_at h.storage j) (λ j. not (id == j) && taken j) b
              after (λ j lt. ground (arith, h.bits j)),
        )

    -- Releasing an identifier that is free is stopped by the assertion.
    pub release-free :
        taken id ≡ false → IdPool.release (some p) id ≡ panic "gt_bitmap_test(&p->map, id) == true"
    unfolding IdPool.release
    release-free e = ground (arith, h.same_size, h.bits id, test-bit_at p.map h.storage h.valid id)

  -- An identifier outside the pool is never read or released.
  pub release-out_of_range :
      (id : ℕ) → total ≤ id → IdPool.release (some p) id ≡ panic "id < p->map.total_bits"
  unfolding IdPool.release
  release-out_of_range id le = ground (arith, h.same_size)
