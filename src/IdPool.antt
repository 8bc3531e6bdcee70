-- ===== src/IdPool.antt =====
-- internal/gt_internal/ds/id_pool/id_pool.h: the allocator of reusable identifiers. A pointer to a
-- pool is an optional pool; `out_id` is the address that the identifier is returned through.
pub mod Laws
pub mod Fresh
use green_threads.Base.{ℕ, Bool, false, not, ◌==◌, ltb, Option, none, some, List}
use green_threads.Outcome.{Outcome, ok, fault, ◌>>=◌, ◌>>◌, check}
use green_threads.Bitmap
use green_threads.Bitmap.{Bitmap}

pub record IdPool : Type 0 where
  pub map : Bitmap

abbrev pub validate_pool : Option IdPool → Outcome IdPool
validate_pool none = do check false "p != NULL"; fault
validate_pool (some p) = ok p

abbrev pub validate_storage : Option (List ℕ) → Outcome (List ℕ)
validate_storage none = do check false "storage != NULL"; fault
validate_storage (some ws) = ok ws

abbrev pub validate_total_ids : ℕ → Outcome (Unit {0})
validate_total_ids total_ids = check (ltb 0 total_ids) "total_ids > 0UL"

abbrev pub validate_id : IdPool → ℕ → Outcome (Unit {0})
validate_id p id = check (ltb id p.map.total_bits) "id < p->map.total_bits"

abbrev pub validate_out_id : ℕ → Outcome (Unit {0})
validate_out_id out_id = check (not (out_id == 0)) "out_id != NULL"

pub validate_allocated : IdPool → ℕ → Outcome (Unit {0})
validate_allocated p id = do
  taken ← Bitmap.test (some p.map) id
  check taken "gt_bitmap_test(&p->map, id) == true"

pub init : Option IdPool → Option (List ℕ) → ℕ → Outcome IdPool
init p storage total_ids = do
  p ← validate_pool p
  ws ← validate_storage storage
  validate_total_ids total_ids
  map ← Bitmap.init (some p.map) (some ws) total_ids
  ok (record { map = map })

pub allocate : Option IdPool → ℕ → Outcome (Option ℕ × IdPool)
allocate p out_id = do
  p ← validate_pool p
  validate_out_id out_id
  found ← Bitmap.find_first_clear (some p.map) out_id
  elim found [
    | none ↦ ok (none, p)
    | some id ↦ do map ← Bitmap.set (some p.map) id; ok (some id, record { map = map })
  ]

pub release : Option IdPool → ℕ → Outcome IdPool
unfolding validate_allocated
release p id = do
  p ← validate_pool p
  validate_id p id
  validate_allocated p id
  map ← Bitmap.clear (some p.map) id
  ok (record { map = map })

pub is_allocated : Option IdPool → ℕ → Outcome Bool
is_allocated p id = do p ← validate_pool p; validate_id p id; Bitmap.test (some p.map) id

pub is_empty : Option IdPool → Outcome Bool
is_empty p = do p ← validate_pool p; Bitmap.is_empty (some p.map)

pub is_full : Option IdPool → Outcome Bool
is_full p = do p ← validate_pool p; Bitmap.is_full (some p.map)
