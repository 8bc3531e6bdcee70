-- ===== src/Tests/Pools.antt =====
-- The pool of 70 identifiers with four taken.
use green_threads.Base.{ℕ, ◌≡◌, arith, ◌==◌, not, ◌&&◌, Option, some, none}
use green_threads.Outcome.{ok}
use green_threads.Bitmap.Search.{IsFirst}
use green_threads.IdPool
use green_threads.IdPool.{IdPool}
use green_threads.IdPool.Laws.{Pools, with_id, allocate_lem, release_lem}
use green_threads.Tests.Data.{taken70, pool70, pool70-Pools, two_taken}

allocate_lem_example :
    (r : Option ℕ) × (p' : IdPool) × (IdPool.allocate (some pool70) 8 ≡ ok (r, p'))
    × IsFirst (λ j. not (taken70 j)) 0 70 r
    × Pools 70 (with_id r taken70) p'
    × (r ≡ none → p' ≡ pool70)
allocate_lem_example = allocate_lem pool70 70 taken70 pool70-Pools 8 (ground arith)

release_lem_example :
    (p' : IdPool) × (IdPool.release (some pool70) 2 ≡ ok p')
    × Pools 70 (λ j. not (2 == j) && taken70 j) p'
release_lem_example = release_lem pool70 70 taken70 pool70-Pools 2 (omega arith) two_taken
