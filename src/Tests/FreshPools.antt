-- ===== src/Tests/FreshPools.antt =====
-- Sequences of calls at a pool of 70 identifiers.
use green_threads.Base.{◌≡◌, arith, ltb, Bool, ◌↔◌, true, some, none}
use green_threads.Outcome.{ok}
use green_threads.IdPool
use green_threads.IdPool.{IdPool}
use green_threads.IdPool.Laws.{Pools}
use green_threads.IdPool.Fresh.{is_full-allocate, allocate_many, ids_from, allocate_many-fresh}
use green_threads.Tests.Data.{words, bits70-IsValid, taken70, pool70, pool70-Pools}

allocate_many-fresh_example :
    (p : IdPool) × (p' : IdPool) × (IdPool.init (some pool70) (some words) 70 ≡ ok p)
    × (allocate_many 5 p 8 ≡ ok (ids_from 0 5, p'))
    × Pools 70 (λ j. ltb j 5) p'
allocate_many-fresh_example =
    allocate_many-fresh pool70 words 70 5 8 (omega arith) (omega arith) (omega arith)
      bits70-IsValid.are_words (ground arith) (omega arith)

is_full-allocate_example :
    (r : Bool) × (IdPool.is_full (some pool70) ≡ ok r)
    × ((r ≡ true) ↔ (IdPool.allocate (some pool70) 8 ≡ ok (none, pool70)))
is_full-allocate_example = is_full-allocate pool70 70 taken70 8 pool70-Pools (ground arith)
