-- ===== src/Tests/Walks.antt =====
-- The theorems on iteration at a list of three nodes.
use green_threads.Base.{◌≡◌, [], ◌∷◌, arith}
use green_threads.Outcome.{ok}
use green_threads.Links.{Links, remove, for_each_safe}
use green_threads.Links.Ring.{IsRing}
use green_threads.Links.Walk.{for_each_safe-remove}
use green_threads.Tests.Data.{three, three-IsRing}

for_each_safe-remove_example :
    (g : Links) × (for_each_safe 4 1 remove three ≡ ok ((10 ∷ 20 ∷ 30 ∷ []), g)) × IsRing g 1 []
for_each_safe-remove_example =
    for_each_safe-remove 4 three 1 (10 ∷ 20 ∷ 30 ∷ []) three-IsRing (omega arith)
