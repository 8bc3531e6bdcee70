-- ===== src/Tests/Moves.antt =====
-- The theorems on moves at two lists.
use green_threads.Base.{◌≡◌, [], ◌∷◌, ◌++◌}
use green_threads.Outcome.{ok}
use green_threads.Links.{Links, move_back, move_front}
use green_threads.Links.Ring.{IsRing}
use green_threads.Links.Move.{move-IsRing}
use green_threads.Tests.Data.{two, two-IsRing, second-IsRing, two_apart}

move-IsRing_example :
    ((g : Links) × (move_back 2 20 two ≡ ok (tt, g))
      × IsRing g 1 ((10 ∷ []) ++ (30 ∷ []))
      × IsRing g 2 ((40 ∷ []) ++ 20 ∷ []))
    × ((g : Links) × (move_front 2 20 two ≡ ok (tt, g))
        × IsRing g 1 ((10 ∷ []) ++ (30 ∷ []))
        × IsRing g 2 (20 ∷ (40 ∷ [])))
move-IsRing_example =
    move-IsRing two 1 2 (10 ∷ []) (30 ∷ []) (40 ∷ []) 20 two-IsRing second-IsRing two_apart
