-- ===== src/Tests/Lists.antt =====
-- The theorems on lists at a list of three nodes.
use green_threads.Base.{◌≡◌, refl, [], ◌∷◌, ◌++◌}
use green_threads.Outcome.{ok}
use green_threads.Links.{Links, null, push_back, push_front, remove}
use green_threads.Links.Ring.{IsRing, SameOutside}
use green_threads.Links.Laws.{Yields, push-IsRing, remove-IsRing}
use green_threads.Tests.Data.{three, three-IsRing}

remove-IsRing_example :
    (g : Links) × (remove 20 three ≡ ok (tt, g))
    × IsRing g 1 ((10 ∷ []) ++ (30 ∷ []))
    × SameOutside (1 ∷ (10 ∷ []) ++ 20 ∷ (30 ∷ [])) three g
    × (g.prev 20 ≡ null)
    × (g.next 20 ≡ null)
remove-IsRing_example = remove-IsRing three 1 (10 ∷ []) (30 ∷ []) 20 three-IsRing

push-IsRing_example :
    Yields (push_back 1 40) three 1 ((10 ∷ 20 ∷ 30 ∷ []) ++ 40 ∷ []) (40 ∷ 1 ∷ (10 ∷ 20 ∷ 30 ∷ []))
    × Yields (push_front 1 40) three 1 (40 ∷ (10 ∷ 20 ∷ 30 ∷ [])) (40 ∷ 1 ∷ (10 ∷ 20 ∷ 30 ∷ []))
push-IsRing_example = push-IsRing three 1 (10 ∷ 20 ∷ 30 ∷ []) 40 three-IsRing refl
