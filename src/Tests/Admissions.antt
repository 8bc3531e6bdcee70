-- ===== src/Tests/Admissions.antt =====
-- A third task joins two.
use green_threads.Base.{◌≡◌, [], ◌∷◌, ◌++◌, arith}
use green_threads.Outcome.{ok}
use green_threads.Links.{Links}
use green_threads.Status.{success}
use green_threads.Runtime.Invariant.{IsConsistent}
use green_threads.Runtime.Tasks.{admit_task}
use green_threads.Runtime.Tasks.Admit.{admitted, admit_task-IsConsistent}
use green_threads.Tests.Threads.{host, idle, idle-IsConsistent, busy-Layout}

admit_task-IsConsistent_example :
    (h : Links) × (admit_task host 3000 2 idle ≡ ok (success, admitted idle h 3000))
    × IsConsistent host
        (admitted idle h 3000)
        ((1000 ∷ 2000 ∷ []) ++ 3000 ∷ [])
        ((1000 ∷ 2000 ∷ []) ++ 3000 ∷ [])
        []
admit_task-IsConsistent_example =
    admit_task-IsConsistent host idle 3000 (1000 ∷ 2000 ∷ []) (1000 ∷ 2000 ∷ []) []
      idle-IsConsistent busy-Layout (ground arith) 2
