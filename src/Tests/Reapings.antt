-- ===== src/Tests/Reapings.antt =====
-- The exited one of two tasks is destroyed.
use green_threads.Base.{ℕ, ◌≡◌, Bool, [], ◌∷◌, arith}
use green_threads.Outcome.{ok}
use green_threads.Links.Seg.{◌∈◌}
use green_threads.World.{World}
use green_threads.Runtime.Resources.{IsSound, SamePhase}
use green_threads.Runtime.Tasks.{reap_zombies}
use green_threads.Runtime.Tasks.Reap.{reap_zombies-IsSound}
use green_threads.Tests.Halted.{two_out, halted, halted-IsSound}
use green_threads.Tests.Process.{process, process-Behaves}

reap_zombies-IsSound_example :
    (w' : World) × (taken' : ℕ → Bool) × (reap_zombies 2 process halted ≡ ok (tt, w'))
    × IsSound process 4096 w' (200000 ∷ []) (200000 ∷ []) [] taken'
    × SamePhase halted w'
    × ((a : ℕ) → a ∈ (200000 ∷ []) → w'.tasks a ≡ halted.tasks a)
    × (w'.machine.memory ≡ halted.machine.memory)
reap_zombies-IsSound_example =
    reap_zombies-IsSound process 4096 2 halted (200000 ∷ []) (200000 ∷ []) (300000 ∷ []) two_out
      process-Behaves halted-IsSound (omega arith)
