-- ===== src/Tests/Stacks.antt =====
-- A stack of 10000 bytes on pages of 4096.
use green_threads.Base.{◌≡◌, arith, some}
use green_threads.Outcome.{ok}
use green_threads.Status.{Status}
use green_threads.Platform.Interface.{Machine}
use green_threads.Stack
use green_threads.Stack.{Stack, cleared, usable_size, init_mapped, usable}
use green_threads.Stack.Region.{StackEnds}
use green_threads.Stack.Laws.{init-StackEnds}
use green_threads.Tests.Halted.{halted}
use green_threads.Tests.Process.{process, process-Behaves, page-IsPaged}

init-StackEnds_example :
    (st : Status) × (s : Stack) × (m' : Machine) × (Stack.init process
        (some (cleared))
        10000
        halted.machine
      ≡ ok ((st, s), m'))
    × StackEnds 4096 10000 halted.machine st s m'
init-StackEnds_example =
    init-StackEnds process halted.machine 4096 page-IsPaged process-Behaves (cleared) 10000
      (omega arith)
