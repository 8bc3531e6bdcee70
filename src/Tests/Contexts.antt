-- ===== src/Tests/Contexts.antt =====
-- The context routines at a stack that ends at 4096.
use green_threads.Base.{◌+◌, ◌%◌, ◌≡◌, refl, arith, some}
use green_threads.Outcome.{ok}
use green_threads.Status.{success}
use green_threads.Platform.Interface.{Machine}
use green_threads.Platform.Context
use green_threads.Platform.Context.{Context, store}
use green_threads.Platform.Context.Switch.{rsp_of, context_load, context_start}
use green_threads.Platform.Context.Laws.{first_run}
use green_threads.Tests.Halted.{halted}
use green_threads.Tests.Threads.{host, context_at, cpu_at}

first_run_example :
    (ctx' : Context) × (m' : Machine) × (Context.configure host
        (some (context_at 1068576))
        700
        800
        halted.machine
      ≡ ok ((success, ctx'), m'))
    × ((context_load m'.memory ctx' (cpu_at 64)).rip ≡ host.context_start)
    × (let (called, stack) =
          context_start m'.memory 501 (context_load m'.memory ctx' (cpu_at 64)) in
        (called.rip ≡ 700)
        × (called.rdi ≡ 800)
        × ((rsp_of called + 8) % 16 ≡ 0)
        × (stack (rsp_of called) ≡ 501))
first_run_example =
    first_run host (context_at 1068576) 700 800 501 halted.machine (cpu_at 64) (ground arith) refl
      (omega arith) (omega arith) (λ a from below. ground arith)
