-- ===== src/Api.antt =====
-- src/runtime.c: the public calls, each of which forwards to the runtime's own.
use green_threads.Base.{ℕ}
use green_threads.Outcome.Cmd.{Cmd}
use green_threads.Status.{Status}
use green_threads.Platform.Interface.{Host}
use green_threads.Platform.Context.{Context}
use green_threads.World.{World}
use green_threads.Runtime.Lifecycle
use green_threads.Runtime.Execution.{run, yield_task}

abbrev pub gt_init : Host → Cmd World Status
gt_init host = Lifecycle.init host

abbrev pub gt_create_task : Host → (entry arg stack_size : ℕ) → Cmd World Status
gt_create_task host entry arg stack_size = Lifecycle.create_task host entry arg stack_size

-- Up to the first switch.
abbrev pub gt_run : Host → (regs : Context) → Cmd World Context
gt_run host regs = run host regs

abbrev pub gt_yield : Host → (regs : Context) → Cmd World Context
gt_yield host regs = yield_task host regs

abbrev pub gt_destroy : (fuel : ℕ) → Host → Cmd World (Unit {0})
gt_destroy fuel host = Lifecycle.destroy fuel host
