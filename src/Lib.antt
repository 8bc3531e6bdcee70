-- ===== src/Lib.antt =====
-- The green-threads library: cooperative tasks with their own stacks on one thread, in C.
--
-- The parts, from below, with the files that model them:
-- * src/platform wraps what the kernel and the C library give: page size, address ranges, zeroed
--   memory, and execution contexts with their switch in assembly. Platform, Platform/Page,
--   Platform/Vm, Platform/Heap, Platform/Context and Platform/Context/Switch model page.c, vm.c,
--   heap.c, context.c and switch.S under src/platform; Platform/Interface has the calls that lie
--   outside (sysconf, mmap, mprotect, munmap, calloc) as the fields of a record, which answer by
--   the history of calls, and the state: the static variables of page.c, that history, and the
--   words of memory that context.c writes.
-- * src/memory/stack/stack.c reserves a stack between guard pages through the platform: Stack.
-- * internal/gt_internal/ds has the data structures. Links models list/list.h: a node is its
--   address, and the memory is its two maps prev and next, so that nodes of several lists share
--   it. Queue models queue/queue.h over it. Bitmap models bitmap/bitmap.h over a list of 64-bit
--   words, and IdPool models id_pool/id_pool.h over a bitmap.
-- * src/task/task.c puts a stack and a context together: Task. World has the state of the whole:
--   the platform's, the links, the task objects by address, and the runtime singleton.
-- * src/scheduler/scheduler.c is a queue of ready tasks: Scheduler.
-- * src/runtime has the runtime behind the public calls of src/runtime.c: Runtime/Lifecycle is
--   runtime.c, Runtime/Tasks runtime_task.c, Runtime/Schedule runtime_scheduler.c and
--   Runtime/Execution runtime_execution.c.
-- * src/runtime.c has the public calls, which forward to the runtime: Api.
-- * include/gt/error.h and src/runtime/error.c are Status, include/gt/version.h and
--   src/runtime/version.c are Version, and the levels of internal/gt_internal/log/log.h and
--   src/log/log.c are Log.
--
-- A call is a function from the state to an outcome: its value and the next state, the text of a
-- failed GT_ASSERT, or a fault where the code goes on with NULL, stores to a word that cannot be
-- written, frees what is no heap block, leaves an array, or overflows an int (Outcome,
-- Outcome/Cmd). The checks are taken as enabled. A static function has the name of the C function
-- without its prefix. A context switch ends a call: the value is the context that is loaded, and
-- what follows a saved context's second return is a call of its own. Machine words are native
-- numbers with `% 2 ^ 64` where the C operation wraps around (Word). Addresses of a structure's
-- members are offsets from its own address, those of x86-64.
--
-- Below each part stand modules of lemmas: Stack/Region says what a stack between its guard pages
-- is, Links/Ring and Links/Laws what a well-formed list is and what each operation does to it,
-- Bitmap/Valid what a well-formed bitmap is, IdPool/Laws what set a pool stands for,
-- Runtime/Invariant what holds of the runtime between two switches: the ready queue, the owned
-- and the exited tasks are well-formed lists of tasks whose objects lie apart, in the states that
-- the lists promise. Platform/Ledger reads off the history of calls which mappings and heap
-- blocks exist and how every byte is protected, and states what the kernel and the C library
-- promise of their answers: a new mapping is aligned and overlaps no other, a mapping that exists
-- can be given back, and a new block lies apart from the others; a page has at least 32 bytes.
-- Runtime/Resources says that every task has its block, its stack and its identifier for itself,
-- that the stacks lie apart, each readable and writable between guard pages that cannot be
-- accessed, and that nothing else is held. Runtime/Session is the abstract view: a plan of who
-- has control, who waits, who has exited and how each goes on, the steps that a call makes in it,
-- and programs whose calls depend on the replies; Runtime/Session/Switch says what a loaded
-- context means: the function of a task begins, or a call that switched away returns.
-- Runtime/Session/Turns forgets the tasks' addresses: what a program ends with depends on the
-- answers to its creations alone.
--
-- The loops of list.h and of runtime_task.c run on fuel; a list of n nodes needs n + 1, since the
-- last test finds the head, and more than GT_TASK_MAX_CAPACITY suffices for the runtime's lists,
-- whose tasks have identifiers of their own. The loops of bitmap.h run on the number of words.
--
-- Examples has the programs under examples, over that: what each task does up to its next call,
-- on what the tasks share, and what the main program does between gt_init and gt_destroy. A
-- function pointer is a small number, and a pointer to a variable an address that is chosen for
-- it; the registers at a call stand for the place in the code and its locals, and the stack
-- pointer is 0 in the main program only. The tasks' turns run on fuel, and each program is shown
-- to end within it. Examples/Pipeline, Fibonacci, Yielding and Nested are 10_pipeline.c,
-- 09_fibonacci.c, 04_yield.c and 06_nested_tasks.c, Examples/Workers has 01, 02, 03 and 08,
-- Examples/Arguments 05 and 07, and Examples/Versions 11. Examples/Fibonacci/Interference takes
-- a task of 09_fibonacci.c by itself, among any others.
--
-- Not modelled: log and panic output, the progress messages that the examples' main programs
-- print, the tests, and machine code between two calls of the runtime: a context that is loaded
-- stands for it. A task's function is taken to call the runtime through creation, yield and exit
-- only.
pub mod Api
pub mod Base
pub mod Bitmap
pub mod Examples
pub mod IdPool
pub mod Links
pub mod Log
pub mod Outcome
pub mod Platform
pub mod Queue
pub mod Runtime
pub mod Scheduler
pub mod Stack
pub mod Status
pub mod Task
pub mod Tests
pub mod Version
pub mod Word
pub mod World
