-- ===== src/Runtime.antt =====
-- src/runtime/runtime.c, runtime_task.c, runtime_scheduler.c and runtime_execution.c, behind the
-- public calls of src/runtime.c. A switch of contexts is the end of a call: the value is the context
-- that `gt_context_load` resumes, and `current` says whose it is (NULL is the main thread).
pub mod Invariant
pub mod Resources
pub mod Session
pub mod Tasks
pub mod Schedule
pub mod Execution
pub mod Lifecycle
