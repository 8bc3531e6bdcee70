-- ===== src/Examples/Pipeline.antt =====
-- examples/10_pipeline.c: a producer, a processor and a consumer that share a channel.
use green_threads.Base.{
  ℕ, ◌+◌, ◌*◌, ◌^◌, ◌≤◌, ◌<◌, refl, Bool, true, false, not, ◌||◌, ◌==◌, leb, List, [], ◌∷◌, ◌++◌,
  if◌then◌else◌, arith,
}
use green_threads.Platform.Context.{Context, cleared}
use green_threads.Examples.{
  Does, finishes, gives_way, Code, Main, exits_with, runs_tasks, Creation, creation, adds_all,
  main_runs, tasks_run, task_calls,
}
use green_threads.Examples.Obeys.{IsFit, if-IsFit, CodeIsFit, MainIsFit}
use green_threads.Examples.Whole.{MayStart, Completes}
use green_threads.Examples.Ends.{any_failed, adds_all-Completes}
use green_threads.Platform.Interface.{Host}
use green_threads.World.{World, task_max_capacity}
use green_threads.Runtime.Session.Turns.{turns}
use green_threads.Status.{Status}

-- PIPELINE_ITEMS
abbrev pub pipeline_items : ℕ
pipeline_items = 3

-- What the tasks print.
pub data Line : Type 0 where
  produced : (value : ℕ) → Line
  processed : (raw squared : ℕ) → Line
  consumed : (value : ℕ) → Line
  producer_finished processor_finished consumer_finished : Line

-- `struct pipeline_channel`, and what has been printed.
pub record PipelineChannel : Type 0 where
  pub raw_value : ℕ
  pub processed_value : ℕ
  pub producer_done : Bool
  pub processor_done : Bool
  pub out : List Line

abbrev prints : Line → PipelineChannel → PipelineChannel
prints line c = record c { out = c.out ++ line ∷ [] }

-- The registers at a call of `gt_yield`: which of the three it is, and a local.
abbrev at_call : (which local : ℕ) → Context
at_call which local = record cleared { rsp = 1; rbx = which; r12 = local }

-- The loop of `producer_task_entry` from a value on.
abbrev pub producer_task_entry : (value : ℕ) → PipelineChannel → Does PipelineChannel
producer_task_entry value c =
    if leb value pipeline_items
    then gives_way (prints (produced value) (record c { raw_value = value })) (at_call 1 value)
    else finishes (prints producer_finished (record c { producer_done = true }))

abbrev processes : PipelineChannel → PipelineChannel
processes c =
    let squared = c.raw_value * c.raw_value in
    record (prints (processed (c.raw_value) squared) c) { processed_value = squared; raw_value = 0 }

-- The loop of `processor_task_entry`.
abbrev pub processor_task_entry : PipelineChannel → Does PipelineChannel
processor_task_entry c =
    if not (c.producer_done) || not (c.raw_value == 0)
    then gives_way (if not (c.raw_value == 0) then processes c else c) (at_call 2 0)
    else finishes (prints processor_finished (record c { processor_done = true }))

abbrev consumes : PipelineChannel → PipelineChannel
consumes c = record (prints (consumed (c.processed_value)) c) { processed_value = 0 }

-- The loop of `consumer_task_entry`.
abbrev pub consumer_task_entry : PipelineChannel → Does PipelineChannel
consumer_task_entry c =
    if not (c.processor_done) || not (c.processed_value == 0)
    then gives_way (if not (c.processed_value == 0) then consumes c else c) (at_call 3 0)
    else finishes (prints consumer_finished c)

producer_task_entry-IsFit :
    (ps value : ℕ) (c : PipelineChannel) → IsFit ps (producer_task_entry value c)
unfolding IsFit
producer_task_entry-IsFit ps value c = if-IsFit ps (leb value pipeline_items) _ _ refl tt

processor_task_entry-IsFit : (ps : ℕ) (c : PipelineChannel) → IsFit ps (processor_task_entry c)
unfolding IsFit
processor_task_entry-IsFit ps c =
    if-IsFit ps (not (c.producer_done) || not (c.raw_value == 0)) _ _ refl tt

consumer_task_entry-IsFit : (ps : ℕ) (c : PipelineChannel) → IsFit ps (consumer_task_entry c)
unfolding IsFit
consumer_task_entry-IsFit ps c =
    if-IsFit ps (not (c.processor_done) || not (c.processed_value == 0)) _ _ refl tt

-- The functions have the addresses 1, 2 and 3.
abbrev pub pipeline_code : Code PipelineChannel
pipeline_code = record {
  entry = λ entry arg c.
      if entry == 1
      then producer_task_entry 1 c
      else if entry == 2
      then processor_task_entry c
      else if entry == 3
      then consumer_task_entry c
      else finishes c;
  resume = λ regs c.
      if regs.rbx == 1
      then producer_task_entry (regs.r12 + 1) c
      else if regs.rbx == 2
      then processor_task_entry c
      else consumer_task_entry c;
}

abbrev pub channel : PipelineChannel
channel = record {
  raw_value = 0;
  processed_value = 0;
  producer_done = false;
  processor_done = false;
  out = [];
}

-- `main`, between `gt_init` and `gt_destroy`; the channel lies at `arg`.
abbrev pub pipeline_tasks : (arg : ℕ) → List Creation
pipeline_tasks arg =
    creation 1 arg (16 * 1024) ∷ creation 2 arg (16 * 1024) ∷ creation 3 arg (16 * 1024) ∷ []

abbrev pub pipeline_main : (arg : ℕ) → Main PipelineChannel
pipeline_main arg = adds_all (pipeline_tasks arg) (runs_tasks (exits_with 0))

-- What the pipeline leaves and prints.
abbrev pub channel_after : PipelineChannel
channel_after = record {
  raw_value = 0;
  processed_value = 0;
  producer_done = true;
  processor_done = true;
  out =
      produced 1
      ∷ processed 1 1
      ∷ consumed 1
      ∷ produced 2
      ∷ processed 2 4
      ∷ consumed 4
      ∷ produced 3
      ∷ processed 3 9
      ∷ consumed 9
      ∷ producer_finished
      ∷ processor_finished
      ∷ consumer_finished
      ∷ [];
}

pipeline_code-CodeIsFit : (ps : ℕ) → CodeIsFit ps pipeline_code
unfolding IsFit
pipeline_code-CodeIsFit ps = record {
  entries = λ entry arg c. if-IsFit ps (entry == 1) _ _ (producer_task_entry-IsFit ps 1 c) (
      if-IsFit ps (entry == 2) _ _ (processor_task_entry-IsFit ps c)
        (if-IsFit ps (entry == 3) _ _ (consumer_task_entry-IsFit ps c) tt));
  resumes = λ regs c.
      if-IsFit ps (regs.rbx == 1) _ _ (producer_task_entry-IsFit ps (regs.r12 + 1) c) (
        if-IsFit ps (regs.rbx == 2) _ _ (processor_task_entry-IsFit ps c)
          (consumer_task_entry-IsFit ps c));
}

-- The example 10_pipeline.c, on a process that may start the library (mmap, munmap and calloc
-- behave as documented, the runtime is uninitialised, a page size is known that fits, and
-- neither mapping nor block is held), with more fuel than GT_TASK_MAX_CAPACITY, where 16 KiB
-- have room with guard pages: gt_init succeeds and the program ends. If a creation fails the
-- exit status is 1 and no task has run; otherwise it is 0, every item is produced, squared and
-- consumed before the next is produced, the consumer prints 1, 4 and 9, and every task
-- finishes. gt_destroy ends and leaves a process that may start the library again.
pub pipeline_main-Completes :
    (host : Host) (ps fuel : ℕ) (w : World) (arg : ℕ)
    → MayStart host ps w
    → task_max_capacity < fuel
    → 16 * 1024 + 3 * ps ≤ 2 ^ 64
    → (sts : List Status) × Completes host ps fuel w
        (main_runs 20 pipeline_code (pipeline_main arg) channel)
        sts
        (if any_failed sts then (1, channel) else (0, channel_after))
unfolding turns main_runs tasks_run task_calls MainIsFit
pipeline_main-Completes host ps fuel w arg may enough fits =
    adds_all-Completes host ps fuel w 20 pipeline_code (pipeline_tasks arg)
      (runs_tasks (exits_with 0)) channel (0, channel_after) may enough (pipeline_code-CodeIsFit ps)
      (omega arith, fits, (omega arith, fits, (omega arith, fits, tt))) tt refl (λ st sts. refl)
