-- ===== src/Runtime/Session/Switch.antt =====
-- About switch.S and runtime_execution.c: what the processor does once a call of the runtime has
-- loaded a context.
use green_threads.Base.{
  ℕ, ◌+◌, ◌-◌, ◌%◌, ◌^◌, ◌≤◌, ◌<◌, ◌≡◌, ◌≢◌, refl, ◌∙◌, ap, Bool, List, [], ◌∷◌, arith, ◌==◌, false,
}
use green_threads.Outcome.{ok}
use green_threads.Status.{Status}
use green_threads.Platform.Interface.{Host, Page}
use green_threads.Platform.Page.Laws.{IsPaged}
use green_threads.Stack.{Stack}
use green_threads.Platform.Context.{Context}
use green_threads.Platform.Context.Switch.{Cpu, context_load, context_start}
use green_threads.Stack.Region.{IsStack}
use green_threads.Task.Laws.{IsFramed}
use green_threads.World.{World}
use green_threads.Links.Seg.{◌∈◌}
use green_threads.Runtime.Resources.{Backed, SameHoldings}
use green_threads.Runtime.Execution.{task_trampoline}
use green_threads.Runtime.Session.{
  Resume, starts, goes_on, Reply, switched, answered, continued, Result, loads, returned, came_back,
  Action, Program, ends, calls, perform,
}

-- Loading the context starts the current task: gt_context_start calls the trampoline with its
-- address, which finds the function `entry` and its argument `arg`.
pub record Starts (host : Host) (w : World) (ctx : Context) (entry arg : ℕ) : Type 0 where
  pub lands : (cpu : Cpu) → (context_load w.machine.memory ctx cpu).rip ≡ host.context_start
  pub calls_trampoline :
      (cpu : Cpu) (behind : ℕ)
      → let called =
          (context_start w.machine.memory behind (context_load w.machine.memory ctx cpu)).0 in
        (called.rip ≡ host.task_trampoline) × (called.rdi ≡ w.rt.current)
  pub finds : task_trampoline w.rt.current w ≡ ok ((entry, arg), w)

-- What the result of a call means for the code that has control next.
pub data Means (host : Host) (w : World) : Result → Reply → Type 0 where
  resumed : {regs : Context} → Means host w (loads regs) (switched (goes_on regs))
  started :
      {ctx : Context} {entry arg : ℕ}
      → Starts host w ctx entry arg
      → Means host w (loads ctx) (switched (starts entry arg))
  gave : {st : Status} → Means host w (returned st) (answered st)
  went_on : Means host w came_back continued

-- A run of a program: each call returns, and the program goes on by what its result means.
pub data Runs {R : Type 0} (fuel : ℕ) (host : Host)
    : World → Program R → List Reply → R → World → Type 0 where
  halts : {w : World} {r : R} → Runs fuel host w (ends r) [] r w
  goes :
      {w v w' : World} {a : Action} {k : Reply → Program R} {result : Result} {reply : Reply}
      {rs : List Reply} {r : R}
      → perform fuel host a w ≡ ok (result, v)
      → Means host v result reply
      → Runs fuel host v (k reply) rs r w'
      → Runs fuel host w (calls a k) (reply ∷ rs) r w'

-- The task `t` goes on as the plan tells when its context is loaded.
abbrev pub Resumes : Host → World → (t : ℕ) → Resume → Type 0
Resumes host w t (goes_on regs) = (w.tasks t).context ≡ regs
Resumes host w t (starts entry arg) =
    IsFramed host host.task_trampoline t w × ((w.tasks t).entry ≡ entry) × ((w.tasks t).arg ≡ arg)

-- The first frame of a task lies in its mapping.
frame_room :
    (ps : ℕ) (s : Stack) (page : Page)
    → IsPaged page ps
    → IsStack ps s
    → (s.mapping.base + 24 ≤ s.base + s.size)
      × (s.base + s.size ≤ s.mapping.base + s.mapping.size)
      × (s.base + s.size < 2 ^ 64)
frame_room ps s page p i = (
  omega (arith, p.positive, p.aligned, i.guard_below, i.sized, i.size_aligned),
  omega (arith, i.guard_above),
  omega (arith, i.guard_above, i.in_memory),
)

module _ (host : Host) (ps : ℕ) (w : World) (t entry : ℕ) (page : Page) (p : IsPaged page ps)
    (i : IsStack ps (w.tasks t).stack) (f : IsFramed host entry t w) where
  abbrev s : Stack
  s = (w.tasks t).stack

  frame_at : (w.tasks t).context.rsp ≡ s.base + s.size - 24
  frame_at = ap {A = Context} (λ c. c.rsp) f.context

  -- The words of the frame lie in the mapping.
  pub in_frame :
      (d : ℕ)
      → d ≤ 16
      → (s.mapping.base ≤ (w.tasks t).context.rsp + d)
        × ((w.tasks t).context.rsp + d < s.mapping.base + s.mapping.size)
  in_frame d small =
      let (low, high, word) = frame_room ps s page p i in
      (omega (arith, frame_at, low), omega (arith, frame_at, low, high))

  -- Loading the context of a framed task starts it.
  pub framed-Starts :
      w.rt.current ≡ t
      → t ≢ 0
      → entry ≡ host.task_trampoline
      → Starts host w (w.tasks t).context (w.tasks t).entry (w.tasks t).arg
  unfolding context_load context_start task_trampoline
  framed-Starts is_current placed tramp =
      let (low, high, word) = frame_room ps s page p i in
      let sp = (w.tasks t).context.rsp in
      let a : (sp + 8) % 2 ^ 64 ≡ sp + 8 = omega (arith, frame_at, low, word) in
      let b : (sp + 8 + 8) % 2 ^ 64 ≡ sp + 16 = omega (arith, frame_at, low, word) in
      let c : (t == 0) ≡ false = ground (arith, placed) in
      record {
        lands = λ cpu. f.start;
        calls_trampoline =
            λ cpu behind. (rw (a, f.entered, tramp) refl, rw (a, b, f.argument, is_current) refl);
        finds = rw (is_current, c) refl;
      }

-- A world in which the task and the words of its stack are the same.
pub Resumes-same :
    (host : Host) (ps : ℕ) (w w' : World) (t : ℕ) (r : Resume)
    → IsPaged w.machine.page ps
    → IsStack ps (w.tasks t).stack
    → (w'.tasks t).context ≡ (w.tasks t).context
    → (w'.tasks t).stack ≡ (w.tasks t).stack
    → (w'.tasks t).entry ≡ (w.tasks t).entry
    → (w'.tasks t).arg ≡ (w.tasks t).arg
    → ((a : ℕ)
        → (w.tasks t).stack.mapping.base ≤ a
        → a < (w.tasks t).stack.mapping.base + (w.tasks t).stack.mapping.size
        → w'.machine.memory a ≡ w.machine.memory a)
    → Resumes host w t r
    → Resumes host w' t r
Resumes-same host ps w w' t (goes_on regs) p i context stack e1 e2 memory e = context ∙ e
Resumes-same host ps w w' t (starts entry arg) p i context stack e1 e2 memory (f, e3, e4) =
    let near = in_frame host ps w t host.task_trampoline w.machine.page p i f in
    let zero_in = near 0 (omega arith) in
    (
      record {
        context = rw (context, stack) (f.context);
        start = rw context (
            memory (w.tasks t).context.rsp (omega (arith, zero_in)) (omega (arith, zero_in))
            ∙ f.start);
        entered = rw context (
            memory ((w.tasks t).context.rsp + 8) (near 8 (omega arith)).0 (near 8 (omega arith)).1
            ∙ f.entered);
        argument = rw context (
            memory ((w.tasks t).context.rsp + 16) (near 16 (omega arith)).0
              (near 16 (omega arith)).1
            ∙ f.argument);
      },
      e1 ∙ e3,
      e2 ∙ e4,
    )

-- The same after a call that leaves the tasks' holdings and this task's context as they were.
pub Resumes-held :
    (host : Host) (ps : ℕ) (w w' : World) (live : List ℕ) (taken : ℕ → Bool) (t : ℕ) (r : Resume)
    → Backed ps w live taken
    → SameHoldings w w'
    → t ∈ live
    → (w'.tasks t).context ≡ (w.tasks t).context
    → Resumes host w t r
    → Resumes host w' t r
Resumes-held host ps w w' live taken t r b same i context h =
    let (stack, id, e1, e2) = same.objects t in
    Resumes-same host ps w w' t r b.paged (b.stacks t i) context stack e1 e2
      (λ a from below. rw (same.machine) refl) h

-- Loading the context of the current task means what the plan tells of it.
pub Resumes-Means :
    (host : Host) (ps : ℕ) (w : World) (live : List ℕ) (taken : ℕ → Bool) (t : ℕ) (r : Resume)
    (ctx : Context)
    → Backed ps w live taken
    → t ∈ live
    → t ≢ 0
    → w.rt.current ≡ t
    → ctx ≡ (w.tasks t).context
    → Resumes host w t r
    → Means host w (loads ctx) (switched r)
Resumes-Means host ps w live taken t (goes_on regs) ctx b i placed is_current e h =
    rw (e ∙ h) resumed
Resumes-Means host ps w live taken t (starts entry arg) ctx b i placed is_current e (f, e1, e2) =
    let begins =
      framed-Starts host ps w t host.task_trampoline w.machine.page b.paged (b.stacks t i) f
        is_current placed refl in
    rw e (started (rw (e1, e2) at begins))
