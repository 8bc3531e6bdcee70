-- ===== src/Runtime/Session.antt =====
-- About src/runtime: the whole runtime as its callers see it, a plan of who runs, who waits and what
-- each resumes with, and programs that call it.
pub mod Switch
pub mod Turns
pub mod Holds
pub mod Tasks
pub mod Creates
pub mod Main
pub mod Runs
pub mod Whole
use green_threads.Base.{ℕ, ◌+◌, ◌*◌, ◌^◌, ◌≤◌, ◌≡◌, ◌≢◌, List, [], ◌∷◌, ◌++◌, ◌==◌, if◌then◌else◌}
use green_threads.Outcome.Cmd.{Cmd, pure, ◌>>=◌}
use green_threads.Links.Seg.{◌∉◌}
use green_threads.Status.{Status, success}
use green_threads.Platform.Interface.{Host}
use green_threads.Platform.Context.{Context}
use green_threads.Api.{gt_create_task, gt_run, gt_yield}
use green_threads.World.{World}
use green_threads.Runtime.Execution.{task_exit, run_resumed}

-- What the code that has control calls: a task yields or exits, with its registers; either creates a
-- task; the main program runs the runtime, or goes on after it has come back from the tasks.
pub data Action : Type 0 where
  yields runs : (regs : Context) → Action
  exits returns : Action
  creates : (entry arg size : ℕ) → Action

-- How a task goes on when it is switched to: its function begins, or its registers are those of the
-- call that it switched away in.
pub data Resume : Type 0 where
  starts : (entry arg : ℕ) → Resume
  goes_on : (regs : Context) → Resume

-- What comes of the call: control goes somewhere, or stays with an answer.
pub data Reply : Type 0 where
  switched : Resume → Reply
  answered : Status → Reply
  continued : Reply

-- Who has control.
pub data Control : Type 0 where
  main_program : Control
  task : ℕ → Control

pub record Plan : Type 0 where
  pub control : Control
  pub waiting : List ℕ
  pub exited : List ℕ
  pub saved : ℕ → Resume
  pub main : Context

abbrev pub plan : Control → (waiting exited : List ℕ) → (ℕ → Resume) → (main : Context) → Plan
plan control waiting exited saved main = record {
  control = control;
  waiting = waiting;
  exited = exited;
  saved = saved;
  main = main;
}

abbrev pub save : (ℕ → Resume) → ℕ → Resume → ℕ → Resume
save f t r a = if t == a then r else f a

-- What a call may do to the plan.
pub data Step (p : Plan) : Action → Reply → Plan → Type 0 where
  yield_next :
      {c t : ℕ} {ts : List ℕ} {regs : Context}
      → p.control ≡ task c
      → p.waiting ≡ t ∷ ts
      → Step p (yields regs) (switched (p.saved t)) (record p {
        control = task t;
        waiting = ts ++ c ∷ [];
        saved = save p.saved c (goes_on regs);
      })
  yield_alone :
      {c : ℕ} {regs : Context}
      → p.control ≡ task c
      → p.waiting ≡ []
      → Step p (yields regs) (switched (goes_on regs)) p
  exit_next :
      {c t : ℕ} {ts : List ℕ}
      → p.control ≡ task c
      → p.waiting ≡ t ∷ ts
      → Step p exits
          (switched (p.saved t))
          (record p { control = task t; waiting = ts; exited = p.exited ++ c ∷ [] })
  exit_last :
      {c : ℕ}
      → p.control ≡ task c
      → p.waiting ≡ []
      → Step p exits
          (switched (goes_on p.main))
          (record p { control = main_program; exited = p.exited ++ c ∷ [] })
  create_fails :
      {entry arg size : ℕ} {st : Status}
      → st ≢ success
      → Step p (creates entry arg size) (answered st) p
  create_adds :
      {entry arg size t : ℕ}
      → p.control ≢ task t
      → t ∉ p.waiting ++ p.exited
      → Step p
          (creates entry arg size)
          (answered success)
          (record p { waiting = p.waiting ++ t ∷ []; saved = save p.saved t (starts entry arg) })
  run_next :
      {t : ℕ} {ts : List ℕ} {regs : Context}
      → p.control ≡ main_program
      → p.waiting ≡ t ∷ ts
      → Step p
          (runs regs)
          (switched (p.saved t))
          (record p { control = task t; waiting = ts; main = regs })
  run_none :
      {regs : Context}
      → p.control ≡ main_program
      → p.waiting ≡ []
      → Step p (runs regs) (switched (goes_on regs)) (record p { main = regs })
  reap : p.control ≡ main_program → Step p returns continued (record p { exited = [] })

-- The calls that the documentation allows, on pages of `ps` bytes.
abbrev pub Allowed : (ps : ℕ) → Plan → Action → Type 0
Allowed ps p (yields regs) = (c : ℕ) × (p.control ≡ task c)
Allowed ps p exits = (c : ℕ) × (p.control ≡ task c)
Allowed ps p (creates entry arg size) = (entry ≢ 0) × (size + 3 * ps ≤ 2 ^ 64)
Allowed ps p (runs regs) = p.control ≡ main_program
Allowed ps p returns = p.control ≡ main_program

-- A program: the calls it makes, each depending on the replies before it, and what it ends with.
pub data Program (R : Type 0) : Type 0 where
  ends : R → Program R
  calls : Action → (Reply → Program R) → Program R

-- A program all of whose calls are allowed, whatever the runtime replies within the plan.
abbrev pub Obeys : {R : Type 0} → (ps : ℕ) → Plan → Program R → Type 0
Obeys ps p (ends r) = Unit {0}
Obeys ps p (calls a k) =
    Allowed ps p a × ((reply : Reply) (q : Plan) → Step p a reply q → Obeys ps q (k reply))

-- The plan follows a program with these replies, to its end.
pub data Follows {R : Type 0} : Plan → Program R → List Reply → R → Plan → Type 0 where
  stays : {p : Plan} {r : R} → Follows p (ends r) [] r p
  steps :
      {p q s : Plan} {a : Action} {reply : Reply} {rs : List Reply} {k : Reply → Program R} {r : R}
      → Step p a reply q
      → Follows q (k reply) rs r s
      → Follows p (calls a k) (reply ∷ rs) r s

-- What a call of the runtime ends in: a context is loaded, or it returns.
pub data Result : Type 0 where
  loads : Context → Result
  returned : Status → Result
  came_back : Result

-- A call of the runtime, with fuel for its loop.
unfoldable pub perform : (fuel : ℕ) → Host → Action → Cmd World Result
perform fuel host (yields regs) = do ctx ← gt_yield host regs; pure (loads ctx)
perform fuel host exits = do ctx ← task_exit host; pure (loads ctx)
perform fuel host (creates entry arg size) = do
  st ← gt_create_task host entry arg size
  pure (returned st)
perform fuel host (runs regs) = do ctx ← gt_run host regs; pure (loads ctx)
perform fuel host returns = do u ← run_resumed fuel host; pure came_back
