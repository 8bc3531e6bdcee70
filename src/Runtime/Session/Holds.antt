-- ===== src/Runtime/Session/Holds.antt =====
-- About src/runtime: the state of the runtime that a plan stands for.
use green_threads.Base.{ℕ, ◌≡◌, ◌⊎◌, Bool, List, ◌++◌, arith}
use green_threads.Links.Seg.{◌∈◌}
use green_threads.Platform.Interface.{Host}
use green_threads.Platform.Context.{Context}
use green_threads.World.{World, RuntimeState}
use green_threads.Runtime.Invariant.{IsConsistent, IsRunning, ◌⊆◌, left_part}
use green_threads.Runtime.Resources.{Backed}
use green_threads.Runtime.Session.Switch.{Means, Resumes, Resumes-Means}
use green_threads.Runtime.Session.{Resume, switched, loads, Plan, Control, main_program, task}

-- The runtime's own side of who has control.
abbrev pub Controls : Host → World → Control → (waiting owned exited : List ℕ) → Type 0
Controls host w main_program waiting owned exited =
    IsConsistent host w waiting owned exited
    × ((w.rt.state ≡ RuntimeState.initialized) ⊎ (w.rt.state ≡ RuntimeState.stopped))
    × (owned ⊆ waiting)
Controls host w (task c) waiting owned exited = IsRunning host w c waiting owned exited

-- How the tasks that wait go on, and the context of the main program while a task runs.
pub record Saves (host : Host) (w : World) (control : Control) (waiting : List ℕ)
    (saved : ℕ → Resume) (main : Context) : Type 0 where
  pub tasks : (t : ℕ) → t ∈ waiting → Resumes host w t (saved t)
  pub main_program : (c : ℕ) → control ≡ task c → w.rt.main_context ≡ main

-- The world is as the plan says, and nothing is missing or left over.
pub record Holds (host : Host) (ps : ℕ) (w : World) (p : Plan) : Type 0 where
  pub owned : List ℕ
  pub taken : ℕ → Bool
  pub controls : Controls host w p.control p.waiting owned p.exited
  pub backed : Backed ps w (owned ++ p.exited) taken
  pub saves : Saves host w p.control p.waiting p.saved p.main

-- The context of a task that has just been switched to means what the plan tells of the task.
pub IsRunning-Means :
    (host : Host) (ps : ℕ) (w : World) (t : ℕ) (waiting owned exited : List ℕ) (taken : ℕ → Bool)
    (r : Resume) (ctx : Context)
    → IsRunning host w t waiting owned exited
    → Backed ps w (owned ++ exited) taken
    → ctx ≡ (w.tasks t).context
    → Resumes host w t r
    → Means host w (loads ctx) (switched r)
IsRunning-Means host ps w t waiting owned exited taken r ctx run b e h =
    let i = left_part owned exited t run.current_owned in
    Resumes-Means host ps w (owned ++ exited) taken t r ctx b i
      (ground (arith, run.consistent.layout.far t i)) run.is_current e h
