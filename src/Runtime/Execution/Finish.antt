-- ===== src/Runtime/Execution/Finish.antt =====
-- About runtime_execution.c: exits one after the other, to the end.
use mathlib.Core.List.{append_assoc}
use green_threads.Base.{
  ℕ, zero, suc, ◌≡◌, Bool-cases, List, [], ◌∷◌, ◌++◌, arith, ◌==◌, inl, inr, Distinct,
  Distinct-append, length,
}
use green_threads.Outcome.{ok}
use green_threads.Outcome.Cmd.{Cmd, and_then}
use green_threads.Links.Seg.{◌∈◌}
use green_threads.Platform.Interface.{Host}
use green_threads.Platform.Context.{Context}
use green_threads.World.{World, RuntimeState}
use green_threads.Runtime.Invariant.{IsConsistent, IsRunning}
use green_threads.Runtime.Execution.{task_exit}
use green_threads.Runtime.Execution.Exit.{task_exit-next, task_exit-last}

-- Exits one after the other, each of the task that the one before it resumed: one, and `n` more.
unfoldable pub exit_tasks : Host → (n : ℕ) → Cmd World Context
exit_tasks host zero w = task_exit host w
exit_tasks host (suc n) w = and_then (task_exit host w) (λ ctx w'. exit_tasks host n w')

-- A member's place in a list.
pub place : (xs : List ℕ) (c : ℕ) → c ∈ xs → (os os' : List ℕ) × (xs ≡ os ++ c ∷ os')
place [] c i = absurd (ground (arith, i))
place (x ∷ xs) c i = elim (Bool-cases (x == c)) [
  | inl e ↦ ([], xs, ground (arith, e))
  | inr e ↦ let (os, os', eq) = place xs c (ground arith) in (x ∷ os, os', ground (arith, eq))
]

-- A list of distinct members that are all `c` is that of `c`.
pub only : (xs : List ℕ) (c : ℕ) → Distinct xs → c ∈ xs → ((a : ℕ) → a ∈ xs → a ≡ c) → xs ≡ c ∷ []
only [] c d i all = absurd (ground (arith, i))
only (x ∷ []) c d i all = ground (arith, all x)
only (x ∷ y ∷ xs) c d i all = absurd (ground (arith, all x, all y, d))

-- In a runtime where a task runs and every other owned task waits, when the running task exits
-- and then each task that is resumed in turn, the runtime stops after as many exits as there
-- are tasks: the main context is resumed, no task waits, is owned or is current, and the exited
-- tasks follow the earlier ones in the order in which they ran.
pub exit_tasks-stops :
    (host : Host) (w : World) (c : ℕ) (ts owned exited : List ℕ)
    → IsRunning host w c ts owned exited
    → (w' : World) × (exit_tasks host (length ts) w ≡ ok (w.rt.main_context, w'))
      × IsConsistent host w' [] [] (exited ++ c ∷ ts)
      × (w'.rt.state ≡ RuntimeState.stopped)
      × (w'.rt.current ≡ 0)
unfolding exit_tasks
exit_tasks-stops host w c [] owned exited r =
    let (d, e, apart) = Distinct-append owned exited r.consistent.distinct in
    let one : owned ≡ c ∷ [] =
      only owned c d r.current_owned (λ a i. ground (arith, r.complete a i)) in
    let (w', ran, cons, stopped, none_runs, holds) = task_exit-last host w c exited (rw one at r) in
    (w', ran, cons, stopped, none_runs)
exit_tasks-stops host w c (t ∷ ts) owned exited r =
    let (os, os', eq) = place owned c r.current_owned in
    let (w1, ran, next, main, kept, holds) =
      task_exit-next host w c t ts os os' exited (rw eq at r) in
    let (w2, ran', cons, stopped, none_runs) =
      exit_tasks-stops host w1 t ts (os ++ os') (exited ++ c ∷ []) next in
    (w2, ground (arith, ran, ran', main), rw append_assoc at cons, stopped, none_runs)
