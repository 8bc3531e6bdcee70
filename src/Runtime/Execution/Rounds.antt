-- ===== src/Runtime/Execution/Rounds.antt =====
-- About runtime_execution.c: yields one after the other.
use mathlib.Core.List.{append_assoc}
use green_threads.Base.{ℕ, ◌≡◌, List, [], ◌∷◌, ◌++◌, arith, contains-append, length}
use green_threads.Outcome.{ok}
use green_threads.Outcome.Cmd.{Cmd, and_then}
use green_threads.Platform.Interface.{Host}
use green_threads.Platform.Context.{Context}
use green_threads.World.{World}
use green_threads.Runtime.Invariant.{IsRunning}
use green_threads.Runtime.Execution.{yield_task}
use green_threads.Runtime.Execution.Laws.{yield_task-next}

-- Calls of `gt_runtime_yield` one after the other, each by the task that the call before it resumed,
-- with the registers `r` and then `rs` at the calls.
unfoldable pub yield_tasks : Host → Context → List Context → Cmd World Context
yield_tasks host r [] w = yield_task host r w
yield_tasks host r (s ∷ rs) w = and_then (yield_task host r w) (λ ctx w'. yield_tasks host s rs w')

-- In a runtime where a task runs and every other owned task waits, a task with n tasks before
-- it in the ready queue runs, in the context that was saved for it, once the running task and
-- then each of the n tasks that are resumed in turn has called gt_runtime_yield. The tasks
-- behind it, the one that ran first and those n wait then, in this order.
pub yield_tasks-reaches :
    (host : Host) (w : World) (c : ℕ) (xs : List ℕ) (t : ℕ) (ys owned exited : List ℕ) (r : Context)
    (rs : List Context)
    → length rs ≡ length xs
    → IsRunning host w c (xs ++ t ∷ ys) owned exited
    → (w' : World) × (yield_tasks host r rs w ≡ ok ((w.tasks t).context, w'))
      × IsRunning host w' t (ys ++ c ∷ xs) owned exited
unfolding yield_tasks
yield_tasks-reaches host w c [] t ys owned exited r [] same run =
    let (w', ran, next, saved, kept, main, holds) =
      yield_task-next host w c t ys owned exited r run in
    (w', ran, next)
yield_tasks-reaches host w c [] t ys owned exited r (s ∷ rs) same run =
    absurd (ground (arith, same))
yield_tasks-reaches host w c (x ∷ xs) t ys owned exited r [] same run =
    absurd (ground (arith, same))
yield_tasks-reaches host w c (x ∷ xs) t ys owned exited r (s ∷ rs) same run =
    let (w1, ran, next, saved, kept, main, holds) =
      yield_task-next host w c x (xs ++ t ∷ ys) owned exited r run in
    let (w2, ran', next') =
      yield_tasks-reaches host w1 x xs t (ys ++ c ∷ []) owned exited s rs (ground arith)
        (rw append_assoc at next) in
    (
      w2,
      ground (arith, ran, ran', kept t, run.current_apart, contains-append xs (t ∷ ys) c),
      rw append_assoc at next',
    )
