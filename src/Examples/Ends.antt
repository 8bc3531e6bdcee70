-- ===== src/Examples/Ends.antt =====
-- About examples: what a program ends with, by the answers to its creations.
use green_threads.Base.{
  ℕ, ◌<◌, ◌≡◌, refl, inl, inr, true, false, Bool, Bool-cases, if◌then◌else◌, none, ◌++◌, List, [],
  ◌∷◌, Option, some, arith, sym, ◌∙◌,
}
use mathlib.Core.List.{append-nil, append_assoc}
use green_threads.Status.{Status, success, is_success}
use green_threads.Platform.Interface.{Host}
use green_threads.Platform.Context.{cleared}
use green_threads.World.{World, task_max_capacity}
use green_threads.Runtime.Session.{Resume, starts, Program, ends}
use green_threads.Runtime.Session.Turns.{turns}
use green_threads.Examples.{Code, Main, main_runs, adds_or_cleans, Creation, adds_all, starts_all}
use green_threads.Examples.Obeys.{MainIsFit, CodeIsFit, CreationsAreFit, adds_all-MainIsFit}
use green_threads.Examples.Whole.{MayStart, Completes, main_runs-Completes}

-- Whether a creation has failed.
abbrev pub any_failed : List Status → Bool
any_failed [] = false
any_failed (st ∷ sts) = if is_success st then any_failed sts else true

-- A program that ends with the exit status 1 where it began if a creation fails, and like `last`
-- otherwise.
abbrev pub EndsAs : {S : Type 0} → List Resume → Program (Option (ℕ × S)) → S → ℕ × S → Type 0
EndsAs {S} queue program s last =
    (sts : List Status) (r : Option (ℕ × S))
    → turns queue cleared sts program ≡ some r
    → r ≡ some (if any_failed sts then (1, s) else last)

some-same : {A : Type 0} {x y : A} → some x ≡ some y → x ≡ y
some-same e = ground (arith, e)

-- Without a further creation.
turns-EndsAs :
    {S : Type 0} (queue : List Resume) (program : Program (Option (ℕ × S))) (s : S) (last : ℕ × S)
    → turns queue cleared [] program ≡ some (some last)
    → ((st : Status) (sts : List Status) → turns queue cleared (st ∷ sts) program ≡ none)
    → EndsAs queue program s last
turns-EndsAs queue program s last whole more [] r e = sym (some-same (sym whole ∙ e))
turns-EndsAs queue program s last whole more (st ∷ sts) r e =
    absurd (ground (arith, more st sts, e))

cleaned :
    {S : Type 0} (queue : List Resume) (s : S) (sts : List Status) (r : Option (ℕ × S))
    → turns queue cleared sts (ends (some (1, s))) ≡ some r
    → r ≡ some (1, s)
unfolding turns
cleaned queue s [] r e = sym (some-same e)
cleaned queue s (x ∷ xs) r e = absurd (ground (arith, e))

-- A creation that succeeds, and one that fails.
adds-good :
    {S : Type 0} (queue : List Resume) (n : ℕ) (code : Code S) (entry arg size : ℕ) (rest : Main S)
    (s : S) (st : Status) (sts : List Status)
    → is_success st ≡ true
    → turns queue cleared (st ∷ sts) (main_runs n code (adds_or_cleans entry arg size rest) s)
      ≡ turns (queue ++ starts entry arg ∷ []) cleared sts (main_runs n code rest s)
unfolding main_runs turns
adds-good queue n code entry arg size rest s success sts e = refl
adds-good queue n code entry arg size rest s st sts e = absurd (ground (arith, e))

adds-bad :
    {S : Type 0} (queue : List Resume) (n : ℕ) (code : Code S) (entry arg size : ℕ) (rest : Main S)
    (s : S) (st : Status) (sts : List Status)
    → is_success st ≡ false
    → turns queue cleared (st ∷ sts) (main_runs n code (adds_or_cleans entry arg size rest) s)
      ≡ turns queue cleared sts (ends (some (1, s)))
unfolding main_runs turns
adds-bad queue n code entry arg size rest s success sts e = absurd (ground (arith, e))
adds-bad queue n code entry arg size rest s st sts e = refl

-- A creation, and the rest of the program if it succeeds.
adds_or_cleans-EndsAs :
    {S : Type 0} (queue : List Resume) (n : ℕ) (code : Code S) (entry arg size : ℕ) (rest : Main S)
    (s : S) (last : ℕ × S)
    → EndsAs (queue ++ starts entry arg ∷ []) (main_runs n code rest s) s last
    → EndsAs queue (main_runs n code (adds_or_cleans entry arg size rest) s) s last
unfolding main_runs turns
adds_or_cleans-EndsAs queue n code entry arg size rest s last rest_ends [] r e =
    absurd (ground (arith, e))
adds_or_cleans-EndsAs queue n code entry arg size rest s last rest_ends (st ∷ sts) r e =
    elim (Bool-cases (is_success st)) [
      | inl good ↦
          rw good
            (rest_ends sts r (sym (adds-good queue n code entry arg size rest s st sts good) ∙ e))
      | inr bad ↦
          rw bad (
            cleaned queue s sts r
              (sym (adds-bad queue n code entry arg size rest s st sts bad) ∙ e))
    ]

adds_all-EndsAs :
    {S : Type 0} (queue : List Resume) (n : ℕ) (code : Code S) (cs : List Creation) (rest : Main S)
    (s : S) (last : ℕ × S)
    → EndsAs (queue ++ starts_all cs) (main_runs n code rest s) s last
    → EndsAs queue (main_runs n code (adds_all cs rest) s) s last
adds_all-EndsAs queue n code [] rest s last rest_ends = rw (append-nil queue) at rest_ends
adds_all-EndsAs queue n code (c ∷ cs) rest s last rest_ends =
    adds_or_cleans-EndsAs queue n code (c.entry) (c.arg) (c.size) (adds_all cs rest) s last (
      adds_all-EndsAs (queue ++ starts (c.entry) (c.arg) ∷ []) n code cs rest s last
        (rw (append_assoc queue (starts (c.entry) (c.arg) ∷ []) (starts_all cs)) rest_ends))

-- A main program that creates its tasks, cleans up if a creation fails, and otherwise goes on, from
-- `gt_init` to `gt_destroy`: it is enough to follow the turns of the tasks.
pub adds_all-Completes :
    {S : Type 0} (host : Host) (ps fuel : ℕ) (w : World) (turn_fuel : ℕ) (code : Code S)
    (cs : List Creation) (rest : Main S) (s : S) (last : ℕ × S)
    → MayStart host ps w
    → task_max_capacity < fuel
    → CodeIsFit ps code
    → CreationsAreFit ps cs
    → MainIsFit ps rest
    → turns (starts_all cs) cleared [] (main_runs turn_fuel code rest s) ≡ some (some last)
    → ((st : Status) (sts : List Status)
        → turns (starts_all cs) cleared (st ∷ sts) (main_runs turn_fuel code rest s) ≡ none)
    → (sts : List Status) × Completes host ps fuel w
        (main_runs turn_fuel code (adds_all cs rest) s)
        sts
        (if any_failed sts then (1, s) else last)
adds_all-Completes host ps fuel w turn_fuel code cs rest s last may enough fit creations_fit
      rest_fit whole more =
    let ends_as =
      adds_all-EndsAs [] turn_fuel code cs rest s last
        (turns-EndsAs (starts_all cs) (main_runs turn_fuel code rest s) s last whole more) in
    let (sts, r, completes, e) =
      main_runs-Completes host ps fuel w turn_fuel code (adds_all cs rest) s may enough fit
        (adds_all-MainIsFit ps cs rest creations_fit rest_fit)
        (λ sts r. r ≡ (if any_failed sts then (1, s) else last))
        (λ sts r t. (if any_failed sts then (1, s) else last, ends_as sts r t, refl)) in
    (sts, rw e at completes)
