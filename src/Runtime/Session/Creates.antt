-- ===== src/Runtime/Session/Creates.antt =====
-- About runtime_task.c: creating a task, from a task or from the main program, against the plan.
use green_threads.Base.{
  ℕ, false, ◌+◌, ◌*◌, ◌^◌, ◌≤◌, ◌≡◌, ◌≢◌, refl, ap, ◌∙◌, inl, inr, List, [], ◌∷◌, ◌++◌, ◌==◌, arith,
  some, Bool-cases, contains-append,
}
use green_threads.Status.{success}
use green_threads.IdPool.Laws.{with_id}
use green_threads.Links.Seg.{◌∈◌, ◌∉◌}
use green_threads.Platform.Interface.{Host}
use green_threads.Platform.Context.{Context}
use green_threads.Platform.Ledger.{Behaves}
use green_threads.World.{World, Task, Runtime}
use green_threads.Runtime.Invariant.{IsConsistent, left_part}
use green_threads.Runtime.Lifecycle
use green_threads.Runtime.Lifecycle.{is_uninitialized}
use green_threads.Runtime.Session.Switch.{gave, Resumes, Resumes-same}
use green_threads.Runtime.Resources.{SameStacks, IsSound, SamePhase}
use green_threads.Runtime.Tasks.Create.{task_create-CreateEnds}
use green_threads.Runtime.Session.{
  plan, Control, main_program, task, Resume, starts, creates, returned, answered, create_fails,
  create_adds, save, perform,
}
use green_threads.Runtime.Session.Holds.{Holds, Controls}
use green_threads.Runtime.Session.Tasks.{Performs}

IsConsistent-of :
    (host : Host) (w : World) (who : Control) (waiting owned exited : List ℕ)
    → Controls host w who waiting owned exited
    → IsConsistent host w waiting owned exited
IsConsistent-of host w main_program waiting owned exited c = c.0
IsConsistent-of host w (task t) waiting owned exited c = c.consistent

-- Another world in which the tasks, and what is said of the current one, are the same.
module _ (host : Host) (w w' : World) (waiting owned exited : List ℕ) (phase : SamePhase w w')
    (kept : (a : ℕ) → a ∈ owned ++ exited → w'.tasks a ≡ w.tasks a) where
  Controls-same :
      (who : Control)
      → Controls host w who waiting owned exited
      → IsConsistent host w' waiting owned exited
      → Controls host w' who waiting owned exited
  Controls-same main_program c next = (next, rw phase.state (c.1), c.2)
  Controls-same (task t) r next = record {
    consistent = next;
    is_current = phase.current ∙ r.is_current;
    current_owned = r.current_owned;
    current_apart = r.current_apart;
    current_running = rw (kept t (left_part owned exited t r.current_owned)) (r.current_running);
    phase = phase.state ∙ r.phase;
    complete = r.complete;
  }

  Controls-more :
      (who : Control) (p : ℕ)
      → p ∉ owned ++ exited
      → Controls host w who waiting owned exited
      → IsConsistent host w' (waiting ++ p ∷ []) (owned ++ p ∷ []) exited
      → Controls host w' who (waiting ++ p ∷ []) (owned ++ p ∷ []) exited
  Controls-more main_program p new c next = (
    next,
    rw phase.state (c.1),
    λ a i.
        ground (arith, c.2 a, contains-append owned (p ∷ []) a, contains-append waiting (p ∷ []) a),
  )
  Controls-more (task t) p new r next = record {
    consistent = next;
    is_current = phase.current ∙ r.is_current;
    current_owned = ground (arith, r.current_owned, contains-append owned (p ∷ []) t);
    current_apart = ground (
      arith,
      r.current_owned,
      left_part owned exited t,
      r.current_apart,
      contains-append waiting (p ∷ []) t,
    );
    current_running = rw (kept t (left_part owned exited t r.current_owned)) (r.current_running);
    phase = phase.state ∙ r.phase;
    complete = λ a i.
        ground (
          arith,
          r.complete a,
          contains-append owned (p ∷ []) a,
          contains-append waiting (p ∷ []) a,
        );
  }

-- The code that has control is no new task.
not_control :
    (host : Host) (w : World) (who : Control) (waiting owned exited : List ℕ) (p : ℕ)
    → Controls host w who waiting owned exited
    → p ∉ owned ++ exited
    → who ≢ task p
not_control host w main_program waiting owned exited p c new e = ground (arith, e)
not_control host w (task t) waiting owned exited p r new e =
    ground (arith, e, left_part owned exited t, r.current_owned, new)

-- Whoever has control, the runtime is initialised.
is_live :
    (host : Host) (w : World) (who : Control) (waiting owned exited : List ℕ)
    → Controls host w who waiting owned exited
    → is_uninitialized w.rt.state ≡ false
is_live host w main_program waiting owned exited (c, inl e, all) = rw e refl
is_live host w main_program waiting owned exited (c, inr e, all) = rw e refl
is_live host w (task t) waiting owned exited r = rw (r.phase) refl

module _ (host : Host) (ps fuel : ℕ) (behaves : Behaves host ps) (tramp : host.task_trampoline ≢ 0)
    (w : World) (who : Control) (waiting exited : List ℕ) (saved : ℕ → Resume) (main : Context)
    (h : Holds host ps w (plan who waiting exited saved main)) where
  abbrev consistent : IsConsistent host w waiting h.owned exited
  consistent = IsConsistent-of host w who waiting h.owned exited h.controls

  new_in_plan : (p : ℕ) → p ∉ h.owned ++ exited → p ∉ waiting ++ exited
  new_in_plan p new = ground (
    arith,
    new,
    consistent.waiting_owned p,
    contains-append h.owned exited p,
    contains-append waiting exited p,
  )

  -- A task that waits goes on as before, where it and the words of its stack are the same.
  waits_on :
      (w' : World)
      → ((a : ℕ) → a ∈ h.owned ++ exited → w'.tasks a ≡ w.tasks a)
      → SameStacks (h.owned ++ exited) w w'
      → (a : ℕ) → a ∈ waiting
      → Resumes host w' a (saved a)
  waits_on w' kept words a i =
      let j = left_part h.owned exited a (consistent.waiting_owned a i) in
      let e = kept a j in
      Resumes-same host ps w w' a (saved a) h.backed.paged (h.backed.stacks a j)
        (ap {A = Task} (λ t. t.context) e) (ap {A = Task} (λ t. t.stack) e)
        (ap {A = Task} (λ t. t.entry) e) (ap {A = Task} (λ t. t.arg) e) (λ x. words a x j)
        (h.saves.tasks a i)

  failed :
      (w' : World)
      → IsSound host ps w' waiting h.owned exited h.taken
      → w'.rt ≡ record (w.rt) { task_ids = w'.rt.task_ids }
      → ((a : ℕ) → a ∈ h.owned ++ exited → w'.tasks a ≡ w.tasks a)
      → w'.machine.memory ≡ w.machine.memory
      → Holds host ps w' (plan who waiting exited saved main)
  failed w' sound rt kept memory =
      let phase : SamePhase w w' = record {
        state = ap {A = Runtime} (λ r. r.state) rt;
        current = ap {A = Runtime} (λ r. r.current) rt;
        main_context = ap {A = Runtime} (λ r. r.main_context) rt;
      } in
      record {
        owned = h.owned;
        taken = h.taken;
        controls =
            Controls-same host w w' waiting h.owned exited phase kept who h.controls
              sound.consistent;
        backed = sound.backed;
        saves = record {
          tasks = waits_on w' kept (λ t a i from below. rw memory refl);
          main_program = λ d e. phase.main_context ∙ h.saves.main_program d e;
        };
      }

  added :
      (w' : World) (p id entry arg : ℕ)
      → IsSound host ps w'
          (waiting ++ p ∷ [])
          (h.owned ++ p ∷ [])
          exited
          (with_id (some id) h.taken)
      → SamePhase w w'
      → p ∉ h.owned ++ exited
      → ((a : ℕ) → a ∈ h.owned ++ exited → w'.tasks a ≡ w.tasks a)
      → SameStacks (h.owned ++ exited) w w'
      → Resumes host w' p (starts entry arg)
      → Holds host ps w'
          (plan who (waiting ++ p ∷ []) exited (save saved p (starts entry arg)) main)
  added w' p id entry arg sound phase new kept words fresh = record {
    owned = h.owned ++ p ∷ [];
    taken = with_id (some id) h.taken;
    controls =
        Controls-more host w w' waiting h.owned exited phase kept who p new h.controls
          sound.consistent;
    backed = sound.backed;
    saves = record {
      tasks = λ a i. elim (Bool-cases (p == a)) [
        | inl e ↦ let e' : a ≡ p = ground arith in rw e (rw e' fresh)
        | inr ne ↦
            let old : a ∈ waiting = ground (arith, i, contains-append waiting (p ∷ []) a) in
            rw ne (waits_on w' kept words a old)
      ];
      main_program = λ d e. phase.main_context ∙ h.saves.main_program d e;
    };
  }

  pub creates_any :
      (entry arg size : ℕ)
      → entry ≢ 0
      → size + 3 * ps ≤ 2 ^ 64
      → Performs host ps fuel w (plan who waiting exited saved main) (creates entry arg size)
  unfolding perform Lifecycle.create_task
  creates_any entry arg size he fits =
      let sound : IsSound host ps w waiting h.owned exited h.taken = record {
        consistent = consistent;
        backed = h.backed;
      } in
      let live = is_live host w who waiting h.owned exited h.controls in
      let (st, w', ran, ends) =
        task_create-CreateEnds host ps behaves w waiting h.owned exited h.taken sound entry arg size
          he tramp fits in
      elim ends [
        | inl (bad, sound', rt, kept, memory) ↦ (
          returned st,
          answered st,
          w',
          plan who waiting exited saved main,
          rw (live, ran) refl,
          gave,
          create_fails bad,
          failed w' sound' rt kept memory,
        )
        | inr (good, (p, id, sound', first, e1, e2, e3, low, phase, new, kept, framed, words)) ↦ (
          returned success,
          answered success,
          w',
          plan who (waiting ++ p ∷ []) exited (save saved p (starts entry arg)) main,
          rw (live, ran, good) refl,
          gave,
          create_adds (not_control host w who waiting h.owned exited p h.controls new)
              (new_in_plan p new),
          added w' p id entry arg sound' phase new kept words (framed, e1, e2),
        )
      ]
