-- ===== src/Runtime/Tasks/Admit.antt =====
-- About runtime_task.c: a configured task joins the owned and the waiting ones.
use mathlib.Core.List.{map-append}
use green_threads.Base.{
  ℕ, ◌+◌, ◌%◌, ◌^◌, ◌≡◌, refl, List, [], ◌∷◌, ◌++◌, map, arith, inl, contains-append, Distinct,
  Distinct-append,
}
use green_threads.Outcome.{ok}
use green_threads.Links
use green_threads.Links.{Links, null}
use green_threads.Links.Seg.{◌∈◌, ◌∉◌}
use green_threads.Links.Ring.{SameOutside, IsRing-frame}
use green_threads.Links.Laws.{push_back-IsRing}
use green_threads.Status.{success}
use green_threads.Platform.Interface.{Host}
use green_threads.Scheduler.Laws.{admit_lem}
use green_threads.Task.{update_task}
use green_threads.World.{
  World, TaskState, ready_node, runtime_node, scheduler_of, tasks_of, zombies_of,
}
use green_threads.Runtime.Invariant.{
  IsConsistent, Layout, waiting_change, left_part, right_part, ◌⊆◌, runtime_apart,
  contains-ready_node, contains-runtime_node,
}
use green_threads.Runtime.Execution.Exit.Move.{exited_apart}
use green_threads.Runtime.Tasks.{admit_task}

-- The world once the task is marked ready and linked to the owned ones.
abbrev owned_too : World → Links → ℕ → World
owned_too w g p = record w {
  links = g;
  tasks = update_task w.tasks p (record (w.tasks p) { state = TaskState.ready });
}

-- The world once it waits and is counted, too.
abbrev pub admitted : World → Links → ℕ → World
admitted w h p = record w {
  links = h;
  tasks = update_task w.tasks p (record (w.tasks p) { state = TaskState.ready });
  rt = record (w.rt) { task_count = (w.rt.task_count + 1) % 2 ^ 64 };
}

module _ (host : Host) (w : World) (p : ℕ) (waiting owned exited : List ℕ)
    (c : IsConsistent host w waiting owned exited) (l : Layout host ((owned ++ p ∷ []) ++ exited))
    (d : Distinct ((owned ++ p ∷ []) ++ exited)) where
  in_owned : owned ++ p ∷ [] ⊆ (owned ++ p ∷ []) ++ exited
  in_owned = left_part (owned ++ p ∷ []) exited

  fresh : (p ∉ owned) × (p ∉ exited) × (p ∈ owned ++ p ∷ [])
  fresh =
      let (a, b, apart) = Distinct-append (owned ++ p ∷ []) exited d in
      let (a', b', apart') = Distinct-append owned (p ∷ []) a in
      let i : p ∈ owned ++ p ∷ [] = ground (arith, contains-append owned (p ∷ []) p) in
      (ground (arith, apart' p), apart p i, i)

  linked_owned :
      (g : Links) × (Links.push_back (tasks_of host) (runtime_node p) w.links ≡ ok (tt, g))
      × IsConsistent host (owned_too w g p) waiting (owned ++ p ∷ []) exited
  linked_owned =
      let (f, f', i) = fresh in
      let (a, b, apart) = Distinct-append (owned ++ p ∷ []) exited d in
      let (g, ran, ring, same) =
        push_back-IsRing w.links (tasks_of host) (map runtime_node owned) (runtime_node p)
          c.owned_ring
          (ground (arith, contains-runtime_node owned (p + 136), l.far p (in_owned p i))) in
      let same' : SameOutside (tasks_of host ∷ map runtime_node (p ∷ owned)) w.links g =
        λ a out. same a (ground arith) in
      let more : p ∷ owned ⊆ owned ++ p ∷ [] =
        λ a i. ground (arith, contains-append owned (p ∷ []) a) in
      let more' : p ∷ owned ⊆ (owned ++ p ∷ []) ++ exited = λ a i. in_owned a (more a i) in
      (
        g,
        ran,
        record {
          layout = l;
          waiting_ring =
              IsRing-frame w.links g (scheduler_of host) (map ready_node waiting)
                (tasks_of host ∷ map runtime_node (p ∷ owned)) c.waiting_ring same'
                (runtime_apart host ((owned ++ p ∷ []) ++ exited) waiting (p ∷ owned) l
                  (λ a i. more' a (ground (arith, c.waiting_owned a))) more' (tasks_of host)
                  (inl refl));
          owned_ring = rw (map-append runtime_node owned (p ∷ [])) ring;
          exited_ring =
              IsRing-frame w.links g (zombies_of host) (map runtime_node exited)
                (tasks_of host ∷ map runtime_node (p ∷ owned)) c.exited_ring same'
                (exited_apart host ((owned ++ p ∷ []) ++ exited) (p ∷ owned) exited l more'
                  (right_part (owned ++ p ∷ []) exited) (λ a i. apart a (more a i)));
          distinct = d;
          waiting_owned = λ a i. more a (ground (arith, c.waiting_owned a));
          are_ready = λ a i. ground (arith, c.are_ready a);
          are_zombies = λ a i. ground (arith, c.are_zombies a);
        },
      )

  -- The last part of __gt_runtime_task_create: a configured task, distinct from the tasks of
  -- a consistent runtime and with its object apart from theirs, is marked READY, becomes the
  -- last of the owned tasks and the last of those that wait, and is counted; the call
  -- succeeds and the runtime stays consistent.
  pub admit_task-IsConsistent :
      (id : ℕ)
      → (h : Links) × (admit_task host p id w ≡ ok (success, admitted w h p))
        × IsConsistent host (admitted w h p) (waiting ++ p ∷ []) (owned ++ p ∷ []) exited
  unfolding admit_task
  admit_task-IsConsistent id =
      let (f, f', i) = fresh in
      let (g, ran, cons) = linked_owned in
      let v : World = owned_too w g p in
      let out : p ∉ waiting = ground (arith, c.waiting_owned p) in
      let (h, ran', ring, same) =
        admit_lem v (scheduler_of host) (ground arith) p waiting cons.waiting_ring
          (ground (arith, l.far p (in_owned p i))) (ground arith)
          (ground (
            arith,
            contains-ready_node waiting (p + 120),
            cons.waiting_ring.not_null,
            l.far p (in_owned p i),
          )) in
      let z = admitted w h p in
      (
        h,
        ground (arith, ran, ran'),
        waiting_change host v z waiting (waiting ++ p ∷ []) (owned ++ p ∷ []) exited (p ∷ waiting)
            cons (λ a i. ground (arith, cons.waiting_owned a, contains-append owned (p ∷ []) a))
            same ring
            (λ a i. ground (
              arith,
              cons.waiting_owned a,
              contains-append waiting (p ∷ []) a,
              contains-append owned (p ∷ []) a,
            ))
            (λ a i. ground (arith, cons.are_ready a, contains-append waiting (p ∷ []) a))
            (λ a i. refl),
      )
