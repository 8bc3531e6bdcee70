-- ===== src/Scheduler/Laws.antt =====
-- About scheduler.c: admission and selection on a well-formed queue.
use mathlib.Core.List.{map-append}
use green_threads.Base.{ℕ, ◌≡◌, ◌≢◌, List, [], ◌∷◌, ◌++◌, map, arith}
use green_threads.Outcome.{ok, panic}
use green_threads.Links.{Links, null}
use green_threads.Links.Seg.{◌∉◌}
use green_threads.Links.Ring.{IsRing, SameOutside}
use green_threads.Queue.Laws.{dequeue-nil, dequeue-cons, enqueue-append}
use green_threads.Status.{success}
use green_threads.World.{World, TaskState, ready_node}
use green_threads.Scheduler
use green_threads.Scheduler.{is_ready}

module _ (w : World) (sched : ℕ) (given : sched ≢ 0) where
  -- With no task waiting `gt_scheduler_next` returns NULL and changes nothing.
  pub next-none : IsRing w.links sched [] → Scheduler.next sched w ≡ ok (0, w)
  unfolding Scheduler.next
  next-none r = ground (arith, dequeue-nil w.links sched r)

  -- With tasks waiting in a well-formed queue gt_scheduler_next returns the one that has
  -- waited longest, takes it out of the queue and changes no link outside the queue.
  pub next-some :
      (t : ℕ) (ts : List ℕ)
      → IsRing w.links sched (map ready_node (t ∷ ts))
      → (g : Links) × (Scheduler.next sched w ≡ ok (t, record w { links = g }))
        × IsRing g sched (map ready_node ts)
        × SameOutside (sched ∷ map ready_node (t ∷ ts)) w.links g
  unfolding Scheduler.next
  next-some t ts r =
      let (g, ran, r', same, p, n) =
        dequeue-cons w.links sched (ready_node t) (map ready_node ts) r in
      (g, ground (arith, ran), r', same)

  -- gt_scheduler_admit of a READY task, whose node is neither NULL, nor the scheduler, nor in
  -- its well-formed queue, succeeds, puts the task behind those that wait and changes no link
  -- outside the queue and the node.
  pub admit_lem :
      (t : ℕ) (ts : List ℕ)
      → IsRing w.links sched (map ready_node ts)
      → t ≢ 0
      → (w.tasks t).state ≡ TaskState.ready
      → ready_node t ∉ null ∷ sched ∷ map ready_node ts
      → (g : Links) × (Scheduler.admit sched t w ≡ ok (success, record w { links = g }))
        × IsRing g sched (map ready_node (ts ++ t ∷ []))
        × SameOutside (sched ∷ map ready_node (t ∷ ts)) w.links g
  unfolding Scheduler.admit
  admit_lem t ts r ne ready new =
      let (g, ran, r', same) =
        enqueue-append w.links sched (map ready_node ts) (ready_node t) r new in
      (g, ground (arith, ran), rw map-append r', λ a out. same a (ground arith))

  -- It stops a task in any other state.
  pub admit-not_ready :
      (t : ℕ)
      → t ≢ 0
      → (w.tasks t).state ≢ TaskState.ready
      → Scheduler.admit sched t w ≡ panic "task->t_state == GT_TASK_STATE_READY"
  unfolding Scheduler.admit
  admit-not_ready t ne other = ground arith
