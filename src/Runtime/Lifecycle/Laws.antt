-- ===== src/Runtime/Lifecycle/Laws.antt =====
-- About runtime.c: what the runtime holds from its initialisation to its destruction.
use green_threads.Base.{
  ℕ, ◌<◌, ◌≡◌, refl, inl, inr, false, Bool, ◌==◌, List, [], arith, length, Bool-cases,
}
use green_threads.Outcome.{ok}
use green_threads.Platform.Interface.{Host, Machine}
use green_threads.Platform.Ledger.{Behaves, mapping_at, block_at}
use green_threads.Platform.Page.Laws.{IsPaged}
use green_threads.Platform
use green_threads.Scheduler
use green_threads.World.{World, cleared_runtime, scheduler_of, tasks_of, zombies_of}
use green_threads.Task.{clear_node}
use green_threads.Runtime.Resources.{Backed, IsSound}
use green_threads.Runtime.Lifecycle
use green_threads.Runtime.Lifecycle.{is_uninitialized, clear_runtime}
use green_threads.Runtime.Tasks.{destroy_task_list, reap_zombies}
use green_threads.Runtime.Tasks.Held.{IsConsistent-Held}
use green_threads.Runtime.Tasks.Teardown.{destroy_all}

-- Nothing is mapped and no block is out.
pub record HoldsNothing (m : Machine) : Type 0 where
  pub mappings : (a : ℕ) → mapping_at m.events a ≡ 0
  pub blocks : (a : ℕ) → block_at m.events a ≡ 0

Backed-nothing :
    (ps : ℕ) (w : World) (taken : ℕ → Bool) → Backed ps w [] taken → HoldsNothing w.machine
Backed-nothing ps w taken b = record {
  mappings = λ a. elim (Bool-cases (mapping_at w.machine.events a == 0)) [
    | inl e ↦ ground arith
    | inr ne ↦ let (t, i, e) = b.only_mappings a (ground arith) in absurd (ground (arith, i))
  ];
  blocks = λ a. ground (arith, b.only_blocks a);
}

destroy_from :
    (fuel : ℕ) (host : Host) (w v u : World)
    → is_uninitialized w.rt.state ≡ false
    → 0 < host.runtime
    → destroy_task_list fuel host (tasks_of host) w ≡ ok (tt, v)
    → reap_zombies fuel host v ≡ ok (tt, u)
    → (w' : World) × (Lifecycle.destroy fuel host w ≡ ok (tt, w'))
      × (w'.rt ≡ cleared_runtime)
      × (w'.machine ≡ u.machine)
unfolding Lifecycle.destroy Scheduler.destroy Platform.destroy
destroy_from fuel host w v u s given ran ran' =
    let a : (scheduler_of host == 0) ≡ false = ground arith in
    (
      record u {
        rt = cleared_runtime;
        links = clear_node (zombies_of host) (
            clear_node (tasks_of host)
              (clear_node (scheduler_of host) (clear_node (scheduler_of host) u.links)));
      },
      rw (s, ran, ran', a) refl,
      refl,
      refl,
    )

-- Where mmap, munmap and calloc behave as documented, with more fuel than tasks in either list,
-- gt_runtime_destroy of a sound runtime that is initialised ends, and leaves a cleared runtime
-- with no mapping and no block, whatever tasks wait or have exited, and the page variables as
-- they were set.
pub destroy-HoldsNothing :
    (host : Host) (ps fuel : ℕ) (w : World) (waiting owned exited : List ℕ) (taken : ℕ → Bool)
    → Behaves host ps
    → IsSound host ps w waiting owned exited taken
    → is_uninitialized w.rt.state ≡ false
    → length owned < fuel
    → length exited < fuel
    → (w' : World) × (Lifecycle.destroy fuel host w ≡ ok (tt, w'))
      × (w'.rt ≡ cleared_runtime)
      × HoldsNothing w'.machine
      × IsPaged w'.machine.page ps
destroy-HoldsNothing host ps fuel w waiting owned exited taken behaves sound s few few' =
    let c = sound.consistent in
    let (v, u, k, ran, ran', h) =
      destroy_all host ps fuel w owned exited taken behaves
        (record { held = IsConsistent-Held host w waiting owned exited c; backed = sound.backed })
        few few' in
    let (w', run, cleared, same) = destroy_from fuel host w v u s c.layout.placed ran ran' in
    let nothing = Backed-nothing ps u k h.backed in
    (w', run, cleared, rw same nothing, rw same h.backed.paged)
