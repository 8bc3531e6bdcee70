-- ===== src/Runtime/Tasks/Teardown.antt =====
-- About runtime_task.c: destroying every task of the runtime, whatever still waits to run.
use green_threads.Base.{
  ℕ, ◌<◌, ◌≡◌, refl, Bool, not, ◌&&◌, ◌==◌, List, [], ◌∷◌, ◌++◌, arith, contains, length,
}
use green_threads.Outcome.{ok}
use green_threads.Links.Seg.{◌∈◌}
use green_threads.Platform.Interface.{Host}
use green_threads.Platform.Ledger.{Behaves}
use green_threads.World.{World, tasks_of, zombies_of}
use green_threads.Runtime.Invariant.{right_part}
use green_threads.Runtime.Resources.{Backed}
use green_threads.Runtime.Tasks.{task_destroy, destroy_task_list, reap_zombies}
use green_threads.Runtime.Tasks.Held.{Held, Held-owned, Held-exited}
use green_threads.Runtime.Tasks.Destroy.{destroyed, freed_ids, Backed-fewer, task_destroy_lem}
use green_threads.Runtime.Tasks.Drain.{drain}
use green_threads.Runtime.Tasks.Reap.{contains-second, length-second}

-- The runtime's tasks with all that they have.
pub record HasTasks (host : Host) (ps : ℕ) (w : World) (owned exited : List ℕ) (taken : ℕ → Bool)
    : Type 0 where
  pub held : Held host w.links owned exited
  pub backed : Backed ps w (owned ++ exited) taken

destroy_owned :
    (host : Host) (ps : ℕ) (w : World) (t : ℕ) (owned exited : List ℕ) (taken : ℕ → Bool)
    → Behaves host ps
    → HasTasks host ps w (t ∷ owned) exited taken
    → (w' : World) × (taken' : ℕ → Bool) × (task_destroy host t w ≡ ok (tt, w'))
      × HasTasks host ps w' owned exited taken'
destroy_owned host ps w t owned exited taken behaves h =
    let (g, unlinked, held) = Held-owned host w.links t owned exited h.held in
    let live = (t ∷ owned) ++ exited in
    let i : t ∈ live = ground arith in
    let same : (a : ℕ) → contains (owned ++ exited) a ≡ (not (t == a) && contains live a) =
      λ a. contains-second [] (owned ++ exited) t a h.held.distinct in
    let (pool, ran, pools) =
      task_destroy_lem ps w live (owned ++ exited) taken t h.backed i same refl host g behaves
        (ground (arith, h.held.layout.far t)) unlinked in
    (
      destroyed w g pool t,
      freed_ids w taken t,
      ran,
      record {
        held = held;
        backed = Backed-fewer ps w live (owned ++ exited) taken t h.backed i same refl g pool pools;
      },
    )

destroy_exited :
    (host : Host) (ps : ℕ) (w : World) (t : ℕ) (owned exited : List ℕ) (taken : ℕ → Bool)
    → Behaves host ps
    → HasTasks host ps w owned (t ∷ exited) taken
    → (w' : World) × (taken' : ℕ → Bool) × (task_destroy host t w ≡ ok (tt, w'))
      × HasTasks host ps w' owned exited taken'
destroy_exited host ps w t owned exited taken behaves h =
    let (g, unlinked, held, outside) = Held-exited host w.links t owned exited h.held in
    let live = owned ++ t ∷ exited in
    let i : t ∈ live = ground (arith, right_part owned (t ∷ exited) t) in
    let same : (a : ℕ) → contains (owned ++ exited) a ≡ (not (t == a) && contains live a) =
      λ a. contains-second owned exited t a h.held.distinct in
    let len = length-second owned exited t in
    let (pool, ran, pools) =
      task_destroy_lem ps w live (owned ++ exited) taken t h.backed i same len host g behaves
        (ground (arith, h.held.layout.far t)) unlinked in
    (
      destroyed w g pool t,
      freed_ids w taken t,
      ran,
      record {
        held = held;
        backed = Backed-fewer ps w live (owned ++ exited) taken t h.backed i same len g pool pools;
      },
    )

-- Both loops of the runtime's destruction.
pub destroy_all :
    (host : Host) (ps fuel : ℕ) (w : World) (owned exited : List ℕ) (taken : ℕ → Bool)
    → Behaves host ps
    → HasTasks host ps w owned exited taken
    → length owned < fuel
    → length exited < fuel
    → (v : World) × (w' : World) × (taken' : ℕ → Bool) × (destroy_task_list fuel host
          (tasks_of host)
          w
        ≡ ok (tt, v))
      × (reap_zombies fuel host v ≡ ok (tt, w'))
      × HasTasks host ps w' [] [] taken'
unfolding reap_zombies
destroy_all host ps fuel w owned exited taken behaves h few few' =
    let (v, k, ran, h1) =
      drain host (tasks_of host) (λ v ts k. HasTasks host ps v ts exited k)
        (λ v ts k i. i.held.owned_ring) (λ v t ts k i. i.backed.words t (ground arith))
        (λ v t ts k i. destroy_owned host ps v t ts exited k behaves i) fuel w owned taken h few in
    let (w', k', ran', h2) =
      drain host (zombies_of host) (λ v ts k. HasTasks host ps v [] ts k)
        (λ v ts k i. i.held.exited_ring) (λ v t ts k i. i.backed.words t (ground arith))
        (λ v t ts k i. destroy_exited host ps v t [] ts k behaves i) fuel v exited k h1 few' in
    (v, w', k', ran, ran', h2)
