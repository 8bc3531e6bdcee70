-- ===== src/Runtime/Tasks/Reap.antt =====
-- About runtime_task.c: destroying the tasks of a list one after the other.
use green_threads.Base.{
  ℕ, suc, ◌<◌, ◌≡◌, ◌≢◌, refl, ◌∙◌, inr, Bool, not, ◌&&◌, ◌==◌, List, [], ◌∷◌, ◌++◌, map, arith,
  contains, contains-append, Distinct, Distinct-append, length,
}
use green_threads.Outcome.{ok}
use green_threads.Links.Seg.{◌∈◌, ◌∉◌}
use green_threads.Links.Ring.{IsRing-frame}
use green_threads.Platform.Interface.{Host}
use green_threads.Platform.Ledger.{Behaves}
use green_threads.World.{World, ready_node, runtime_node, scheduler_of, zombies_of}
use green_threads.Runtime.Invariant.{◌⊆◌, left_part, right_part, runtime_apart}
use green_threads.Runtime.Resources.{IsSound, SamePhase}
use green_threads.Runtime.Tasks.{task_destroy, reap_zombies}
use green_threads.Runtime.Tasks.Drain.{drain}
use green_threads.Runtime.Tasks.Held.{IsConsistent-Held, Held-exited, ready_cleared}
use green_threads.Runtime.Tasks.Destroy.{destroyed, freed_ids, Backed-fewer, task_destroy_lem}

pub contains-second :
    (xs ys : List ℕ) (t a : ℕ)
    → Distinct (xs ++ t ∷ ys)
    → contains (xs ++ ys) a ≡ (not (t == a) && contains (xs ++ t ∷ ys) a)
contains-second xs ys t a d =
    let (d1, d2, apart) = Distinct-append xs (t ∷ ys) d in
    ground (arith, contains-append xs ys a, contains-append xs (t ∷ ys) a, apart t)

pub length-second : (xs ys : List ℕ) (t : ℕ) → length (xs ++ t ∷ ys) ≡ suc (length (xs ++ ys))
length-second [] ys t = refl
length-second (x ∷ xs) ys t = omega (arith, length-second xs ys t)

-- The first exited task is destroyed.
reap_one :
    (host : Host) (ps : ℕ) (w : World) (waiting owned exited : List ℕ) (taken : ℕ → Bool) (t : ℕ)
    → Behaves host ps
    → IsSound host ps w waiting owned (t ∷ exited) taken
    → (w' : World) × (task_destroy host t w ≡ ok (tt, w'))
      × IsSound host ps w' waiting owned exited (freed_ids w taken t)
      × SamePhase w w'
      × ((a : ℕ) → a ∈ owned → w'.tasks a ≡ w.tasks a)
      × (w'.machine.memory ≡ w.machine.memory)
reap_one host ps w waiting owned exited taken t behaves sound =
    let c = sound.consistent in
    let live = owned ++ t ∷ exited in
    let (d1, d2, apart) = Distinct-append owned (t ∷ exited) c.distinct in
    let i : t ∈ live = ground (arith, right_part owned (t ∷ exited) t) in
    let same : (a : ℕ) → contains (owned ++ exited) a ≡ (not (t == a) && contains live a) =
      λ a. contains-second owned exited t a c.distinct in
    let len = length-second owned exited t in
    let (g, unlinked, held, outside) =
      Held-exited host w.links t owned exited
        (IsConsistent-Held host w waiting owned (t ∷ exited) c) in
    let (pool, ran, pools) =
      task_destroy_lem ps w live (owned ++ exited) taken t sound.backed i same len host g behaves
        (ground (arith, c.layout.far t)) unlinked in
    let in_waiting : waiting ⊆ live = λ a j. left_part owned (t ∷ exited) a (c.waiting_owned a j) in
    let out : t ∉ waiting = ground (arith, c.waiting_owned t, apart t) in
    let ring =
      IsRing-frame w.links g (scheduler_of host) (map ready_node waiting)
        (zombies_of host ∷ map runtime_node (t ∷ exited)) c.waiting_ring outside
        (runtime_apart host live waiting (t ∷ exited) c.layout in_waiting
          (right_part owned (t ∷ exited)) (zombies_of host) (inr refl)) in
    (
      destroyed w g pool t,
      ran,
      record {
        consistent = record {
          layout = held.layout;
          waiting_ring =
              ready_cleared host g live waiting t (scheduler_of host) c.layout i in_waiting out
                ring;
          owned_ring = held.owned_ring;
          exited_ring = held.exited_ring;
          distinct = held.distinct;
          waiting_owned = c.waiting_owned;
          are_ready = λ a j. ground (arith, c.are_ready a);
          are_zombies = λ a j. ground (arith, c.are_zombies a, d2.0);
        };
        backed =
            Backed-fewer ps w live (owned ++ exited) taken t sound.backed i same len g pool pools;
      },
      record { state = refl; current = refl; main_context = refl },
      λ a j. let ne : a ≢ t = ground (arith, apart a j) in ground arith,
      refl,
    )

-- Where mmap, munmap and calloc behave as documented, with more fuel than exited tasks,
-- __gt_runtime_reap_zombies of a sound runtime ends, and leaves a sound runtime in which no
-- exited task is left: what they had is given back, the owned tasks are as they were, and the
-- memory and the runtime's state, current task and main context stay.
pub reap_zombies-IsSound :
    (host : Host) (ps fuel : ℕ) (w : World) (waiting owned exited : List ℕ) (taken : ℕ → Bool)
    → Behaves host ps
    → IsSound host ps w waiting owned exited taken
    → length exited < fuel
    → (w' : World) × (taken' : ℕ → Bool) × (reap_zombies fuel host w ≡ ok (tt, w'))
      × IsSound host ps w' waiting owned [] taken'
      × SamePhase w w'
      × ((a : ℕ) → a ∈ owned → w'.tasks a ≡ w.tasks a)
      × (w'.machine.memory ≡ w.machine.memory)
unfolding reap_zombies
reap_zombies-IsSound host ps fuel w waiting owned exited taken behaves sound enough =
    let (w', k', run, (done, phase, kept, memory)) =
      drain host (zombies_of host)
        (λ v ts k.
          IsSound host ps v waiting owned ts k
          × SamePhase w v
          × ((a : ℕ) → a ∈ owned → v.tasks a ≡ w.tasks a)
          × (v.machine.memory ≡ w.machine.memory))
        (λ v ts k i. i.0.consistent.exited_ring)
        (λ v t ts k i. i.0.backed.words t (ground (arith, right_part owned (t ∷ ts) t)))
        (λ v t ts k i.
          let (v', ran, next, same, kept, memory) =
            reap_one host ps v waiting owned ts k t behaves i.0 in
          (
            v',
            freed_ids v k t,
            ran,
            (
              next,
              record {
                state = same.state ∙ i.1.state;
                current = same.current ∙ i.1.current;
                main_context = same.main_context ∙ i.1.main_context;
              },
              λ a j. kept a j ∙ i.2 a j,
              memory ∙ i.3,
            ),
          ))
        fuel w exited taken
        (sound, record { state = refl; current = refl; main_context = refl }, λ a j. refl, refl)
        enough in
    (w', k', run, done, phase, kept, memory)
