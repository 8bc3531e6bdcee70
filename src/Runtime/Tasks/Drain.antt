-- ===== src/Runtime/Tasks/Drain.antt =====
-- About runtime_task.c: the loop that destroys the tasks of a list one after the other.
use green_threads.Base.{
  ℕ, zero, suc, ◌+◌, ◌^◌, ◌<◌, ◌≡◌, refl, ◌∙◌, false, Bool, ◌==◌, List, [], ◌∷◌, map, arith, length,
}
use green_threads.Outcome.{ok}
use green_threads.Links.{null}
use green_threads.Links.Ring.{IsRing}
use green_threads.Links.Queries.{front_lem}
use green_threads.Platform.Interface.{Host}
use green_threads.World.{World, runtime_node}
use green_threads.Runtime.Tasks.{task_destroy, destroy_task_list, task_of_runtime}

task_of_node : (t : ℕ) → t + 152 < 2 ^ 64 → task_of_runtime (runtime_node t) ≡ t
task_of_node t h = omega arith

-- One round of the loop, at a list with the task `t` in front.
round :
    (host : Host) (list t k : ℕ) (ts : List ℕ) (w w' : World)
    → IsRing w.links list (map runtime_node (t ∷ ts))
    → t + 152 < 2 ^ 64
    → task_destroy host t w ≡ ok (tt, w')
    → destroy_task_list (suc k) host list w ≡ destroy_task_list k host list w'
unfolding destroy_task_list
round host list t k ts w w' r word ran =
    let n : (runtime_node t == null) ≡ false = ground arith in
    rw (front_lem w.links list (map runtime_node (t ∷ ts)) r, n, task_of_node t word, ran) refl

finish :
    (host : Host) (list k : ℕ) (w : World)
    → IsRing w.links list []
    → destroy_task_list (suc k) host list w ≡ ok (tt, w)
unfolding destroy_task_list
finish host list k w r = rw (front_lem w.links list [] r) refl

-- What holds of the world, of the tasks in the list and of the identifiers that are out, and what
-- destroying the first of the tasks keeps, holds at the end of an empty list.
module _ (host : Host) (list : ℕ) (Inv : World → List ℕ → (ℕ → Bool) → Type 0)
    (ring : (w : World) (ts : List ℕ) (k : ℕ → Bool)
      → Inv w ts k
      → IsRing w.links list (map runtime_node ts))
    (word : (w : World) (t : ℕ) (ts : List ℕ) (k : ℕ → Bool) → Inv w (t ∷ ts) k → t + 152 < 2 ^ 64)
    (step : (w : World) (t : ℕ) (ts : List ℕ) (k : ℕ → Bool)
      → Inv w (t ∷ ts) k
      → (w' : World) × (k' : ℕ → Bool) × (task_destroy host t w ≡ ok (tt, w')) × Inv w' ts k') where
  pub drain :
      (fuel : ℕ) (w : World) (ts : List ℕ) (k : ℕ → Bool)
      → Inv w ts k
      → length ts < fuel
      → (w' : World) × (k' : ℕ → Bool) × (destroy_task_list fuel host list w ≡ ok (tt, w'))
        × Inv w' [] k'
  drain zero w ts k i enough = absurd (omega arith)
  drain (suc f) w [] k i enough = (w, k, finish host list f w (ring w [] k i), i)
  drain (suc f) w (t ∷ ts) k i enough =
      let (v, k1, ran, j) = step w t ts k i in
      let (w', k', run, done) = drain f v ts k1 j (omega arith) in
      (w', k', round host list t f ts w v (ring w (t ∷ ts) k i) (word w t ts k i) ran ∙ run, done)
