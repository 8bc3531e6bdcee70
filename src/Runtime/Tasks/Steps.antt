-- ===== src/Runtime/Tasks/Steps.antt =====
-- About runtime_task.c: the steps of the creation of a task.
use mathlib.Core.List.{append_assoc}
use green_threads.Base.{
  ℕ, suc, ◌+◌, ◌≤◌, ◌<◌, ◌≡◌, ◌≢◌, refl, ◌⊎◌, true, Bool, not, ◌&&◌, ◌||◌, ◌==◌, List, [], ◌∷◌,
  ◌++◌, arith, length, contains, contains-append, Distinct, Distinct-insert, Option,
}
use green_threads.Outcome.{ok}
use green_threads.Links.Seg.{◌∈◌, ◌∉◌}
use green_threads.IdPool.{IdPool}
use green_threads.IdPool.Laws.{Pools, with_id, allocate_lem, release_lem}
use green_threads.Bitmap.Search.{IsFirst}
use green_threads.Platform.Interface.{Host}
use green_threads.Platform.Ledger.{Behaves}
use green_threads.World.{World, task_size, task_max_capacity}
use green_threads.Runtime.Invariant.{Layout}
use green_threads.Runtime.Resources.{IsSound}
use green_threads.Runtime.Tasks.{allocate_task_id, release_task_id, allocated_id}

-- Where a task is put among the owned ones.
pub contains-insert :
    (xs ys : List ℕ) (p a : ℕ)
    → contains ((xs ++ p ∷ []) ++ ys) a ≡ ((p == a) || contains (xs ++ ys) a)
contains-insert xs ys p a = ground (
  arith,
  contains-append (xs ++ p ∷ []) ys a,
  contains-append xs (p ∷ []) a,
  contains-append xs ys a,
)

pub length-insert :
    (xs ys : List ℕ) (p : ℕ) → length ((xs ++ p ∷ []) ++ ys) ≡ suc (length (xs ++ ys))
length-insert [] ys p = refl
length-insert (x ∷ xs) ys p = omega (arith, length-insert xs ys p)

Distinct-put :
    (xs ys : List ℕ) (p : ℕ) → Distinct (xs ++ ys) → p ∉ xs ++ ys → Distinct ((xs ++ p ∷ []) ++ ys)
Distinct-put xs ys p d out = rw append_assoc (Distinct-insert xs ys p d out)

module _ (host : Host) (ps : ℕ) (behaves : Behaves host ps) (w : World)
    (waiting owned exited : List ℕ) (taken : ℕ → Bool)
    (sound : IsSound host ps w waiting owned exited taken)
    (got : host.calloc w.machine.events task_size ≢ 0) where
  abbrev new : ℕ
  new = host.calloc w.machine.events task_size

  -- The new block lies apart from the objects of the tasks.
  pub new_apart : (t : ℕ) → t ∈ owned ++ exited → (t + 152 ≤ new) ⊎ (new + 152 ≤ t)
  new_apart t i =
      let (is_new, word, far, apart) = behaves.calloc_new w.machine.events task_size got in
      ground (arith, apart t, sound.backed.blocks t)

  pub new_far : (0 < new) × ((new + 152 ≤ host.runtime) ⊎ (host.runtime + 12656 ≤ new))
  new_far =
      let (is_new, word, far, apart) = behaves.calloc_new w.machine.events task_size got in
      (ground (arith, got), far)

  pub new-Layout :
      Layout host ((owned ++ new ∷ []) ++ exited) × Distinct ((owned ++ new ∷ []) ++ exited)
  new-Layout =
      let l = sound.consistent.layout in
      let out : new ∉ owned ++ exited = ground (arith, new_apart new) in
      (
        record {
          placed = l.placed;
          far = λ p i. ground (arith, contains-insert owned exited new p, l.far p, new_far);
          separate = λ p q i j. ground (
            arith,
            contains-insert owned exited new p,
            contains-insert owned exited new q,
            l.separate p q,
            new_apart p,
            new_apart q,
          );
        },
        Distinct-put owned exited new sound.consistent.distinct out,
      )

-- Taking an identifier.
pub allocate_task_id_lem :
    (w : World) (taken : ℕ → Bool)
    → Pools task_max_capacity taken w.rt.task_ids
    → (r : Option ℕ) × (pool : IdPool) × (allocate_task_id w
        ≡ ok (allocated_id r, record w { rt = record (w.rt) { task_ids = pool } }))
      × IsFirst (λ j. not (taken j)) 0 task_max_capacity r
      × Pools task_max_capacity (with_id r taken) pool
unfolding allocate_task_id
allocate_task_id_lem w taken h =
    let (r, pool, ran, first, after, same) =
      allocate_lem w.rt.task_ids task_max_capacity taken h 1 (ground arith) in
    (r, pool, rw ran refl, first, after)

-- Giving it back.
pub release_task_id_lem :
    (w : World) (taken : ℕ → Bool) (id : ℕ)
    → id < task_max_capacity
    → taken id ≡ true
    → Pools task_max_capacity taken w.rt.task_ids
    → (pool : IdPool) × (release_task_id id w
        ≡ ok (tt, record w { rt = record (w.rt) { task_ids = pool } }))
      × Pools task_max_capacity (λ j. not (id == j) && taken j) pool
unfolding release_task_id
release_task_id_lem w taken id lt i h =
    let (pool, ran, after) = release_lem w.rt.task_ids task_max_capacity taken h id lt i in
    (pool, rw ran refl, after)
