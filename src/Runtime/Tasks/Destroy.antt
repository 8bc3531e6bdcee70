-- ===== src/Runtime/Tasks/Destroy.antt =====
-- About runtime_task.c: destroying a task gives back all that it had.
use green_threads.Base.{
  ℕ, suc, ◌-◌, ◌≡◌, ◌≢◌, refl, sym, true, false, Bool, not, ◌&&◌, ◌==◌, ltb, List, arith, contains,
  length,
}
use green_threads.Outcome.{ok}
use green_threads.Links
use green_threads.Links.{Links, null}
use green_threads.Links.Seg.{◌∈◌}
use green_threads.IdPool.{IdPool}
use green_threads.IdPool.Laws.{Pools}
use green_threads.Platform.Interface.{Host}
use green_threads.Platform.Ledger.{Behaves}
use green_threads.Stack.Region.{IsGuarded}
use green_threads.Task
use green_threads.Task.{update_task}
use green_threads.Task.Laws
use green_threads.Task.Laws.{without}
use green_threads.World.{World, task_max_capacity, runtime_node}
use green_threads.Runtime.Resources.{Backed}
use green_threads.Runtime.Tasks.{task_destroy}
use green_threads.Runtime.Tasks.Steps.{release_task_id_lem}
use green_threads.Runtime.Tasks.Undo.{without_block, free_lem}

-- The world without the task `t`, its links being `g` before its nodes are cleared.
abbrev pub destroyed : World → Links → IdPool → ℕ → World
destroyed w g pool t =
    let u = without_block (without (record w { links = g }) t) t in
    record u { rt = record (u.rt) { task_ids = pool; task_count = w.rt.task_count - 1 } }

-- The identifiers that are out once that of the task `t` is given back.
abbrev pub freed_ids : World → (ℕ → Bool) → ℕ → ℕ → Bool
freed_ids w taken t j = not ((w.tasks t).id == j) && taken j

module _ (ps : ℕ) (w : World) (live live' : List ℕ) (taken : ℕ → Bool) (t : ℕ)
    (b : Backed ps w live taken) (i : t ∈ live)
    (same : (a : ℕ) → contains live' a ≡ (not (t == a) && contains live a))
    (len : length live ≡ suc (length live')) where
  kept : (u : ℕ) → u ∈ live' → (u ∈ live) × (u ≢ t)
  kept u j = (ground (arith, same u), ground (arith, same u))

  module _ (g : Links) (pool : IdPool)
      (pools : Pools task_max_capacity (freed_ids w taken t) pool) where
    task_kept : (u : ℕ) → u ≢ t → (destroyed w g pool t).tasks u ≡ w.tasks u
    task_kept u ne = ground arith

    base_kept :
        (u : ℕ) → u ∈ live' → (w.tasks t).stack.mapping.base ≢ (w.tasks u).stack.mapping.base
    base_kept u j e = (kept u j).1 (sym (b.mappings_apart t u i (kept u j).0 e))

    -- The stacks of the others lie outside the mapping that is given back.
    still-IsGuarded :
        (u : ℕ) → u ∈ live' → IsGuarded (w.tasks u).stack (destroyed w g pool t).machine.events
    still-IsGuarded u j =
        let (k, ne) = kept u j in
        let h = b.guarded u k in
        let s = b.stacks u k in
        let apart = b.stacks_apart t u i k in
        record {
          inside = λ a from below.
              ground (arith, apart, ne, s.guard_below, s.guard_above, h.inside a from below);
          below = λ a from below.
              ground (arith, apart, ne, s.guard_above, s.sized, h.below a from below);
          above = λ a from below.
              ground (arith, apart, ne, s.guard_below, s.sized, h.above a from below);
        }

    pub Backed-fewer : Backed ps (destroyed w g pool t) live' (freed_ids w taken t)
    Backed-fewer = record {
      paged = b.paged;
      pools = pools;
      stacks = λ u j. rw (task_kept u (kept u j).1) (b.stacks u (kept u j).0);
      mappings = λ u j.
          rw (task_kept u (kept u j).1) (ground (arith, b.mappings u (kept u j).0, base_kept u j));
      guarded = λ u j. rw (task_kept u (kept u j).1) (still-IsGuarded u j);
      blocks = λ u j. ground (arith, b.blocks u (kept u j).0, (kept u j).1);
      ids = λ u j.
          rw (task_kept u (kept u j).1)
            (ground (arith, b.ids u (kept u j).0, (kept u j).1, b.ids_apart t u i (kept u j).0));
      mappings_apart = λ u v j k e.
          b.mappings_apart u v (kept u j).0 (kept v k).0
            (rw (task_kept u (kept u j).1, task_kept v (kept v k).1) at e);
      stacks_apart = λ u v j k.
          rw (task_kept u (kept u j).1, task_kept v (kept v k).1)
            (b.stacks_apart u v (kept u j).0 (kept v k).0);
      ids_apart = λ u v j k e.
          b.ids_apart u v (kept u j).0 (kept v k).0
            (rw (task_kept u (kept u j).1, task_kept v (kept v k).1) at e);
      only_mappings = λ a ne.
          let (u, j, e) = b.only_mappings a (ground (arith, ne)) in
          let np : u ≢ t = λ eq. ground (arith, ne, rw eq at e) in
          (u, ground (arith, same u), rw (task_kept u np) e);
      only_blocks = λ a ne. ground (arith, b.only_blocks a, same a);
      only_ids = λ n lt o.
          let (u, j, e) = b.only_ids n lt (ground arith) in
          let np : u ≢ t = λ eq. ground (arith, o, rw eq at e) in
          (u, ground (arith, same u), rw (task_kept u np) e);
      words = λ u j. b.words u (kept u j).0;
      counted = omega (arith, b.counted, len);
    }

  -- __gt_runtime_task_destroy of a task of the runtime, whose node is unlinked without a fault.
  pub task_destroy_lem :
      (host : Host) (g : Links)
      → Behaves host ps
      → t ≢ 0
      → Links.remove (runtime_node t) w.links ≡ ok (tt, g)
      → (pool : IdPool) × (task_destroy host t w ≡ ok (tt, destroyed w g pool t))
        × Pools task_max_capacity (freed_ids w taken t) pool
  unfolding task_destroy
  task_destroy_lem host g behaves ht unlinked =
      let w1 : World = record w { links = g } in
      let gone =
        Task.Laws.destroy_lem host w1 ps b.paged behaves t ht (b.stacks t i) (b.mappings t i) in
      let (lt, tk) = b.ids t i in
      let (pool, released, pools) =
        release_task_id_lem (without w1 t) taken (w.tasks t).id lt tk b.pools in
      let a : (t == 0) ≡ false = ground arith in
      let c : ltb 0 w.rt.task_count ≡ true = ground (arith, b.counted, len) in
      (
        pool,
        rw
            (
              a,
              unlinked,
              gone,
              released,
              free_lem (record (without w1 t) { rt = record (w.rt) { task_ids = pool } }) t ht
                  (ground (arith, b.blocks t i)),
              c,
            )
            refl,
        pools,
      )
