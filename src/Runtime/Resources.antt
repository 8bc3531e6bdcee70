-- ===== src/Runtime/Resources.antt =====
-- What the runtime holds against what its tasks need: nothing is missing and nothing is left over.
use green_threads.Base.{
  ℕ, ◌+◌, ◌-◌, ◌^◌, ◌≤◌, ◌<◌, ◌≡◌, ◌≢◌, refl, ◌∙◌, sym, ◌⊎◌, true, Bool, List, [], ◌∷◌, ◌++◌, map,
  arith, length, contains,
}
use green_threads.Links.Seg.{◌∈◌}
use green_threads.Links.Ring.{SameOutside, IsRing-frame}
use green_threads.IdPool.Laws.{Pools}
use green_threads.Platform.Interface.{Host}
use green_threads.Platform.Ledger.{mapping_at, block_at, SameAccess}
use green_threads.Platform.Page.Laws.{IsPaged}
use green_threads.Stack.Region.{IsStack, IsGuarded, IsGuarded-same}
use green_threads.Stack.{Stack}
use green_threads.World.{
  World, ready_node, runtime_node, scheduler_of, tasks_of, zombies_of, task_size, task_max_capacity,
}
use green_threads.Runtime.Invariant.{
  IsConsistent, contains-ready_node, contains-runtime_node, left_part, right_part,
}

-- The stacks and their guard pages do not overlap.
abbrev pub Apart : Stack → Stack → Type 0
Apart s s' =
    (s.mapping.base + s.mapping.size ≤ s'.mapping.base)
    ⊎ (s'.mapping.base + s'.mapping.size ≤ s.mapping.base)

-- Each of the tasks `live` has its block, its stack and its identifier for itself, and every block,
-- mapping and identifier that is out belongs to one of them.
pub record Backed (ps : ℕ) (w : World) (live : List ℕ) (taken : ℕ → Bool) : Type 0 where
  pub paged : IsPaged w.machine.page ps
  pub pools : Pools task_max_capacity taken w.rt.task_ids
  pub stacks : (t : ℕ) → t ∈ live → IsStack ps (w.tasks t).stack
  pub mappings :
      (t : ℕ)
      → t ∈ live
      → mapping_at w.machine.events (w.tasks t).stack.mapping.base ≡ (w.tasks t).stack.mapping.size
  pub guarded : (t : ℕ) → t ∈ live → IsGuarded (w.tasks t).stack w.machine.events
  pub blocks : (t : ℕ) → t ∈ live → block_at w.machine.events t ≡ task_size
  pub ids :
      (t : ℕ) → t ∈ live → ((w.tasks t).id < task_max_capacity) × (taken (w.tasks t).id ≡ true)
  pub mappings_apart :
      (t u : ℕ)
      → t ∈ live
      → u ∈ live
      → (w.tasks t).stack.mapping.base ≡ (w.tasks u).stack.mapping.base
      → t ≡ u
  pub stacks_apart :
      (t u : ℕ) → t ∈ live → u ∈ live → (t ≡ u) ⊎ Apart (w.tasks t).stack (w.tasks u).stack
  pub ids_apart : (t u : ℕ) → t ∈ live → u ∈ live → (w.tasks t).id ≡ (w.tasks u).id → t ≡ u
  pub only_mappings :
      (a : ℕ)
      → mapping_at w.machine.events a ≢ 0
      → (t : ℕ) × (t ∈ live) × ((w.tasks t).stack.mapping.base ≡ a)
  pub only_blocks : (a : ℕ) → block_at w.machine.events a ≢ 0 → a ∈ live
  pub only_ids :
      (j : ℕ) → j < task_max_capacity → taken j ≡ true → (t : ℕ) × (t ∈ live) × ((w.tasks t).id ≡ j)
  pub words : (t : ℕ) → t ∈ live → t + task_size < 2 ^ 64
  pub counted : w.rt.task_count ≡ length live

-- The state of the runtime between two calls.
pub record IsSound (host : Host) (ps : ℕ) (w : World) (waiting owned exited : List ℕ)
    (taken : ℕ → Bool) : Type 0 where
  pub consistent : IsConsistent host w waiting owned exited
  pub backed : Backed ps w (owned ++ exited) taken

-- The words of the stacks of the tasks `live`, and of their guard pages, are the same.
abbrev pub SameStacks : List ℕ → World → World → Type 0
SameStacks live w w' =
    (t a : ℕ)
    → t ∈ live
    → (w.tasks t).stack.mapping.base ≤ a
    → a < (w.tasks t).stack.mapping.base + (w.tasks t).stack.mapping.size
    → w'.machine.memory a ≡ w.machine.memory a

-- What stays of the runtime: its state, its current task and its main context.
pub record SamePhase (w w' : World) : Type 0 where
  pub state : w'.rt.state ≡ w.rt.state
  pub current : w'.rt.current ≡ w.rt.current
  pub main_context : w'.rt.main_context ≡ w.rt.main_context

-- What a task stands on is untouched: the machine, the identifiers, and each object's own part of both.
pub record SameHoldings (w w' : World) : Type 0 where
  pub machine : w'.machine ≡ w.machine
  pub ids : w'.rt.task_ids ≡ w.rt.task_ids
  pub counted : w'.rt.task_count ≡ w.rt.task_count
  pub objects :
      (a : ℕ)
      → ((w'.tasks a).stack ≡ (w.tasks a).stack)
        × ((w'.tasks a).id ≡ (w.tasks a).id)
        × ((w'.tasks a).entry ≡ (w.tasks a).entry)
        × ((w'.tasks a).arg ≡ (w.tasks a).arg)

-- The parts of a world that the tasks `live` stand on.
pub record SameBacking (live : List ℕ) (w w' : World) : Type 0 where
  pub page : w'.machine.page ≡ w.machine.page
  pub mappings : (a : ℕ) → mapping_at w'.machine.events a ≡ mapping_at w.machine.events a
  pub blocks : (a : ℕ) → block_at w'.machine.events a ≡ block_at w.machine.events a
  pub accesses : SameAccess w.machine.events w'.machine.events
  pub stacks : (t : ℕ) → t ∈ live → (w'.tasks t).stack ≡ (w.tasks t).stack
  pub ids : (t : ℕ) → t ∈ live → (w'.tasks t).id ≡ (w.tasks t).id
  pub counted : w'.rt.task_count ≡ w.rt.task_count

pub Backed-same :
    (ps : ℕ) (w w' : World) (live live' : List ℕ) (taken : ℕ → Bool)
    → Backed ps w live taken
    → SameBacking live w w'
    → Pools task_max_capacity taken w'.rt.task_ids
    → ((a : ℕ) → contains live' a ≡ contains live a)
    → length live' ≡ length live
    → Backed ps w' live' taken
Backed-same ps w w' live live' taken b s pools same len = record {
  paged = rw s.page b.paged;
  pools = pools;
  stacks = λ t i. let i' = sym (same t) ∙ i in rw (s.stacks t i') (b.stacks t i');
  mappings = λ t i. let i' = sym (same t) ∙ i in rw (s.stacks t i', s.mappings) (b.mappings t i');
  guarded = λ t i.
      let i' = sym (same t) ∙ i in
      rw (s.stacks t i') (
        IsGuarded-same ps (w.tasks t).stack w.machine.events w'.machine.events (b.stacks t i')
          (b.mappings t i') s.accesses (b.guarded t i'));
  blocks = λ t i. ground (arith, s.blocks t, b.blocks t, same t);
  ids = λ t i. let i' = sym (same t) ∙ i in rw (s.ids t i') (b.ids t i');
  mappings_apart = λ t u i j e.
      let i' = sym (same t) ∙ i in
      let j' = sym (same u) ∙ j in
      b.mappings_apart t u i' j' (rw (s.stacks t i', s.stacks u j') at e);
  stacks_apart = λ t u i j.
      let i' = sym (same t) ∙ i in
      let j' = sym (same u) ∙ j in rw (s.stacks t i', s.stacks u j') (b.stacks_apart t u i' j');
  ids_apart = λ t u i j e.
      let i' = sym (same t) ∙ i in
      let j' = sym (same u) ∙ j in b.ids_apart t u i' j' (rw (s.ids t i', s.ids u j') at e);
  only_mappings = λ a ne.
      let (t, i, e) = b.only_mappings a (ground (arith, s.mappings a)) in
      (t, same t ∙ i, rw (s.stacks t i) e);
  only_blocks = λ a ne. ground (arith, b.only_blocks a, s.blocks a, same a);
  only_ids = λ j lt out. let (t, i, e) = b.only_ids j lt out in (t, same t ∙ i, rw (s.ids t i) e);
  words = λ t i. ground (arith, b.words t, same t);
  counted = s.counted ∙ b.counted ∙ sym len;
}

-- An object `p` that lies apart from the tasks `live` changes.
pub IsConsistent-apart :
    (host : Host) (w w' : World) (waiting owned exited : List ℕ) (p : ℕ)
    → IsConsistent host w waiting owned exited
    → (0 < p) × ((p + 152 ≤ host.runtime) ⊎ (host.runtime + 12656 ≤ p))
    → ((t : ℕ) → t ∈ owned ++ exited → (t + 152 ≤ p) ⊎ (p + 152 ≤ t))
    → SameOutside (ready_node p ∷ runtime_node p ∷ []) w.links w'.links
    → ((t : ℕ) → t ≢ p → w'.tasks t ≡ w.tasks t)
    → IsConsistent host w' waiting owned exited
IsConsistent-apart host w w' waiting owned exited p c far apart same others =
    let nodes = ready_node p ∷ runtime_node p ∷ [] in
    record {
      layout = c.layout;
      waiting_ring =
          IsRing-frame w.links w'.links (scheduler_of host) (map ready_node waiting) nodes
            c.waiting_ring same
            (λ a i. ground (
              arith,
              contains-ready_node waiting a,
              c.waiting_owned (a - 120),
              left_part owned exited (a - 120),
              apart (a - 120),
              far,
            ));
      owned_ring =
          IsRing-frame w.links w'.links (tasks_of host) (map runtime_node owned) nodes c.owned_ring
            same
            (λ a i. ground (
              arith,
              contains-runtime_node owned a,
              left_part owned exited (a - 136),
              apart (a - 136),
              far,
            ));
      exited_ring =
          IsRing-frame w.links w'.links (zombies_of host) (map runtime_node exited) nodes
            c.exited_ring same
            (λ a i. ground (
              arith,
              contains-runtime_node exited a,
              right_part owned exited (a - 136),
              apart (a - 136),
              far,
            ));
      distinct = c.distinct;
      waiting_owned = c.waiting_owned;
      are_ready = λ t i.
          let ne : t ≢ p = ground (arith, apart t, left_part owned exited t, c.waiting_owned t) in
          rw (others t ne) (c.are_ready t i);
      are_zombies = λ t i.
          let ne : t ≢ p = ground (arith, apart t, right_part owned exited t) in
          rw (others t ne) (c.are_zombies t i);
    }

pub Backed-holdings :
    (ps : ℕ) (w w' : World) (live live' : List ℕ) (taken : ℕ → Bool)
    → Backed ps w live taken
    → SameHoldings w w'
    → ((a : ℕ) → contains live' a ≡ contains live a)
    → length live' ≡ length live
    → Backed ps w' live' taken
Backed-holdings ps w w' live live' taken b s same len =
    Backed-same ps w w' live live' taken b
      (record {
        page = rw s.machine refl;
        mappings = λ a. rw s.machine refl;
        blocks = λ a. rw s.machine refl;
        accesses = λ q a used from below. rw s.machine refl;
        stacks = λ t i. (s.objects t).0;
        ids = λ t i. (s.objects t).1;
        counted = s.counted;
      })
      (rw s.ids b.pools) same len
