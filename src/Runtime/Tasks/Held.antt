-- ===== src/Runtime/Tasks/Held.antt =====
-- About runtime_task.c: the runtime's two lists of tasks while tasks are destroyed.
use green_threads.Base.{
  ℕ, ◌-◌, ◌≡◌, refl, ◌⊎◌, inl, inr, List, [], ◌∷◌, ◌++◌, map, arith, contains-append, Distinct,
  Distinct-append, Distinct-remove,
}
use green_threads.Outcome.{ok}
use green_threads.Links
use green_threads.Links.{Links, null}
use green_threads.Links.Seg.{◌∈◌, ◌∉◌}
use green_threads.Links.Ring.{IsRing, SameOutside, IsRing-frame}
use green_threads.Links.Laws.{remove-IsRing}
use green_threads.Platform.Interface.{Host}
use green_threads.Task.{clear_node}
use green_threads.World.{World, ready_node, runtime_node, scheduler_of, tasks_of, zombies_of}
use green_threads.Runtime.Invariant.{
  IsConsistent, Layout, contains-ready_node, contains-runtime_node, ◌⊆◌, left_part, right_part,
}
use green_threads.Runtime.Execution.Exit.Move.{exited_apart, owned_apart}

-- The owned and the exited tasks in their lists, whatever waits.
pub record Held (host : Host) (h : Links) (owned exited : List ℕ) : Type 0 where
  pub layout : Layout host (owned ++ exited)
  pub owned_ring : IsRing h (tasks_of host) (map runtime_node owned)
  pub exited_ring : IsRing h (zombies_of host) (map runtime_node exited)
  pub distinct : Distinct (owned ++ exited)

pub IsConsistent-Held :
    (host : Host) (w : World) (waiting owned exited : List ℕ)
    → IsConsistent host w waiting owned exited
    → Held host w.links owned exited
IsConsistent-Held host w waiting owned exited c = record {
  layout = c.layout;
  owned_ring = c.owned_ring;
  exited_ring = c.exited_ring;
  distinct = c.distinct;
}

-- The links once the nodes of the object `t` are cleared.
abbrev pub clear_both : ℕ → Links → Links
clear_both t h = clear_node (runtime_node t) (clear_node (ready_node t) h)

clear_both-SameOutside :
    (t : ℕ) (h : Links) → SameOutside (ready_node t ∷ runtime_node t ∷ []) h (clear_both t h)
clear_both-SameOutside t h a out = ground (arith, out)

-- A ring of runtime nodes without the task `t`, whose nodes are cleared.
module _ (host : Host) (g : Links) (live xs : List ℕ) (t head : ℕ) (l : Layout host live)
    (i : t ∈ live) (inx : xs ⊆ live) (out : t ∉ xs) where
  runtime_cleared :
      (head ≡ tasks_of host) ⊎ (head ≡ zombies_of host)
      → IsRing g head (map runtime_node xs)
      → IsRing (clear_both t g) head (map runtime_node xs)
  runtime_cleared which r =
      IsRing-frame g (clear_both t g) head (map runtime_node xs)
        (ready_node t ∷ runtime_node t ∷ []) r (clear_both-SameOutside t g)
        (λ a j. ground (
          arith,
          which,
          contains-runtime_node xs a,
          inx (a - 136),
          l.far t,
          l.separate t (a - 136),
        ))

  pub ready_cleared :
      IsRing g (scheduler_of host) (map ready_node xs)
      → IsRing (clear_both t g) (scheduler_of host) (map ready_node xs)
  ready_cleared r =
      IsRing-frame g (clear_both t g) (scheduler_of host) (map ready_node xs)
        (ready_node t ∷ runtime_node t ∷ []) r (clear_both-SameOutside t g)
        (λ a j.
          ground (arith, contains-ready_node xs a, inx (a - 120), l.far t, l.separate t (a - 120)))

Layout-part :
    (host : Host) (live live' : List ℕ) → Layout host live → live' ⊆ live → Layout host live'
Layout-part host live live' l sub = record {
  placed = l.placed;
  far = λ p i. l.far p (sub p i);
  separate = λ p q i j. l.separate p q (sub p i) (sub q j);
}

-- The first of the exited tasks leaves.
pub Held-exited :
    (host : Host) (h : Links) (t : ℕ) (owned exited : List ℕ)
    → Held host h owned (t ∷ exited)
    → (g : Links) × (Links.remove (runtime_node t) h ≡ ok (tt, g))
      × Held host (clear_both t g) owned exited
      × SameOutside (zombies_of host ∷ map runtime_node (t ∷ exited)) h g
Held-exited host h t owned exited c =
    let live = owned ++ t ∷ exited in
    let (d1, d2, apart) = Distinct-append owned (t ∷ exited) c.distinct in
    let (g, ran, ring, same, p, n) =
      remove-IsRing h (zombies_of host) [] (map runtime_node exited) (runtime_node t)
        c.exited_ring in
    let ro =
      IsRing-frame h g (tasks_of host) (map runtime_node owned)
        (zombies_of host ∷ map runtime_node (t ∷ exited)) c.owned_ring same
        (owned_apart host live owned (t ∷ exited) c.layout (left_part owned (t ∷ exited))
          (right_part owned (t ∷ exited)) apart) in
    let i : t ∈ live = ground (arith, right_part owned (t ∷ exited) t) in
    let more : exited ⊆ live = λ a j. ground (arith, right_part owned (t ∷ exited) a) in
    (
      g,
      ran,
      record {
        layout = Layout-part host live (owned ++ exited) c.layout (λ a j.
            ground (arith, contains-append owned exited a, contains-append owned (t ∷ exited) a));
        owned_ring =
            runtime_cleared host g live owned t (tasks_of host) c.layout i
              (left_part owned (t ∷ exited)) (ground (arith, apart t)) (inl refl) ro;
        exited_ring =
            runtime_cleared host g live exited t (zombies_of host) c.layout i more d2.0 (inr refl)
              ring;
        distinct = (Distinct-remove owned exited t c.distinct).0;
      },
      same,
    )

-- The first of the owned tasks leaves.
pub Held-owned :
    (host : Host) (h : Links) (t : ℕ) (owned exited : List ℕ)
    → Held host h (t ∷ owned) exited
    → (g : Links) × (Links.remove (runtime_node t) h ≡ ok (tt, g))
      × Held host (clear_both t g) owned exited
Held-owned host h t owned exited c =
    let live = (t ∷ owned) ++ exited in
    let (d1, d2, apart) = Distinct-append (t ∷ owned) exited c.distinct in
    let (g, ran, ring, same, p, n) =
      remove-IsRing h (tasks_of host) [] (map runtime_node owned) (runtime_node t) c.owned_ring in
    let re =
      IsRing-frame h g (zombies_of host) (map runtime_node exited)
        (tasks_of host ∷ map runtime_node (t ∷ owned)) c.exited_ring same
        (exited_apart host live (t ∷ owned) exited c.layout (left_part (t ∷ owned) exited)
          (right_part (t ∷ owned) exited) apart) in
    let i : t ∈ live = ground arith in
    let more : owned ⊆ live = λ a j. ground (arith, left_part (t ∷ owned) exited a) in
    (
      g,
      ran,
      record {
        layout = Layout-part host live (owned ++ exited) c.layout (λ a j. ground arith);
        owned_ring =
            runtime_cleared host g live owned t (tasks_of host) c.layout i more d1.0 (inl refl)
              ring;
        exited_ring =
            runtime_cleared host g live exited t (zombies_of host) c.layout i
              (right_part (t ∷ owned) exited) (ground (arith, apart t)) (inr refl) re;
        distinct = c.distinct.1;
      },
    )
