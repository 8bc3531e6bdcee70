-- ===== src/Runtime/Execution/Exit/Move.antt =====
-- About runtime_execution.c: an exiting task's node between the owned and the exited tasks.
use mathlib.Core.List.{map-append, append_assoc, append-nil}
use green_threads.Base.{
  ℕ, ◌+◌, ◌-◌, ◌≡◌, refl, List, [], ◌∷◌, ◌++◌, map, arith, inr, contains-append, Distinct,
  Distinct-insert, Distinct-remove,
}
use green_threads.Outcome.{ok}
use green_threads.Links
use green_threads.Links.{Links, null}
use green_threads.Links.Seg.{◌∈◌, ◌∉◌}
use green_threads.Links.Ring.{IsRing, SameOutside, IsRing-frame}
use green_threads.Links.Laws.{remove-IsRing, push_back-IsRing}
use green_threads.Platform.Interface.{Host}
use green_threads.World.{World, ready_node, runtime_node, scheduler_of, tasks_of, zombies_of}
use green_threads.Runtime.Invariant.{
  IsConsistent, Layout, ◌⊆◌, runtime_apart, contains-runtime_node,
}

-- The nodes of two lists of tasks in the runtime's own lists lie apart.
module _ (host : Host) (live xs ys : List ℕ) (l : Layout host live) (inx : xs ⊆ live)
    (iny : ys ⊆ live) (apart : (a : ℕ) → a ∈ xs → a ∉ ys) where
  pub exited_apart :
      (a : ℕ) → a ∈ zombies_of host ∷ map runtime_node ys → a ∉ tasks_of host ∷ map runtime_node xs
  exited_apart a i = ground (
    arith,
    contains-runtime_node ys a,
    contains-runtime_node xs a,
    inx (a - 136),
    iny (a - 136),
    apart (a - 136),
    l.far (a - 136),
  )

  pub owned_apart :
      (a : ℕ) → a ∈ tasks_of host ∷ map runtime_node xs → a ∉ zombies_of host ∷ map runtime_node ys
  owned_apart a i = ground (arith, exited_apart a)

-- `runtime_node` tells the addresses of objects apart.
runtime_node-out :
    (host : Host) (live xs : List ℕ) (c : ℕ)
    → Layout host live
    → c ∈ live
    → c ∉ xs
    → runtime_node c ∉ null ∷ zombies_of host ∷ map runtime_node xs
runtime_node-out host live xs c l i out =
    ground (arith, contains-runtime_node xs (c + 136), l.far c i)

-- Unlinking the node of the task `c` keeps the other two lists.
pub left_owned :
    (host : Host) (w : World) (c : ℕ) (waiting os os' exited : List ℕ)
    → IsConsistent host w waiting (os ++ c ∷ os') exited
    → (g : Links) × (Links.remove (runtime_node c) w.links ≡ ok (tt, g))
      × IsRing g (tasks_of host) (map runtime_node (os ++ os'))
      × SameOutside (tasks_of host ∷ map runtime_node (os ++ c ∷ os')) w.links g
left_owned host w c waiting os os' exited k =
    let (g, ran, ring, same, p, n) =
      remove-IsRing w.links (tasks_of host) (map runtime_node os) (map runtime_node os')
        (runtime_node c) (rw map-append at k.owned_ring) in
    (
      g,
      ran,
      rw (map-append runtime_node os os') ring,
      λ a out. same a (rw (map-append runtime_node os (c ∷ os')) at out),
    )

module _ (host : Host) (g : Links) (live waiting os os' exited : List ℕ) (c : ℕ)
    (l : Layout host live) (in_os : os ++ c ∷ os' ⊆ live) (in_exited : exited ⊆ live)
    (in_waiting : waiting ⊆ live) (apart : (a : ℕ) → a ∈ os ++ c ∷ os' → a ∉ exited)
    (once : c ∉ os ++ os') where
  kept_os : os ++ os' ⊆ os ++ c ∷ os'
  kept_os a i = ground (arith, contains-append os os' a, contains-append os (c ∷ os') a)

  own : c ∈ os ++ c ∷ os'
  own = ground (arith, contains-append os (c ∷ os') c)

  -- Linking it to the exited ones keeps the other two lists.
  pub joined_exited :
      IsRing g (tasks_of host) (map runtime_node (os ++ os'))
      → IsRing g (zombies_of host) (map runtime_node exited)
      → IsRing g (scheduler_of host) (map ready_node waiting)
      → (h : Links) × (Links.push_back (zombies_of host) (runtime_node c) g ≡ ok (tt, h))
        × IsRing h (tasks_of host) (map runtime_node (os ++ os'))
        × IsRing h (zombies_of host) (map runtime_node (exited ++ c ∷ []))
        × IsRing h (scheduler_of host) (map ready_node waiting)
  joined_exited ro re rw' =
      let (h, ran, ring, same) =
        push_back-IsRing g (zombies_of host) (map runtime_node exited) (runtime_node c) re
          (runtime_node-out host live exited c l (in_os c own) (apart c own)) in
      let same' : SameOutside (zombies_of host ∷ map runtime_node (c ∷ exited)) g h =
        λ a out. same a (ground arith) in
      let in' : c ∷ exited ⊆ live = λ a i. ground (arith, in_exited a, in_os c own) in
      (
        h,
        ran,
        IsRing-frame g h (tasks_of host) (map runtime_node (os ++ os'))
            (zombies_of host ∷ map runtime_node (c ∷ exited)) ro same'
            (owned_apart host live (os ++ os') (c ∷ exited) l (λ a i. in_os a (kept_os a i)) in'
              (λ a i. ground (arith, apart a, kept_os a i))),
        rw (map-append runtime_node exited (c ∷ [])) ring,
        IsRing-frame g h (scheduler_of host) (map ready_node waiting)
            (zombies_of host ∷ map runtime_node (c ∷ exited)) rw' same'
            (runtime_apart host live waiting (c ∷ exited) l in_waiting in' (zombies_of host)
              (inr refl)),
      )

-- The tasks stay distinct.
pub Distinct-moved :
    (os os' exited : List ℕ) (c : ℕ)
    → Distinct ((os ++ c ∷ os') ++ exited)
    → Distinct ((os ++ os') ++ (exited ++ c ∷ [])) × (c ∉ os ++ os') × (c ∉ exited)
Distinct-moved os os' exited c d =
    let (d', out) = Distinct-remove os (os' ++ exited) c (rw append_assoc at d) in
    let all : Distinct (((os ++ os') ++ exited) ++ c ∷ []) =
      Distinct-insert ((os ++ os') ++ exited) [] c (rw (append-nil, append_assoc) d')
        (rw (append-nil, append_assoc) out) in
    (
      rw append_assoc at all,
      ground (
        arith,
        out,
        contains-append os (os' ++ exited) c,
        contains-append os' exited c,
        contains-append os os' c,
      ),
      ground (arith, out, contains-append os (os' ++ exited) c, contains-append os' exited c),
    )

pub moved_part :
    (os os' exited : List ℕ) (c : ℕ) → (os ++ os') ++ (exited ++ c ∷ []) ⊆ (os ++ c ∷ os') ++ exited
moved_part os os' exited c a i = ground (
  arith,
  contains-append (os ++ os') (exited ++ c ∷ []) a,
  contains-append os os' a,
  contains-append exited (c ∷ []) a,
  contains-append (os ++ c ∷ os') exited a,
  contains-append os (c ∷ os') a,
)
