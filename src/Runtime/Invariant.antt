-- ===== src/Runtime/Invariant.antt =====
-- The runtime's state against what it stands for: the tasks that wait to run, in order, those that
-- the runtime owns and those that have exited.
use native.Mathlib.Omega.{arith}
use green_threads.Base.{
  ℕ, ◌+◌, ◌-◌, ◌≤◌, ◌<◌, ◌≡◌, refl, ◌⊎◌, inl, inr, ◌&&◌, List, [], ◌∷◌, ◌++◌, map, contains, leb,
  contains-append, Distinct,
}
use green_threads.Links.Seg.{◌∈◌, ◌∉◌}
use green_threads.Links.Ring.{IsRing, SameOutside, IsRing-frame}
use green_threads.Platform.Interface.{Host}
use green_threads.World.{
  World, TaskState, RuntimeState, ready_node, runtime_node, scheduler_of, tasks_of, zombies_of,
}

pub contains-ready_node :
    (xs : List ℕ) (a : ℕ) → contains (map ready_node xs) a ≡ (leb 120 a && contains xs (a - 120))
contains-ready_node [] a = ground arith
contains-ready_node (x ∷ xs) a = ground (arith, contains-ready_node xs a)

pub contains-runtime_node :
    (xs : List ℕ) (a : ℕ) → contains (map runtime_node xs) a ≡ (leb 136 a && contains xs (a - 136))
contains-runtime_node [] a = ground arith
contains-runtime_node (x ∷ xs) a = ground (arith, contains-runtime_node xs a)

infix 40 ◌⊆◌
abbrev pub ◌⊆◌ : List ℕ → List ℕ → Type 0
xs ⊆ ys = (a : ℕ) → a ∈ xs → a ∈ ys

-- The objects of the tasks `live`, 152 bytes each, lie apart from one another and from the runtime
-- singleton, 12656 bytes.
pub record Layout (host : Host) (live : List ℕ) : Type 0 where
  pub placed : 0 < host.runtime
  pub far : (p : ℕ) → p ∈ live → (0 < p) × ((p + 152 ≤ host.runtime) ⊎ (host.runtime + 12656 ≤ p))
  pub separate : (p q : ℕ) → p ∈ live → q ∈ live → (p ≡ q) ⊎ ((p + 152 ≤ q) ⊎ (q + 152 ≤ p))

-- Two lists of tasks in the runtime's own lists, from the list heads `a` and `b`.
module _ (host : Host) (live xs ys : List ℕ) (l : Layout host live) (inx : xs ⊆ live)
    (iny : ys ⊆ live) where
  -- The nodes of the ready queue are none of a list of owned tasks.
  pub ready_apart :
      (head : ℕ)
      → (head ≡ tasks_of host) ⊎ (head ≡ zombies_of host)
      → (a : ℕ) → a ∈ head ∷ map runtime_node ys
      → a ∉ scheduler_of host ∷ map ready_node xs
  ready_apart head which a i = ground (
    arith,
    contains-runtime_node ys a,
    contains-ready_node xs a,
    inx (a - 120),
    iny (a - 136),
    l.far (a - 120),
    l.far (a - 136),
    l.separate (a - 120) (a - 136),
  )

  pub runtime_apart :
      (head : ℕ)
      → (head ≡ tasks_of host) ⊎ (head ≡ zombies_of host)
      → (a : ℕ) → a ∈ scheduler_of host ∷ map ready_node xs
      → a ∉ head ∷ map runtime_node ys
  runtime_apart head which a i = ground (arith, ready_apart head which a)

pub record IsConsistent (host : Host) (w : World) (waiting owned exited : List ℕ) : Type 0 where
  pub layout : Layout host (owned ++ exited)
  pub waiting_ring : IsRing w.links (scheduler_of host) (map ready_node waiting)
  pub owned_ring : IsRing w.links (tasks_of host) (map runtime_node owned)
  pub exited_ring : IsRing w.links (zombies_of host) (map runtime_node exited)
  pub distinct : Distinct (owned ++ exited)
  pub waiting_owned : waiting ⊆ owned
  pub are_ready : (t : ℕ) → t ∈ waiting → (w.tasks t).state ≡ TaskState.ready
  pub are_zombies : (t : ℕ) → t ∈ exited → (w.tasks t).state ≡ TaskState.zombie

-- A task is running: it is owned, does not wait, and every other owned task waits.
pub record IsRunning (host : Host) (w : World) (current : ℕ) (waiting owned exited : List ℕ)
    : Type 0 where
  pub consistent : IsConsistent host w waiting owned exited
  pub is_current : w.rt.current ≡ current
  pub current_owned : current ∈ owned
  pub current_apart : current ∉ waiting
  pub current_running : (w.tasks current).state ≡ TaskState.running
  pub phase : w.rt.state ≡ RuntimeState.running
  pub complete : (t : ℕ) → t ∈ owned → (t ≡ current) ⊎ (t ∈ waiting)

pub left_part : (xs ys : List ℕ) → xs ⊆ xs ++ ys
left_part xs ys a i = ground (arith, contains-append xs ys a)

pub right_part : (xs ys : List ℕ) → ys ⊆ xs ++ ys
right_part xs ys a i = ground (arith, contains-append xs ys a)

-- A change of the ready queue's links alone keeps the other lists.
pub waiting_change :
    (host : Host) (w w' : World) (waiting waiting' owned exited touched : List ℕ)
    → IsConsistent host w waiting owned exited
    → touched ⊆ owned
    → SameOutside (scheduler_of host ∷ map ready_node touched) w.links w'.links
    → IsRing w'.links (scheduler_of host) (map ready_node waiting')
    → waiting' ⊆ owned
    → ((t : ℕ) → t ∈ waiting' → (w'.tasks t).state ≡ TaskState.ready)
    → ((t : ℕ) → t ∈ exited → (w'.tasks t).state ≡ (w.tasks t).state)
    → IsConsistent host w' waiting' owned exited
waiting_change host w w' waiting waiting' owned exited touched c sub same ring own ready kept =
    record {
      layout = c.layout;
      waiting_ring = ring;
      owned_ring =
          IsRing-frame w.links w'.links (tasks_of host) (map runtime_node owned)
            (scheduler_of host ∷ map ready_node touched) c.owned_ring same
            (ready_apart host (owned ++ exited) touched owned c.layout
              (λ a i. left_part owned exited a (sub a i)) (left_part owned exited) (tasks_of host)
              (inl refl));
      exited_ring =
          IsRing-frame w.links w'.links (zombies_of host) (map runtime_node exited)
            (scheduler_of host ∷ map ready_node touched) c.exited_ring same
            (ready_apart host (owned ++ exited) touched exited c.layout
              (λ a i. left_part owned exited a (sub a i)) (right_part owned exited)
              (zombies_of host) (inr refl));
      distinct = c.distinct;
      waiting_owned = own;
      are_ready = ready;
      are_zombies = λ t i. ground (arith, kept t, c.are_zombies t);
    }
