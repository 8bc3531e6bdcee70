-- ===== src/Links/Laws.antt =====
-- What the operations of list.h do to a well-formed list.
use green_threads.Base.{
  ℕ, ◌≡◌, ◌≢◌, refl, List, [], ◌∷◌, ◌++◌, arith, last, first, contains-append, contains-last,
}
use mathlib.Core.List.{append-nil, append_assoc}
use green_threads.Outcome.{ok, fault}
use green_threads.Outcome.Cmd.{Cmd}
use green_threads.Links.{
  Links, null, update, link, unlink, insert_before, insert_after, push_back, push_front, remove,
  init,
}
use green_threads.Links.Seg.{◌∉◌, Seg-next, Seg-prev, linked, unlinked, Seg-split}
use green_threads.Links.Ring.{IsRing, SameOutside, IsRing-linked, IsRing-unlinked}

insert_before-linked :
    (h : Links) (pos node l : ℕ)
    → pos ≢ null
    → node ≢ null
    → l ≢ null
    → h.prev pos ≡ l
    → insert_before pos node h ≡ ok (tt, linked node l pos h)
unfolding insert_before link
insert_before-linked h pos node l a b c e = ground arith

insert_after-linked :
    (h : Links) (pos node n : ℕ)
    → pos ≢ null
    → node ≢ null
    → n ≢ null
    → h.next pos ≡ n
    → insert_after pos node h ≡ ok (tt, linked node pos n h)
unfolding insert_after link
insert_after-linked h pos node n a b c e = ground arith

pub unlink-unlinked :
    (h : Links) (node l n : ℕ)
    → node ≢ null
    → l ≢ null
    → n ≢ null
    → h.prev node ≡ l
    → h.next node ≡ n
    → unlink node h ≡ ok (tt, unlinked node l n h)
unfolding unlink
unlink-unlinked h node l n a b c e f = ground arith

-- Removing a node that is in no list goes through its cleared links, and faults.
pub unlink-detached : (h : Links) (node : ℕ) → h.next node ≡ null → unlink node h ≡ fault
unfolding unlink
unlink-detached h node e = ground arith

-- The ends of a list, from its head node.
pub head-links :
    (h : Links) (head : ℕ) (xs : List ℕ)
    → IsRing h head xs
    → (h.prev head ≡ last head xs) × (h.next head ≡ first xs head)
head-links h head xs r = (Seg-prev h head xs head r.seg, Seg-next h head xs head r.seg)

pub last-ne-null : (p : ℕ) (xs : List ℕ) → null ∉ p ∷ xs → last p xs ≢ null
last-ne-null p xs n e = ground (arith, contains-last p xs)

pub first-ne-null : (q : ℕ) (xs : List ℕ) → null ∉ q ∷ xs → first xs q ≢ null
first-ne-null q [] n e = ground arith
first-ne-null q (x ∷ xs) n e = ground arith

last-append : (p : ℕ) (xs : List ℕ) (y : ℕ) → last p (xs ++ y ∷ []) ≡ y
last-append p [] y = refl
last-append p (x ∷ xs) y = last-append x xs y

-- The neighbours of a node in a list.
pub node-links :
    (h : Links) (head : ℕ) (xs ys : List ℕ) (node : ℕ)
    → IsRing h head (xs ++ node ∷ ys)
    → (h.prev node ≡ last head xs) × (h.next node ≡ first ys head)
node-links h head xs ys node r =
    let (before, after) = Seg-split h head xs node ys head r.seg in
    (Seg-prev h head xs node before, Seg-next h node ys head after)

linked-SameOutside :
    (h : Links) (head : ℕ) (xs ys : List ℕ) (node : ℕ)
    → SameOutside (node ∷ head ∷ xs ++ ys) h (linked node (last head xs) (first ys head) h)
linked-SameOutside h head xs [] node a out =
    ground (arith, contains-last head xs, contains-append (head ∷ xs) [] (last head xs))
linked-SameOutside h head xs (y ∷ ys) node a out = ground (
  arith,
  contains-last head xs,
  contains-append (head ∷ xs) (y ∷ ys) (last head xs),
  contains-append (head ∷ xs) (y ∷ ys) y,
)

unlinked-SameOutside :
    (h : Links) (head : ℕ) (xs ys : List ℕ) (node : ℕ)
    → SameOutside (head ∷ xs ++ node ∷ ys) h (unlinked node (last head xs) (first ys head) h)
unlinked-SameOutside h head xs [] node a out = ground (
  arith,
  contains-last head xs,
  contains-append (head ∷ xs) (node ∷ []) (last head xs),
  contains-append (head ∷ xs) (node ∷ []) node,
)
unlinked-SameOutside h head xs (y ∷ ys) node a out = ground (
  arith,
  contains-last head xs,
  contains-append (head ∷ xs) (node ∷ y ∷ ys) (last head xs),
  contains-append (head ∷ xs) (node ∷ y ∷ ys) node,
  contains-append (head ∷ xs) (node ∷ y ∷ ys) y,
)

-- A run that returns, leaves `ys` in the list at `head`, and changes no link outside `touched`.
abbrev pub Yields : Cmd Links (Unit {0}) → Links → ℕ → List ℕ → List ℕ → Type 0
Yields m h head ys touched =
    (g : Links) × (m h ≡ ok (tt, g)) × IsRing g head ys × SameOutside touched h g

module _ (h : Links) (head : ℕ) (xs ys : List ℕ) (node : ℕ) (r : IsRing h head (xs ++ ys))
    (new : node ∉ null ∷ head ∷ xs ++ ys) where
  insert_between :
      (m : Cmd Links (Unit {0}))
      → m h ≡ ok (tt, linked node (last head xs) (first ys head) h)
      → Yields m h head (xs ++ node ∷ ys) (node ∷ head ∷ xs ++ ys)
  insert_between m e = (
    linked node (last head xs) (first ys head) h,
    e,
    IsRing-linked h head xs ys node r new,
    linked-SameOutside h head xs ys node,
  )

-- `gt_list_init` makes an empty list, whatever the links were.
pub init-IsRing : (h : Links) (head : ℕ) → head ≢ null → Yields (init head) h head [] (head ∷ [])
unfolding init
init-IsRing h head ne = (
  record { prev = update h.prev head head; next = update h.next head head },
  ground arith,
  ground arith,
  λ a out. ground arith,
)

-- At the end of the list.
pub push_back-IsRing :
    (h : Links) (head : ℕ) (xs : List ℕ) (node : ℕ)
    → IsRing h head xs
    → node ∉ null ∷ head ∷ xs
    → Yields (push_back head node) h head (xs ++ node ∷ []) (node ∷ head ∷ xs)
unfolding push_back
push_back-IsRing h head xs node r new = rw append-nil at (
    insert_between h head xs [] node (rw append-nil r) (rw append-nil new) (push_back head node) (
      insert_before-linked h head node (last head xs) (ground arith) (ground arith)
        (last-ne-null head xs r.not_null) (head-links h head xs r).0))

-- At its front.
pub push_front-IsRing :
    (h : Links) (head : ℕ) (xs : List ℕ) (node : ℕ)
    → IsRing h head xs
    → node ∉ null ∷ head ∷ xs
    → Yields (push_front head node) h head (node ∷ xs) (node ∷ head ∷ xs)
unfolding push_front
push_front-IsRing h head xs node r new =
    insert_between h head [] xs node r new (push_front head node) (
      insert_after-linked h head node (first xs head) (ground arith) (ground arith)
        (first-ne-null head xs r.not_null) (head-links h head xs r).1)

-- gt_list_push_back and gt_list_push_front, of a node that is neither NULL, nor the head, nor
-- in the well-formed list, add it behind the others or before them, and change no link outside
-- the list and the node.
pub push-IsRing :
    (h : Links) (head : ℕ) (xs : List ℕ) (node : ℕ)
    → IsRing h head xs
    → node ∉ null ∷ head ∷ xs
    → Yields (push_back head node) h head (xs ++ node ∷ []) (node ∷ head ∷ xs)
      × Yields (push_front head node) h head (node ∷ xs) (node ∷ head ∷ xs)
push-IsRing h head xs node r new =
    (push_back-IsRing h head xs node r new, push_front-IsRing h head xs node r new)

-- gt_list_remove of a node of a well-formed list leaves a well-formed list of the other nodes
-- in their order, clears the links of the node, and changes no link outside the list.
pub remove-IsRing :
    (h : Links) (head : ℕ) (xs ys : List ℕ) (node : ℕ)
    → IsRing h head (xs ++ node ∷ ys)
    → (g : Links) × (remove node h ≡ ok (tt, g))
      × IsRing g head (xs ++ ys)
      × SameOutside (head ∷ xs ++ node ∷ ys) h g
      × (g.prev node ≡ null)
      × (g.next node ≡ null)
unfolding remove
remove-IsRing h head xs ys node r =
    let (e, f) = node-links h head xs ys node r in
    let out : (null ∉ head ∷ xs) × (null ∉ head ∷ ys) × (node ≢ null) =
      ground (arith, contains-append xs (node ∷ ys) null, r.not_null) in
    (
      unlinked node (last head xs) (first ys head) h,
      unlink-unlinked h node (last head xs) (first ys head) out.2 (last-ne-null head xs out.0)
          (first-ne-null head ys out.1) e f,
      IsRing-unlinked h head xs ys node r,
      unlinked-SameOutside h head xs ys node,
      ground arith,
      ground arith,
    )

-- gt_list_insert_before puts a node that is neither NULL, nor the head, nor in the well-formed
-- list directly before the given node of the list, and changes no link outside the list and the
-- node.
pub insert_before-IsRing :
    (h : Links) (head : ℕ) (xs ys : List ℕ) (pos node : ℕ)
    → IsRing h head (xs ++ pos ∷ ys)
    → node ∉ null ∷ head ∷ xs ++ pos ∷ ys
    → Yields (insert_before pos node) h head (xs ++ node ∷ pos ∷ ys) (node ∷ head ∷ xs ++ pos ∷ ys)
insert_before-IsRing h head xs ys pos node r new =
    let (e, f) = node-links h head xs ys pos r in
    let out : (null ∉ head ∷ xs) × (pos ≢ null) =
      ground (arith, contains-append xs (pos ∷ ys) null, r.not_null) in
    insert_between h head xs (pos ∷ ys) node r new (insert_before pos node) (
      insert_before-linked h pos node (last head xs) out.1 (ground arith)
        (last-ne-null head xs out.0) e)

-- gt_list_insert_after puts a node that is neither NULL, nor the head, nor in the well-formed
-- list directly behind the given node of the list, and changes no link outside the list and the
-- node.
pub insert_after-IsRing :
    (h : Links) (head : ℕ) (xs ys : List ℕ) (pos node : ℕ)
    → IsRing h head (xs ++ pos ∷ ys)
    → node ∉ null ∷ head ∷ xs ++ pos ∷ ys
    → Yields (insert_after pos node) h head (xs ++ pos ∷ node ∷ ys) (node ∷ head ∷ xs ++ pos ∷ ys)
insert_after-IsRing h head xs ys pos node r new =
    let (e, f) = node-links h head xs ys pos r in
    let out : (null ∉ head ∷ ys) × (pos ≢ null) =
      ground (arith, contains-append xs (pos ∷ ys) null, r.not_null) in
    let at_end = append_assoc xs (pos ∷ []) ys in
    let whole = append_assoc xs (pos ∷ []) (node ∷ ys) in
    rw (whole, at_end) at
      (insert_between h head (xs ++ pos ∷ []) ys node (rw at_end r) (rw at_end new)
        (insert_after pos node)
        (rw (last-append head xs pos) (
          insert_after-linked h pos node (first ys head) out.1 (ground arith)
            (first-ne-null head ys out.0) f)))
