-- ===== src/Links/Queries.antt =====
-- What the queries of list.h answer about a well-formed list.
use green_threads.Base.{
  ℕ, ◌≡◌, ◌≢◌, true, false, List, [], ◌∷◌, ◌++◌, arith, last, first, Bool, contains-append,
}
use green_threads.Outcome.{ok}
use green_threads.Links.{node_init, update, Links, null, is_empty, front, back, node_is_linked}
use green_threads.Links.Seg.{◌∉◌}
use green_threads.Links.Ring.{IsRing}
use green_threads.Links.Laws.{head-links, node-links, last-ne-null, first-ne-null}

abbrev pub is_nil : List ℕ → Bool
is_nil [] = true
is_nil (x ∷ xs) = false

-- `gt_list_is_empty` says whether the list holds no node, and changes nothing.
pub is_empty_lem :
    (h : Links) (head : ℕ) (xs : List ℕ) → IsRing h head xs → is_empty head h ≡ ok (is_nil xs, h)
unfolding is_empty
is_empty_lem h head [] r = ground arith
is_empty_lem h head (x ∷ xs) r = ground (arith, head-links h head (x ∷ xs) r)

-- `gt_list_front` is the first node of the list, and NULL if there is none.
pub front_lem :
    (h : Links) (head : ℕ) (xs : List ℕ) → IsRing h head xs → front head h ≡ ok (first xs null, h)
unfolding front
front_lem h head [] r = ground (arith)
front_lem h head (x ∷ xs) r = ground (arith, head-links h head (x ∷ xs) r)

-- `gt_list_back` is the last node of the list, and NULL if there is none.
pub back_lem :
    (h : Links) (head : ℕ) (xs : List ℕ) → IsRing h head xs → back head h ≡ ok (last null xs, h)
unfolding back
back_lem h head [] r = ground arith
back_lem h head (x ∷ xs) r = ground (arith, head-links h head (x ∷ xs) r)

-- A node of a list is linked.
pub node_is_linked-mem :
    (h : Links) (head : ℕ) (xs ys : List ℕ) (node : ℕ)
    → IsRing h head (xs ++ node ∷ ys)
    → node_is_linked node h ≡ ok (true, h)
unfolding node_is_linked
node_is_linked-mem h head xs ys node r =
    let (e, f) = node-links h head xs ys node r in
    let out : (null ∉ head ∷ xs) × (null ∉ head ∷ ys) × (node ≢ null) =
      ground (arith, contains-append xs (node ∷ ys) null, r.not_null) in
    ground (arith, e, f, last-ne-null head xs out.0, first-ne-null head ys out.1)

-- A node whose links are cleared is not linked.
pub node_is_linked-detached :
    (h : Links) (node : ℕ)
    → node ≢ null
    → h.prev node ≡ null
    → node_is_linked node h ≡ ok (false, h)
unfolding node_is_linked
node_is_linked-detached h node ne e = ground arith

-- A node that gt_list_node_init has prepared is not linked.
pub node_is_linked-node_init :
    (h : Links) (node : ℕ)
    → node ≢ null
    → (g : Links) × (node_init node h ≡ ok (tt, g)) × (node_is_linked node g ≡ ok (false, g))
unfolding node_init
node_is_linked-node_init h node ne =
    let g : Links = record { prev = update h.prev node null; next = update h.next node null } in
    (g, ground arith, node_is_linked-detached g node ne (ground arith))
