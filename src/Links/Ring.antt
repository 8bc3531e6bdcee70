-- ===== src/Links/Ring.antt =====
-- About list.h: what it is that the list at `head` holds the nodes `xs`, and the links after a node is
-- put in or taken out.
use mathlib.Core.List.{append-nil, append_assoc}
use green_threads.Base.{
  ℕ, ◌≡◌, refl, List, [], ◌∷◌, ◌++◌, arith, Distinct, last, first, contains-append, contains-last,
  Distinct-append, Distinct-insert, Distinct-remove,
}
use green_threads.Links.{Links, null}
use green_threads.Links.Seg.{
  Seg, ◌∉◌, ◌∈◌, Seg-frame, Seg-append, Seg-split, Seg-linked, Seg-unlinked, linked, unlinked,
}

-- The list at `head` is well formed and holds `xs`, front first.
pub record IsRing (h : Links) (head : ℕ) (xs : List ℕ) : Type 0 where
  pub seg : Seg h head xs head
  pub distinct : Distinct (head ∷ xs)
  pub not_null : null ∉ head ∷ xs

-- `g` has the links of `h` at every address but those of `xs`.
abbrev pub SameOutside : List ℕ → Links → Links → Type 0
SameOutside xs h g = (a : ℕ) → a ∉ xs → (g.prev a ≡ h.prev a) × (g.next a ≡ h.next a)

pub IsRing-frame :
    (h g : Links) (head : ℕ) (xs touched : List ℕ)
    → IsRing h head xs
    → SameOutside touched h g
    → ((a : ℕ) → a ∈ head ∷ xs → a ∉ touched)
    → IsRing g head xs
IsRing-frame h g head xs touched r same apart = record {
  seg =
      Seg-frame h g head xs head r.seg (λ a i. (same a (apart a i)).1)
        (λ a i. (same a (apart a (ground arith))).0) (same head (apart head (ground arith))).0;
  distinct = r.distinct;
  not_null = r.not_null;
}

-- A new node between the last of `xs` and the first of `ys` stands in the segment there.
Seg-insert :
    (h : Links) (head : ℕ) (xs ys : List ℕ) (node : ℕ)
    → Seg h head (xs ++ ys) head
    → Distinct (head ∷ xs ++ ys)
    → node ∉ head ∷ xs ++ ys
    → Seg (linked node (last head xs) (first ys head) h) head (xs ++ node ∷ ys) head
Seg-insert h head xs [] node s d new =
    let s' : Seg h head xs head = rw append-nil at s in
    let d' : Distinct (head ∷ xs) = rw append-nil at d in
    let new' : node ∉ head ∷ xs = rw append-nil at new in
    Seg-linked h head xs head node (last head xs) s' refl d' d'.0 new' (ground arith)
Seg-insert h head xs (y ∷ ys) node s d new =
    let (before, after) = Seg-split h head xs y ys head s in
    let (dx, dy, apart) = Distinct-append (head ∷ xs) (y ∷ ys) d in
    let new' : (node ∉ head ∷ xs) × (node ∉ y ∷ ys) =
      ground (arith, contains-append (head ∷ xs) (y ∷ ys) node) in
    let g = linked node (last head xs) y h in
    rw (← append_assoc xs (node ∷ []) (y ∷ ys)) (
      Seg-append g head (xs ++ node ∷ []) y ys head
        (Seg-linked h head xs y node (last head xs) before refl dx (ground (arith, apart y)) new'.0
          (ground arith))
        (Seg-frame h g y ys head after
          (λ a i. ground (arith, apart (last head xs), contains-last head xs)) (λ a i. ground arith)
          (ground (arith, apart head))))

-- Linking a new node between two neighbours inserts it there.
pub IsRing-linked :
    (h : Links) (head : ℕ) (xs ys : List ℕ) (node : ℕ)
    → IsRing h head (xs ++ ys)
    → node ∉ null ∷ head ∷ xs ++ ys
    → IsRing (linked node (last head xs) (first ys head) h) head (xs ++ node ∷ ys)
IsRing-linked h head xs ys node r new = record {
  seg = Seg-insert h head xs ys node r.seg r.distinct (ground arith);
  distinct = Distinct-insert (head ∷ xs) ys node r.distinct (ground arith);
  not_null = ground (
    arith,
    contains-append (head ∷ xs) ys null,
    contains-append (head ∷ xs) (node ∷ ys) null,
    r.not_null,
  );
}

-- Without `node` the segment leads from its left to its right neighbour.
Seg-delete :
    (h : Links) (head : ℕ) (xs ys : List ℕ) (node : ℕ)
    → Seg h head (xs ++ node ∷ ys) head
    → Distinct (head ∷ xs ++ node ∷ ys)
    → Seg (unlinked node (last head xs) (first ys head) h) head (xs ++ ys) head
Seg-delete h head xs [] node s d =
    let (before, after) = Seg-split h head xs node [] head s in
    let (dx, dy, apart) = Distinct-append (head ∷ xs) (node ∷ []) d in
    rw append-nil (
      Seg-unlinked h head xs node head (last head xs) before refl dx (ground (arith, apart node))
        dx.0 (ground (arith, apart node)))
Seg-delete h head xs (y ∷ ys) node s d =
    let (before, after) = Seg-split h head xs node (y ∷ ys) head s in
    let (dx, dy, apart) = Distinct-append (head ∷ xs) (node ∷ y ∷ ys) d in
    let g = unlinked node (last head xs) y h in
    Seg-append g head xs y ys head
      (Seg-unlinked h head xs node y (last head xs) before refl dx (ground (arith, apart node))
        (ground (arith, apart y)) (ground arith))
      (Seg-frame h g y ys head after.2
        (λ a i. ground (arith, apart (last head xs), contains-last head xs)) (λ a i. ground arith)
        (ground (arith, apart head)))

-- Unlinking a node takes it out of its list.
pub IsRing-unlinked :
    (h : Links) (head : ℕ) (xs ys : List ℕ) (node : ℕ)
    → IsRing h head (xs ++ node ∷ ys)
    → IsRing (unlinked node (last head xs) (first ys head) h) head (xs ++ ys)
IsRing-unlinked h head xs ys node r = record {
  seg = Seg-delete h head xs ys node r.seg r.distinct;
  distinct = (Distinct-remove (head ∷ xs) ys node r.distinct).0;
  not_null = ground (
    arith,
    contains-append (head ∷ xs) ys null,
    contains-append (head ∷ xs) (node ∷ ys) null,
    r.not_null,
  );
}
