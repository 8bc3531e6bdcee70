-- ===== src/Links/Seg.antt =====
-- About list.h: segments of a list, the nodes between two addresses, linked both ways.
use green_threads.Base.{
  ℕ, ◌≡◌, ◌≢◌, true, false, List, [], ◌∷◌, ◌++◌, arith, contains, Distinct, last, first,
  contains-last,
}
use green_threads.Links.{Links, update}

-- From `p` the `next` links lead through `xs` to `q`, and the `prev` links back.
abbrev pub Seg : Links → ℕ → List ℕ → ℕ → Type 0
Seg h p [] q = (h.next p ≡ q) × (h.prev q ≡ p)
Seg h p (x ∷ xs) q = (h.next p ≡ x) × (h.prev x ≡ p) × Seg h x xs q

infix 40 ◌∉◌ ◌∈◌
abbrev pub ◌∉◌ : ℕ → List ℕ → Type 0
a ∉ xs = contains xs a ≡ false

abbrev pub ◌∈◌ : ℕ → List ℕ → Type 0
a ∈ xs = contains xs a ≡ true

pub Seg-next : (h : Links) (p : ℕ) (xs : List ℕ) (q : ℕ) → Seg h p xs q → h.next p ≡ first xs q
Seg-next h p [] q s = s.0
Seg-next h p (x ∷ xs) q s = s.0

pub Seg-prev : (h : Links) (p : ℕ) (xs : List ℕ) (q : ℕ) → Seg h p xs q → h.prev q ≡ last p xs
Seg-prev h p [] q s = s.1
Seg-prev h p (x ∷ xs) q s = Seg-prev h x xs q s.2

-- A segment survives a change of other links.
pub Seg-frame :
    (h g : Links) (p : ℕ) (xs : List ℕ) (q : ℕ)
    → Seg h p xs q
    → ((a : ℕ) → a ∈ p ∷ xs → g.next a ≡ h.next a)
    → ((a : ℕ) → a ∈ xs → g.prev a ≡ h.prev a)
    → g.prev q ≡ h.prev q
    → Seg g p xs q
Seg-frame h g p [] q s same_next same_prev e = ground (arith, same_next p)
Seg-frame h g p (x ∷ xs) q s same_next same_prev e = (
  ground (arith, same_next p),
  ground (arith, same_prev x),
  Seg-frame h g x xs q s.2 (λ a i. same_next a (ground arith)) (λ a i. same_prev a (ground arith))
      e,
)

pub Seg-append :
    (h : Links) (p : ℕ) (xs : List ℕ) (y : ℕ) (ys : List ℕ) (q : ℕ)
    → Seg h p xs y
    → Seg h y ys q
    → Seg h p (xs ++ y ∷ ys) q
Seg-append h p [] y ys q s t = (s.0, s.1, t)
Seg-append h p (x ∷ xs) y ys q s t = (s.0, s.1, Seg-append h x xs y ys q s.2 t)

pub Seg-split :
    (h : Links) (p : ℕ) (xs : List ℕ) (y : ℕ) (ys : List ℕ) (q : ℕ)
    → Seg h p (xs ++ y ∷ ys) q
    → Seg h p xs y × Seg h y ys q
Seg-split h p [] y ys q s = ((s.0, s.1), s.2)
Seg-split h p (x ∷ xs) y ys q s = let (a, b) = Seg-split h x xs y ys q s.2 in ((s.0, s.1, a), b)

-- The links after `link node p n`.
abbrev pub linked : (node p n : ℕ) → Links → Links
linked node p n h = record {
  prev = update (update h.prev n node) node p;
  next = update (update h.next node n) p node;
}

-- The links after `unlink node` between `p` and `n`.
abbrev pub unlinked : (node p n : ℕ) → Links → Links
unlinked node p n h = record {
  prev = update (update h.prev n p) node 0;
  next = update (update h.next p n) node 0;
}

-- A node linked in front of the end of a segment is its new last node.
pub Seg-linked :
    (h : Links) (p : ℕ) (xs : List ℕ) (q node l : ℕ)
    → Seg h p xs q
    → l ≡ last p xs
    → Distinct (p ∷ xs)
    → q ∉ xs
    → node ∉ p ∷ xs
    → node ≢ q
    → Seg (linked node l q h) p (xs ++ node ∷ []) q
Seg-linked h p [] q node l s e d out new ne = ground arith
Seg-linked h p (x ∷ xs) q node l s e d out new ne = (
  ground (arith, contains-last x xs),
  ground arith,
  Seg-linked h x xs q node l s.2 e d.1 (ground arith) (ground arith) ne,
)

-- The end of a segment moves from `node` to its successor.
pub Seg-unlinked :
    (h : Links) (p : ℕ) (xs : List ℕ) (node n l : ℕ)
    → Seg h p xs node
    → l ≡ last p xs
    → Distinct (p ∷ xs)
    → node ∉ p ∷ xs
    → n ∉ xs
    → n ≢ node
    → Seg (unlinked node l n h) p xs n
Seg-unlinked h p [] node n l s e d new out ne = ground arith
Seg-unlinked h p (x ∷ xs) node n l s e d new out ne = (
  ground (arith, contains-last x xs),
  ground arith,
  Seg-unlinked h x xs node n l s.2 e d.1 (ground arith) (ground arith) ne,
)
