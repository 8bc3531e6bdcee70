-- ===== src/Links/Move.antt =====
-- About list.h: gt_list_move_front and gt_list_move_back.
use green_threads.Base.{ℕ, ◌≡◌, List, [], ◌∷◌, ◌++◌, arith, contains-append, Distinct-remove}
use green_threads.Outcome.{ok}
use green_threads.Links.{Links, null, remove, move_back, move_front}
use green_threads.Links.Seg.{◌∉◌, ◌∈◌}
use green_threads.Links.Ring.{IsRing, IsRing-frame}
use green_threads.Links.Laws.{remove-IsRing, push_back-IsRing, push_front-IsRing}

module _ (h : Links) (src dst : ℕ) (xs ys zs : List ℕ) (node : ℕ)
    (from : IsRing h src (xs ++ node ∷ ys)) (to : IsRing h dst zs)
    (apart : (a : ℕ) → a ∈ dst ∷ zs → a ∉ src ∷ xs ++ node ∷ ys) where
  not-mem_target : node ∉ null ∷ dst ∷ zs
  not-mem_target = ground (
    arith,
    apart node,
    contains-append (src ∷ xs) (node ∷ ys) node,
    contains-append (src ∷ xs) (node ∷ ys) null,
    from.not_null,
  )

  source_apart : (a : ℕ) → a ∈ src ∷ xs ++ ys → a ∉ node ∷ dst ∷ zs
  source_apart a i = ground (
    arith,
    apart a,
    Distinct-remove (src ∷ xs) ys node from.distinct,
    contains-append (src ∷ xs) (node ∷ ys) a,
    contains-append (src ∷ xs) ys a,
  )

  -- To the end of the other list.
  move_back-IsRing :
      (g : Links) × (move_back dst node h ≡ ok (tt, g))
      × IsRing g src (xs ++ ys)
      × IsRing g dst (zs ++ node ∷ [])
  unfolding move_back remove
  move_back-IsRing =
      let (k, ran, src', same, p, n) = remove-IsRing h src xs ys node from in
      let dst' = IsRing-frame h k dst zs (src ∷ xs ++ node ∷ ys) to same apart in
      let (g, ran', to', same') = push_back-IsRing k dst zs node dst' not-mem_target in
      (
        g,
        rw ran ran',
        IsRing-frame k g src (xs ++ ys) (node ∷ dst ∷ zs) src' same' source_apart,
        to',
      )

  -- To its front.
  move_front-IsRing :
      (g : Links) × (move_front dst node h ≡ ok (tt, g))
      × IsRing g src (xs ++ ys)
      × IsRing g dst (node ∷ zs)
  unfolding move_front remove
  move_front-IsRing =
      let (k, ran, src', same, p, n) = remove-IsRing h src xs ys node from in
      let dst' = IsRing-frame h k dst zs (src ∷ xs ++ node ∷ ys) to same apart in
      let (g, ran', to', same') = push_front-IsRing k dst zs node dst' not-mem_target in
      (
        g,
        rw ran ran',
        IsRing-frame k g src (xs ++ ys) (node ∷ dst ∷ zs) src' same' source_apart,
        to',
      )

  -- For two well-formed lists that share no address, gt_list_move_back and gt_list_move_front
  -- of a node of the one to the other take it out of the one, where the others keep their
  -- order, and put it behind the nodes of the other or before them.
  pub move-IsRing :
      ((g : Links) × (move_back dst node h ≡ ok (tt, g))
        × IsRing g src (xs ++ ys)
        × IsRing g dst (zs ++ node ∷ []))
      × ((g : Links) × (move_front dst node h ≡ ok (tt, g))
          × IsRing g src (xs ++ ys)
          × IsRing g dst (node ∷ zs))
  move-IsRing = (move_back-IsRing, move_front-IsRing)

module _ (h : Links) (head : ℕ) (xs ys : List ℕ) (node : ℕ)
    (r : IsRing h head (xs ++ node ∷ ys)) where
  not-mem_rest : node ∉ null ∷ head ∷ xs ++ ys
  not-mem_rest = ground (
    arith,
    Distinct-remove (head ∷ xs) ys node r.distinct,
    contains-append (head ∷ xs) (node ∷ ys) null,
    r.not_null,
  )

  -- Within one well-formed list gt_list_move_back makes the node the last and keeps the order
  -- of the others.
  pub move_back_self :
      (g : Links) × (move_back head node h ≡ ok (tt, g)) × IsRing g head ((xs ++ ys) ++ node ∷ [])
  unfolding move_back remove
  move_back_self =
      let (k, ran, rest, same, p, n) = remove-IsRing h head xs ys node r in
      let (g, ran', back, same') = push_back-IsRing k head (xs ++ ys) node rest not-mem_rest in
      (g, rw ran ran', back)

  -- Within one well-formed list gt_list_move_front makes the node the first and keeps the
  -- order of the others.
  pub move_front_self :
      (g : Links) × (move_front head node h ≡ ok (tt, g)) × IsRing g head (node ∷ xs ++ ys)
  unfolding move_front remove
  move_front_self =
      let (k, ran, rest, same, p, n) = remove-IsRing h head xs ys node r in
      let (g, ran', front, same') = push_front-IsRing k head (xs ++ ys) node rest not-mem_rest in
      (g, rw ran ran', front)
