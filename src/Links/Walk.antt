-- ===== src/Links/Walk.antt =====
-- About list.h: the iteration macros on a well-formed list.
use green_threads.Base.{
  ℕ, zero, suc, ◌-◌, ◌≤◌, ◌<◌, ltb, false, if◌then◌else◌, ◌≡◌, ◌≢◌, refl, List, [], ◌∷◌, arith,
  first, length,
}
use green_threads.Outcome.{ok, fault}
use green_threads.Outcome.Cmd.{Cmd}
use green_threads.Links.{
  Links, null, remove, for_each_loop, for_each, for_each_entry, for_each_safe_loop, for_each_safe,
}
use green_threads.Links.Seg.{◌∈◌, ◌∉◌, Seg}
use green_threads.Links.Ring.{IsRing}
use green_threads.Links.Laws.{head-links, node-links, remove-IsRing, first-ne-null}

for_each_loop-Seg :
    (k : ℕ) (h : Links) (body : ℕ → Cmd Links (Unit {0})) (p : ℕ) (xs : List ℕ) (head : ℕ)
    → Seg h p xs head
    → head ∉ xs
    → null ∉ head ∷ xs
    → ((x : ℕ) → x ∈ xs → body x h ≡ ok (tt, h))
    → length xs < k
    → for_each_loop k head (h.next p) body h ≡ ok (xs, h)
unfolding for_each_loop
for_each_loop-Seg zero h body p xs head s out n still fuel = absurd (omega arith)
for_each_loop-Seg (suc k) h body p [] head s out n still fuel = ground arith
for_each_loop-Seg (suc k) h body p (x ∷ xs) head s out n still fuel =
    let rest =
      for_each_loop-Seg k h body x xs head s.2 (ground arith) (ground arith)
        (λ y i. still y (ground (arith, i))) (omega arith) in
    ground (arith, rest, still x (ground arith))

-- With more fuel than nodes, GT_LIST_FOR_EACH with a body that leaves the links alone ends and
-- visits every node of the well-formed list once in order.
pub for_each_lem :
    (fuel : ℕ) (h : Links) (body : ℕ → Cmd Links (Unit {0})) (head : ℕ) (xs : List ℕ)
    → IsRing h head xs
    → ((x : ℕ) → x ∈ xs → body x h ≡ ok (tt, h))
    → length xs < fuel
    → for_each fuel head body h ≡ ok (xs, h)
unfolding for_each
for_each_lem fuel h body head xs r still enough =
    ground (arith, for_each_loop-Seg fuel h body head xs head r.seg r.distinct.0 r.not_null still)

-- The same of GT_LIST_FOR_EACH_ENTRY, at the objects that contain the nodes.
pub for_each_entry_lem :
    (fuel offset : ℕ) (h : Links) (body : ℕ → Cmd Links (Unit {0})) (head : ℕ) (xs : List ℕ)
    → IsRing h head xs
    → ((x : ℕ) → x ∈ xs → (offset ≤ x) × (body (x - offset) h ≡ ok (tt, h)))
    → length xs < fuel
    → for_each_entry fuel head offset body h ≡ ok (xs, h)
unfolding for_each_entry
for_each_entry_lem fuel offset h body head xs r still enough =
    for_each_lem fuel h (λ node. if ltb node offset then (λ _. fault) else body (node - offset))
      head xs r
      (λ x i.
        let (le, ran) = still x i in
        let below : ltb x offset ≡ false = ground (arith, le) in rw (below, ran) refl)
      enough

-- The state of the safe walk: the cursors stand at the first two nodes of what is left.
for_each_safe_loop-remove :
    (k : ℕ) (h : Links) (head : ℕ) (xs : List ℕ) (pos nxt : ℕ)
    → IsRing h head xs
    → pos ≡ first xs head
    → nxt ≡ h.next pos
    → length xs < k
    → (g : Links) × (for_each_safe_loop k head pos nxt remove h ≡ ok (xs, g)) × IsRing g head []
unfolding for_each_safe_loop
for_each_safe_loop-remove zero h head xs pos nxt r e f fuel = absurd (omega arith)
for_each_safe_loop-remove (suc k) h head [] pos nxt r e f fuel = (h, ground arith, r)
for_each_safe_loop-remove (suc k) h head (x ∷ xs) pos nxt r e f fuel =
    let (m, ran, rest, same, p, n) = remove-IsRing h head [] xs x r in
    let at_next : nxt ≡ first xs head = ground (arith, node-links h head [] xs x r) in
    let ne : nxt ≢ null = λ z. first-ne-null head xs rest.not_null (ground arith) in
    let (g, ran', done) =
      for_each_safe_loop-remove k m head xs nxt (m.next nxt) rest at_next refl (omega arith) in
    (g, ground (arith, ran, ran'), done)

-- With more fuel than nodes, GT_LIST_FOR_EACH_SAFE with a body that removes the current node
-- ends, visits every node of the well-formed list once in order, and leaves the list empty.
pub for_each_safe-remove :
    (fuel : ℕ) (h : Links) (head : ℕ) (xs : List ℕ)
    → IsRing h head xs
    → length xs < fuel
    → (g : Links) × (for_each_safe fuel head remove h ≡ ok (xs, g)) × IsRing g head []
unfolding for_each_safe
for_each_safe-remove fuel h head xs r enough =
    let (e, f) = head-links h head xs r in
    let (g, ran, done) =
      for_each_safe_loop-remove fuel h head xs (h.next head) (h.next (h.next head)) r f refl
        enough in
    (g, ground (arith, ran, first-ne-null head xs r.not_null), done)
