-- ===== src/Queue/Laws.antt =====
-- About queue.h: its operations on a well-formed queue, and a client of the queue against one of a
-- plain list.
use green_threads.Base.{
  ℕ, ◌≡◌, ◌≢◌, refl, List, [], ◌∷◌, ◌++◌, arith, first, false, true, contains, Option, none, some,
  Bool-cases, inl, inr,
}
use green_threads.Outcome.{ok, panic}
use green_threads.Outcome.Cmd.{Cmd, pure, ◌>>=◌, ◌>>◌}
use green_threads.Links.{Links, null}
use green_threads.Links.Seg.{◌∉◌}
use green_threads.Links.Ring.{IsRing, SameOutside}
use green_threads.Links.Laws.{Yields, init-IsRing, push_back-IsRing, remove-IsRing}
use green_threads.Links.Queries.{is_nil, is_empty_lem, front_lem}
use green_threads.Queue

-- A call on the NULL queue is stopped by the assertion, whatever the operation.
pub enqueue-null : (h : Links) (node : ℕ) → Queue.enqueue null node h ≡ panic "q != NULL"
unfolding Queue.enqueue
enqueue-null h node = refl

pub init-empty : (h : Links) (q : ℕ) → q ≢ null → Yields (Queue.init q) h q [] (q ∷ [])
unfolding Queue.init
init-empty h q ne = let (g, ran, r, same) = init-IsRing h q ne in (g, ground (arith, ran), r, same)

pub is_empty-is_nil :
    (h : Links) (q : ℕ) (xs : List ℕ) → IsRing h q xs → Queue.is_empty q h ≡ ok (is_nil xs, h)
unfolding Queue.is_empty
is_empty-is_nil h q xs r = ground (arith, is_empty_lem h q xs r, r.not_null)

pub peek-first :
    (h : Links) (q : ℕ) (xs : List ℕ) → IsRing h q xs → Queue.peek q h ≡ ok (first xs null, h)
unfolding Queue.peek
peek-first h q xs r = ground (arith, front_lem h q xs r, r.not_null)

pub enqueue-append :
    (h : Links) (q : ℕ) (xs : List ℕ) (node : ℕ)
    → IsRing h q xs
    → node ∉ null ∷ q ∷ xs
    → Yields (Queue.enqueue q node) h q (xs ++ node ∷ []) (node ∷ q ∷ xs)
unfolding Queue.enqueue
enqueue-append h q xs node r new =
    let (g, ran, r', same) = push_back-IsRing h q xs node r new in
    (g, ground (arith, ran, r.not_null), r', same)

pub dequeue-nil : (h : Links) (q : ℕ) → IsRing h q [] → Queue.dequeue q h ≡ ok (null, h)
unfolding Queue.dequeue
dequeue-nil h q r = ground (arith, front_lem h q [] r, r.not_null)

pub dequeue-cons :
    (h : Links) (q x : ℕ) (xs : List ℕ)
    → IsRing h q (x ∷ xs)
    → (g : Links) × (Queue.dequeue q h ≡ ok (x, g))
      × IsRing g q xs
      × SameOutside (q ∷ x ∷ xs) h g
      × (g.prev x ≡ null)
      × (g.next x ≡ null)
unfolding Queue.dequeue
dequeue-cons h q x xs r =
    let (g, ran, r', same, p, n) = remove-IsRing h q [] xs x r in
    (g, ground (arith, front_lem h q (x ∷ xs) r, ran, r.not_null), r', same, p, n)

pub data Request : Type 0 where
  put : ℕ → Request
  take : Request

-- A client: the nodes that it gets back, NULL where the queue was empty.
pub serve : ℕ → List Request → Cmd Links (List ℕ)
serve q [] = pure []
serve q (put node ∷ rs) = do Queue.enqueue q node; serve q rs
serve q (take ∷ rs) = do node ← Queue.dequeue q; nodes ← serve q rs; pure (node ∷ nodes)

-- The same client of a plain list. A node that is NULL, the queue itself or still in the queue
-- must not be put.
pub record Served : Type 0 where
  pub got : List ℕ
  pub left : List ℕ

abbrev got_first : ℕ → Option Served → Option Served
got_first x none = none
got_first x (some r) = some (record r { got = x ∷ r.got })

unfoldable pub serve_list : ℕ → List Request → List ℕ → Option Served
serve_list q [] xs = some (record { got = []; left = xs })
serve_list q (put node ∷ rs) xs = elim (contains (null ∷ q ∷ xs) node) [
  | true ↦ none
  | false ↦ serve_list q rs (xs ++ node ∷ [])
]
serve_list q (take ∷ rs) [] = got_first null (serve_list q rs [])
serve_list q (take ∷ rs) (x ∷ xs) = got_first x (serve_list q rs xs)

got_first-some :
    (x : ℕ) (o : Option Served) (s : Served)
    → got_first x o ≡ some s
    → (t : Served) × (o ≡ some t) × (s ≡ record t { got = x ∷ t.got })
got_first-some x none s e = ground arith
got_first-some x (some t) s e = (t, refl, ground arith)

-- The intrusive queue refines a plain list: any sequence of enqueues and dequeues whose
-- enqueued nodes are neither NULL, nor the queue, nor in the queue runs to its end, yields the
-- nodes first-in, first-out (NULL when the queue is empty), and leaves a well-formed queue of
-- the nodes that the list holds.
pub serve-serve_list :
    (q : ℕ) (rs : List Request) (xs : List ℕ) (h : Links) (s : Served)
    → IsRing h q xs
    → serve_list q rs xs ≡ some s
    → (g : Links) × (serve q rs h ≡ ok (s.got, g)) × IsRing g q s.left
unfolding serve serve_list
serve-serve_list q [] xs h s r e = (h, ground arith, ground arith)
serve-serve_list q (put node ∷ rs) xs h s r e = elim (Bool-cases (contains (null ∷ q ∷ xs) node)) [
  | inl linked ↦ absurd (ground arith)
  | inr new ↦
      let (m, ran, r', same) = enqueue-append h q xs node r new in
      let (g, ran', r'') = serve-serve_list q rs (xs ++ node ∷ []) m s r' (ground arith) in
      (g, ground (arith, ran, ran'), r'')
]
serve-serve_list q (take ∷ rs) [] h s r e =
    let (t, e', f) = got_first-some null (serve_list q rs []) s e in
    let (g, ran, r') = serve-serve_list q rs [] h t r e' in
    (g, ground (arith, dequeue-nil h q r, ran), ground arith)
serve-serve_list q (take ∷ rs) (x ∷ xs) h s r e =
    let (t, e', f) = got_first-some x (serve_list q rs xs) s e in
    let (m, ran, r', same, p, n) = dequeue-cons h q x xs r in
    let (g, ran', r'') = serve-serve_list q rs xs m t r' e' in
    (g, ground (arith, ran, ran'), ground arith)
