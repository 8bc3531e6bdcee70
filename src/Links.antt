-- ===== src/Links.antt =====
-- internal/gt_internal/ds/list/list.h: the intrusive circular list. A node is known by its
-- address, and a list by the address of its head node. The links of every node in memory are two
-- maps; an access through NULL faults.
pub mod Seg
pub mod Ring
pub mod Laws
pub mod Queries
pub mod Move
pub mod Walk
use green_threads.Base.{ℕ, zero, suc, ◌-◌, Bool, ◌&&◌, not, ◌==◌, ltb, if◌then◌else◌, List, [], ◌∷◌}
use green_threads.Outcome.{ok, fault, out_of_fuel}
use green_threads.Outcome.Cmd.{Cmd, pure, ◌>>=◌, ◌>>◌}

abbrev pub null : ℕ
null = 0

-- `struct gt_list_node` of every address.
pub record Links : Type 0 where
  pub prev : ℕ → ℕ
  pub next : ℕ → ℕ

abbrev pub update : (ℕ → ℕ) → ℕ → ℕ → ℕ → ℕ
update f p v q = if p == q then v else f q

abbrev pub get_prev : ℕ → Cmd Links ℕ
get_prev p h = if p == null then fault else ok (h.prev p, h)

abbrev pub get_next : ℕ → Cmd Links ℕ
get_next p h = if p == null then fault else ok (h.next p, h)

abbrev pub set_prev : ℕ → ℕ → Cmd Links (Unit {0})
set_prev p v h = if p == null then fault else ok (tt, record h { prev = update h.prev p v })

abbrev pub set_next : ℕ → ℕ → Cmd Links (Unit {0})
set_next p v h = if p == null then fault else ok (tt, record h { next = update h.next p v })

pub link : (node prev next : ℕ) → Cmd Links (Unit {0})
link node prev next = do
  set_prev next node
  set_next node next
  set_next prev node
  set_prev node prev

pub unlink : ℕ → Cmd Links (Unit {0})
unlink node = do
  n ← get_next node
  p ← get_prev node
  set_prev n p
  p' ← get_prev node
  n' ← get_next node
  set_next p' n'
  set_prev node null
  set_next node null

pub init : ℕ → Cmd Links (Unit {0})
init head = do set_prev head head; set_next head head

pub node_init : ℕ → Cmd Links (Unit {0})
node_init node = do set_prev node null; set_next node null

pub is_empty : ℕ → Cmd Links Bool
is_empty head = do p ← get_prev head; n ← get_next head; pure ((p == head) && (n == head))

pub node_is_linked : ℕ → Cmd Links Bool
node_is_linked node = do
  p ← get_prev node
  n ← get_next node
  pure (not (p == null) && not (n == null))

pub front : ℕ → Cmd Links ℕ
unfolding is_empty
front head = do empty ← is_empty head; if empty then pure null else get_next head

pub back : ℕ → Cmd Links ℕ
unfolding is_empty
back head = do empty ← is_empty head; if empty then pure null else get_prev head

pub insert_before : (pos node : ℕ) → Cmd Links (Unit {0})
unfolding link
insert_before pos node = do p ← get_prev pos; link node p pos

pub insert_after : (pos node : ℕ) → Cmd Links (Unit {0})
unfolding link
insert_after pos node = do n ← get_next pos; link node pos n

pub push_front : (head node : ℕ) → Cmd Links (Unit {0})
unfolding insert_after
push_front head node = insert_after head node

pub push_back : (head node : ℕ) → Cmd Links (Unit {0})
unfolding insert_before
push_back head node = insert_before head node

pub remove : ℕ → Cmd Links (Unit {0})
unfolding unlink
remove node = unlink node

pub move_front : (head node : ℕ) → Cmd Links (Unit {0})
unfolding unlink push_front
move_front head node = do unlink node; push_front head node

pub move_back : (head node : ℕ) → Cmd Links (Unit {0})
unfolding unlink push_back
move_back head node = do unlink node; push_back head node

-- GT_LIST_FOR_EACH: runs `body` at each node and returns the nodes that it ran at.
pub for_each_loop : (fuel head pos : ℕ) → (ℕ → Cmd Links (Unit {0})) → Cmd Links (List ℕ)
for_each_loop zero head pos body = λ _. out_of_fuel
for_each_loop (suc k) head pos body =
    if pos == head
    then pure []
    else do body pos; n ← get_next pos; rest ← for_each_loop k head n body; pure (pos ∷ rest)

pub for_each : (fuel head : ℕ) → (ℕ → Cmd Links (Unit {0})) → Cmd Links (List ℕ)
for_each fuel head body = do pos ← get_next head; for_each_loop fuel head pos body

-- GT_LIST_FOR_EACH_ENTRY: `body` runs at the objects whose nodes lie `offset` bytes behind them; a node
-- at an address below the offset faults.
pub for_each_entry : (fuel head offset : ℕ) → (ℕ → Cmd Links (Unit {0})) → Cmd Links (List ℕ)
for_each_entry fuel head offset body =
    for_each fuel head (λ node. if ltb node offset then (λ _. fault) else body (node - offset))

-- GT_LIST_FOR_EACH_SAFE: the successor is read before the body runs.
pub for_each_safe_loop : (fuel head pos nxt : ℕ) → (ℕ → Cmd Links (Unit {0})) → Cmd Links (List ℕ)
for_each_safe_loop zero head pos nxt body = λ _. out_of_fuel
for_each_safe_loop (suc k) head pos nxt body = if pos == head then pure [] else do
  body pos
  n ← get_next nxt
  rest ← for_each_safe_loop k head nxt n body
  pure (pos ∷ rest)

pub for_each_safe : (fuel head : ℕ) → (ℕ → Cmd Links (Unit {0})) → Cmd Links (List ℕ)
for_each_safe fuel head body = do
  pos ← get_next head
  nxt ← get_next pos
  for_each_safe_loop fuel head pos nxt body
