-- ===== src/Queue.antt =====
-- internal/gt_internal/ds/queue/queue.h: the intrusive FIFO queue. A queue is known by its address,
-- which is that of its only field, the list.
pub mod Laws
use green_threads.Base.{ℕ, Bool, not, ◌==◌, if◌then◌else◌}
use green_threads.Outcome.Cmd.{Cmd, pure, ◌>>=◌, ◌>>◌, assert}
use green_threads.Links
use green_threads.Links.{Links, null}

pub validate_queue : ℕ → Cmd Links (Unit {0})
validate_queue q = assert (not (q == null)) "q != NULL"

pub init : ℕ → Cmd Links (Unit {0})
unfolding validate_queue
init q = do validate_queue q; Links.init q

pub is_empty : ℕ → Cmd Links Bool
unfolding validate_queue
is_empty q = do validate_queue q; Links.is_empty q

pub peek : ℕ → Cmd Links ℕ
unfolding validate_queue
peek q = do validate_queue q; Links.front q

pub enqueue : (q node : ℕ) → Cmd Links (Unit {0})
unfolding validate_queue
enqueue q node = do validate_queue q; Links.push_back q node

pub dequeue : ℕ → Cmd Links ℕ
unfolding validate_queue
dequeue q = do
  validate_queue q
  front_node ← Links.front q
  if front_node == null then pure front_node else do Links.remove front_node; pure front_node
