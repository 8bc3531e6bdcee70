-- ===== src/Runtime/Session/Turns.antt =====
-- About src/runtime: the order in which a program's calls give control, without the tasks' addresses.
use green_threads.Base.{
  ◌<◌, ℕ, ◌≡◌, ◌≢◌, refl, ap, ◌∙◌, true, false, ◌==◌, List, [], ◌∷◌, ◌++◌, map, Option, none, some,
  if◌then◌else◌, arith, contains-append, Distinct, Distinct-insert,
}
use green_threads.Outcome.{ok}
use green_threads.Platform.Interface.{Host}
use green_threads.Platform.Context.{cleared}
use green_threads.Platform.Ledger.{Behaves}
use green_threads.World.{World, RuntimeState, task_max_capacity}
use green_threads.Api.{gt_init}
use green_threads.Runtime.Lifecycle.Laws.{HoldsNothing}
use green_threads.Runtime.Lifecycle.Start.{PageKnown}
use green_threads.Runtime.Session.Switch.{Runs}
use green_threads.Runtime.Session.Whole.{first_plan, SessionEnds, session-HoldsNothing}
use mathlib.Core.List.{append-nil}
use green_threads.Links.Seg.{◌∉◌}
use green_threads.Status.{Status, success, is_success}
use green_threads.Platform.Context.{Context}
use green_threads.Runtime.Session.{
  Obeys, Plan, task, Resume, starts, goes_on, Reply, switched, answered, continued, Action, yields,
  runs, exits, returns, creates, Program, ends, calls, save, Step, yield_next, yield_alone,
  exit_next, exit_last, create_fails, create_adds, run_next, run_none, reap, Follows, stays, steps,
}

-- The answers to the creations among the replies.
abbrev pub answers : List Reply → List Status
answers [] = []
answers (answered st ∷ rs) = st ∷ answers rs
answers (switched r ∷ rs) = answers rs
answers (continued ∷ rs) = answers rs

-- What a program ends with when control goes from turn to turn: `queue` is how the tasks that wait go
-- on, `main` the registers of the main program, and `sts` the answers to its creations.
unfoldable pub turns :
    {R : Type 0}
    → (queue : List Resume) → (main : Context) → (sts : List Status) → Program R
    → Option R
turns queue main [] (ends r) = some r
turns queue main (st ∷ sts) (ends r) = none
turns [] main sts (calls (yields regs) k) = turns [] main sts (k (switched (goes_on regs)))
turns (x ∷ xs) main sts (calls (yields regs) k) =
    turns (xs ++ goes_on regs ∷ []) main sts (k (switched x))
turns [] main sts (calls exits k) = turns [] main sts (k (switched (goes_on main)))
turns (x ∷ xs) main sts (calls exits k) = turns xs main sts (k (switched x))
turns [] main sts (calls (runs regs) k) = turns [] regs sts (k (switched (goes_on regs)))
turns (x ∷ xs) main sts (calls (runs regs) k) = turns xs regs sts (k (switched x))
turns queue main sts (calls returns k) = turns queue main sts (k continued)
turns queue main [] (calls (creates entry arg size) k) = none
turns queue main (st ∷ sts) (calls (creates entry arg size) k) =
    turns (if is_success st then queue ++ starts entry arg ∷ [] else queue) main sts
      (k (answered st))

save-elsewhere :
    (f : ℕ → Resume) (c : ℕ) (r : Resume) (xs : List ℕ) → c ∉ xs → map (save f c r) xs ≡ map f xs
save-elsewhere f c r [] out = refl
save-elsewhere f c r (x ∷ xs) out =
    let other : (c == x) ≡ false = ground (arith, out) in
    rw (other, save-elsewhere f c r xs (ground (arith, out))) refl

save-last :
    (f : ℕ → Resume) (c : ℕ) (r : Resume) (xs : List ℕ)
    → c ∉ xs
    → map (save f c r) (xs ++ c ∷ []) ≡ map f xs ++ r ∷ []
save-last f c r [] out = let here : (c == c) ≡ true = ground arith in rw here refl
save-last f c r (x ∷ xs) out =
    let other : (c == x) ≡ false = ground (arith, out) in
    rw (other, save-last f c r xs (ground (arith, out))) refl

-- The tasks that wait are distinct, and the one that has control is not among them.
pub record IsOrdered (p : Plan) : Type 0 where
  pub distinct : Distinct p.waiting
  pub current_apart : (c : ℕ) → p.control ≡ task c → c ∉ p.waiting

Distinct-tail : (t : ℕ) (ts : List ℕ) → Distinct (t ∷ ts) → Distinct ts × (t ∉ ts)
Distinct-tail t ts d = (d.1, d.0)

Distinct-last : (ts : List ℕ) (c : ℕ) → Distinct ts → c ∉ ts → Distinct (ts ++ c ∷ [])
Distinct-last ts c d out = Distinct-insert ts [] c (rw (append-nil ts) d) (rw (append-nil ts) out)

task-same : (c d : ℕ) → task c ≡ task d → c ≡ d
task-same c d e = ground (arith, e)

-- Every step leaves the tasks that wait distinct.
Step-IsOrdered :
    (p : Plan) (a : Action) (reply : Reply) (q : Plan)
    → Step p a reply q
    → IsOrdered p
    → IsOrdered q
Step-IsOrdered p a reply q (yield_next {c = c} {t = t} {ts = ts} e w) o =
    let (dt, out) = Distinct-tail t ts (rw w at o.distinct) in
    let mine = rw w at (o.current_apart c e) in
    record {
      distinct = Distinct-last ts c dt (ground (arith, mine));
      current_apart = λ d e'.
          let same = task-same t d e' in
          ground (arith, mine, out, same, contains-append ts (c ∷ []) d);
    }
Step-IsOrdered p a reply q (yield_alone e w) o = o
Step-IsOrdered p a reply q (exit_next {c = c} {t = t} {ts = ts} e w) o =
    let (dt, out) = Distinct-tail t ts (rw w at o.distinct) in
    record {
      distinct = dt;
      current_apart = λ d e'. let same = task-same t d e' in ground (arith, out, same);
    }
Step-IsOrdered p a reply q (exit_last e w) o = record {
  distinct = o.distinct;
  current_apart = λ d e'. absurd (ground (arith, e'));
}
Step-IsOrdered p a reply q (create_fails bad) o = o
Step-IsOrdered p a reply q (create_adds {t = t} other new) o = record {
  distinct =
      Distinct-last p.waiting t o.distinct
        (ground (arith, new, contains-append p.waiting p.exited t));
  current_apart = λ d e'.
      let ne : d ≢ t = λ x. other (e' ∙ ap task x) in
      ground (arith, ne, o.current_apart d e', contains-append p.waiting (t ∷ []) d);
}
Step-IsOrdered p a reply q (run_next {t = t} {ts = ts} e w) o =
    let (dt, out) = Distinct-tail t ts (rw w at o.distinct) in
    record {
      distinct = dt;
      current_apart = λ d e'. let same = task-same t d e' in ground (arith, out, same);
    }
Step-IsOrdered p a reply q (run_none e w) o = record {
  distinct = o.distinct;
  current_apart = o.current_apart;
}
Step-IsOrdered p a reply q (reap e) o = record {
  distinct = o.distinct;
  current_apart = o.current_apart;
}

not_success : (st : Status) → st ≢ success → is_success st ≡ false
not_success st bad = ground (arith, bad)

map-append-one :
    (f : ℕ → Resume) (xs : List ℕ) (t : ℕ) → map f (xs ++ t ∷ []) ≡ map f xs ++ f t ∷ []
map-append-one f [] t = refl
map-append-one f (x ∷ xs) t = rw (map-append-one f xs t) refl

-- A step of the plan is a turn.
turns-Step :
    {R : Type 0} (p : Plan) (a : Action) (reply : Reply) (q : Plan) (k : Reply → Program R)
    (rs : List Reply)
    → Step p a reply q
    → IsOrdered p
    → turns (map p.saved p.waiting) p.main (answers (reply ∷ rs)) (calls a k)
      ≡ turns (map q.saved q.waiting) q.main (answers rs) (k reply)
unfolding turns
turns-Step p a reply q k rs (yield_next {c = c} {t = t} {ts = ts} {regs = regs} e w) o =
    let mine = rw w at (o.current_apart c e) in
    rw (w, save-last p.saved c (goes_on regs) ts (ground (arith, mine))) refl
turns-Step p a reply q k rs (yield_alone e w) o = rw w refl
turns-Step p a reply q k rs (exit_next e w) o = rw w refl
turns-Step p a reply q k rs (exit_last e w) o = rw w refl
turns-Step p a reply q k rs (create_fails {st = st} bad) o = rw (not_success st bad) refl
turns-Step p a reply q k rs (create_adds {entry = entry} {arg = arg} {t = t} other new) o =
    let out : t ∉ p.waiting = ground (arith, new, contains-append p.waiting p.exited t) in
    rw (save-last p.saved t (starts entry arg) p.waiting out) refl
turns-Step p a reply q k rs (run_next e w) o = rw w refl
turns-Step p a reply q k rs (run_none e w) o = rw w refl
turns-Step p a reply q k rs (reap e) o = refl

-- Whatever addresses the tasks have, a program that follows the plan ends with what the tasks' turns
-- and the answers to its creations determine.
pub Follows-turns :
    {R : Type 0} (p : Plan) (program : Program R) (replies : List Reply) (r : R) (q : Plan)
    → Follows p program replies r q
    → IsOrdered p
    → turns (map p.saved p.waiting) p.main (answers replies) program ≡ some r
unfolding turns
Follows-turns p (ends r) replies r' q stays o = refl
Follows-turns p (calls a k) replies r q (steps {q = next} {reply = reply} {rs = rs} s f) o =
    turns-Step p a reply next k rs s o
    ∙ Follows-turns next (k reply) rs r q f (Step-IsOrdered p a reply next s o)

first_plan-IsOrdered : IsOrdered first_plan
first_plan-IsOrdered = record { distinct = tt; current_apart = λ c e. absurd (ground (arith, e)) }

-- What a program of allowed calls ends with on the runtime, from gt_init on, is what turns
-- determine from the answers to its creations alone: a yield puts the caller behind those that
-- wait and the first of them goes on, an exit lets the first go on, or the main program when
-- none waits, and a new task is the last. The addresses of the tasks make no difference. mmap,
-- munmap and calloc behave as documented, a page size is known that fits, neither mapping nor
-- block is held, and the fuel is more than GT_TASK_MAX_CAPACITY.
pub session-turns :
    {R : Type 0} (host : Host) (ps fuel : ℕ) (w : World) (program : Program R)
    → Behaves host ps
    → host.task_trampoline ≢ 0
    → task_max_capacity < fuel
    → w.rt.state ≡ RuntimeState.uninitialized
    → 0 < host.runtime
    → PageKnown host w.machine ps
    → HoldsNothing w.machine
    → Obeys ps first_plan program
    → (v : World) × (replies : List Reply) × (r : R) × (u : World) × (q : Plan) × (gt_init host w
        ≡ ok (success, v))
      × Runs fuel host v program replies r u
      × (turns [] cleared (answers replies) program ≡ some r)
      × Follows first_plan program replies r q
      × SessionEnds ps fuel host q.control u
session-turns host ps fuel w program behaves tramp enough fresh given known nothing obeys =
    let (v, replies, r, u, q, inits, run, follows, last) =
      session-HoldsNothing host ps fuel w program behaves tramp enough fresh given known nothing
        obeys in
    (
      v,
      replies,
      r,
      u,
      q,
      inits,
      run,
      Follows-turns first_plan program replies r q follows first_plan-IsOrdered,
      follows,
      last,
    )
