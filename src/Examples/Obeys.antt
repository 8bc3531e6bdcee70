-- ===== src/Examples/Obeys.antt =====
-- About examples: their calls are those that the library allows, and they end in the main program.
use green_threads.Base.{
  ℕ, ◌+◌, ◌*◌, ◌^◌, ◌≤◌, ◌≡◌, ◌≢◌, ◌⊎◌, inl, inr, refl, Bool, true, false, ◌==◌, Bool-cases, List,
  [], ◌∷◌, Option, some, arith, contains-append, if◌then◌else◌,
}
use green_threads.Links.Seg.{◌∈◌}
use green_threads.Status.{Status, is_success}
use green_threads.Platform.Context.{Context, cleared}
use green_threads.Runtime.Session.{
  Plan, main_program, task, Reply, switched, answered, continued, yields, runs, exits, returns,
  creates, Program, ends, calls, Step, yield_next, yield_alone, exit_next, exit_last, create_fails,
  create_adds, run_next, run_none, reap, Allowed, Obeys, Follows, stays, steps,
}
use green_threads.Examples.{
  Does, finishes, gives_way, adds, faults, Code, Main, exits_with, adds_task, runs_tasks, of_main,
  adds_or_cleans, Creation, adds_all,
}

-- A program all of whose calls are allowed, and that ends with a result only when the main program
-- has control.
unfoldable pub Meets : {R : Type 0} → (ps : ℕ) → Plan → Program (Option R) → Type 0
Meets {R} ps p (ends r) = (r' : R) → r ≡ some r' → p.control ≡ main_program
Meets ps p (calls a k) =
    Allowed ps p a × ((reply : Reply) (q : Plan) → Step p a reply q → Meets ps q (k reply))

pub Meets-Obeys :
    {R : Type 0} (ps : ℕ) (p : Plan) (program : Program (Option R))
    → Meets ps p program
    → Obeys ps p program
unfolding Meets
Meets-Obeys ps p (ends r) m = tt
Meets-Obeys ps p (calls a k) (may, rest) =
    (may, λ reply q s. Meets-Obeys ps q (k reply) (rest reply q s))

pub Meets-main_program :
    {R : Type 0} (ps : ℕ) (p : Plan) (program : Program (Option R)) (replies : List Reply) (r : R)
    (q : Plan)
    → Follows p program replies (some r) q
    → Meets ps p program
    → q.control ≡ main_program
unfolding Meets
Meets-main_program ps p (ends r') replies r q stays m = m r refl
Meets-main_program ps p (calls a k) replies r q (steps {q = next} {reply = reply} {rs = rs} s f) m =
    Meets-main_program ps next (k reply) rs r q f (m.1 reply next s)

-- The calls of a task are fit for the library: it yields on its own stack, and a task that it adds has
-- a function and a size with room for rounding and guard pages.
unfoldable pub IsFit : {S : Type 0} → (ps : ℕ) → Does S → Type 0
IsFit ps (finishes s) = Unit {0}
IsFit ps faults = Unit {0}
IsFit ps (gives_way s regs) = (regs.rsp == 0) ≡ false
IsFit ps (adds entry arg size k) =
    (entry ≢ 0) × (size + 3 * ps ≤ 2 ^ 64) × ((st : Status) → IsFit ps (k st))

unfoldable pub MainIsFit : {S : Type 0} → (ps : ℕ) → Main S → Type 0
MainIsFit ps (exits_with n) = Unit {0}
MainIsFit ps (adds_task entry arg size k) =
    (entry ≢ 0) × (size + 3 * ps ≤ 2 ^ 64) × ((st : Status) → MainIsFit ps (k st))
MainIsFit ps (runs_tasks rest) = MainIsFit ps rest

pub record CodeIsFit {S : Type 0} (ps : ℕ) (code : Code S) : Type 0 where
  pub entries : (entry arg : ℕ) (s : S) → IsFit ps (code.entry entry arg s)
  pub resumes : (regs : Context) (s : S) → IsFit ps (code.resume regs s)

-- The tasks that wait go on in tasks' code, and the main program in its own.
pub record Cooperates (p : Plan) : Type 0 where
  pub tasks : (t : ℕ) → t ∈ p.waiting → of_main (p.saved t) ≡ false
  pub main : (c : ℕ) → p.control ≡ task c → p.main.rsp ≡ 0

-- Control has gone where the reply tells.
unfoldable pub Lands : Reply → Plan → Type 0
Lands (switched r) q =
    Cooperates q
    × (((of_main r ≡ false) × ((c : ℕ) × (q.control ≡ task c)))
        ⊎ ((of_main r ≡ true) × (q.control ≡ main_program)))
Lands (answered st) q = Unit {0}
Lands continued q = Unit {0}

first : (t : ℕ) (ts xs : List ℕ) → xs ≡ t ∷ ts → t ∈ xs
first t ts xs e = rw e (ground arith)

behind : (t a : ℕ) (ts xs : List ℕ) → xs ≡ t ∷ ts → a ∈ ts → a ∈ xs
behind t a ts xs e i = rw e (ground (arith, i))

pub yields-Lands :
    (p : Plan) (regs : Context) (reply : Reply) (q : Plan)
    → (regs.rsp == 0) ≡ false
    → Cooperates p
    → Step p (yields regs) reply q
    → Lands reply q
unfolding Lands
yields-Lands p regs reply q mine o (yield_next {c = c} {t = t} {ts = ts} e w) = (
  record {
    tasks = λ a i. elim (Bool-cases (c == a)) [
      | inl same ↦ rw same mine
      | inr other ↦
          rw other (
            o.tasks a
              (behind t a ts p.waiting w (ground (arith, i, contains-append ts (c ∷ []) a))))
    ];
    main = λ d e'. o.main c e;
  },
  inl (o.tasks t (first t ts p.waiting w), (t, refl)),
)
yields-Lands p regs reply q mine o (yield_alone {c = c} e w) = (o, inl (mine, (c, e)))

pub exits-Lands :
    (p : Plan) (reply : Reply) (q : Plan) → Cooperates p → Step p exits reply q → Lands reply q
unfolding Lands
exits-Lands p reply q o (exit_next {c = c} {t = t} {ts = ts} e w) = (
  record { tasks = λ a i. o.tasks a (behind t a ts p.waiting w i); main = λ d e'. o.main c e },
  inl (o.tasks t (first t ts p.waiting w), (t, refl)),
)
exits-Lands p reply q o (exit_last {c = c} e w) = (
  record { tasks = o.tasks; main = λ d e'. absurd (ground (arith, e')) },
  inr (ground (arith, o.main c e), refl),
)

pub runs-Lands :
    (p : Plan) (reply : Reply) (q : Plan)
    → Cooperates p
    → Step p (runs cleared) reply q
    → Lands reply q
unfolding Lands
runs-Lands p reply q o (run_next {t = t} {ts = ts} e w) = (
  record { tasks = λ a i. o.tasks a (behind t a ts p.waiting w i); main = λ d e'. refl },
  inl (o.tasks t (first t ts p.waiting w), (t, refl)),
)
runs-Lands p reply q o (run_none e w) =
    (record { tasks = o.tasks; main = λ d e'. refl }, inr (refl, e))

pub creates-Cooperates :
    (p : Plan) (entry arg size : ℕ) (reply : Reply) (q : Plan)
    → Cooperates p
    → Step p (creates entry arg size) reply q
    → Cooperates q × (q.control ≡ p.control)
creates-Cooperates p entry arg size reply q o (create_fails bad) = (o, refl)
creates-Cooperates p entry arg size reply q o (create_adds {t = t} other new) = (
  record {
    tasks = λ a i. elim (Bool-cases (t == a)) [
      | inl same ↦ rw same refl
      | inr differ ↦ rw differ (o.tasks a (ground (arith, i, contains-append p.waiting (t ∷ []) a)))
    ];
    main = o.main;
  },
  refl,
)

pub returns-Cooperates :
    (p : Plan) (reply : Reply) (q : Plan)
    → Cooperates p
    → Step p returns reply q
    → Cooperates q × (q.control ≡ main_program)
returns-Cooperates p reply q o (reap e) = (record { tasks = o.tasks; main = o.main }, e)

pub if-IsFit :
    {S : Type 0} (ps : ℕ) (b : Bool) (d d' : Does S)
    → IsFit ps d
    → IsFit ps d'
    → IsFit ps (if b then d else d')
if-IsFit ps true d d' f f' = f
if-IsFit ps false d d' f f' = f'

adds_or_cleans-MainIsFit :
    {S : Type 0} (ps entry arg size : ℕ) (rest : Main S)
    → entry ≢ 0
    → size + 3 * ps ≤ 2 ^ 64
    → MainIsFit ps rest
    → MainIsFit ps (adds_or_cleans entry arg size rest)
unfolding MainIsFit
adds_or_cleans-MainIsFit {S} ps entry arg size rest he fits fit =
    (he, fits, λ st. either (is_success st))
  where
    either : (b : Bool) → MainIsFit ps (if b then rest else exits_with 1)
    either true = fit
    either false = tt

-- Each has a function, and a size with room for rounding and guard pages.
abbrev pub CreationsAreFit : (ps : ℕ) → List Creation → Type 0
CreationsAreFit ps [] = Unit {0}
CreationsAreFit ps (c ∷ cs) = (c.entry ≢ 0) × (c.size + 3 * ps ≤ 2 ^ 64) × CreationsAreFit ps cs

pub adds_all-MainIsFit :
    {S : Type 0} (ps : ℕ) (cs : List Creation) (rest : Main S)
    → CreationsAreFit ps cs
    → MainIsFit ps rest
    → MainIsFit ps (adds_all cs rest)
adds_all-MainIsFit ps [] rest fits fit = fit
adds_all-MainIsFit ps (c ∷ cs) rest (he, fits, others) fit =
    adds_or_cleans-MainIsFit ps (c.entry) (c.arg) (c.size) (adds_all cs rest) he fits
      (adds_all-MainIsFit ps cs rest others fit)
