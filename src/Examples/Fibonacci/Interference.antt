-- ===== src/Examples/Fibonacci/Interference.antt =====
-- About fib_task_entry of examples/09_fibonacci.c: any index below INT_MAX, and whatever the
-- other tasks do.
use green_threads.Base.{
  ℕ, zero, suc, ◌+◌, ◌-◌, ◌%◌, ◌^◌, ◌≡◌, ◌≢◌, refl, ◌<◌, ◌∙◌, ap, inl, inr, true, false, Bool-cases,
  ◌==◌, leb, List, arith,
}
use green_threads.Platform.Interface.{ℤ, pos, negsuc}
use green_threads.Platform.Context.{Context}
use green_threads.Examples.{Does, finishes, gives_way, Code}
use green_threads.Examples.Fibonacci.{
  FibonacciTask, int_max, in_array, index_at, put_result, write_result, array, fib_loop, fib_from,
  fib_task_entry, fib_code, fib, fib_of,
}

-- A task that changes what it shares by `effect` when it finishes, and not before, whatever the others
-- have made of it within `Shared` whenever the task goes on; it finishes after finitely many turns,
-- without a fault.
pub data EndsBy {S : Type 0} (code : Code S) (Shared : S → Type 0) (effect : S → S)
    : S → Does S → Type 0 where
  ends_now : {s : S} → EndsBy code Shared effect s (finishes (effect s))
  ends_later :
      {s : S} {regs : Context}
      → ((s' : S) → Shared s' → EndsBy code Shared effect s' (code.resume regs s'))
      → EndsBy code Shared effect s (gives_way s regs)

-- The array has an element at `arg`.
abbrev pub Within : (arg : ℕ) → List FibonacciTask → Type 0
Within arg s = in_array array arg s ≡ true

abbrev pub effect : (arg value : ℕ) → List FibonacciTask → List FibonacciTask
effect arg value s = put_result array arg (value % 2 ^ 64) s

fib-sum : (k : ℕ) → (fib k % 2 ^ 64 + fib (suc k) % 2 ^ 64) % 2 ^ 64 ≡ fib (suc (suc k)) % 2 ^ 64
fib-sum k = omega arith

writes :
    (arg value v : ℕ) (s : List FibonacciTask)
    → Within arg s
    → v ≡ value % 2 ^ 64
    → EndsBy fib_code (Within arg) (effect arg value) s (write_result arg v s)
writes arg value v s i e = rw (i, e) ends_now

fib_loop-EndsBy :
    (left i n a b arg k : ℕ) (s : List FibonacciTask)
    → Within arg s
    → n < int_max
    → left + i ≡ n + 1
    → i ≡ suc (suc k)
    → a ≡ fib k % 2 ^ 64
    → b ≡ fib (suc k) % 2 ^ 64
    → EndsBy fib_code (Within arg) (effect arg (fib n)) s (fib_loop left i n a b arg s)
fib_loop-EndsBy zero i n a b arg k s within small total at ea eb =
    let last : suc k ≡ n = omega arith in
    writes arg (fib n) b s within (eb ∙ ap (λ x. fib x % 2 ^ 64) last)
fib_loop-EndsBy (suc left) i n a b arg k s within small total at ea eb =
    let next : (a + b) % 2 ^ 64 ≡ fib (suc (suc k)) % 2 ^ 64 = rw (ea, eb) (fib-sum k) in
    let goes_on : (s' : List FibonacciTask)
        → Within arg s'
        → EndsBy fib_code (Within arg) (effect arg (fib n)) s'
            (fib_loop left (i + 1) n b ((a + b) % 2 ^ 64) arg s') =
      λ s' within'.
        fib_loop-EndsBy left (i + 1) n b ((a + b) % 2 ^ 64) arg (suc k) s' within' small
          (omega arith) (omega arith) eb next in
    let same : n - i ≡ left = omega arith in
    let fits : (i == int_max) ≡ false = ground arith in
    elim (Bool-cases (i % 5 == 0)) [
      | inl e ↦ rw e (ends_later (λ s' within'. rw (fits, same) (goes_on s' within')))
      | inr e ↦ rw (e, fits) (goes_on s within)
    ]

fib_from-EndsBy :
    (n : ℤ) (arg : ℕ) (s : List FibonacciTask)
    → Within arg s
    → ((k : ℕ) → n ≡ pos k → k < int_max)
    → EndsBy fib_code (Within arg) (effect arg (fib_of n)) s (fib_from n arg s)
fib_from-EndsBy (negsuc k) arg s within small = writes arg 0 0 s within refl
fib_from-EndsBy (pos n) arg s within small = elim (Bool-cases (leb n 0)) [
  | inl low ↦
      let none : n ≡ 0 = ground (arith, low) in
      rw low (writes arg (fib n) 0 s within (rw none refl))
  | inr high ↦ elim (Bool-cases (n == 1)) [
    | inl one ↦
        let one' : n ≡ 1 = ground (arith, one) in
        rw (high, one) (writes arg (fib n) 1 s within (rw one' refl))
    | inr more ↦
        rw (high, more)
          (fib_loop-EndsBy (n - 1) 2 n 0 1 arg 0 s within (small n refl) (ground (arith, high)) refl
            refl refl)
  ]
]

-- fib_task_entry of 09_fibonacci.c, for an argument that is not NULL and points to an element
-- of the array, whose index n is any int below INT_MAX, finishes without a fault after finitely
-- many calls of gt_yield, whatever the other tasks make of the array while it has given way, as
-- long as the argument still points to an element of it. It changes nothing of the array
-- before, and then writes as the result of its own element the Fibonacci number of n modulo 2 ^
-- 64, which is 0 where n is negative.
pub fib_task_entry-EndsBy :
    (arg : ℕ) (n : ℤ) (s : List FibonacciTask)
    → arg ≢ 0
    → in_array array arg s ≡ true
    → index_at array arg s ≡ n
    → ((k : ℕ) → n ≡ pos k → k < int_max)
    → EndsBy fib_code (Within arg) (effect arg (fib_of n)) s (fib_task_entry arg s)
fib_task_entry-EndsBy arg n s given within e small =
    let given' : (arg == 0) ≡ false = ground (arith, given) in
    rw (given', within, e) (fib_from-EndsBy n arg s within small)
