-- ===== src/Platform/Context/Laws.antt =====
-- About context.c and switch.S: switching away and back, and the first run of a new context.
use green_threads.Base.{
  true, refl, List, ◌⊎◌, ℕ, ◌+◌, ◌-◌, ◌%◌, ◌^◌, ◌≤◌, ◌<◌, ◌≡◌, ◌≢◌, arith, some, bit_and,
}
use green_threads.Outcome.{ok}
use green_threads.Word.{bit_not}
use green_threads.Word.Bits.{
  testbit_ext, testbit-and, testbit-not, testbit-mask, bit_and-lt, low_bits-clear,
}
use green_threads.Status.{success}
use green_threads.Platform.Interface.{Host, Machine, Event}
use green_threads.Platform.Ledger.{access_at}
use green_threads.Platform.Page.{align_down_pot}
use green_threads.Platform.Context
use green_threads.Platform.Context.{Context, cleared, store, is_writable}
use green_threads.Platform.Context.Switch.{Cpu, rsp_of, context_load, context_start}

-- Aligning an aligned address downward leaves it.
align_down_pot-aligned : (v : ℕ) → v < 2 ^ 64 → v % 16 ≡ 0 → align_down_pot v 16 ≡ v
align_down_pot-aligned v h e =
    testbit_ext 64 (bit_and v (bit_not 15)) v (bit_and-lt 64 v (bit_not 15) h) h λ j lt. ground (
      arith,
      testbit-and j v (bit_not 15),
      testbit-not 64 j 15,
      testbit-mask 4 j,
      low_bits-clear v j e,
    )

-- Over a stack whose base and size are positive multiples of 16 and that ends below 2 ^ 64,
-- gt_context_init succeeds with every register cleared and the stack pointer at the end of the
-- stack.
pub init-top :
    (old : Context) (base size : ℕ) (m : Machine)
    → base ≢ 0
    → size ≢ 0
    → base % 16 ≡ 0
    → size % 16 ≡ 0
    → base + size < 2 ^ 64
    → Context.init (some old) base size m ≡ ok ((success, record cleared { rsp = base + size }), m)
unfolding Context.init
init-top old base size m a b c d e =
    let at : (base + size) % 2 ^ 64 ≡ base + size = omega arith in
    ground (arith, at, align_down_pot-aligned (base + size))

writable :
    (es : List Event) (p : ℕ)
    → access_at es p ≡ 3
    → access_at es (p + 7) ≡ 3
    → is_writable es p ≡ true
writable es p e e' = rw (e, e') refl

-- A context with an aligned stack pointer, below which three words have room and can be
-- written, is configured with success, and its first load runs gt_context_start, which calls
-- the entry function with its argument: at that call the stack is aligned as the ABI wants it
-- and holds the return address.
pub first_run :
    (host : Host) (ctx : Context) (entry arg behind : ℕ) (m : Machine) (cpu : Cpu)
    → entry ≢ 0
    → ctx.rsp % 16 ≡ 0
    → 32 ≤ ctx.rsp
    → ctx.rsp < 2 ^ 64
    → ((a : ℕ) → ctx.rsp - 24 ≤ a → a < ctx.rsp → access_at m.events a ≡ 3)
    → (ctx' : Context) × (m' : Machine) × (Context.configure host (some ctx) entry arg m
        ≡ ok ((success, ctx'), m'))
      × ((context_load m'.memory ctx' cpu).rip ≡ host.context_start)
      × (let (called, stack) = context_start m'.memory behind (context_load m'.memory ctx' cpu) in
          (called.rip ≡ entry)
          × (called.rdi ≡ arg)
          × ((rsp_of called + 8) % 16 ≡ 0)
          × (stack (rsp_of called) ≡ behind))
unfolding Context.configure context_load context_start
first_run host ctx entry arg behind m cpu a b c d opened =
    let p : (ctx.rsp + 2 ^ 64 - 8) % 2 ^ 64 ≡ ctx.rsp - 8 = omega arith in
    let q : (ctx.rsp - 8 + 2 ^ 64 - 8) % 2 ^ 64 ≡ ctx.rsp - 16 = omega arith in
    let r : (ctx.rsp - 16 + 2 ^ 64 - 8) % 2 ^ 64 ≡ ctx.rsp - 24 = omega arith in
    let w1 =
      writable m.events (ctx.rsp - 8) (opened (ctx.rsp - 8) (omega arith) (omega (arith, c)))
        (opened (ctx.rsp - 8 + 7) (omega arith) (omega (arith, c))) in
    let w2 =
      writable m.events (ctx.rsp - 16) (opened (ctx.rsp - 16) (omega arith) (omega (arith, c)))
        (opened (ctx.rsp - 16 + 7) (omega arith) (omega (arith, c))) in
    let w3 =
      writable m.events (ctx.rsp - 24) (opened (ctx.rsp - 24) (omega arith) (omega (arith, c)))
        (opened (ctx.rsp - 24 + 7) (omega arith) (omega (arith, c))) in
    let r' : (ctx.rsp - 24 + 8) % 2 ^ 64 ≡ ctx.rsp - 16 = omega arith in
    let q' : (ctx.rsp - 16 + 8) % 2 ^ 64 ≡ ctx.rsp - 8 = omega arith in
    let p' : (ctx.rsp - 8 + 8) % 2 ^ 64 ≡ ctx.rsp = omega arith in
    (
      record ctx { rsp = ctx.rsp - 24 },
      record m {
        memory =
            store (store (store m.memory (ctx.rsp - 8) arg) (ctx.rsp - 16) entry) (ctx.rsp - 24)
              host.context_start;
      },
      ground (arith, p, q, r, w1, w2, w3),
      ground arith,
      (
        ground (arith, r'),
        ground (arith, r', q'),
        ground (arith, r', q', p', p),
        ground (arith, r', q', p', p),
      ),
    )

-- The same configuration as a change of the stack pointer and of the words that it writes.
pub configure_lem :
    (host : Host) (ctx : Context) (entry arg : ℕ) (m : Machine)
    → entry ≢ 0
    → 32 ≤ ctx.rsp
    → ctx.rsp < 2 ^ 64
    → ((a : ℕ) → ctx.rsp - 24 ≤ a → a < ctx.rsp → access_at m.events a ≡ 3)
    → (memory : ℕ → ℕ) × (Context.configure host (some ctx) entry arg m
        ≡ ok ((success, record ctx { rsp = ctx.rsp - 24 }), record m { memory = memory }))
      × (memory (ctx.rsp - 24) ≡ host.context_start)
      × (memory (ctx.rsp - 16) ≡ entry)
      × (memory (ctx.rsp - 8) ≡ arg)
      × ((a : ℕ) → (a < ctx.rsp - 24) ⊎ (ctx.rsp ≤ a) → memory a ≡ m.memory a)
unfolding Context.configure
configure_lem host ctx entry arg m a c d opened =
    let p : (ctx.rsp + 2 ^ 64 - 8) % 2 ^ 64 ≡ ctx.rsp - 8 = omega arith in
    let q : (ctx.rsp - 8 + 2 ^ 64 - 8) % 2 ^ 64 ≡ ctx.rsp - 16 = omega arith in
    let r : (ctx.rsp - 16 + 2 ^ 64 - 8) % 2 ^ 64 ≡ ctx.rsp - 24 = omega arith in
    let w1 =
      writable m.events (ctx.rsp - 8) (opened (ctx.rsp - 8) (omega arith) (omega (arith, c)))
        (opened (ctx.rsp - 8 + 7) (omega arith) (omega (arith, c))) in
    let w2 =
      writable m.events (ctx.rsp - 16) (opened (ctx.rsp - 16) (omega arith) (omega (arith, c)))
        (opened (ctx.rsp - 16 + 7) (omega arith) (omega (arith, c))) in
    let w3 =
      writable m.events (ctx.rsp - 24) (opened (ctx.rsp - 24) (omega arith) (omega (arith, c)))
        (opened (ctx.rsp - 24 + 7) (omega arith) (omega (arith, c))) in
    (
      store (store (store m.memory (ctx.rsp - 8) arg) (ctx.rsp - 16) entry) (ctx.rsp - 24)
          host.context_start,
      ground (arith, p, q, r, w1, w2, w3),
      ground arith,
      ground arith,
      ground arith,
      λ a out. ground (arith, out),
    )
