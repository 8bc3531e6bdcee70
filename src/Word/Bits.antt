-- ===== src/Word/Bits.antt =====
-- The bits of the results of the word operations, at every width.
use Prim.Native.Nat.{bit_and-bitwise}
use native.Mathlib.Nat.{pow-suc, one-le-pow}
use green_threads.Base.{
  ℕ, zero, suc, ◌-◌, ◌/◌, ◌%◌, ◌^◌, ◌≤◌, ◌<◌, bit_and, bit_or, ◌≡◌, refl, arith, ltb, ◌==◌, false,
  not, ◌&&◌, ◌||◌, ◌∙◌,
}
use green_threads.Word.{testbit}
use green_threads.Word.Step.{bit_or-low, bit_and-low}

pub testbit-and : (j a b : ℕ) → testbit (bit_and a b) j ≡ (testbit a j && testbit b j)
unfolding testbit
testbit-and zero a b = ground (arith, bit_and-low a b)
testbit-and (suc j) a b =
    let half : bit_and a b / 2 ≡ bit_and (a / 2) (b / 2) = omega (arith, bit_and-low a b) in
    rw half (testbit-and j (a / 2) (b / 2))

pub testbit-or : (j a b : ℕ) → testbit (bit_or a b) j ≡ (testbit a j || testbit b j)
unfolding testbit
testbit-or zero a b = ground (arith, bit_or-low a b)
testbit-or (suc j) a b =
    let half : bit_or a b / 2 ≡ bit_or (a / 2) (b / 2) = omega (arith, bit_or-low a b) in
    rw half (testbit-or j (a / 2) (b / 2))

pub testbit-zero : (j : ℕ) → testbit 0 j ≡ false
unfolding testbit
testbit-zero zero = refl
testbit-zero (suc j) = testbit-zero j

pub testbit-pow : (i j : ℕ) → testbit (2 ^ i) j ≡ (i == j)
unfolding testbit
testbit-pow zero zero = refl
testbit-pow zero (suc j) = testbit-zero j ∙ ground arith
testbit-pow (suc i) zero = ground (arith, pow-suc 2 i)
testbit-pow (suc i) (suc j) =
    let half : 2 ^ suc i / 2 ≡ 2 ^ i = omega (arith, pow-suc 2 i) in
    rw half (testbit-pow i j ∙ ground arith)

pub testbit-high : (w j a : ℕ) → a < 2 ^ w → w ≤ j → testbit a j ≡ false
unfolding testbit
testbit-high zero j a h le = let e : a ≡ 0 = omega arith in rw e (testbit-zero j)
testbit-high (suc w) zero a h le = absurd (omega arith)
testbit-high (suc w) (suc j) a h le =
    testbit-high w j (a / 2) (omega (arith, pow-suc 2 w)) (omega arith)

-- `~a` in a word of `w` bits.
pub testbit-not : (w j a : ℕ) → a < 2 ^ w → j < w → testbit (2 ^ w - 1 - a) j ≡ not (testbit a j)
unfolding testbit
testbit-not zero j a h lt = absurd (omega arith)
testbit-not (suc w) zero a h lt = ground (arith, pow-suc 2 w)
testbit-not (suc w) (suc j) a h lt =
    let half : (2 ^ suc w - 1 - a) / 2 ≡ 2 ^ w - 1 - a / 2 = omega (arith, pow-suc 2 w) in
    rw half (testbit-not w j (a / 2) (omega (arith, pow-suc 2 w)) (omega arith))

-- A mask of `k` low ones.
pub testbit-mask : (k j : ℕ) → testbit (2 ^ k - 1) j ≡ ltb j k
unfolding testbit
testbit-mask zero j = testbit-zero j ∙ ground arith
testbit-mask (suc k) zero = ground (arith, pow-suc 2 k, one-le-pow k 2)
testbit-mask (suc k) (suc j) =
    let half : (2 ^ suc k - 1) / 2 ≡ 2 ^ k - 1 = omega (arith, pow-suc 2 k, one-le-pow k 2) in
    rw half (testbit-mask k j ∙ ground arith)

pub bit_and-lt : (w a b : ℕ) → a < 2 ^ w → bit_and a b < 2 ^ w
bit_and-lt zero a b h = let e : a ≡ 0 = omega arith in rw e (omega (arith, bit_and-bitwise 0 b))
bit_and-lt (suc w) a b h = omega (arith, bit_and-low a b, pow-suc 2 w, bit_and-lt w (a / 2) (b / 2))

pub bit_or-lt : (w a b : ℕ) → a < 2 ^ w → b < 2 ^ w → bit_or a b < 2 ^ w
bit_or-lt zero a b h k =
    let e : a ≡ 0 = omega arith in let f : b ≡ 0 = omega arith in rw (e, f) (omega arith)
bit_or-lt (suc w) a b h k = omega (arith, bit_or-low a b, pow-suc 2 w, bit_or-lt w (a / 2) (b / 2))

-- Words with the same bits are equal.
pub testbit_ext :
    (w a b : ℕ) → a < 2 ^ w → b < 2 ^ w → ((j : ℕ) → j < w → testbit a j ≡ testbit b j) → a ≡ b
unfolding testbit
testbit_ext zero a b h k same = omega arith
testbit_ext (suc w) a b h k same =
    let half =
      testbit_ext w (a / 2) (b / 2) (omega (arith, pow-suc 2 w)) (omega (arith, pow-suc 2 w))
        (λ j lt. same (suc j) (omega arith)) in
    ground (arith, same 0, half)

-- A multiple of 16 has its four lowest bits clear.
pub low_bits-clear : (v j : ℕ) → v % 16 ≡ 0 → j < 4 → testbit v j ≡ false
unfolding testbit
low_bits-clear v zero h lt = ground arith
low_bits-clear v (suc zero) h lt = ground arith
low_bits-clear v (suc (suc zero)) h lt = ground arith
low_bits-clear v (suc (suc (suc zero))) h lt = ground arith
low_bits-clear v (suc (suc (suc (suc j)))) h lt = absurd (omega arith)
