-- ===== src/Word/Step.antt =====
-- The bitwise operations, one binary digit at a time.
use Prim.Native.Nat.{min, max, digits, bitwise, bit_and-bitwise, bit_or-bitwise}
use native.Mathlib.Nat.{le_refl}
use green_threads.Base.{ℕ, zero, suc, ◌+◌, ◌*◌, ◌/◌, ◌%◌, ◌≤◌, bit_and, bit_or, ◌≡◌, refl, arith}

-- Enough fuel is as good as more.
digits_enough :
    (z : ℕ → ℕ) (f : ℕ → ℕ → ℕ) (n m a b : ℕ) → a ≤ n → a ≤ m → digits z f n a b ≡ digits z f m a b
digits_enough z f zero zero a b p q = refl
digits_enough z f zero (suc m) zero b p q = refl
digits_enough z f zero (suc m) (suc a) b p q = absurd (omega arith)
digits_enough z f (suc n) zero zero b p q = refl
digits_enough z f (suc n) zero (suc a) b p q = absurd (omega arith)
digits_enough z f (suc n) (suc m) zero b p q = refl
digits_enough z f (suc n) (suc m) (suc a) b p q =
    rw (digits_enough z f n m (suc a / 2) (b / 2) (omega arith) (omega arith))

low_digit :
    (z : ℕ → ℕ) (f : ℕ → ℕ → ℕ) (a b : ℕ)
    → bitwise z f (suc a) b ≡ bitwise z f (suc a / 2) (b / 2) * 2 + f (suc a % 2) (b % 2)
low_digit z f a b =
    omega (arith, digits_enough z f a (suc a / 2) (suc a / 2) (b / 2) (omega arith) (le_refl _))

pub bit_or-low : (a b : ℕ) → bit_or a b ≡ bit_or (a / 2) (b / 2) * 2 + max (a % 2) (b % 2)
bit_or-low zero b = simp bit_or-bitwise (omega arith)
bit_or-low (suc a) b = simp bit_or-bitwise (low_digit (λ y. y) max a b)

pub bit_and-low : (a b : ℕ) → bit_and a b ≡ bit_and (a / 2) (b / 2) * 2 + min (a % 2) (b % 2)
bit_and-low zero b = simp bit_and-bitwise (omega arith)
bit_and-low (suc a) b = simp bit_and-bitwise (low_digit (λ y. 0) min a b)
