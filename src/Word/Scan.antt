-- ===== src/Word/Scan.antt =====
-- About the scan for the lowest set bit, `__builtin_ctzl`.
use native.Mathlib.Nat.{pow-suc}
use green_threads.Base.{
  ℕ, zero, suc, ◌/◌, ◌%◌, ◌^◌, ◌<◌, ◌≡◌, ◌≢◌, arith, ◌==◌, true, false, Bool-cases, inl, inr,
}
use green_threads.Word.{testbit, ctz}

pub record IsLowest (w a k : ℕ) : Type 0 where
  pub within : k < w
  pub bit_set : testbit a k ≡ true
  pub below : (j : ℕ) → j < k → testbit a j ≡ false

-- The clear bits of the upper digits, moved up behind a clear lowest digit.
below_suc :
    (a j k : ℕ)
    → (a % 2 == 1) ≡ false
    → ((i : ℕ) → i < k → testbit (a / 2) i ≡ false)
    → j < suc k
    → testbit a j ≡ false
unfolding testbit
below_suc a zero k even rest lt = even
below_suc a (suc j) k even rest lt = rest j (omega arith)

pub ctz-IsLowest : (w a : ℕ) → a < 2 ^ w → a ≢ 0 → IsLowest w a (ctz w a)
unfolding ctz testbit
ctz-IsLowest zero a h ne = absurd (omega arith)
ctz-IsLowest (suc w) a h ne = elim (Bool-cases (a % 2 == 1)) [
  | inl odd ↦
      rw odd (record { within = omega arith; bit_set = odd; below = λ j lt. absurd (omega arith) })
  | inr even ↦
      let rest = ctz-IsLowest w (a / 2) (omega (arith, pow-suc 2 w)) (ground arith) in
      rw even (record {
        within = omega (arith, rest.within);
        bit_set = rest.bit_set;
        below = λ j lt. below_suc a j (ctz w (a / 2)) even rest.below lt;
      })
]
