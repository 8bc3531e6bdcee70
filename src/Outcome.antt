-- ===== src/Outcome.antt =====
-- What a call ends in (internal/gt_internal/assert/assert.h). A failed GT_ASSERT ends the process
-- through gt_panic, here with the text of its condition; a fault is a step that C leaves undefined, and
-- `out_of_fuel` a loop that ran longer than the model's bound.
pub mod Cmd
use green_threads.Base.{ℕ, Bool, true, false, if◌then◌else◌}
use Prim.Native.String.{String}

pub data Outcome {ℓ} (A : Type ℓ) : Type ℓ where
  ok : A → Outcome A
  panic : String → Outcome A
  fault out_of_fuel : Outcome A

infixl 5 ◌>>=◌ ◌>>◌
abbrev pub ◌>>=◌ {ℓ κ} : {A : Type ℓ} {B : Type κ} → Outcome A → (A → Outcome B) → Outcome B
ok a >>= f = f a
panic m >>= f = panic m
fault >>= f = fault
out_of_fuel >>= f = out_of_fuel

abbrev pub ◌>>◌ {ℓ} : {B : Type ℓ} → Outcome (Unit {0}) → Outcome B → Outcome B
m >> k = m >>= λ _. k

-- GT_ASSERT.
abbrev pub check : Bool → String → Outcome (Unit {0})
check true m = ok tt
check false m = panic m
