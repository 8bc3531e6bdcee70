-- ===== src/Outcome/Cmd.antt =====
-- Calls that read and write a state: the state monad over outcomes.
use green_threads.Base.{Bool, true, false}
use green_threads.Outcome.{Outcome, ok, panic, fault, out_of_fuel}
use Prim.Native.String.{String}

abbrev pub Cmd : Type 0 → Type 0 → Type 0
Cmd S A = S → Outcome (A × S)

-- Going on from a result; the state may change its type, where a part runs in a whole.
abbrev pub and_then :
    {S T A B : Type 0} → Outcome (A × S) → (A → S → Outcome (B × T)) → Outcome (B × T)
and_then (ok (a, s)) f = f a s
and_then (panic t) f = panic t
and_then fault f = fault
and_then out_of_fuel f = out_of_fuel

module _ {S : Type 0} where
  abbrev pub pure : {A : Type 0} → A → Cmd S A
  pure a s = ok (a, s)

  infixl 5 ◌>>=◌ ◌>>◌
  abbrev pub ◌>>=◌ : {A B : Type 0} → Cmd S A → (A → Cmd S B) → Cmd S B
  ◌>>=◌ m f s = and_then (m s) f

  abbrev pub ◌>>◌ : {B : Type 0} → Cmd S (Unit {0}) → Cmd S B → Cmd S B
  m >> k = m >>= λ _. k

  -- GT_ASSERT.
  abbrev pub assert : Bool → String → Cmd S (Unit {0})
  assert true t s = ok (tt, s)
  assert false t s = panic t
