-- ===== src/Base/Results.antt =====
-- What a call of the C++ code can end in besides a value, and the chaining of such calls.
use mathlib.Core.Bool.{Bool, true, false}
use mathlib.Core.Option.{Option, none, some}

-- `terminate` is `std::terminate()`, `runtime_error` and `logic_error` are the exceptions of those
-- names, `out_of_range` is an access outside a vector, which C++ leaves undefined, and `no_fuel`
-- is a loop cut off by the model's bound on its rounds.
pub data Fault : Type 0 where
  terminate runtime_error logic_error out_of_range no_fuel : Fault

pub data Result {ℓ} (V : Type ℓ) : Type ℓ where
  err : Fault → Result V
  ok : V → Result V

-- The rest of a function runs only behind a call that returned.
module _ {ℓ κ} {V : Type ℓ} {W : Type κ} where
  infixl 5 ◌>>=◌
  abbrev pub ◌>>=◌ : Result V → (V → Result W) → Result W
  err fault >>= next = err fault
  ok v >>= next = next v

infixl 5 ◌>>◌
abbrev pub ◌>>◌ {κ} : {W : Type κ} → Result (Unit {0}) → Result W → Result W
first >> next = first >>= λ _. next

-- `if (false == test) fail;`
abbrev pub require : Bool → Fault → Result (Unit {0})
require false fault = err fault
require true fault = ok tt

-- A read that `none` says was outside the vector.
abbrev pub or_fail {ℓ} : {V : Type ℓ} → Option V → Fault → Result V
or_fail (some v) fault = ok v
or_fail none fault = err fault
