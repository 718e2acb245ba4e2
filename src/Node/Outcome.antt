-- ===== src/Node/Outcome.antt =====
-- Results of code that may stop: a failed `assert`, a read out of range, or a loop out of fuel.
use loti.Base.{Option, none, some}

-- `no_value` is `*` on an empty optional, `out_of_range` an exception of `at` or an index past the end
-- of a vector, `out_of_fuel` a loop that the model has not followed to its end.
pub data Fault : Type 0 where
  assertion no_value out_of_range out_of_fuel : Fault

pub data Outcome {ℓ} (A : Type ℓ) : Type ℓ where
  done : A → Outcome A
  fault : Fault → Outcome A

infixl 5 ◌>>=◌
abbrev pub ◌>>=◌ {ℓ κ} : {A : Type ℓ} {B : Type κ} → Outcome A → (A → Outcome B) → Outcome B
done a >>= f = f a
fault x >>= f = fault x

abbrev pub or_fault {ℓ} : {A : Type ℓ} → Fault → Option A → Outcome A
or_fault x none = fault x
or_fault x (some a) = done a
