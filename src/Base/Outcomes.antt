-- ===== src/Base/Outcomes.antt =====
-- What a run of C code comes to: a result, an access outside an array or through a null pointer, or a
-- loop that goes on when the fuel or the events given to it have run out.
pub data Outcome {ℓ} (A : Type ℓ) : Type ℓ where
  returns : A → Outcome A
  fault no_fuel : Outcome A

infixl 5 ◌>>=◌
abbrev pub ◌>>=◌ {ℓ κ} : {A : Type ℓ} {B : Type κ} → Outcome A → (A → Outcome B) → Outcome B
returns a >>= f = f a
fault >>= f = fault
no_fuel >>= f = no_fuel
