-- ===== src/Prelude/Fault.antt =====
-- Runs of C code: a value, or a fault where the code reads or writes outside the object it was
-- given, follows a null pointer, divides by zero or panics; and, for a loop that is given a number
-- of rounds, the end of those rounds.
use mathlib.Core.Option.{Option, none, some}

infixl 5 ◌>>=◌
pub data Run {ℓ} (A : Type ℓ) : Type ℓ where
  out_of_fuel fault : Run A
  ok : A → Run A

-- Sequencing stops where the first part does.
abbrev pub ◌>>=◌ {κ ℓ} : {B : Type ℓ} {A : Type κ} → Run B → (B → Run A) → Run A
out_of_fuel >>= next = out_of_fuel
fault >>= next = fault
ok x >>= next = next x

-- What a read past the end of an object gives.
abbrev pub deref {ℓ} : {A : Type ℓ} → Option A → Run A
deref none = fault
deref (some a) = ok a
