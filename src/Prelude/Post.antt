-- ===== src/Prelude/Post.antt =====
-- Partial correctness of a run: what holds of the value, if there is one.
use mathlib.Core.Path.{◌≡◌, refl, subst}
use mathlib.Core.Option.{Option, none, some}
use mathlib.Core.Bool.{Bool, true, false}
use fors_kernel.Prelude.Tests.{if◌then◌else◌}
use fors_kernel.Prelude.Fault.{Run, ok, fault, out_of_fuel, ◌>>=◌, deref}

pub data Post {A : Type 0} (P : A → Type 0) : Run A → Type 0 where
  returns : {a : A} → P a → Post P (ok a)
  faults : Post P fault
  spent : Post P out_of_fuel

module _ {A B : Type 0} where
  pub Post-bind :
      {P : A → Type 0} {Q : B → Type 0} {m : Run A} (f : A → Run B)
      → Post P m
      → ((a : A) → P a → Post Q (f a))
      → Post Q (m >>= f)
  Post-bind f (returns p) next = next _ p
  Post-bind f faults next = faults
  Post-bind f spent next = spent

module _ {A : Type 0} where
  -- Every run meets the postcondition that its value is what it returned.
  pub Post-self : (m : Run A) → Post (λ a. m ≡ ok a) m
  Post-self (ok a) = returns refl
  Post-self fault = faults
  Post-self out_of_fuel = spent

  pub Post-deref : (o : Option A) → Post (λ a. o ≡ some a) (deref o)
  Post-deref none = faults
  Post-deref (some a) = returns refl

  pub Post-ok : {P : A → Type 0} {m : Run A} {a : A} → Post P m → m ≡ ok a → P a
  Post-ok {P} {a = c} (returns {a = b} p) e = let q : b ≡ c = cc in subst P q p
  Post-ok faults e = cc
  Post-ok spent e = cc

  pub Post-mono : {P Q : A → Type 0} {m : Run A} → Post P m → ((a : A) → P a → Q a) → Post Q m
  Post-mono (returns p) weaken = returns (weaken _ p)
  Post-mono faults weaken = faults
  Post-mono spent weaken = spent

  pub Post-if :
      {P : A → Type 0} (b : Bool) {m k : Run A} → Post P m → Post P k → Post P (if b then m else k)
  Post-if true p q = p
  Post-if false p q = q
