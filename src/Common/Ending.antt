-- ===== src/Common/Ending.antt =====
-- How a C++ call ends: it returns, or the run is over.
use mathlib.Core.Bool.{Bool, true, false}
use mathlib.Core.Path.{◌≡◌, refl}

-- `assertion`: an `assert` failed. `out_of_range`: an access outside the object, which C++ leaves
-- undefined. `length_error`: a `std::vector` was asked to grow past its `max_size`. `null_deref`: a
-- null pointer was followed. `logged_fatal`: the logger called `abort` after a fatal message.
-- `aborted`: other code called `abort`. `overflow`: an `int` overflowed.
pub data Stop : Type 0 where
  assertion out_of_range length_error null_deref logged_fatal overflow aborted : Stop

pub data Outcome {ℓ} (A : Type ℓ) : Type ℓ where
  done : A → Outcome A
  stopped : Stop → Outcome A

infixl 5 ◌>>=◌ ◌>>◌
abbrev pub ◌>>=◌ {ℓ κ} : {A : Type ℓ} {B : Type κ} → Outcome A → (A → Outcome B) → Outcome B
done a >>= f = f a
stopped e >>= f = stopped e

abbrev pub ◌>>◌ {ℓ} : {B : Type ℓ} → Outcome (Unit {0}) → Outcome B → Outcome B
m >> k = m >>= λ _. k

-- `assert(b)` in a build that keeps assertions.
abbrev pub check : Bool → Stop → Outcome (Unit {0})
check true e = done tt
check false e = stopped e

-- A call ends normally in a state with the property.
abbrev pub Returns {ℓ} : {A : Type ℓ} → (A → Type 0) → Outcome A → Type 0
Returns P (done a) = P a
Returns P (stopped e) = ⊥

-- Inversion of a sequence that returned.
pub >>=-eq-done {ℓ κ} :
    {A : Type ℓ} {B : Type κ} (m : Outcome A) (f : A → Outcome B) {b : B}
    → (m >>= f) ≡ done b
    → (a : A) × (m ≡ done a) × (f a ≡ done b)
>>=-eq-done (done a) f h = (a, refl, h)
>>=-eq-done (stopped e) f h = cc

pub done-injective {ℓ} : {A : Type ℓ} {a b : A} → done a ≡ done b → a ≡ b
done-injective e = cc

pub check-eq-done : (b : Bool) (e : Stop) {u : Unit {0}} → check b e ≡ done u → b ≡ true
check-eq-done true e h = refl
check-eq-done false e h = cc
