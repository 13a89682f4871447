-- ===== src/Common/Compare.antt =====
-- Boolean tests on the native numbers, the conditional, and `size_t` arithmetic.
use Prim.Native.Nat.{ℕ, ◌+◌, ◌-◌, ◌%◌, ◌^◌, ◌≤◌, ◌<◌, compare, Ordering}
use mathlib.Core.Path.{◌≡◌, refl}
use mathlib.Core.Logic.{◌↔◌, ◌⊎◌, inl, inr}
use mathlib.Core.Bool.{Bool, true, false}
use native.Mathlib.Omega.{arith}

abbrev pub ltb : ℕ → ℕ → Bool
ltb a b = elim (compare a b) [ Ordering.lt ↦ true | _ ↦ false ]

abbrev pub leb : ℕ → ℕ → Bool
leb a b = elim (compare a b) [ Ordering.gt ↦ false | _ ↦ true ]

infix 50 ◌==◌
abbrev pub ◌==◌ : ℕ → ℕ → Bool
a == b = elim (compare a b) [ Ordering.eq ↦ true | _ ↦ false ]

infix 1 if◌then◌else◌
abbrev pub if◌then◌else◌ {ℓ} : {A : Type ℓ} → Bool → A → A → A
if true then x else y = x
if false then x else y = y

pub ltb→lt : (a b : ℕ) → ltb a b ≡ true → a < b
ltb→lt a b h = ground arith

pub lt→ltb : (a b : ℕ) → a < b → ltb a b ≡ true
lt→ltb a b h = ground arith

pub leb→le : (a b : ℕ) → leb a b ≡ true → a ≤ b
leb→le a b h = ground arith

pub le→leb : (a b : ℕ) → a ≤ b → leb a b ≡ true
le→leb a b h = ground arith

pub not_ltb : (a b : ℕ) → b ≤ a → ltb a b ≡ false
not_ltb a b h = ground arith

pub ==_iff : (a b : ℕ) → ((a == b) ≡ true) ↔ (a ≡ b)
==_iff a b = ground arith

-- To split on a computed value and keep the equation.
pub Bool-cases : (b : Bool) → (b ≡ true) ⊎ (b ≡ false)
Bool-cases true = inl refl
Bool-cases false = inr refl

-- `size_t` is 64 bits wide: sums and differences wrap.
abbrev pub size_mod : ℕ
size_mod = 2 ^ 64

abbrev pub add_size : ℕ → ℕ → ℕ
add_size a b = (a + b) % size_mod

abbrev pub sub_size : ℕ → ℕ → ℕ
sub_size a b = (a + size_mod - b) % size_mod

-- A difference of `size_t` that does not wrap, and a sum.
pub sub_size_lem : (a b : ℕ) → b ≤ a → a < size_mod → sub_size a b ≡ a - b
sub_size_lem a b h k = omega arith

pub add_size_lem : (a b : ℕ) → a + b < size_mod → add_size a b ≡ a + b
add_size_lem a b h = omega arith
