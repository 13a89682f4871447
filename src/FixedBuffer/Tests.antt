-- ===== src/FixedBuffer/Tests.antt =====
-- Runs of the fixed buffer, and its theorems at small inputs.
use turbo_net.Common.{◌≡◌, refl, [], ◌∷◌, arith, done}
use turbo_net.Common.Slice.{write_at}
use turbo_net.FixedBuffer.{FixedBuffer, append}
use turbo_net.FixedBuffer.Text.{IsValid}

abbrev five : FixedBuffer
five = record { cells = 1 ∷ 2 ∷ 0 ∷ 0 ∷ 0 ∷ []; cur = 2 }

five-IsValid : IsValid five
five-IsValid = omega arith

-- Three free cells take two bytes, not three.
takes_two : append five (7 ∷ 8 ∷ []) ≡ done (record { cells = 1 ∷ 2 ∷ 7 ∷ 8 ∷ 0 ∷ []; cur = 4 })
unfolding append write_at
takes_two = refl

refuses_three : append five (7 ∷ 8 ∷ 9 ∷ []) ≡ done five
unfolding append
refuses_three = refl
