-- ===== src/Timestamp.antt =====
-- src/base/timestamp.h and src/base/timestamp.cpp, with the operators that src/base/public_define.h
-- derives: points in time.
pub mod Order
pub mod Text
pub mod Reading
pub mod Calendar
pub mod Distinct
pub mod Samples
mod Tests
use turbo_net.Common.{
  ℕ, zero, suc, ◌+◌, ◌-◌, ◌*◌, ◌/◌, ◌%◌, Bool, true, false, not, ltb, leb, ◌==◌, if◌then◌else◌, ◌^◌,
  Outcome, done, check, overflow, ◌>>◌,
}
use turbo_net.Common.Int.{ℤ, pos, negsuc}

-- The nanoseconds of `system_clock::duration`.
pub record Timestamp : Type 0 where
  pub time_since_epoch : ℤ

unfoldable pub make_timestamp : Timestamp
make_timestamp = record { time_since_epoch = pos 0 }

-- `<` and `==` of two durations.
unfoldable pub less_int : ℤ → ℤ → Bool
less_int (pos a) (pos b) = ltb a b
less_int (pos a) (negsuc b) = false
less_int (negsuc a) (pos b) = true
less_int (negsuc a) (negsuc b) = ltb b a

unfoldable pub equal_int : ℤ → ℤ → Bool
equal_int (pos a) (pos b) = a == b
equal_int (pos a) (negsuc b) = false
equal_int (negsuc a) (pos b) = false
equal_int (negsuc a) (negsuc b) = a == b

unfoldable pub less : Timestamp → Timestamp → Bool
less l r = less_int l.time_since_epoch r.time_since_epoch

unfoldable pub equal : Timestamp → Timestamp → Bool
equal l r = equal_int l.time_since_epoch r.time_since_epoch

-- The operators of `LessThanComparable` and `EqualityComparable`.
unfoldable pub greater : Timestamp → Timestamp → Bool
greater l r = less r l

unfoldable pub less_equal : Timestamp → Timestamp → Bool
less_equal l r = not (less r l)

unfoldable pub greater_equal : Timestamp → Timestamp → Bool
greater_equal l r = not (less l r)

unfoldable pub not_equal : Timestamp → Timestamp → Bool
not_equal l r = not (equal l r)

abbrev pub opposite : ℕ → ℤ
opposite zero = pos 0
opposite (suc n) = negsuc n

-- `duration_cast`, which cuts towards 0.
unfoldable pub cut : ℤ → ℕ → ℤ
cut (pos a) n = pos (a / n)
cut (negsuc a) n = opposite (suc a / n)

unfoldable pub time_since_epoch_days : Timestamp → ℤ
time_since_epoch_days t = cut t.time_since_epoch 86400000000000

unfoldable pub time_since_epoch_seconds : Timestamp → ℤ
time_since_epoch_seconds t = cut t.time_since_epoch 1000000000

unfoldable pub time_since_epoch_micro_seconds : Timestamp → ℤ
time_since_epoch_micro_seconds t = cut t.time_since_epoch 1000

abbrev pub plus : ℤ → ℤ → ℤ
plus (pos a) (pos b) = pos (a + b)
plus (pos a) (negsuc b) = if leb (suc b) a then pos (a - suc b) else negsuc (b - a)
plus (negsuc a) (pos b) = if leb (suc a) b then pos (b - suc a) else negsuc (a - b)
plus (negsuc a) (negsuc b) = negsuc (a + b + 1)

abbrev pub scaled : ℤ → ℕ → ℤ
scaled (pos a) n = pos (a * n)
scaled (negsuc a) n = opposite (suc a * n)

-- Whether 64 bits hold the number.
unfoldable pub fits64 : ℤ → Bool
fits64 (pos n) = ltb n (2 ^ 63)
fits64 (negsuc n) = ltb n (2 ^ 63)

-- `AddTime`: `to_micros` is what the cast makes of the seconds times 1000000. The microseconds are
-- made nanoseconds, and added; a result that 64 bits do not hold is an overflow.
unfoldable pub add_time : {D : Type 0} → (D → ℤ) → Timestamp → D → Outcome Timestamp
add_time to_micros t seconds =
    let delta = scaled (to_micros seconds) 1000 in
    let sum = plus t.time_since_epoch delta in
    check (fits64 delta) overflow
    >> (check (fits64 sum) overflow >> done (record { time_since_epoch = sum }))
