-- ===== src/Timestamp/Text.antt =====
-- `ToString` and `ToFormatString` of src/base/timestamp.cpp.
use turbo_net.Common.{
  ℕ, suc, ◌%◌, ◌^◌, ◌≤◌, ◌<◌, ◌≡◌, ◌++◌, Bool, List, ◌∷◌, Option, none, some, length, take,
  if◌then◌else◌, Outcome, done, stopped, null_deref,
}
use turbo_net.Common.Int.{ℤ, pos, negsuc}
use turbo_net.LogStream.Digits.{number, read_on}
use turbo_net.LogStream.Decimal.{decimal_value}
use turbo_net.Timestamp.{
  Timestamp, opposite, plus, time_since_epoch_seconds, time_since_epoch_micro_seconds,
}

-- What `snprintf` makes of an integer: "%ld", "%4d" with blanks in front, "%02d" and "%06lld" with
-- zeros.
pub record Printf : Type 0 where
  pub long : ℤ → List ℕ
  pub spaced : ℕ → ℤ → List ℕ
  pub padded : ℕ → ℤ → List ℕ

-- Decimal digits, a sign in front of a negative number, and zeros up to the width.
pub record Laws (printf : Printf) : Type 0 where
  pub read-long : (n : ℕ) → read_on decimal_value 10 (number 0) (printf.long (pos n)) ≡ number n
  pub length-long : (n k : ℕ) → n < 10 ^ suc k → length (printf.long (pos n)) ≤ suc k
  pub long-negsuc : (n : ℕ) → printf.long (negsuc n) ≡ b'-' ∷ printf.long (pos (suc n))
  pub read-padded :
      (w n : ℕ) → read_on decimal_value 10 (number 0) (printf.padded w (pos n)) ≡ number n
  pub length-padded : (w n : ℕ) → n < 10 ^ suc w → length (printf.padded (suc w) (pos n)) ≡ suc w
  pub length-spaced : (w n : ℕ) → n < 10 ^ suc w → length (printf.spaced (suc w) (pos n)) ≡ suc w
  pub spaced-injective : (w m n : ℕ) → printf.spaced w (pos m) ≡ printf.spaced w (pos n) → m ≡ n
  pub length-padded_most : (w n : ℕ) → n < 10 ^ suc w → length (printf.padded w (pos n)) ≤ suc w
  pub padded-negsuc :
      (w n : ℕ) → printf.padded (suc w) (negsuc n) ≡ b'-' ∷ printf.padded w (pos (suc n))

-- `%`, whose result has the sign of the dividend.
unfoldable pub remainder : ℤ → ℕ → ℤ
remainder (pos a) n = pos (a % n)
remainder (negsuc a) n = opposite (suc a % n)

-- `microseconds % kMicroSecondsPerSecond`.
unfoldable pub fraction : Timestamp → ℤ
fraction t = remainder (time_since_epoch_micro_seconds t) 1000000

-- `struct tm`.
pub record Tm : Type 0 where
  pub tm_year : ℤ
  pub tm_mon : ℤ
  pub tm_mday : ℤ
  pub tm_hour : ℤ
  pub tm_min : ℤ
  pub tm_sec : ℤ

module _ (printf : Printf) where
  -- `snprintf` may fill 31 bytes of the buffer, with the NUL.
  unfoldable pub to_string : Timestamp → List ℕ
  to_string t =
      take 30 (printf.long (time_since_epoch_seconds t) ++ b'.' ∷ printf.padded 6 (fraction t))

  unfoldable pub calendar : Tm → List ℕ
  calendar tm =
      printf.spaced 4 (plus tm.tm_year (pos 1900))
      ++ b'-' ∷ printf.padded 2 (plus tm.tm_mon (pos 1))
      ++ b'-' ∷ printf.padded 2 tm.tm_mday
      ++ b' ' ∷ printf.padded 2 tm.tm_hour
      ++ b':' ∷ printf.padded 2 tm.tm_min
      ++ b':' ∷ printf.padded 2 tm.tm_sec

  unfoldable pub formatted : Bool → Timestamp → Tm → List ℕ
  formatted show_microseconds t tm =
      if show_microseconds
      then take 63 (calendar tm ++ b'.' ∷ printf.padded 6 (fraction t))
      else take 63 (calendar tm)

  -- `std::localtime` gives a null pointer for a time that it cannot present.
  unfoldable pub at_local_time : Bool → Timestamp → Option Tm → Outcome (List ℕ)
  at_local_time show_microseconds t none = stopped null_deref
  at_local_time show_microseconds t (some tm) = done (formatted show_microseconds t tm)

  unfoldable pub to_format_string : (ℤ → Option Tm) → Bool → Timestamp → Outcome (List ℕ)
  to_format_string localtime show_microseconds t =
      at_local_time show_microseconds t (localtime (time_since_epoch_seconds t))
