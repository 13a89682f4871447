-- ===== src/LogStream.antt =====
-- src/logger/log_stream.h and src/logger/log_stream.cpp: formatting into a `FixedBuffer`.
pub mod Store
pub mod Digits
pub mod Decimal
pub mod Hex
pub mod Texts
mod Tests
use turbo_net.Common.{
  ℕ, zero, suc, ◌+◌, ◌-◌, ◌*◌, ◌/◌, ◌%◌, Bool, true, false, List, [], ◌∷◌, ◌++◌, reverse, Option,
  none, some, length, get_or, take, ◌==◌, ltb, if◌then◌else◌, Outcome, done, ◌>>=◌,
}
use turbo_net.Common.Int.{ℤ, pos, negsuc, magnitude, is_negative}
use turbo_net.Common.Slice.{slice, write_at}
use turbo_net.Common.Memory.{copy_to}
use turbo_net.FixedBuffer.{FixedBuffer, append, add, avail_below, reset, to_string}

abbrev pub max_numeric_size : ℕ
max_numeric_size = 48

abbrev pub small_buffer : ℕ
small_buffer = 4000

-- `digits`, with `zero` its tenth character: the index 9 + d serves remainders of both signs.
abbrev pub digits : List ℕ
digits =
    57 ∷ 56 ∷ 55 ∷ 54 ∷ 53 ∷ 52 ∷ 51 ∷ 50 ∷ 49 ∷ 48 ∷ 49 ∷ 50 ∷ 51 ∷ 52 ∷ 53 ∷ 54 ∷ 55 ∷ 56 ∷ 57
    ∷ []

abbrev pub digits_hex : List ℕ
digits_hex = 48 ∷ 49 ∷ 50 ∷ 51 ∷ 52 ∷ 53 ∷ 54 ∷ 55 ∷ 56 ∷ 57 ∷ 65 ∷ 66 ∷ 67 ∷ 68 ∷ 69 ∷ 70 ∷ []

-- `zero[i % 10]` for an `i` of this sign and magnitude: `%` truncates towards zero.
pub last_digit : Bool → ℕ → ℕ
last_digit true m = get_or digits (9 - m % 10) 0
last_digit false m = get_or digits (9 + m % 10) 0

pub hex_digit : ℕ → ℕ
hex_digit d = get_or digits_hex d 0

-- `do { *cur++ = digit(i); i /= base; } while (i != 0);`: the characters in the order written. The
-- fuel is a bound on the rounds.
pub digit_loop : (ℕ → ℕ) → ℕ → ℕ → ℕ → List ℕ
digit_loop digit base zero i = []
digit_loop digit base (suc f) i =
    let rest = digit_loop digit base f (i / base) in
    digit i ∷ (if (i / base) == 0 then [] else rest)

-- The characters that `FormatInteger` writes, the sign last.
pub integer_chars : ℤ → List ℕ
integer_chars v =
    digit_loop (last_digit (is_negative v)) 10 (suc (magnitude v)) (magnitude v)
    ++ (if is_negative v then b'-' ∷ [] else [])

-- The common end of `FormatInteger` and of the pointer's `operator<<`: behind `prefix` the
-- characters and a NUL are stored, and the characters are reversed in place.
pub store_number : FixedBuffer → List ℕ → List ℕ → Outcome FixedBuffer
unfolding copy_to add
store_number b prefix chars = do
  s1 ← copy_to b.cells b.cur (prefix ++ (chars ++ 0 ∷ []))
  let start = b.cur + length prefix
  s2 ← copy_to s1 start (reverse (slice s1 start (length chars)))
  done (add (record { cells = s2; cur = b.cur }) (length prefix + length chars))

pub format_integer : FixedBuffer → ℤ → Outcome FixedBuffer
unfolding avail_below
format_integer b v =
    if avail_below b max_numeric_size then done b else store_number b [] (integer_chars v)

-- `operator<<(const void *)`, for the pointer's value.
pub format_pointer : FixedBuffer → ℕ → Outcome FixedBuffer
unfolding avail_below
format_pointer b v =
    if avail_below b max_numeric_size
    then done b
    else store_number b (b'0' ∷ b'x' ∷ []) (digit_loop (λ i. hex_digit (i % 16)) 16 (suc v) v)

-- `operator<<(double)`: `printed` is what `snprintf("%.12g")` makes of the value. It stores at most
-- 47 characters and a NUL, and returns the length of the whole.
pub format_double : FixedBuffer → List ℕ → Outcome FixedBuffer
unfolding copy_to add avail_below
format_double b printed = if avail_below b max_numeric_size then done b else (do
  s ← copy_to b.cells b.cur (take (max_numeric_size - 1) printed ++ 0 ∷ [])
  done (add (record { cells = s; cur = b.cur }) (length printed)))

-- What can be streamed, one constructor for each `operator<<` that is not a cast of another. A C
-- string is `none` for a null pointer.
pub data Value : Type 0 where
  bool : Bool → Value
  integer : ℤ → Value
  double : List ℕ → Value
  char : ℕ → Value
  c_string : Option (List ℕ) → Value
  pointer : ℕ → Value
  string : List ℕ → Value
  buffer : FixedBuffer → Value

abbrev pub null_text : List ℕ
null_text = b'(' ∷ b'n' ∷ b'u' ∷ b'l' ∷ b'l' ∷ b')' ∷ []

pub stream : FixedBuffer → Value → Outcome FixedBuffer
stream b (bool v) = append b (if v then b'1' ∷ [] else b'0' ∷ [])
stream b (integer v) = format_integer b v
stream b (double printed) = format_double b printed
stream b (char c) = append b (c ∷ [])
stream b (c_string none) = append b null_text
stream b (c_string (some s)) = append b s
stream b (pointer v) = format_pointer b v
stream b (string s) = append b s
stream b (buffer v) = append b (to_string v)

-- `stream << v1 << v2 << …`.
pub stream_all : FixedBuffer → List Value → Outcome FixedBuffer
stream_all b [] = done b
stream_all b (v ∷ vs) = stream b v >>= λ b'. stream_all b' vs

pub reset_buffer : FixedBuffer → FixedBuffer
reset_buffer b = reset b
