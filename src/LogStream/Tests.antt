-- ===== src/LogStream/Tests.antt =====
-- Runs of the stream, and its theorems at small inputs.
use turbo_net.Common.{
  ℕ, ◌-◌, ◌^◌, ◌≤◌, ◌≡◌, refl, true, List, [], ◌∷◌, ◌++◌, reverse, none, some, length, replicate,
  arith, done,
}
use turbo_net.Common.Int.{pos, negsuc}
use turbo_net.FixedBuffer.{FixedBuffer}
use turbo_net.FixedBuffer.Text.{IsValid, Writes}
use turbo_net.LogStream.{
  Value, bool, integer, char, c_string, integer_chars, last_digit, digit_loop, format_integer,
  format_pointer, stream_all,
}
use turbo_net.LogStream.Digits.{number, read_on}
use turbo_net.LogStream.Decimal.{read_integer, format_integer-roundtrip}
use turbo_net.LogStream.Hex.{hex_value, format_pointer-roundtrip}
use turbo_net.LogStream.Texts.{stream_all_lem}

abbrev sixty : FixedBuffer
sixty = record { cells = 9 ∷ replicate 59 0; cur = 1 }

sixty-IsValid : IsValid sixty
sixty-IsValid = omega arith

-- "-120", in the order written.
minus_120 : integer_chars (negsuc 119) ≡ 48 ∷ 50 ∷ 49 ∷ b'-' ∷ []
unfolding integer_chars digit_loop last_digit
minus_120 = refl

least_int64 :
    read_integer (reverse (integer_chars (negsuc (2 ^ 63 - 1)))) ≡ some (negsuc (2 ^ 63 - 1))
unfolding integer_chars digit_loop last_digit
least_int64 = refl

format_integer-roundtrip_example :
    (b' : FixedBuffer) × (text : List ℕ) × (format_integer sixty (negsuc 119) ≡ done b')
    × Writes sixty (9 ∷ [] ++ text) b'
    × (length text ≤ 21)
    × (read_integer text ≡ some (negsuc 119))
format_integer-roundtrip_example =
    format_integer-roundtrip sixty (negsuc 119) sixty-IsValid (omega arith)

format_pointer-roundtrip_example :
    (b' : FixedBuffer) × (text : List ℕ) × (format_pointer sixty 0xbeef ≡ done b')
    × (length text ≤ 16)
    × (Writes sixty (9 ∷ b'0' ∷ b'x' ∷ [] ++ text) b'
        × (read_on hex_value 16 (number 0) text ≡ number 0xbeef))
format_pointer-roundtrip_example = format_pointer-roundtrip sixty 0xbeef sixty-IsValid (omega arith)

abbrev line : List Value
line = bool true ∷ c_string none ∷ integer (pos 42) ∷ char b':' ∷ []

abbrev roomy : FixedBuffer
roomy = record { cells = replicate 80 0; cur = 0 }

stream_all_lem_example :
    (b' : FixedBuffer) × (stream_all roomy line ≡ done b')
    × Writes roomy (b'1' ∷ b'(' ∷ b'n' ∷ b'u' ∷ b'l' ∷ b'l' ∷ b')' ∷ b'4' ∷ b'2' ∷ b':' ∷ []) b'
unfolding integer_chars digit_loop last_digit
stream_all_lem_example =
    stream_all_lem roomy line (omega arith) (tt, (tt, (omega arith, (tt, tt)))) (omega arith)
