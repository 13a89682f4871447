-- ===== src/LogStream/Hex.antt =====
-- The pointer's `operator<<` against reading a hexadecimal number.
use turbo_net.Common.{
  ℕ, suc, ◌+◌, ◌-◌, ◌%◌, ◌^◌, ◌≤◌, ◌<◌, ◌≡◌, refl, List, [], ◌∷◌, ◌++◌, reverse, Option, none, some,
  length, ltb, leb, if◌then◌else◌, ◌&&◌, arith, length-reverse, not_ltb, done, Bool-cases, inl, inr,
}
use turbo_net.FixedBuffer.{FixedBuffer, to_string}
use turbo_net.FixedBuffer.Text.{IsValid, Writes}
use turbo_net.LogStream.{digit_loop, hex_digit, format_pointer, max_numeric_size}
use turbo_net.LogStream.Digits.{number, read_on, read-digit_loop, length-digit_loop}
use turbo_net.LogStream.Store.{store_number_lem}

-- The value of an upper-case hexadecimal digit.
abbrev pub hex_value : ℕ → Option ℕ
hex_value c =
    if leb b'0' c && leb c b'9'
    then some (c - b'0')
    else if leb b'A' c && leb c b'F'
    then some (c - b'A' + 10)
    else none

hex_digit-value_below : (d : ℕ) → d < 16 → hex_value (hex_digit d) ≡ some d
unfolding hex_digit
hex_digit-value_below d h = ground arith

hex_digit-value : (i : ℕ) → hex_value (hex_digit (i % 16)) ≡ some (i % 16)
hex_digit-value i = hex_digit-value_below (i % 16) (omega arith)

abbrev pub hex_chars : ℕ → List ℕ
hex_chars v = digit_loop (λ i. hex_digit (i % 16)) 16 (suc v) v

read-hex_chars : (v : ℕ) → read_on hex_value 16 (number 0) (reverse (hex_chars v)) ≡ number v
read-hex_chars v =
    read-digit_loop (λ i. hex_digit (i % 16)) hex_value 16 hex_digit-value (λ i. omega arith)
      (λ i h. omega arith) (suc v) v (omega arith)

pub length-hex_chars : (v : ℕ) → v < 2 ^ 64 → length (hex_chars v) ≤ 16
length-hex_chars v h =
    length-digit_loop (λ i. hex_digit (i % 16)) 16 (λ i p g. omega arith) (suc v) v 15 (omega arith)

pub format_pointer_lem :
    (b : FixedBuffer) (v : ℕ)
    → IsValid b
    → v < 2 ^ 64
    → b.cur + max_numeric_size ≤ length b.cells
    → (b' : FixedBuffer) × (format_pointer b v ≡ done b')
      × Writes b (to_string b ++ (b'0' ∷ b'x' ∷ []) ++ reverse (hex_chars v)) b'
unfolding format_pointer
format_pointer_lem b v valid small h =
    let short = length-hex_chars v small in
    let (b', e, w) =
      store_number_lem b (b'0' ∷ b'x' ∷ []) (hex_chars v) valid (omega (arith, short)) in
    (b', rw (not_ltb (length b.cells) (b.cur + max_numeric_size) h) e, w)

-- On a valid buffer with at least 48 free cells, a pointer below 2^64 is shown as "0x" and at most
-- 16 upper-case digits that read as its value; with fewer nothing is added.
pub format_pointer-roundtrip :
    (b : FixedBuffer) (v : ℕ)
    → IsValid b
    → v < 2 ^ 64
    → (b' : FixedBuffer) × (text : List ℕ) × (format_pointer b v ≡ done b')
      × (length text ≤ 16)
      × (if ltb (length b.cells) (b.cur + max_numeric_size)
          then b' ≡ b
          else Writes b (to_string b ++ (b'0' ∷ b'x' ∷ []) ++ text) b'
            × (read_on hex_value 16 (number 0) text ≡ number v))
unfolding format_pointer
format_pointer-roundtrip b v valid small =
    elim (Bool-cases (ltb (length b.cells) (b.cur + max_numeric_size))) [
      | inl full ↦ (b, [], rw full refl, omega arith, rw full refl)
      | inr room ↦
          let (b', e, w) = format_pointer_lem b v valid small (ground (arith, room)) in
          (
            b',
            reverse (hex_chars v),
            e,
            omega (arith, length-reverse (hex_chars v), length-hex_chars v small),
            rw room (w, read-hex_chars v),
          )
    ]
