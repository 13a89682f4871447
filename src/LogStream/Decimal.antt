-- ===== src/LogStream/Decimal.antt =====
-- `FormatInteger` against reading a decimal number.
use turbo_net.Common.{
  ℕ, suc, ◌+◌, ◌-◌, ◌%◌, ◌^◌, ◌≤◌, ◌<◌, ◌≡◌, ◌≢◌, refl, ap, sym, subst, ==_iff, ◌∙◌, Bool, true,
  false, List, [], ◌∷◌, ◌++◌, reverse, Option, none, some, length, ltb, leb, ◌==◌, if◌then◌else◌,
  ◌&&◌, arith, length-append, length-reverse, append-nil, not_ltb, done, Bool-cases, inl, inr,
}
use mathlib.Core.List.{reverse-append}
use turbo_net.Common.Int.{ℤ, pos, negsuc, magnitude}
use turbo_net.FixedBuffer.{FixedBuffer, to_string}
use turbo_net.FixedBuffer.Text.{IsValid, Writes}
use turbo_net.LogStream.Store.{store_number_lem}
use turbo_net.LogStream.{digit_loop, last_digit, integer_chars, format_integer, max_numeric_size}
use turbo_net.LogStream.Digits.{
  Read, refused, number, read_on, read-digit_loop, length-digit_loop, length-digit_loop-pos, bound,
}

-- The value of an ASCII digit.
abbrev pub decimal_value : ℕ → Option ℕ
decimal_value c = if leb b'0' c && leb c b'9' then some (c - b'0') else none

-- A decimal integer: an optional minus sign, then digits.
abbrev negated : Read → Option ℤ
negated refused = none
negated (number n) = if n == 0 then none else some (negsuc (n - 1))

abbrev plain : Read → Option ℤ
plain refused = none
plain (number n) = some (pos n)

abbrev pub read_integer : List ℕ → Option ℤ
read_integer [] = none
read_integer (c ∷ cs) =
    if c == b'-'
    then negated (read_on decimal_value 10 (number 0) cs)
    else plain (read_on decimal_value 10 (number 0) (c ∷ cs))

-- Ten cases of the table.
last_digit-value : (negative : Bool) (i : ℕ) → decimal_value (last_digit negative i) ≡ some (i % 10)
unfolding last_digit
last_digit-value true i = ground arith
last_digit-value false i = ground arith

module _ (negative : Bool) where
  abbrev chars : ℕ → List ℕ
  chars m = digit_loop (last_digit negative) 10 (suc m) m

  read-chars : (m : ℕ) → read_on decimal_value 10 (number 0) (reverse (chars m)) ≡ number m
  read-chars m =
      read-digit_loop (last_digit negative) decimal_value 10 (last_digit-value negative)
        (λ i. omega arith) (λ i h. omega arith) (suc m) m (omega arith)

  length-chars : (m k : ℕ) → m < bound 10 (suc k) → length (chars m) ≤ suc k
  length-chars m k h =
      length-digit_loop (last_digit negative) 10 (λ i p g. omega arith) (suc m) m k h

-- A character that reads as a digit is no minus sign.
read-first :
    (c : ℕ) (cs : List ℕ) (n : ℕ)
    → read_on decimal_value 10 (number 0) (c ∷ cs) ≡ number n
    → read_integer (c ∷ cs) ≡ some (pos n)
read-first c cs n e = elim (Bool-cases (c == b'-')) [
  | inl minus ↦ absurd (
      not_number (
        subst (λ k. read_on decimal_value 10 (number 0) (k ∷ cs) ≡ number n)
          ((==_iff c b'-').0 minus) e))
  | inr digit ↦ rw digit (ap plain e)
]
  where
    not_number : read_on decimal_value 10 (number 0) (b'-' ∷ cs) ≢ number n
    not_number h = cc

read-plain :
    (xs : List ℕ) (n : ℕ)
    → 0 < length xs
    → read_on decimal_value 10 (number 0) xs ≡ number n
    → read_integer xs ≡ some (pos n)
read-plain [] n h e = absurd (omega arith)
read-plain (c ∷ cs) n h e = read-first c cs n e

-- The characters that `FormatInteger` leaves read as the value that it was given.
pub read-integer_chars : (v : ℤ) → read_integer (reverse (integer_chars v)) ≡ some v
unfolding integer_chars
read-integer_chars (pos n) = rw (append-nil (chars false n)) (
    read-plain (reverse (chars false n)) n
      (omega
        (arith, length-reverse (chars false n), length-digit_loop-pos (last_digit false) 10 n n))
      (read-chars false n))
read-integer_chars (negsuc n) =
    rw (reverse-append (chars true (suc n)) (b'-' ∷ []))
      (ap negated (read-chars true (suc n)) ∙ ground arith)

-- A 64-bit integer takes at most 21 characters.
pub length-integer_chars : (v : ℤ) → magnitude v < 2 ^ 64 → length (integer_chars v) ≤ 21
unfolding integer_chars
length-integer_chars (pos n) h =
    omega (arith, length-append (chars false n) [], length-chars false n 19 (omega arith))
length-integer_chars (negsuc n) h = omega (
  arith,
  length-append (chars true (suc n)) (b'-' ∷ []),
  length-chars true (suc n) 19 (omega arith),
)

pub format_integer_lem :
    (b : FixedBuffer) (v : ℤ)
    → IsValid b
    → magnitude v < 2 ^ 64
    → b.cur + max_numeric_size ≤ length b.cells
    → (b' : FixedBuffer) × (format_integer b v ≡ done b')
      × Writes b (to_string b ++ reverse (integer_chars v)) b'
unfolding format_integer
format_integer_lem b v valid small h =
    let short = length-integer_chars v small in
    let (b', e, w) = store_number_lem b [] (integer_chars v) valid (omega (arith, short)) in
    (
      b',
      rw (not_ltb (length b.cells) (b.cur + max_numeric_size) h) e,
      record {
        valid = w.valid;
        holds = w.holds ∙ ap (λ t. t ++ reverse (integer_chars v)) (append-nil (to_string b));
        size = w.size;
      },
    )

-- On a valid buffer with at least 48 free cells, `FormatInteger` adds at most 21 characters that
-- read as the integer, which is below 2^64 in magnitude; with fewer it adds nothing.
pub format_integer-roundtrip :
    (b : FixedBuffer) (v : ℤ)
    → IsValid b
    → magnitude v < 2 ^ 64
    → (b' : FixedBuffer) × (text : List ℕ) × (format_integer b v ≡ done b')
      × Writes b (to_string b ++ text) b'
      × (length text ≤ 21)
      × (if ltb (length b.cells) (b.cur + max_numeric_size)
          then text ≡ []
          else read_integer text ≡ some v)
unfolding format_integer
format_integer-roundtrip b v valid small =
    elim (Bool-cases (ltb (length b.cells) (b.cur + max_numeric_size))) [
      | inl full ↦ (
        b,
        [],
        rw full refl,
        record { valid = valid; holds = sym (append-nil (to_string b)); size = refl },
        omega arith,
        rw full refl,
      )
      | inr room ↦
          let (b', e, w) = format_integer_lem b v valid small (ground (arith, room)) in
          (
            b',
            reverse (integer_chars v),
            e,
            w,
            omega (arith, length-reverse (integer_chars v), length-integer_chars v small),
            rw room (read-integer_chars v),
          )
    ]
