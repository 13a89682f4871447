-- ===== src/Timestamp/Reading.antt =====
-- Reading the text of a time back.
use turbo_net.Common.{
  ℕ, zero, suc, ◌+◌, ◌*◌, ◌/◌, ◌%◌, ◌^◌, ◌≤◌, ◌<◌, ◌≡◌, ◌≢◌, ◌↔◌, refl, sym, ap, ◌∙◌, List, [], ◌∷◌,
  ◌++◌, Option, none, some, length, length-append, take, take_all, ◌==◌, ==_iff, Bool-cases, false,
  inl, inr, subst, if◌then◌else◌, arith,
}
use native.Mathlib.Nat.{mul_assoc, mul_comm}
use Prim.Native.Nat.pow
use turbo_net.Common.Int.{ℤ, pos, negsuc, magnitude}
use turbo_net.LogStream.Digits.{Read, refused, number, next, read_on}
use turbo_net.LogStream.Decimal.{decimal_value}
use turbo_net.Timestamp.{
  Timestamp, cut, opposite, time_since_epoch_seconds, time_since_epoch_micro_seconds,
}
use turbo_net.Timestamp.Text.{Printf, Laws, remainder, fraction, to_string}

abbrev pub before_dot : List ℕ → List ℕ
before_dot [] = []
before_dot (c ∷ cs) = let rest = before_dot cs in if c == b'.' then [] else c ∷ rest

abbrev pub after_dot : List ℕ → List ℕ
after_dot [] = []
after_dot (c ∷ cs) = let rest = after_dot cs in if c == b'.' then cs else rest

-- The microseconds of a text: seconds, a dot and six digits.
abbrev pub read_time : List ℕ → Read
read_time text =
    if length (after_dot text) == 6
    then read_on decimal_value 10 (number 0) (before_dot text ++ after_dot text)
    else refused

module _ (value : ℕ → Option ℕ) (dot_refused : value b'.' ≡ none) where
  step :
      (o : Option ℕ) (acc n : ℕ) (cs : List ℕ)
      → read_on value 10 (next 10 acc o) cs ≡ number n
      → (d : ℕ) × (o ≡ some d) × (read_on value 10 (number (acc * 10 + d)) cs ≡ number n)
  step none acc n cs e = cc
  step (some d) acc n cs e = (d, refl, e)

  none-step : (acc n : ℕ) (cs : List ℕ) → read_on value 10 (next 10 acc none) cs ≢ number n
  none-step acc n cs e = cc

  -- A text of digits has no dot, and parts at a dot behind it.
  not-dot :
      (acc c n : ℕ) (cs : List ℕ)
      → read_on value 10 (number acc) (c ∷ cs) ≡ number n
      → (c == b'.') ≡ false
  not-dot acc c n cs e = elim (Bool-cases (c == b'.')) [
    | inl dot ↦ absurd (
        none-step acc n cs (
          subst (λ (o : Option ℕ). read_on value 10 (next 10 acc o) cs ≡ number n)
            (ap value ((==_iff c b'.').0 dot) ∙ dot_refused) e))
    | inr other ↦ other
  ]

  parts :
      (xs ys : List ℕ) (acc n : ℕ)
      → read_on value 10 (number acc) xs ≡ number n
      → (before_dot (xs ++ b'.' ∷ ys) ≡ xs) × (after_dot (xs ++ b'.' ∷ ys) ≡ ys)
  parts [] ys acc n e = (refl, refl)
  parts (x ∷ xs) ys acc n e =
      let (d, is_digit, more) = step (value x) acc n xs e in
      let (front, back) = parts xs ys (acc * 10 + d) n more in
      rw (not-dot acc x n xs e) (ap (λ (l : List ℕ). x ∷ l) front, back)

  -- Digits behind a number that is read already.
  read_on_shift :
      (ys : List ℕ) (a b n : ℕ)
      → read_on value 10 (number b) ys ≡ number n
      → read_on value 10 (number (a + b)) ys ≡ number (a * 10 ^ length ys + n)
  read_on_shift [] a b n e = let same : b ≡ n = cc in ap number (omega (arith, same))
  read_on_shift (y ∷ ys) a b n e =
      let (d, is_digit, more) = step (value y) b n ys e in
      let moved : (a + b) * 10 + d ≡ a * 10 + (b * 10 + d) = omega arith in
      ap (λ (o : Option ℕ). read_on value 10 (next 10 (a + b) o) ys) is_digit
      ∙ ap (λ k. read_on value 10 (number k) ys) moved
      ∙ read_on_shift ys (a * 10) (b * 10 + d) n more
      ∙ ap (λ k. number (k + n))
          (mul_assoc a 10 (10 ^ length ys)
            ∙ ap (λ k. a * k) (mul_comm 10 (10 ^ length ys) ∙ sym (pow.suc 10 (length ys))))

  read_on-append-number :
      (xs ys : List ℕ) (acc m n : ℕ)
      → read_on value 10 (number acc) xs ≡ number m
      → read_on value 10 (number 0) ys ≡ number n
      → read_on value 10 (number acc) (xs ++ ys) ≡ number (m * 10 ^ length ys + n)
  read_on-append-number [] ys acc m n e f =
      let same : acc ≡ m = cc in
      let padded : acc ≡ m + 0 = omega (arith, same) in
      ap (λ k. read_on value 10 (number k) ys) padded ∙ read_on_shift ys m 0 n f
  read_on-append-number (x ∷ xs) ys acc m n e f =
      let (d, is_digit, more) = step (value x) acc m xs e in
      ap (λ (o : Option ℕ). read_on value 10 (next 10 acc o) (xs ++ ys)) is_digit
      ∙ read_on-append-number xs ys (acc * 10 + d) m n more f

abbrev pub at_ns : ℤ → Timestamp
at_ns v = record { time_since_epoch = v }

-- What the text of a time tells.
abbrev pub Tells : Printf → ℤ → Type 0
Tells printf (pos n) = read_time (to_string printf (at_ns (pos n))) ≡ number (n / 1000)
Tells printf (negsuc n) =
    ((rest : List ℕ) × (after_dot (to_string printf (at_ns (negsuc n))) ≡ b'-' ∷ rest))
    ↔ (suc n / 1000 % 1000000 ≢ 0)

module _ (printf : Printf) (laws : Laws printf) where
  -- Digits, a dot and at most seven characters fit.
  fits_whole :
      (n : ℕ) (ys : List ℕ)
      → n < 10 ^ 10
      → length ys ≤ 7
      → take 30 (printf.long (pos n) ++ b'.' ∷ ys) ≡ printf.long (pos n) ++ b'.' ∷ ys
  fits_whole n ys h k =
      take_all 30 (printf.long (pos n) ++ b'.' ∷ ys)
        (omega (arith, k, length-append (printf.long (pos n)) (b'.' ∷ ys), laws.length-long n 9 h))

  fits_negative :
      (n : ℕ) (ys : List ℕ)
      → suc n < 10 ^ 10
      → length ys ≤ 7
      → take 30 (printf.long (negsuc n) ++ b'.' ∷ ys) ≡ printf.long (negsuc n) ++ b'.' ∷ ys
  fits_negative n ys h k = take_all 30 (printf.long (negsuc n) ++ b'.' ∷ ys) (
      omega (
        arith,
        k,
        length-append (printf.long (negsuc n)) (b'.' ∷ ys),
        laws.length-long (suc n) 9 h,
        ap length (laws.long-negsuc n),
      ))

  parts-long :
      (n : ℕ) (ys : List ℕ)
      → (before_dot (printf.long (pos n) ++ b'.' ∷ ys) ≡ printf.long (pos n))
        × (after_dot (printf.long (pos n) ++ b'.' ∷ ys) ≡ ys)
  parts-long n ys = parts decimal_value refl (printf.long (pos n)) ys 0 n (laws.read-long n)

  after-long_negative : (n : ℕ) (ys : List ℕ) → after_dot (printf.long (negsuc n) ++ b'.' ∷ ys) ≡ ys
  after-long_negative n ys = rw (laws.long-negsuc n) ((parts-long (suc n) ys).1)

  -- The text of a time at the epoch or behind it.
  read_time-to_string :
      (n : ℕ) → n < 2 ^ 63 → read_time (to_string printf (at_ns (pos n))) ≡ number (n / 1000)
  unfolding to_string fraction remainder time_since_epoch_seconds time_since_epoch_micro_seconds cut
  read_time-to_string n h =
      let whole = n / 1000000000 in
      let digits = printf.padded 6 (pos (n / 1000 % 1000000)) in
      let six : length digits ≡ 6 = laws.length-padded 5 (n / 1000 % 1000000) (omega arith) in
      let (front, back) = parts-long whole digits in
      rw (fits_whole whole digits (omega arith) (omega (arith, six)), front, back, six)
        (read_on-append-number decimal_value refl (printf.long (pos whole)) digits 0 whole
            (n / 1000 % 1000000) (laws.read-long whole) (laws.read-padded 6 (n / 1000 % 1000000))
          ∙ ap (λ k. number (whole * 10 ^ k + n / 1000 % 1000000)) six
          ∙ ap number (omega arith))

  no_sign : (w n : ℕ) (rest : List ℕ) → printf.padded w (pos n) ≢ b'-' ∷ rest
  no_sign w n rest e =
      let h = ap (read_on decimal_value 10 (number 0)) (sym e) ∙ laws.read-padded w n in cc

  sign-padded :
      (k : ℕ)
      → k < 1000000
      → ((rest : List ℕ) × (printf.padded 6 (opposite k) ≡ b'-' ∷ rest)) ↔ (k ≢ 0)
  sign-padded zero h = (λ (rest, e). absurd (no_sign 6 0 rest e), λ f. absurd (f refl))
  sign-padded (suc k) h =
      (λ r. λ e. omega (arith, e), λ f. (printf.padded 5 (pos (suc k)), laws.padded-negsuc 5 k))

  length-padded_opposite : (k : ℕ) → k < 1000000 → length (printf.padded 6 (opposite k)) ≤ 7
  length-padded_opposite zero h = omega (arith, laws.length-padded 5 0 (omega arith))
  length-padded_opposite (suc k) h =
      omega (arith, ap length (laws.padded-negsuc 5 k), laws.length-padded_most 5 (suc k) h)

  after-long_opposite :
      (s : ℕ) (ys : List ℕ)
      → s < 10 ^ 10
      → length ys ≤ 7
      → after_dot (take 30 (printf.long (opposite s) ++ b'.' ∷ ys)) ≡ ys
  after-long_opposite zero ys h k = ap after_dot (fits_whole 0 ys h k) ∙ (parts-long 0 ys).1
  after-long_opposite (suc s) ys h k =
      ap after_dot (fits_negative s ys h k) ∙ after-long_negative s ys

  remainder-opposite : (k : ℕ) → remainder (opposite k) 1000000 ≡ opposite (k % 1000000)
  unfolding remainder
  remainder-opposite zero = refl
  remainder-opposite (suc k) = refl

  fraction-negsuc : (n : ℕ) → fraction (at_ns (negsuc n)) ≡ opposite (suc n / 1000 % 1000000)
  unfolding fraction time_since_epoch_micro_seconds cut
  fraction-negsuc n = remainder-opposite (suc n / 1000)

-- For a time of a 64-bit count of nanoseconds, `ToString` shows seconds, a dot and six digits that
-- read as the microseconds, if it is not before the epoch. Before the epoch the part behind the dot
-- begins with a minus sign exactly if there are microseconds to show.
pub to_string-roundtrip :
    (printf : Printf) (v : ℤ) → Laws printf → magnitude v < 2 ^ 63 → Tells printf v
unfolding to_string time_since_epoch_seconds cut
to_string-roundtrip printf (pos n) laws h = read_time-to_string printf laws n h
to_string-roundtrip printf (negsuc n) laws h =
    let k = suc n / 1000 % 1000000 in
    rw
      (
        fraction-negsuc printf laws n,
        after-long_opposite printf laws (suc n / 1000000000) (printf.padded 6 (opposite k))
            (omega arith) (length-padded_opposite printf laws k (omega arith)),
      )
      (sign-padded printf laws k (omega arith))
