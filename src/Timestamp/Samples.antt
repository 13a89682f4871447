-- ===== src/Timestamp/Samples.antt =====
-- What `snprintf` prints of integers, and a local time, as samples.
use turbo_net.Common.{
  ℕ, zero, suc, ◌+◌, ◌-◌, ◌*◌, ◌%◌, ◌^◌, ◌≤◌, ◌<◌, ◌≡◌, refl, sym, ap, subst, ◌∙◌, List, ◌∷◌, ◌++◌,
  some, reverse, length, length-append, length-reverse, length-replicate, replicate, arith,
}
use Prim.Native.Nat.pow
use native.Mathlib.Nat.{mul_comm}
use turbo_net.LogStream.{digit_loop}
use turbo_net.LogStream.Digits.{number, read_on, read-digit_loop, length-digit_loop, bound}
use turbo_net.LogStream.Decimal.{decimal_value}
use turbo_net.Timestamp.Text.{Printf, Laws, Tm}
use turbo_net.Timestamp.Calendar.{IsSound}
use turbo_net.Common.Int.{ℤ, pos, negsuc}

abbrev digit : ℕ → ℕ
digit i = b'0' + i % 10

digit-value : (i : ℕ) → decimal_value (digit i) ≡ some (i % 10)
digit-value i = ground arith

abbrev decimal : ℕ → List ℕ
decimal n = reverse (digit_loop digit 10 (suc n) n)

read-decimal : (n : ℕ) → read_on decimal_value 10 (number 0) (decimal n) ≡ number n
read-decimal n =
    read-digit_loop digit decimal_value 10 digit-value (λ i. omega arith) (λ i h. omega arith)
      (suc n) n (omega arith)

bound-pow : (k : ℕ) → bound 10 k ≡ 10 ^ k
bound-pow zero = refl
bound-pow (suc k) = ap (λ b. 10 * b) (bound-pow k) ∙ mul_comm 10 (10 ^ k) ∙ sym (pow.suc 10 k)

length-decimal : (n k : ℕ) → n < 10 ^ suc k → length (decimal n) ≤ suc k
length-decimal n k h =
    let small = subst (λ b. n < b) (sym (bound-pow (suc k))) h in
    omega (
      arith,
      length-reverse (digit_loop digit 10 (suc n) n),
      length-digit_loop digit 10 (λ i p g. omega arith) (suc n) n k small,
    )

abbrev zeros_before : ℕ → ℕ → List ℕ
zeros_before w n = replicate (w - length (decimal n)) b'0' ++ decimal n

read-zeros :
    (k : ℕ) (xs : List ℕ)
    → read_on decimal_value 10 (number 0) (replicate k b'0' ++ xs)
      ≡ read_on decimal_value 10 (number 0) xs
read-zeros zero xs = refl
read-zeros (suc k) xs = read-zeros k xs

length-zeros_before :
    (w n : ℕ) → length (zeros_before w n) ≡ w - length (decimal n) + length (decimal n)
length-zeros_before w n = omega (
  arith,
  length-append (replicate (w - length (decimal n)) b'0') (decimal n),
  length-replicate {A = ℕ} (w - length (decimal n)) b'0',
)

abbrev print_long : ℤ → List ℕ
print_long (pos n) = decimal n
print_long (negsuc n) = b'-' ∷ decimal (suc n)

abbrev print_padded : ℕ → ℤ → List ℕ
print_padded w (pos n) = zeros_before w n
print_padded w (negsuc n) = b'-' ∷ zeros_before (w - 1) (suc n)

abbrev pub printing : Printf
printing = record { long = print_long; spaced = print_padded; padded = print_padded }

read-zeros_before : (w n : ℕ) → read_on decimal_value 10 (number 0) (zeros_before w n) ≡ number n
read-zeros_before w n = read-zeros (w - length (decimal n)) (decimal n) ∙ read-decimal n

number-injective : {m n : ℕ} → number m ≡ number n → m ≡ n
number-injective e = cc

pub printing-Laws : Laws printing
printing-Laws = record {
  read-long = read-decimal;
  length-long = length-decimal;
  long-negsuc = λ n. refl;
  read-padded = read-zeros_before;
  spaced-injective = λ w m n e. number-injective (
      sym (read-zeros_before w m)
      ∙ ap (read_on decimal_value 10 (number 0)) e
      ∙ read-zeros_before w n);
  length-padded = λ w n h. omega (arith, length-zeros_before (suc w) n, length-decimal n w h);
  length-spaced = λ w n h. omega (arith, length-zeros_before (suc w) n, length-decimal n w h);
  length-padded_most = λ w n h. omega (arith, length-zeros_before w n, length-decimal n w h);
  padded-negsuc = λ w n. ap (λ k. b'-' ∷ zeros_before k (suc n)) (omega arith);
}

abbrev pub new_year : Tm
new_year = record {
  tm_year = pos 124;
  tm_mon = pos 0;
  tm_mday = pos 1;
  tm_hour = pos 12;
  tm_min = pos 30;
  tm_sec = pos 59;
}

pub new_year-IsSound : IsSound new_year
new_year-IsSound = record {
  year = omega arith;
  mon = omega arith;
  mday = omega arith;
  hour = omega arith;
  min = omega arith;
  sec = omega arith;
}
