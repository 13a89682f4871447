-- ===== src/LogStream/Digits.antt =====
-- The digit loop in any base, read back, and its length.
use turbo_net.Common.{
  ℕ, zero, suc, ◌+◌, ◌*◌, ◌/◌, ◌%◌, ◌≤◌, ◌<◌, ◌≡◌, ◌≢◌, refl, ap, ◌∙◌, List, [], ◌∷◌, ◌++◌, reverse,
  Option, none, some, length, arith,
}
use mathlib.Core.List.{reverse-cons}
use native.Mathlib.Decide.{ℕ_discrete}
use turbo_net.LogStream.{digit_loop}

-- A number read from the left: each character has a value or is refused.
pub data Read : Type 0 where
  refused : Read
  number : ℕ → Read

abbrev pub next : ℕ → ℕ → Option ℕ → Read
next base acc none = refused
next base acc (some d) = number (acc * base + d)

abbrev pub read_on : (ℕ → Option ℕ) → ℕ → Read → List ℕ → Read
read_on value base refused cs = refused
read_on value base (number acc) [] = number acc
read_on value base (number acc) (c ∷ cs) = read_on value base (next base acc (value c)) cs

read_on-append :
    (value : ℕ → Option ℕ) (base : ℕ) (r : Read) (xs ys : List ℕ)
    → read_on value base r (xs ++ ys) ≡ read_on value base (read_on value base r xs) ys
read_on-append value base refused xs ys = refl
read_on-append value base (number acc) [] ys = refl
read_on-append value base (number acc) (x ∷ xs) ys =
    read_on-append value base (next base acc (value x)) xs ys

digit_loop-last :
    (digit : ℕ → ℕ) (base f i : ℕ) → i / base ≡ 0 → digit_loop digit base (suc f) i ≡ digit i ∷ []
unfolding digit_loop
digit_loop-last digit base f i e = ground arith

digit_loop-more :
    (digit : ℕ → ℕ) (base f i : ℕ)
    → i / base ≢ 0
    → digit_loop digit base (suc f) i ≡ digit i ∷ digit_loop digit base f (i / base)
unfolding digit_loop
digit_loop-more digit base f i e = ground arith

pub length-digit_loop-pos :
    (digit : ℕ → ℕ) (base f i : ℕ) → 0 < length (digit_loop digit base (suc f) i)
unfolding digit_loop
length-digit_loop-pos digit base f i = omega arith

module _ (digit : ℕ → ℕ) (value : ℕ → Option ℕ) (base : ℕ)
    (read_digit : (i : ℕ) → value (digit i) ≡ some (i % base))
    (split : (i : ℕ) → i / base * base + i % base ≡ i)
    (smaller : (i : ℕ) → i / base ≢ 0 → i / base < i) where
  -- The characters, reversed, read as the number.
  pub read-digit_loop :
      (f i : ℕ)
      → i < f
      → read_on value base (number 0) (reverse (digit_loop digit base f i)) ≡ number i
  read-digit_loop zero i h = absurd (omega arith)
  read-digit_loop (suc f) i h = elim (ℕ_discrete (i / base) 0) [
    | yes last ↦
        ap (λ (l : List ℕ). read_on value base (number 0) (reverse l))
          (digit_loop-last digit base f i last)
        ∙ ap (λ (o : Option ℕ). read_on value base (next base 0 o) []) (read_digit i)
        ∙ ap number (omega (arith, split i, ap (λ (t : ℕ). t * base) last))
    | no more ↦
        rw
          (
            digit_loop-more digit base f i more,
            reverse-cons (digit i) (digit_loop digit base f (i / base)),
            read_on-append value base (number 0) (reverse (digit_loop digit base f (i / base)))
                (digit i ∷ []),
            read-digit_loop f (i / base) (omega (arith, smaller i more)),
          )
          (ap (λ (o : Option ℕ). read_on value base (next base (i / base) o) []) (read_digit i)
            ∙ ap number (split i))
  ]

-- The first number that takes more than `k` characters.
abbrev pub bound : ℕ → ℕ → ℕ
bound base zero = 1
bound base (suc k) = base * bound base k

length-no_rounds : (digit : ℕ → ℕ) (base i : ℕ) → length (digit_loop digit base zero i) ≡ 0
unfolding digit_loop
length-no_rounds digit base i = refl

pub length-digit_loop :
    (digit : ℕ → ℕ) (base : ℕ)
    → ((i p : ℕ) → i < base * p → i / base < p)
    → (f i k : ℕ) → i < bound base (suc k)
    → length (digit_loop digit base f i) ≤ suc k
length-digit_loop digit base shrinks zero i k h = omega (arith, length-no_rounds digit base i)
length-digit_loop digit base shrinks (suc f) i zero h =
    let none_left = shrinks i 1 h in
    let last : i / base ≡ 0 = omega arith in rw (digit_loop-last digit base f i last) (omega arith)
length-digit_loop digit base shrinks (suc f) i (suc k) h = elim (ℕ_discrete (i / base) 0) [
  | yes last ↦ rw (digit_loop-last digit base f i last) (omega arith)
  | no more ↦ rw (digit_loop-more digit base f i more) (
      omega (
        arith,
        length-digit_loop digit base shrinks f (i / base) k (shrinks i (bound base (suc k)) h),
      ))
]
