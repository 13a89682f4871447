-- ===== src/Buffer/Search.antt =====
-- `FindCRLF` against the positions of the two bytes in the contents.
use native.Mathlib.Decide.{dec_lt}
use turbo_net.Common.{
  ℕ, zero, suc, ◌+◌, ◌-◌, ◌≤◌, ◌<◌, ◌≡◌, inl, inr, false, ◌&&◌, List, [], ◌∷◌, Option, none, some,
  length, get_elem?, ◌==◌, arith, sub_size_lem, le→leb, done, Bool-cases,
}
use turbo_net.Buffer.{Buffer, carriage_return, line_feed, search_crlf, find_crlf}
use turbo_net.Buffer.Inv.{IsValid}
use turbo_net.Buffer.Contents.{contents, length-contents}

-- The two bytes stand at `i` and behind it.
abbrev pub CrlfAt : List ℕ → ℕ → Type 0
CrlfAt xs i = (get_elem? xs i ≡ some carriage_return) × (get_elem? xs (suc i) ≡ some line_feed)

-- `i` is the first place of the two bytes, or the length if there is none.
pub record IsFirst (xs : List ℕ) (i : ℕ) : Type 0 where
  pub within : i ≤ length xs
  pub found : i < length xs → CrlfAt xs i
  pub first : (j : ℕ) → j < i → ¬ CrlfAt xs j

IsFirst-suc :
    (x y : ℕ) (r : List ℕ) (i : ℕ)
    → (x == carriage_return && y == line_feed) ≡ false
    → IsFirst (y ∷ r) i
    → IsFirst (x ∷ y ∷ r) (suc i)
IsFirst-suc x y r i no_match h = record {
  within = omega (arith, h.within);
  found = λ k. h.found (omega arith);
  first = before;
}
  where
    before : (j : ℕ) → j < suc i → ¬ CrlfAt (x ∷ y ∷ r) j
    before zero k (p, q) = ground arith
    before (suc j) k c = h.first j (omega arith) c

search_crlf-IsFirst : (xs : List ℕ) → IsFirst xs (search_crlf xs)
unfolding search_crlf
search_crlf-IsFirst [] = record {
  within = omega arith;
  found = λ k. absurd (omega arith);
  first = λ j k. absurd (omega arith);
}
search_crlf-IsFirst (x ∷ []) = record {
  within = omega arith;
  found = λ k. absurd (omega arith);
  first = before;
}
  where
    before : (j : ℕ) → j < 1 → ¬ CrlfAt (x ∷ []) j
    before zero k (p, q) = cc
    before (suc j) k c = absurd (omega arith)
search_crlf-IsFirst (x ∷ y ∷ r) = elim (Bool-cases (x == carriage_return && y == line_feed)) [
  | inl e ↦ rw (e) (record {
    within = omega arith;
    found = λ k. (ground arith, ground arith);
    first = λ j k. absurd (omega arith);
  })
  | inr e ↦ rw (e) (IsFirst-suc x y r (search_crlf (y ∷ r)) e (search_crlf-IsFirst (y ∷ r)))
]

-- What `FindCRLF` may return for the readable bytes `xs` that start at index `r`.
abbrev pub Finds : ℕ → List ℕ → Option ℕ → Type 0
Finds r xs none = (i : ℕ) → ¬ CrlfAt xs i
Finds r xs (some a) = (r ≤ a) × CrlfAt xs (a - r) × ((j : ℕ) → j < a - r → ¬ CrlfAt xs j)

no_crlf_past : (xs : List ℕ) (i : ℕ) → length xs ≤ i → ¬ CrlfAt xs i
no_crlf_past [] i h (p, q) = cc
no_crlf_past (x ∷ xs) zero h c = absurd (omega arith)
no_crlf_past (x ∷ xs) (suc i) h c = no_crlf_past xs i (omega arith) c

-- On a valid buffer, `FindCRLF` gives the address of the first "\r\n" among the readable bytes,
-- and a null pointer exactly if there is none.
pub find_crlf-Finds :
    (b : Buffer)
    → IsValid b
    → (o : Option ℕ) × (find_crlf b ≡ done o) × Finds b.reader_index (contents b) o
unfolding find_crlf
find_crlf-Finds b v = elim (dec_lt at_index (length (contents b))) [
  | yes inside ↦ (
    some (b.reader_index + at_index),
    rw
        (
          sub_size_lem b.write_index b.reader_index v.ordered (omega arith),
          le→leb (b.reader_index + (b.write_index - b.reader_index)) (length b.store) (omega arith),
        )
        (ground (arith, spec.within, length-contents b v)),
    (omega arith, rw back (spec.found inside), rw back spec.first),
  )
  | no outside ↦ (
    none,
    rw
        (
          sub_size_lem b.write_index b.reader_index v.ordered (omega arith),
          le→leb (b.reader_index + (b.write_index - b.reader_index)) (length b.store) (omega arith),
        )
        (ground (arith, spec.within, length-contents b v)),
    λ i c. elim (dec_lt i at_index) [
      | yes h ↦ spec.first i h c
      | no h ↦ no_crlf_past (contents b) i (omega arith) c
    ],
  )
]
  where
    at_index : ℕ
    at_index = search_crlf (contents b)

    spec : IsFirst (contents b) at_index
    spec = search_crlf-IsFirst (contents b)

    back : b.reader_index + at_index - b.reader_index ≡ at_index
    back = omega arith
