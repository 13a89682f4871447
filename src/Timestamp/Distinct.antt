-- ===== src/Timestamp/Distinct.antt =====
-- Different local times have different texts.
use turbo_net.Common.{ℕ, ◌+◌, ◌≡◌, refl, sym, ap, ap₂, ◌∙◌, List, [], ◌∷◌, ◌++◌, length, arith}
use turbo_net.Common.Int.{ℤ, pos, negsuc}
use turbo_net.LogStream.Digits.{number, read_on}
use turbo_net.LogStream.Decimal.{decimal_value}
use turbo_net.Timestamp.{plus}
use turbo_net.Timestamp.Text.{Printf, Laws, Tm, calendar}
use turbo_net.Timestamp.Calendar.{
  IsBelow, IsSound, length-part, length-two, length-mon, length-year,
}

-- Texts that start with parts of the same length.
pub parts-injective :
    (xs ys zs ws : List ℕ) → length xs ≡ length ys → xs ++ zs ≡ ys ++ ws → (xs ≡ ys) × (zs ≡ ws)
parts-injective [] [] zs ws h e = (refl, e)
parts-injective [] (y ∷ ys) zs ws h e = absurd (omega (arith, h))
parts-injective (x ∷ xs) [] zs ws h e = absurd (omega (arith, h))
parts-injective (x ∷ xs) (y ∷ ys) zs ws h e =
    let more : xs ++ zs ≡ ys ++ ws = cc (e) in
    let same : x ≡ y = cc (e) in
    let (front, rest) = parts-injective xs ys zs ws (omega (arith, h)) more in
    (ap₂ (λ (a : ℕ) (l : List ℕ). a ∷ l) same front, rest)

at-injective :
    (xs ys zs ws : List ℕ) (c : ℕ)
    → length xs ≡ length ys
    → xs ++ c ∷ zs ≡ ys ++ c ∷ ws
    → (xs ≡ ys) × (zs ≡ ws)
at-injective xs ys zs ws c h e =
    let (front, rest) = parts-injective xs ys (c ∷ zs) (c ∷ ws) h e in (front, cc (rest))

number-injective : {m n : ℕ} → number m ≡ number n → m ≡ n
number-injective e = cc

module _ (printf : Printf) (laws : Laws printf) where
  padded-injective : (w m n : ℕ) → printf.padded w (pos m) ≡ printf.padded w (pos n) → m ≡ n
  padded-injective w m n e = number-injective (
      sym (laws.read-padded w m)
      ∙ ap (read_on decimal_value 10 (number 0)) e
      ∙ laws.read-padded w n)

  two-injective :
      (k : ℕ) (v u : ℤ) → IsBelow k v → IsBelow k u → printf.padded 2 v ≡ printf.padded 2 u → v ≡ u
  two-injective k (pos m) (pos n) b d e = ap pos (padded-injective 2 m n e)
  two-injective k (pos m) (negsuc n) b d e = absurd d
  two-injective k (negsuc m) u b d e = absurd b

  mon-injective :
      (v u : ℤ)
      → IsBelow 12 v
      → IsBelow 12 u
      → printf.padded 2 (plus v (pos 1)) ≡ printf.padded 2 (plus u (pos 1))
      → v ≡ u
  mon-injective (pos m) (pos n) b d e =
      let same = padded-injective 2 (m + 1) (n + 1) e in ap pos (omega (arith, same))
  mon-injective (pos m) (negsuc n) b d e = absurd d
  mon-injective (negsuc m) u b d e = absurd b

  year-injective :
      (v u : ℤ)
      → IsBelow 8100 v
      → IsBelow 8100 u
      → printf.spaced 4 (plus v (pos 1900)) ≡ printf.spaced 4 (plus u (pos 1900))
      → v ≡ u
  year-injective (pos m) (pos n) b d e =
      let same = laws.spaced-injective 4 (m + 1900) (n + 1900) e in ap pos (omega (arith, same))
  year-injective (pos m) (negsuc n) b d e = absurd d
  year-injective (negsuc m) u b d e = absurd b

  -- The text up to each part.
  module _ (tm : Tm) (sound : IsSound tm) where
    abbrev to_year : List ℕ
    to_year = printf.spaced 4 (plus tm.tm_year (pos 1900))

    abbrev to_mon : List ℕ
    to_mon = to_year ++ b'-' ∷ printf.padded 2 (plus tm.tm_mon (pos 1))

    abbrev to_mday : List ℕ
    to_mday = to_mon ++ b'-' ∷ printf.padded 2 tm.tm_mday

    abbrev to_hour : List ℕ
    to_hour = to_mday ++ b' ' ∷ printf.padded 2 tm.tm_hour

    abbrev to_min : List ℕ
    to_min = to_hour ++ b':' ∷ printf.padded 2 tm.tm_min

    length-to_year : length to_year ≡ 4
    length-to_year = length-year printf laws tm.tm_year sound.year

    length-to_mon : length to_mon ≡ 7
    length-to_mon =
        length-part to_year _ b'-' 4 2 length-to_year (length-mon printf laws tm.tm_mon sound.mon)

    length-to_mday : length to_mday ≡ 10
    length-to_mday =
        length-part to_mon _ b'-' 7 2 length-to_mon
          (length-two printf laws 32 tm.tm_mday (omega arith) sound.mday)

    length-to_hour : length to_hour ≡ 13
    length-to_hour =
        length-part to_mday _ b' ' 10 2 length-to_mday
          (length-two printf laws 24 tm.tm_hour (omega arith) sound.hour)

    length-to_min : length to_min ≡ 16
    length-to_min =
        length-part to_hour _ b':' 13 2 length-to_hour
          (length-two printf laws 60 tm.tm_min (omega arith) sound.min)

  pub calendar-injective :
      (s t : Tm) → IsSound s → IsSound t → calendar printf s ≡ calendar printf t → s ≡ t
  unfolding calendar
  calendar-injective s t p q e =
      let (mins, sec) = at-injective _ _ _ _ b':' (length-to_min s p ∙ sym (length-to_min t q)) e in
      let (hours, min) =
        at-injective _ _ _ _ b':' (length-to_hour s p ∙ sym (length-to_hour t q)) mins in
      let (mdays, hour) =
        at-injective _ _ _ _ b' ' (length-to_mday s p ∙ sym (length-to_mday t q)) hours in
      let (mons, mday) =
        at-injective _ _ _ _ b'-' (length-to_mon s p ∙ sym (length-to_mon t q)) mdays in
      let (year, mon) =
        at-injective _ _ _ _ b'-' (length-to_year s p ∙ sym (length-to_year t q)) mons in
      let sec_is = two-injective 61 s.tm_sec t.tm_sec p.sec q.sec sec in
      let min_is = two-injective 60 s.tm_min t.tm_min p.min q.min min in
      let hour_is = two-injective 24 s.tm_hour t.tm_hour p.hour q.hour hour in
      let mday_is = two-injective 32 s.tm_mday t.tm_mday p.mday q.mday mday in
      let mon_is = mon-injective s.tm_mon t.tm_mon p.mon q.mon mon in
      let year_is = year-injective s.tm_year t.tm_year p.year q.year year in
      cc (year_is, mon_is, mday_is, hour_is, min_is, sec_is)
