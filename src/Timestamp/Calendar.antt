-- ===== src/Timestamp/Calendar.antt =====
-- The text of a local time, as the logger shows it, has 19 characters.
use turbo_net.Common.{
  ℕ, suc, ◌+◌, ◌/◌, ◌%◌, ◌≤◌, ◌<◌, ◌≡◌, ap, true, false, List, ◌∷◌, ◌++◌, Option, some, length,
  length-append, take_all, done, arith,
}
use turbo_net.Common.Int.{ℤ, pos, negsuc}
use turbo_net.Timestamp.{cut, plus, time_since_epoch_seconds, time_since_epoch_micro_seconds}
use turbo_net.Timestamp.Text.{
  Printf, Laws, Tm, calendar, formatted, fraction, remainder, at_local_time, to_format_string,
}

abbrev pub IsBelow : ℕ → ℤ → Type 0
IsBelow k (pos n) = n < k
IsBelow k (negsuc n) = ⊥

-- The ranges of `struct tm`, up to the year 9999.
pub record IsSound (tm : Tm) : Type 0 where
  pub year : IsBelow 8100 tm.tm_year
  pub mon : IsBelow 12 tm.tm_mon
  pub mday : IsBelow 32 tm.tm_mday
  pub hour : IsBelow 24 tm.tm_hour
  pub min : IsBelow 60 tm.tm_min
  pub sec : IsBelow 61 tm.tm_sec

pub length-part :
    (xs ys : List ℕ) (c m n : ℕ) → length xs ≡ m → length ys ≡ n → length (xs ++ c ∷ ys) ≡ m + suc n
length-part xs ys c m n h k = omega (arith, length-append xs (c ∷ ys), h, k)

module _ (printf : Printf) (laws : Laws printf) where
  pub length-two : (k : ℕ) (v : ℤ) → k ≤ 100 → IsBelow k v → length (printf.padded 2 v) ≡ 2
  length-two k (pos n) h b = laws.length-padded 1 n (omega (arith, h, b))
  length-two k (negsuc n) h b = absurd b

  pub length-mon : (v : ℤ) → IsBelow 12 v → length (printf.padded 2 (plus v (pos 1))) ≡ 2
  length-mon (pos n) b = laws.length-padded 1 (n + 1) (omega (arith, b))
  length-mon (negsuc n) b = absurd b

  pub length-year : (v : ℤ) → IsBelow 8100 v → length (printf.spaced 4 (plus v (pos 1900))) ≡ 4
  length-year (pos n) b = laws.length-spaced 3 (n + 1900) (omega (arith, b))
  length-year (negsuc n) b = absurd b

  pub length-calendar : (tm : Tm) → IsSound tm → length (calendar printf tm) ≡ 19
  unfolding calendar
  length-calendar tm sound =
      let sec = length-two 61 tm.tm_sec (omega arith) sound.sec in
      let min = length-two 60 tm.tm_min (omega arith) sound.min in
      let hour = length-two 24 tm.tm_hour (omega arith) sound.hour in
      let mday = length-two 32 tm.tm_mday (omega arith) sound.mday in
      let mon = length-mon tm.tm_mon sound.mon in
      let year = length-year tm.tm_year sound.year in
      length-part _ _ b':' 16 2
        (length-part _ _ b':' 13 2
          (length-part _ _ b' ' 10 2
            (length-part _ _ b'-' 7 2 (length-part _ _ b'-' 4 2 year mon) mday) hour)
          min)
        sec

-- For a local time in the ranges of `struct tm`, up to the year 9999, and a time that is not before
-- the epoch, `ToFormatString` gives 19 characters; with microseconds it gives the same ones, then a
-- dot and the six digits of the microseconds.
pub to_format_string_lem :
    (printf : Printf) (localtime : ℤ → Option Tm) (n : ℕ) (tm : Tm)
    → Laws printf
    → localtime (pos (n / 1000000000)) ≡ some tm
    → IsSound tm
    → (text : List ℕ) × (to_format_string printf localtime false
          (record { time_since_epoch = pos n })
        ≡ done text)
      × (to_format_string printf localtime true (record { time_since_epoch = pos n })
          ≡ done (text ++ b'.' ∷ printf.padded 6 (pos (n / 1000 % 1000000))))
      × (length text ≡ 19)
unfolding to_format_string time_since_epoch_seconds time_since_epoch_micro_seconds cut at_local_time
    formatted fraction remainder
to_format_string_lem printf localtime n tm laws e sound =
    let digits = printf.padded 6 (pos (n / 1000 % 1000000)) in
    let six = laws.length-padded 5 (n / 1000 % 1000000) (omega arith) in
    let size = length-calendar printf laws tm sound in
    let whole = length-part (calendar printf tm) digits b'.' 19 6 size six in
    (
      calendar printf tm,
      rw e (ap done (take_all 63 (calendar printf tm) (omega (arith, size)))),
      rw e (ap done (take_all 63 (calendar printf tm ++ b'.' ∷ digits) (omega (arith, whole)))),
      size,
    )
