-- ===== src/Logger/Stamp.antt =====
-- The time that a log line shows, of src/logger/logger.cpp on top of src/base/timestamp.cpp.
use turbo_net.Common.{
  ℕ, ◌+◌, ◌/◌, ◌%◌, ◌^◌, ◌≤◌, ◌<◌, ◌≡◌, sym, ap, ◌∙◌, true, false, List, [], ◌∷◌, ◌++◌, Option,
  some, length, drop, take, take_all, append_assoc, done, done-injective, arith,
}
use turbo_net.Common.Int.{ℤ, pos}
use turbo_net.LogStream.{Value, small_buffer}
use turbo_net.LogStream.Texts.{AllSound, needs, all_shown}
use turbo_net.Logger.{
  Kind, level_of, is_enabled, TimeCache, refresh, Place, line_values, end_of_line,
}
use turbo_net.Logger.Settings.{Settings, log_statement}
use turbo_net.Logger.Sink.{sink_by, IsReadyBy, log_statement_lem}
use turbo_net.Timestamp.Text.{Printf, Laws, Tm, to_format_string}
use turbo_net.Timestamp.Calendar.{IsSound, to_format_string_lem}
use turbo_net.Timestamp.Reading.{at_ns}

-- The ".%06lld" of `FormatTime`, in a buffer of 8 bytes.
unfoldable pub print_fraction : Printf → ℕ → List ℕ
print_fraction printf micros = take 7 (b'.' ∷ printf.padded 6 (pos micros))

-- What a line streams behind its time.
abbrev pub behind_time : Kind → Place → List Value → List Value
behind_time kind p body = drop 2 (line_values [] [] kind p body)

-- For an enabled macro at a time that is not before the epoch, whose local time is in the ranges of
-- `struct tm` up to the year 9999, and an output that can be called: what `ToFormatString` gives
-- with the microseconds is what the output gets behind all that it held before, and the rest of the
-- line follows. The rest is sound and leaves 26 cells of 4000 free and one more; a time that is
-- cached for this second is its text.
pub log_statement-stamp :
    (size : ℕ) (printf : Printf) (localtime : ℤ → Option Tm) (tm : Tm) (n : ℕ) (format : ℕ → List ℕ)
    (s : Settings) (cache : TimeCache) (kind : Kind) (p : Place) (body : List Value)
    → size < 2 ^ 31
    → small_buffer ≤ size
    → Laws printf
    → localtime (pos (n / 1000000000)) ≡ some tm
    → IsSound tm
    → to_format_string printf localtime false (at_ns (pos n)) ≡ done (format (n / 1000 / 1000000))
    → (cache.last_seconds ≡ n / 1000 / 1000000 → cache.time_str ≡ format (n / 1000 / 1000000))
    → is_enabled s.level kind ≡ true
    → IsReadyBy size s.output s
    → AllSound (behind_time kind p body)
    → 26 + needs (behind_time kind p body) < small_buffer
    → (s' : Settings) × (stamp : List ℕ) × (log_statement size format
          (print_fraction printf)
          (n / 1000)
          s
          cache
          kind
          p
          body
        ≡ done (s', refresh format (n / 1000 / 1000000) cache, end_of_line (level_of kind)))
      × (to_format_string printf localtime true (at_ns (pos n)) ≡ done stamp)
      × (sink_by s.output s' ≡ sink_by s.output s ++ (stamp ++ all_shown (behind_time kind p body)))
unfolding print_fraction
log_statement-stamp size printf localtime tm n format s cache kind p body small big laws local sound
      same cached on ready rest_sound room =
    let (text, short_is, long_is, nineteen) =
      to_format_string_lem printf localtime n tm laws local sound in
    let digits = printf.padded 6 (pos (n / 1000 % 1000000)) in
    let six : length digits ≡ 6 = laws.length-padded 5 (n / 1000 % 1000000) (omega arith) in
    let time : format (n / 1000 / 1000000) ≡ text = done-injective (sym same ∙ short_is) in
    let micros : take 7 (b'.' ∷ digits) ≡ b'.' ∷ digits =
      take_all 7 (b'.' ∷ digits) (omega (arith, six)) in
    let rest = behind_time kind p body in
    let (s', runs, holds, ready') =
      log_statement_lem size small format (print_fraction printf) (n / 1000) s cache kind p body big
        on ready cached (ap length time ∙ nineteen) (tt, (tt, rest_sound))
        (omega (arith, room, ap length time, nineteen, ap length micros, six)) in
    (
      s',
      text ++ b'.' ∷ digits,
      runs,
      long_is,
      holds
          ∙ ap (λ t. sink_by s.output s ++ (t ++ (take 7 (b'.' ∷ digits) ++ all_shown rest))) time
          ∙ ap (λ m. sink_by s.output s ++ (text ++ (m ++ all_shown rest))) micros
          ∙ ap (λ t. sink_by s.output s ++ t)
              (sym (append_assoc text (b'.' ∷ digits) (all_shown rest))),
    )
