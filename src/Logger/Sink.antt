-- ===== src/Logger/Sink.antt =====
-- Where the lines of a program go.
use turbo_net.Common.{
  ℕ, ◌/◌, ◌%◌, ◌^◌, ◌≤◌, ◌<◌, ◌≡◌, refl, sym, ap, ap₂, check, null_deref, ◌>>◌, ◌∙◌, true, List, [],
  ◌++◌, Option, none, some, length, Outcome, done, arith, lt→ltb, ◌>>=◌,
}
use turbo_net.AsyncLogging.{Front, append_front}
use turbo_net.AsyncLogging.Appending.{FrontOk, front_text, kept, append_front_lem}
use turbo_net.LogStream.{Value, small_buffer}
use turbo_net.LogStream.Texts.{AllSound, needs, all_shown, length-all_shown}
use turbo_net.Logger.{
  Level, debug, info, warn, error, fatal, Kind, level_of, is_enabled, TimeCache, refresh, Place,
  line_values, end_of_line,
}
use turbo_net.Logger.Line.{log_line_lem}
use turbo_net.Logger.Settings.{
  Async, OutputFunc, default_output, async_output, Settings, call_object, with_async, write_line,
  flush_console, flush_fatal, log_statement,
}

abbrev front_of : Option Async → List ℕ
front_of none = []
front_of (some a) = front_text a.front

-- What the output has been given and still holds: the console, or the front end of the asynchronous
-- logger.
abbrev pub sink_by : OutputFunc → Settings → List ℕ
sink_by default_output s = s.console
sink_by async_output s = front_of s.singleton.value

-- The output can be called.
abbrev pub IsReadyBy : ℕ → OutputFunc → Settings → Type 0
IsReadyBy size default_output s = Unit {0}
IsReadyBy size async_output s =
    (s.has_async ≡ true) × (a : Async) × (s.singleton.value ≡ some a) × FrontOk size a.front

module _ (size : ℕ) (small : size < 2 ^ 31) where
  kept-short : (text : List ℕ) → length text < size → kept size text ≡ text
  kept-short text h = rw (lt→ltb (length text) size h) refl

  write_line_lem :
      (o : OutputFunc) (s : Settings) (text : List ℕ)
      → IsReadyBy size o s
      → length text < size
      → (s' : Settings) × (write_line size o s text ≡ done s')
        × (sink_by o s' ≡ sink_by o s ++ text)
        × IsReadyBy size o s'
  unfolding write_line with_async call_object
  write_line_lem default_output s text r h = (_, refl, refl, tt)
  write_line_lem async_output s text (set, a, e, ok) h =
      let (f, runs, f_ok, holds, same) = append_front_lem size small a.front text ok in
      let moved : Front → Async = λ f. record a { front = f } in
      let with_object : Async → Settings =
        λ a'. record s { singleton = record s.singleton { value = some a' } } in
      let call : Async → Outcome Async =
        λ a. append_front size a.front text >>= λ front. done (record a { front = front }) in
      (
        record s { singleton = record s.singleton { value = some (record a { front = f }) } },
        ap (λ b. check b null_deref >> with_async call s) set
            ∙ ap (call_object call s) e
            ∙ ap (λ m. m >>= λ a'. done (with_object a'))
                (ap (λ m. m >>= λ f. done (moved f)) runs),
        holds ∙ ap₂ ◌++◌ (sym (ap front_of e)) (kept-short text h),
        (set, record a { front = f }, refl, f_ok),
      )

  sink-flush_fatal :
      (l : Level) (o : OutputFunc) (s : Settings) → sink_by o (flush_fatal l s) ≡ sink_by o s
  unfolding flush_fatal flush_console
  sink-flush_fatal debug o s = refl
  sink-flush_fatal info o s = refl
  sink-flush_fatal warn o s = refl
  sink-flush_fatal error o s = refl
  sink-flush_fatal fatal default_output s = refl
  sink-flush_fatal fatal async_output s = refl

  flush_fatal-IsReadyBy :
      (l : Level) (o : OutputFunc) (s : Settings)
      → IsReadyBy size o s
      → IsReadyBy size o (flush_fatal l s)
  unfolding flush_fatal flush_console
  flush_fatal-IsReadyBy debug o s h = h
  flush_fatal-IsReadyBy info o s h = h
  flush_fatal-IsReadyBy warn o s h = h
  flush_fatal-IsReadyBy error o s h = h
  flush_fatal-IsReadyBy fatal default_output s h = h
  flush_fatal-IsReadyBy fatal async_output s h = h

  module _ (format : ℕ → List ℕ) (print_micros : ℕ → List ℕ) where
    -- For an enabled macro, sound values that leave a cell of 4000 free, buffers of the
    -- asynchronous logger no smaller than that, and an output that can be called: the statement
    -- returns with the whole line behind all that the output held before, be it the console or the
    -- front end of the asynchronous logger, ready for the next line; a fatal line then ends the run.
    -- The formatted time must have 19 characters, and a cached time of this second must be its text.
    pub log_statement_lem :
        (microseconds : ℕ) (s : Settings) (cache : TimeCache) (kind : Kind) (p : Place)
        (body : List Value)
        → small_buffer ≤ size
        → is_enabled s.level kind ≡ true
        → IsReadyBy size s.output s
        → (cache.last_seconds ≡ microseconds / 1000000
            → cache.time_str ≡ format (microseconds / 1000000))
        → length (format (microseconds / 1000000)) ≡ 19
        → AllSound (
            line_values
              (format (microseconds / 1000000))
              (print_micros (microseconds % 1000000))
              kind
              p
              body)
        → needs (
            line_values
              (format (microseconds / 1000000))
              (print_micros (microseconds % 1000000))
              kind
              p
              body)
          < small_buffer
        → (s' : Settings) × (log_statement size format print_micros microseconds s cache kind p body
            ≡ done (s', refresh format (microseconds / 1000000) cache, end_of_line (level_of kind)))
          × (sink_by s.output s'
              ≡ sink_by s.output s
                ++ all_shown (
                    line_values
                      (format (microseconds / 1000000))
                      (print_micros (microseconds % 1000000))
                      kind
                      p
                      body))
          × IsReadyBy size s.output s'
    unfolding log_statement
    log_statement_lem microseconds s cache kind p body big on ready time nineteen sound room =
        let values =
          line_values (format (microseconds / 1000000)) (print_micros (microseconds % 1000000)) kind
            p body in
        let line =
          log_line_lem format print_micros microseconds cache kind p body time nineteen sound
            room in
        let short : length (all_shown values) < size =
          omega (arith, big, room, length-all_shown values sound) in
        let (s', runs, holds, again) = write_line_lem s.output s (all_shown values) ready short in
        (
          flush_fatal (level_of kind) s',
          rw (on, line, runs) refl,
          sink-flush_fatal (level_of kind) s.output s' ∙ holds,
          flush_fatal-IsReadyBy (level_of kind) s.output s' again,
        )
