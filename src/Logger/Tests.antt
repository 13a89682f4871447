-- ===== src/Logger/Tests.antt =====
-- A line of a failed system call, and the name of a file.
use turbo_net.Common.{
  ℕ, refl, suc, some, ◌≡◌, true, List, [], ◌∷◌, ◌++◌, replicate, length-replicate, take, done,
  arith,
}
use turbo_net.Common.Int.{pos}
use turbo_net.LogStream.{char}
use turbo_net.LogStream.Texts.{all_shown}
use turbo_net.Logger.{
  is_enabled, slash, TimeCache, refresh, Place, system, sys_level, level_of, line_values,
  end_of_line,
}
use turbo_net.AsyncLogging as AsyncLogging
use turbo_net.AsyncLogging.Appending.{FrontOk}
use turbo_net.AsyncLogging.System.Safety.{Reach-Ok}
use turbo_net.CurrentThread.{Os}
use turbo_net.Singleton.{make_once, call_once, object_of, instance_of}
use turbo_net.Logger.Settings.{
  Async, async_output, Settings, initial, set_output, make_async, set_default_async, log_statement,
  sets_default, Reach, here, next,
}
use turbo_net.Logger.Sink.{sink_by, IsReadyBy, log_statement_lem}
use turbo_net.Logger.Stamp.{print_fraction, behind_time, log_statement-stamp}
use turbo_net.Timestamp.Text.{to_format_string, calendar, formatted, at_local_time}
use turbo_net.Timestamp.Reading.{at_ns}
use turbo_net.Timestamp.Samples.{printing, printing-Laws, new_year, new_year-IsSound}
use turbo_net.Logger.Controls.{Controlled, Reach-Controlled}

abbrev path : List ℕ
path = 97 ∷ slash ∷ 98 ∷ slash ∷ 99 ∷ []

abbrev format : ℕ → List ℕ
format n = replicate 19 48

abbrev print_micros : ℕ → List ℕ
print_micros n = 46 ∷ replicate 6 48

abbrev cache : TimeCache
cache = record { last_seconds = 0; time_str = [] }

abbrev place : Place
place = record { tid = 55 ∷ []; file = path; line = pos 12; errno = 9; errno_text = 69 ∷ [] }

abbrev linux : Os
linux = record { gettid = suc; to_string = λ n. n ∷ [] }

abbrev first_async : Async
first_async = make_async linux 5000 0 (97 ∷ []) 1000

-- The asynchronous logger is set, and was not started.
abbrev set_async : Settings
set_async = record initial {
  output = async_output;
  singleton = record { called = true; value = some first_async; at_exit = true };
  has_async = true;
}

first_async-FrontOk : FrontOk 5000 first_async.front
unfolding make_async AsyncLogging.System.initial
first_async-FrontOk = (Reach-Ok 5000 (omega arith) (λ n. []) AsyncLogging.System.here).front_ok

reach_set : Reach linux 5000 set_async
unfolding initial set_default_async set_output make_once instance_of call_once object_of
reach_set = next here (sets_default 0 (97 ∷ []) 1000 set_async refl)

Reach-Controlled_example : Controlled set_async
Reach-Controlled_example = Reach-Controlled linux 5000 reach_set

log_statement_lem_example :
    (s : Settings) × (log_statement 5000 format print_micros 2000001 set_async cache
        (system true)
        place
        (char 120 ∷ [])
      ≡ done (s, refresh format 2 cache, end_of_line (level_of (system true))))
    × (sink_by async_output s
        ≡ sink_by async_output set_async
          ++ all_shown
              (line_values (format 2) (print_micros 1) (system true) place (char 120 ∷ [])))
    × IsReadyBy 5000 async_output s
unfolding level_of sys_level is_enabled
log_statement_lem_example =
    log_statement_lem 5000 (omega arith) format print_micros 2000001 set_async cache (system true)
      place (char 120 ∷ []) (omega arith) refl (refl, first_async, refl, first_async-FrontOk)
      (λ e. absurd (omega (arith, e))) (length-replicate {A = ℕ} 19 48) (ground arith) (omega arith)

-- The local time shown for every second.
abbrev new_year_text : ℕ → List ℕ
new_year_text n = take 63 (calendar printing new_year)

log_statement-stamp_example :
    (s : Settings) × (stamp : List ℕ) × (log_statement 5000 new_year_text
        (print_fraction printing)
        2000001
        set_async
        cache
        (system true)
        place
        (char 120 ∷ [])
      ≡ done (s, refresh new_year_text 2 cache, end_of_line (level_of (system true))))
    × (to_format_string printing (λ t. some new_year) true (at_ns (pos 2000001999)) ≡ done stamp)
    × (sink_by async_output s
        ≡ sink_by async_output set_async
          ++ (stamp ++ all_shown (behind_time (system true) place (char 120 ∷ []))))
unfolding level_of sys_level is_enabled to_format_string calendar formatted at_local_time
log_statement-stamp_example =
    log_statement-stamp 5000 printing (λ t. some new_year) new_year 2000001999 new_year_text
      set_async cache (system true) place (char 120 ∷ []) (omega arith) (omega arith) printing-Laws
      refl new_year-IsSound refl (λ e. absurd (omega (arith, e))) refl
      (refl, first_async, refl, first_async-FrontOk) (ground arith) (omega arith)
