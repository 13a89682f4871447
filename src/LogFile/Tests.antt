-- ===== src/LogFile/Tests.antt =====
-- A log file on a stream that takes at most three bytes of a call.
use turbo_net.Common.{ℕ, ◌+◌, ◌≡◌, ◌↔◌, none, refl, List, [], ◌∷◌, some, min, length}
use turbo_net.LogFile.{new_file, LogFile}
use turbo_net.Common.Int.{pos}
use turbo_net.LogFile.Naming.{get_log_file_name, get_log_file_name_iff}
use turbo_net.Timestamp.{make_timestamp}
use turbo_net.Timestamp.Reading.{at_ns}
use turbo_net.Timestamp.Samples.{printing, printing-Laws, new_year, new_year-IsSound}

abbrev three : ℕ → List ℕ → ℕ × ℕ
three calls bytes = (min 3 (length bytes), calls + 1)

abbrev hello : List ℕ
hello = 104 ∷ 101 ∷ 108 ∷ 108 ∷ 111 ∷ []

abbrev start : LogFile
start = record {
  roll_size = 4;
  flush_interval = 3;
  check_every_n = 2;
  count = 0;
  file = some (new_file []);
  start_period = 0;
  last_roll = 7;
  last_flush = 7;
  closed = [];
  flushes = 0;
}

get_log_file_name_iff_example :
    (get_log_file_name printing (λ s. some new_year) none (55 ∷ []) hello make_timestamp
      ≡ get_log_file_name printing (λ s. some new_year) none (55 ∷ []) hello (at_ns (pos 5)))
    ↔ (new_year ≡ new_year)
get_log_file_name_iff_example =
    get_log_file_name_iff printing (λ s. some new_year) none (55 ∷ []) hello make_timestamp
      (at_ns (pos 5)) new_year new_year printing-Laws refl refl new_year-IsSound new_year-IsSound
