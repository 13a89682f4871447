-- ===== src/Logger.antt =====
-- src/logger/logger.h and src/logger/logger.cpp: one log line.
pub mod Line
pub mod Settings
pub mod Sink
pub mod Stamp
pub mod Switching
pub mod Phases
pub mod Controls
mod Tests
use turbo_net.Common.{
  ℕ, ◌/◌, ◌%◌, Bool, true, false, List, [], ◌∷◌, ◌++◌, Option, none, some, ◌==◌, leb, if◌then◌else◌,
  Outcome, done, stopped, logged_fatal, ◌>>=◌,
}
use turbo_net.Common.Int.{ℤ, pos}
use turbo_net.Common.Memory.{load}
use turbo_net.FixedBuffer.{fresh, to_string}
use turbo_net.LogStream.{Value, char, integer, string, c_string, stream_all, small_buffer}

pub data Level : Type 0 where
  debug info warn error fatal : Level

abbrev pub rank : Level → ℕ
rank debug = 0
rank info = 1
rank warn = 2
rank error = 3
rank fatal = 4

-- `kLogLevelName`.
abbrev pub level_name : Level → List ℕ
level_name debug = 68 ∷ 69 ∷ 66 ∷ 85 ∷ 71 ∷ 32 ∷ []
level_name info = 73 ∷ 78 ∷ 70 ∷ 79 ∷ 32 ∷ 32 ∷ []
level_name warn = 87 ∷ 65 ∷ 82 ∷ 78 ∷ 32 ∷ 32 ∷ []
level_name error = 69 ∷ 82 ∷ 82 ∷ 79 ∷ 82 ∷ 32 ∷ []
level_name fatal = 70 ∷ 65 ∷ 84 ∷ 65 ∷ 76 ∷ 32 ∷ []

-- The level of `LOG_SYS_ERROR` and `LOG_SYS_FATAL`, which pass false and true.
unfoldable pub sys_level : Bool → Level
sys_level is_abort = if is_abort then error else fatal

-- The four constructors: with a function's name, plain, with a level, and for a failed system call.
pub data Kind : Type 0 where
  in_function : List ℕ → Kind
  plain : Kind
  at_level : Level → Kind
  system : Bool → Kind

unfoldable pub level_of : Kind → Level
level_of (in_function f) = debug
level_of plain = info
level_of (at_level l) = l
level_of (system is_abort) = sys_level is_abort

-- Only the macros of the first two compare with `GetLogLevel()`.
unfoldable pub is_enabled : Level → Kind → Bool
is_enabled threshold (in_function f) = leb (rank threshold) (rank debug)
is_enabled threshold plain = leb (rank threshold) (rank info)
is_enabled threshold (at_level l) = true
is_enabled threshold (system is_abort) = true

abbrev pub slash : ℕ
slash = 47

-- What stands behind the last '/', if there is one.
abbrev pub after_slash : List ℕ → Option (List ℕ)
after_slash [] = none
after_slash (c ∷ cs) = elim (after_slash cs) [
  | some rest ↦ some rest
  | none ↦ if c == slash then some cs else none
]

-- The text of a `SourceFile`.
abbrev pub source_file : List ℕ → List ℕ
source_file path = elim (after_slash path) [ some rest ↦ rest | none ↦ path ]

-- `t_last_seconds` and `t_time_str`.
pub record TimeCache : Type 0 where
  pub last_seconds : ℕ
  pub time_str : List ℕ

-- `FormatTime` up to the printing: `format` is `ToFormatString(false)`.
unfoldable pub refresh : (ℕ → List ℕ) → ℕ → TimeCache → TimeCache
refresh format seconds cache =
    if cache.last_seconds == seconds
    then cache
    else record { last_seconds = seconds; time_str = format seconds }

-- What a line says of its place: the thread's number as text, the file, the line, and `errno` with
-- its message.
pub record Place : Type 0 where
  pub tid : List ℕ
  pub file : List ℕ
  pub line : ℤ
  pub errno : ℕ
  pub errno_text : List ℕ

abbrev pub errno_part : Place → List Value
errno_part p =
    if p.errno == 0
    then []
    else c_string (some p.errno_text)
      ∷ string (32 ∷ 40 ∷ 101 ∷ 114 ∷ 114 ∷ 110 ∷ 111 ∷ 61 ∷ [])
      ∷ integer (pos p.errno)
      ∷ string (41 ∷ 32 ∷ [])
      ∷ []

-- What `Impl` streams, from the 19 characters of the time on.
abbrev pub header : List ℕ → List ℕ → Level → Place → List Value
header time micros level p =
    string time
    ∷ string micros
    ∷ string (32 ∷ 45 ∷ 32 ∷ 116 ∷ 104 ∷ 114 ∷ 101 ∷ 97 ∷ 100 ∷ 58 ∷ [])
    ∷ string p.tid
    ∷ string (32 ∷ 45 ∷ 32 ∷ [])
    ∷ string (level_name level)
    ∷ string (source_file p.file)
    ∷ char 58
    ∷ integer p.line
    ∷ string (58 ∷ 32 ∷ [])
    ∷ errno_part p

-- What the constructor with a function's name streams.
abbrev pub opening : Kind → List Value
opening (in_function f) = string (40 ∷ []) ∷ c_string (some f) ∷ string (41 ∷ 58 ∷ 32 ∷ []) ∷ []
opening plain = []
opening (at_level l) = []
opening (system is_abort) = []

-- `errno` counts for a failed system call only.
abbrev pub placed : Kind → Place → Place
placed (system is_abort) p = p
placed (in_function f) p = record p { errno = 0 }
placed plain p = record p { errno = 0 }
placed (at_level l) p = record p { errno = 0 }

-- The end of a line: a fatal one aborts.
unfoldable pub end_of_line : Level → Outcome (Unit {0})
end_of_line fatal = stopped logged_fatal
end_of_line l = done tt

-- All that a line streams, its '\n' included.
abbrev pub line_values : List ℕ → List ℕ → Kind → Place → List Value → List Value
line_values time micros kind p body =
    header time micros (level_of kind) (placed kind p) ++ (opening kind ++ (body ++ char 10 ∷ []))

-- A line from the constructor to the destructor: the text that `s_output_` gets, the cache, and how
-- the line ends. `print_micros` prints ".%06lld".
unfoldable pub log_line :
    (ℕ → List ℕ)
    → (ℕ → List ℕ)
    → ℕ
    → TimeCache
    → Kind
    → Place
    → List Value
    → Outcome (List ℕ × TimeCache × Outcome (Unit {0}))
log_line format print_micros microseconds cache kind p body = do
  let cache' = refresh format (microseconds / 1000000) cache
  time ← load cache'.time_str 0 19
  let micros = print_micros (microseconds % 1000000)
  b ← stream_all (fresh small_buffer) (line_values time micros kind p body)
  done (to_string b, cache', end_of_line (level_of kind))
