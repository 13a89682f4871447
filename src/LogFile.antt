-- ===== src/LogFile.antt =====
-- src/logger/file_util.h, src/logger/file_util.cpp, src/logger/log_file.h and
-- src/logger/log_file.cpp: the files that the log is written to.
pub mod Writing
pub mod Rolling
pub mod Counting
pub mod Naming
mod Tests
use turbo_net.Common.{
  ℕ, zero, suc, ◌+◌, ◌-◌, ◌*◌, ◌/◌, ◌^◌, List, [], ◌∷◌, ◌++◌, Option, none, some, length, take,
  drop, ltb, leb, ◌==◌, if◌then◌else◌, Outcome, done, Bool, false, not, ◌||◌, assertion, stopped,
  null_deref, overflow, check, ◌>>=◌, ◌>>◌,
}

-- `written_bytes_`, the name, and the bytes that `fwrite_unlocked` took.
pub record FileUtil : Type 0 where
  pub name : List ℕ
  pub written_bytes : ℕ
  pub bytes : List ℕ

unfoldable pub new_file : List ℕ → FileUtil
new_file name = record { name = name; written_bytes = 0; bytes = [] }

-- The constructor: `fopen` tells whether a file of this name can be opened. `setbuffer` follows the
-- null pointer that it gives otherwise.
unfoldable pub open_file : (List ℕ → Bool) → List ℕ → Outcome FileUtil
open_file fopen name = check (fopen name) null_deref >> done (new_file name)

-- `fwrite` is `fwrite_unlocked`: how many of the bytes it takes, and the stream afterwards.
module _ {K : Type 0} (fwrite : K → List ℕ → ℕ × K) where
  -- The loop of `Append`, for the bytes that remain: what it writes. `fuel` bounds the rounds.
  unfoldable pub write_rest : ℕ → K → List ℕ → List ℕ × K
  write_rest zero k rest = ([], k)
  write_rest (suc fuel) k [] = ([], k)
  write_rest (suc fuel) k (c ∷ rest) =
      let answer = fwrite k (c ∷ rest) in
      let tail = write_rest fuel answer.1 (drop answer.0 (c ∷ rest)) in
      if answer.0 == 0 then ([], answer.1) else (take answer.0 (c ∷ rest) ++ tail.0, tail.1)

  -- The first call of `Write`, and the loop.
  unfoldable pub write_bytes : K → List ℕ → List ℕ × K
  write_bytes k msg =
      let answer = fwrite k msg in
      let tail = write_rest (length msg) answer.1 (drop answer.0 msg) in
      (take answer.0 msg ++ tail.0, tail.1)

  -- `FileUtil::Append`.
  unfoldable pub append_file : K → FileUtil → List ℕ → FileUtil × K
  append_file k f msg =
      let written = write_bytes k msg in
      (
        record f { written_bytes = f.written_bytes + length msg; bytes = f.bytes ++ written.0 },
        written.1,
      )

-- A null `file_` is `none`. `closed` records the files that were replaced, oldest first, and
-- `flushes` counts the calls of `fflush`.
pub record LogFile : Type 0 where
  pub roll_size : ℕ
  pub flush_interval : ℕ
  pub check_every_n : ℕ
  pub count : ℕ
  pub file : Option FileUtil
  pub start_period : ℕ
  pub last_roll : ℕ
  pub last_flush : ℕ
  pub closed : List FileUtil
  pub flushes : ℕ

abbrev pub days_of : ℕ → ℕ
days_of seconds = seconds / 86400

abbrev pub has_slash : List ℕ → Bool
has_slash [] = false
has_slash (c ∷ cs) = c == 47 || has_slash cs

abbrev pub closing : Option FileUtil → List FileUtil
closing none = []
closing (some f) = f ∷ []

-- `GetLogFileName` is `name`, of the clock's seconds. Where a function takes two readings of the
-- clock, the first is the check's and the second `RollFile`'s.
module _ {K : Type 0} (fwrite : K → List ℕ → ℕ × K) (fopen : List ℕ → Bool)
    (name : ℕ → List ℕ) where
  unfoldable pub roll_file : ℕ → LogFile → Outcome LogFile
  roll_file now l =
      if ltb l.last_roll now
      then (open_file fopen (name now) >>= λ f. done (record l {
        start_period = days_of now;
        last_roll = now;
        last_flush = now;
        file = some f;
        closed = l.closed ++ closing l.file;
      }))
      else done l

  -- The constructor; `base` is the base name.
  unfoldable pub make_log_file : List ℕ → ℕ → ℕ → ℕ → ℕ → Outcome LogFile
  make_log_file base now roll_size flush_interval check_every_n = do
    check (not (has_slash base)) assertion
    roll_file now (record {
      roll_size = roll_size;
      flush_interval = flush_interval;
      check_every_n = check_every_n;
      count = 0;
      file = none;
      start_period = 0;
      last_roll = 0;
      last_flush = 0;
      closed = [];
      flushes = 0;
    })

  -- The check that every `check_every_n`-th call is to make.
  unfoldable pub periodic : ℕ → ℕ → LogFile → Outcome LogFile
  periodic now now' l =
      if ltb l.start_period (days_of now)
      then roll_file now' l
      else (if ltb (l.last_flush + l.flush_interval) now
          then done (record l { last_flush = now; flushes = suc l.flushes })
          else done l)

  unfoldable pub count_call : ℕ → ℕ → LogFile → Outcome LogFile
  count_call now now' l = do
    check (ltb (suc l.count) (2 ^ 31)) overflow
    let counted : LogFile = record l { count = suc l.count }
    if leb l.check_every_n counted.count then periodic now now' counted else done counted

  -- `AppendUnLocked`, behind the lock that `Append` may take.
  unfoldable pub append_to : ℕ → ℕ → Option FileUtil → K → LogFile → List ℕ → Outcome (LogFile × K)
  append_to now now' none k l msg = stopped null_deref
  append_to now now' (some f) k l msg =
      let appended = append_file fwrite k f msg in
      let after : LogFile = record l { file = some appended.0 } in
      if ltb l.roll_size appended.0.written_bytes
      then (roll_file now' after >>= λ l'. done (l', appended.1))
      else (count_call now now' after >>= λ l'. done (l', appended.1))

  unfoldable pub append_unlocked : ℕ → ℕ → K → LogFile → List ℕ → Outcome (LogFile × K)
  append_unlocked now now' k l msg = append_to now now' l.file k l msg

  -- `Flush`.
  unfoldable pub flush_to : Option FileUtil → LogFile → Outcome LogFile
  flush_to none l = stopped null_deref
  flush_to (some f) l = done (record l { flushes = suc l.flushes })

  unfoldable pub flush : LogFile → Outcome LogFile
  flush l = flush_to l.file l
