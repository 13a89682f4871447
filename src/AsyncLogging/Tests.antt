-- ===== src/AsyncLogging/Tests.antt =====
-- A run of the logger with buffers of four bytes, and its theorems at the state that it reaches.
use turbo_net.Common.{
  ℕ, ◌+◌, min, length, ◌≡◌, refl, true, false, List, [], ◌∷◌, ◌++◌, none, some, arith, done,
}
use turbo_net.Common.Slice.{write_at}
use turbo_net.FixedBuffer.{append, reset}
use turbo_net.AsyncLogging.{
  Front, make, start, new_writer, prologue, append_front, collect, write_out, fits, or_new,
  new_buffer, appended, flushed, refill, split_last, trim, ready, lend_spare,
}
use turbo_net.AsyncLogging.System.{
  System, at_top, finished, initial, starts, begins, appends, collects, writes, Reach, here, next,
}
use turbo_net.AsyncLogging.Files.{call_all}
use turbo_net.AsyncLogging.Files.Written.{Takes, Reach-files}
use turbo_net.LogFile.{LogFile, new_file, open_file, make_log_file, roll_file}
use turbo_net.LogFile.Rolling.{all_bytes}
use turbo_net.AsyncLogging.System.Loss.{file_text, pending, Reach-accepted, stop_loses}

abbrev notice : ℕ → List ℕ
notice n = n ∷ []

-- "12", then "34" for which the first buffer has no room.
abbrev front_12 : Front
front_12 = record {
  running = true;
  current = record { cells = 1 ∷ 2 ∷ 0 ∷ 0 ∷ []; cur = 2 };
  next = some (record { cells = 0 ∷ 0 ∷ 0 ∷ 0 ∷ []; cur = 0 });
  buffers = [];
}

abbrev front_34 : Front
front_34 = record {
  running = true;
  current = record { cells = 3 ∷ 4 ∷ 0 ∷ 0 ∷ []; cur = 2 };
  next = none;
  buffers = record { cells = 1 ∷ 2 ∷ 0 ∷ 0 ∷ []; cur = 2 } ∷ [];
}

abbrev state_34 : System
state_34 = record {
  front = front_34;
  writer = new_writer 4;
  stage = at_top;
  accepted = 1 ∷ 2 ∷ 3 ∷ 4 ∷ [];
  trimmed = false;
}

-- The writer's critical section, and its writing.
rotates :
    collect front_34 (new_writer 4)
    ≡ done (
      record { running = true; current = new_buffer 4; next = some (new_buffer 4); buffers = [] },
      record {
        new_buffer_1 = none;
        new_buffer_2 = none;
        buffers_to_write =
            record { cells = 1 ∷ 2 ∷ 0 ∷ 0 ∷ []; cur = 2 }
            ∷ record { cells = 3 ∷ 4 ∷ 0 ∷ 0 ∷ []; cur = 2 }
            ∷ [];
        output = [];
      },
    )
unfolding collect new_writer new_buffer
rotates = refl

reach_34 : Reach 4 notice state_34
unfolding initial make start prologue new_writer new_buffer append_front fits or_new append write_at
reach_34 =
    next
      (next (next (next here (starts refl)) (begins _ refl refl))
        (appends (1 ∷ 2 ∷ []) front_12 refl))
      (appends (3 ∷ 4 ∷ []) front_34 refl)

Reach-accepted_example : 1 ∷ 2 ∷ 3 ∷ 4 ∷ [] ≡ file_text state_34 ++ pending state_34
Reach-accepted_example = Reach-accepted 4 (omega arith) notice reach_34 refl

stop_loses_example :
    (t : System) × Reach 4 notice t
    × (t.stage ≡ finished)
    × (t.accepted ≡ 1 ∷ 2 ∷ 3 ∷ 4 ∷ [])
    × (1 ∷ 2 ∷ 3 ∷ 4 ∷ [] ≡ file_text t ++ 1 ∷ 2 ∷ 3 ∷ 4 ∷ [])
stop_loses_example = stop_loses 4 (omega arith) notice reach_34 refl refl

-- The writer wrote both.
abbrev state_written : System
state_written = record {
  front = record {
    running = true;
    current = new_buffer 4;
    next = some (new_buffer 4);
    buffers = [];
  };
  writer = record {
    new_buffer_1 = some (record { cells = 3 ∷ 4 ∷ 0 ∷ 0 ∷ []; cur = 0 });
    new_buffer_2 = some (record { cells = 1 ∷ 2 ∷ 0 ∷ 0 ∷ []; cur = 0 });
    buffers_to_write = [];
    output = appended (1 ∷ 2 ∷ []) ∷ appended (3 ∷ 4 ∷ []) ∷ flushed ∷ [];
  };
  stage = at_top;
  accepted = 1 ∷ 2 ∷ 3 ∷ 4 ∷ [];
  trimmed = false;
}

reach_written : Reach 4 notice state_written
unfolding collect new_writer new_buffer write_out refill split_last trim reset ready lend_spare
reach_written = next (next reach_34 (collects _ _ refl refl refl)) (writes _ refl refl)

-- A stream that takes at most three bytes of a call, and a file that is rolled behind one byte.
abbrev three : ℕ → List ℕ → ℕ × ℕ
three calls bytes = (min 3 (length bytes), calls + 1)

abbrev name : ℕ → List ℕ
name seconds = seconds ∷ []

abbrev clock : ℕ → ℕ × ℕ
clock n = (8 + n, 8 + n)

abbrev log : LogFile
log = record {
  roll_size = 1;
  flush_interval = 3;
  check_every_n = 2;
  count = 0;
  file = some (new_file (7 ∷ []));
  start_period = 0;
  last_roll = 7;
  last_flush = 7;
  closed = [];
  flushes = 0;
}

log_made : make_log_file three (λ f. true) name (97 ∷ []) 7 1 3 2 ≡ done log
unfolding make_log_file roll_file open_file
log_made = refl

three-Takes : Takes three (λ f. true) name clock (λ n. refl)
unfolding Takes
three-Takes k c bytes = omega arith

Reach-files_example :
    (l : LogFile) × (k : ℕ) × (call_all three
        (λ f. true)
        name
        clock
        0
        state_written.writer.output
        (log, 0)
      ≡ done (l, k))
    × (1 ∷ 2 ∷ 3 ∷ 4 ∷ [] ≡ all_bytes l ++ pending state_written)
Reach-files_example =
    Reach-files three (λ f. true) name clock (λ n. refl) 4 (omega arith) notice (97 ∷ []) 7 1 3 2
      log 0 three-Takes (omega arith) log_made reach_written refl (omega arith)
