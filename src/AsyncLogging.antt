-- ===== src/AsyncLogging.antt =====
-- src/logger/async_logging.h and src/logger/async_logging.cpp: the front end that threads append
-- to, and the writer thread behind it. Each function below is one critical section or one stretch
-- of the writer's own work; `System` runs them in any order that the threads allow.
pub mod Appending
pub mod Writing
pub mod Files
pub mod System
mod Tests
use turbo_net.Common.{
  ℕ, ◌+◌, ◌-◌, ◌%◌, ◌^◌, Bool, true, false, not, List, [], ◌∷◌, ◌++◌, map, Option, none, some,
  length, take, ltb, ◌==◌, if◌then◌else◌, Outcome, done, stopped, assertion, check, ◌>>=◌, ◌>>◌,
}
use turbo_net.FixedBuffer.{FixedBuffer, fresh, append, b_zero, reset, to_string}

-- The members that `mutex_` guards, and `running_`. `current_buffer_` is never null while the mutex
-- is free.
pub record Front : Type 0 where
  pub running : Bool
  pub current : FixedBuffer
  pub next : Option FixedBuffer
  pub buffers : List FixedBuffer

-- What the writer asks of its `LogFile`.
pub data Output : Type 0 where
  appended : List ℕ → Output
  flushed : Output

-- The locals of `ThreadFunc`.
pub record Writer : Type 0 where
  pub new_buffer_1 : Option FixedBuffer
  pub new_buffer_2 : Option FixedBuffer
  pub buffers_to_write : List FixedBuffer
  pub output : List Output

-- A `FixedBuffer<kLargeBuffer>`, cleared; `size` stands for `kLargeBuffer`.
pub new_buffer : ℕ → FixedBuffer
unfolding fresh b_zero
new_buffer size = b_zero (fresh size)

pub make : ℕ → Front
unfolding new_buffer
make size = record {
  running = false;
  current = new_buffer size;
  next = some (new_buffer size);
  buffers = [];
}

-- `running_` at the start of `Start`.
pub start : Front → Front
start f = record f { running = true }

-- The locals before `ThreadFunc` begins, and behind its first lines.
abbrev pub no_writer : Writer
no_writer = record { new_buffer_1 = none; new_buffer_2 = none; buffers_to_write = []; output = [] }

pub new_writer : ℕ → Writer
unfolding new_buffer
new_writer size = record {
  new_buffer_1 = some (new_buffer size);
  new_buffer_2 = some (new_buffer size);
  buffers_to_write = [];
  output = [];
}

-- `ThreadFunc` before its loop; its `LogFile` is in `Files`.
unfoldable pub prologue : ℕ → Front → Outcome Writer
prologue size f = check f.running assertion >> done (new_writer size)

-- `running_` and the `Notify` of `Stop`.
pub stop : Front → Front
stop f = record f { running = false }

-- `Avail() > static_cast<int>(len)`: the cast keeps 32 bits, and a number below 0 always fits.
pub fits : FixedBuffer → ℕ → Bool
fits b len =
    let low = len % 2 ^ 32 in if ltb low (2 ^ 31) then ltb (b.cur + low) (length b.cells) else true

or_new : ℕ → Option FixedBuffer → FixedBuffer
or_new size none = fresh size
or_new size (some b) = b

-- `Append`.
pub append_front : ℕ → Front → List ℕ → Outcome Front
append_front size f message =
    if fits f.current (length message)
    then (do b ← append f.current message; done (record f { current = b }))
    else (do
      b ← append (or_new size f.next) message
      done (record f { current = b; next = none; buffers = f.buffers ++ f.current ∷ [] }))

abbrev pub is_null {ℓ} : {A : Type ℓ} → List A → Bool
is_null [] = true
is_null (x ∷ xs) = false

-- `assert(new_buffer && new_buffer->Length() == 0)`, and the buffer.
pub ready : Option FixedBuffer → Outcome FixedBuffer
ready none = stopped assertion
ready (some b) = check (b.cur == 0) assertion >> done b

-- `if (!next_buffer_) next_buffer_ = std::move(new_buffer_2);`: both pointers afterwards.
pub lend_spare : Option FixedBuffer → FixedBuffer → Option FixedBuffer × Option FixedBuffer
lend_spare none spare = (some spare, none)
lend_spare (some b) spare = (some b, some spare)

-- The top of the loop and its critical section.
pub collect : Front → Writer → Outcome (Front × Writer)
unfolding ready lend_spare
collect f w = do
  b1 ← ready w.new_buffer_1
  b2 ← ready w.new_buffer_2
  check (is_null w.buffers_to_write) assertion
  let spare = lend_spare f.next b2
  done (
    record f { current = b1; next = spare.0; buffers = w.buffers_to_write },
    record w {
      new_buffer_1 = none;
      new_buffer_2 = spare.1;
      buffers_to_write = f.buffers ++ f.current ∷ [];
    },
  )

-- `back()` and `pop_back()`.
pub split_last : FixedBuffer → List FixedBuffer → FixedBuffer × List FixedBuffer
split_last b [] = (b, [])
split_last b (c ∷ bs) = let (last, front) = split_last c bs in (last, b ∷ front)

-- `if (!new_buffer) { … }`: the buffer afterwards, and the vector.
pub refill : Option FixedBuffer → List FixedBuffer → Outcome (FixedBuffer × List FixedBuffer)
unfolding reset
refill (some b) bs = done (b, bs)
refill none [] = stopped assertion
refill none (b ∷ bs) = let (last, front) = split_last b bs in done (reset last, front)

abbrev pub backlog : ℕ
backlog = 25

-- Of too many buffers the first two stay, behind a notice; `notice` prints the count given to it.
pub trim : (ℕ → List ℕ) → List FixedBuffer → List Output × List FixedBuffer
trim notice bs =
    if ltb backlog (length bs)
    then (appended (notice (length bs - 2)) ∷ [], take 2 bs)
    else ([], bs)

-- The rest of an iteration, outside the lock.
pub write_out : (ℕ → List ℕ) → Writer → Outcome Writer
write_out notice w = do
  check (not (is_null w.buffers_to_write)) assertion
  let kept = trim notice w.buffers_to_write
  first ← refill w.new_buffer_1 kept.1
  second ← refill w.new_buffer_2 first.1
  done (record {
    new_buffer_1 = some first.0;
    new_buffer_2 = some second.0;
    buffers_to_write = [];
    output = w.output ++ (kept.0 ++ (map (λ b. appended (to_string b)) kept.1 ++ flushed ∷ []));
  })

-- Behind the loop.
pub epilogue : Writer → Writer
epilogue w = record w { output = w.output ++ flushed ∷ [] }
