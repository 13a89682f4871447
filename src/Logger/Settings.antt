-- ===== src/Logger/Settings.antt =====
-- src/logger/logger.cpp: the static members of `Logger`, and the default asynchronous logger.
use turbo_net.Common.{
  not, ℕ, ◌≡◌, Bool, true, false, List, [], ◌∷◌, ◌++◌, Option, none, some, length, if◌then◌else◌,
  Outcome, done, stopped, assertion, null_deref, out_of_range, check, ◌>>=◌, ◌>>◌,
}
use turbo_net.AsyncLogging as AsyncLogging
use turbo_net.AsyncLogging.{Front, append_front}
use turbo_net.CurrentThread.{Os}
use turbo_net.Thread as Thread
use turbo_net.Thread.{thrown, unjoinable, joinable, make_thread}
use turbo_net.Singleton.{Once, make_once, instance_of}
use turbo_net.LogStream.{Value}
use turbo_net.Logger.{Level, info, fatal, Kind, level_of, is_enabled, TimeCache, Place, log_line}

-- An `AsyncLogging` with its thread; the front end holds what `mutex_` guards. The calls of `Start`
-- and `Join` show in the thread's flags; `Thread` says where the two threads stand in them.
pub record Async : Type 0 where
  pub base_name : List ℕ
  pub roll_size : ℕ
  pub front : Front
  pub thread : Thread.Thread

-- `s_output_`: `DefaultOutput` or `DefaultAsyncLoggingOutput`.
pub data OutputFunc : Type 0 where
  default_output async_output : OutputFunc

-- `console` is what `stdout` was given, and `flushed` the number of its bytes at the last `fflush`.
-- `has_async` is whether `g_async_logging` is set; it points to the object of `singleton`.
pub record Settings : Type 0 where
  pub level : Level
  pub output : OutputFunc
  pub singleton : Once Async
  pub has_async : Bool
  pub async_started : Bool
  pub console : List ℕ
  pub flushed : ℕ

unfoldable pub initial : Settings
initial = record {
  level = info;
  output = default_output;
  singleton = make_once;
  has_async = false;
  async_started = false;
  console = [];
  flushed = 0;
}

unfoldable pub set_log_level : Settings → Level → Settings
set_log_level s level = record s { level = level }

unfoldable pub set_output : Settings → OutputFunc → Settings
set_output s output = record s { output = output }

-- The constructor of `AsyncLogging`. `size` stands for `kLargeBuffer`; `created` threads were made.
unfoldable pub make_async : Os → ℕ → ℕ → List ℕ → ℕ → Async
make_async os size created base_name roll_size = record {
  base_name = base_name;
  roll_size = roll_size;
  front = AsyncLogging.make size;
  thread = make_thread os created (76 ∷ 111 ∷ 103 ∷ 103 ∷ 105 ∷ 110 ∷ 103 ∷ []);
}

-- `Thread::Start` throws out of `Start` if no thread can be made.
unfoldable pub was_thrown : Thread.Launch → Bool
was_thrown thrown = true
was_thrown unjoinable = false
was_thrown joinable = false

-- `AsyncLogging::Start` and `Stop`, where the waits on the latches and in `join` end. With
-- `thrown` the exception leaves this state.
unfoldable pub start_async : Thread.Launch → Async → Outcome Async
start_async l a = do
  thread ← Thread.start l a.thread
  done (record a { front = AsyncLogging.start a.front; thread = thread })

unfoldable pub stop_async : Async → Outcome Async
stop_async a = do
  thread ← Thread.join a.thread
  done (record a { front = AsyncLogging.stop a.front; thread = thread })

-- `~AsyncLogging`.
unfoldable pub destroy_async : Async → Outcome Async
destroy_async a = if a.front.running then stop_async a else done a

-- A call through `g_async_logging`, of the object that the singleton holds.
unfoldable pub call_object : (Async → Outcome Async) → Settings → Option Async → Outcome Settings
call_object call s none = stopped out_of_range
call_object call s (some a) =
    call a >>= λ a'. done (record s { singleton = record s.singleton { value = some a' } })

unfoldable pub with_async : (Async → Outcome Async) → Settings → Outcome Settings
with_async call s = call_object call s s.singleton.value

-- `SetDefaultSingletonAsyncLogging`; no `AsyncLogging::NoDestroy` exists.
unfoldable pub set_default_async : Os → ℕ → ℕ → Settings → List ℕ → ℕ → Outcome Settings
set_default_async os size created s base_name roll_size = do
  made ← instance_of false s.singleton (make_async os size created base_name roll_size)
  done (set_output (record s { singleton = made.0; has_async = true }) async_output)

-- `StartDefaultSingletonAsyncLogging` and `StopDefaultSingletonAsyncLogging`.
unfoldable pub start_default_async : Thread.Launch → Settings → Outcome Settings
start_default_async l s =
    let started = with_async (start_async l) s in
    check s.has_async assertion
    >> (if s.async_started
        then done s
        else started >>= λ s'. done (record s' { async_started = not (was_thrown l) }))

unfoldable pub stop_default_async : Settings → Outcome Settings
stop_default_async s =
    let ended = with_async stop_async s in
    check s.has_async assertion
    >> (if s.async_started
        then (ended >>= λ s'. done (record s' { async_started = false }))
        else done s)

-- `s_output_`, and `DefaultFlush`.
unfoldable pub write_line : ℕ → OutputFunc → Settings → List ℕ → Outcome Settings
write_line size default_output s text = done (record s { console = s.console ++ text })
write_line size async_output s text =
    check s.has_async null_deref
    >> with_async
        (λ a. append_front size a.front text >>= λ front. done (record a { front = front })) s

unfoldable pub flush_console : Settings → Settings
flush_console s = record s { flushed = length s.console }

-- The settings that the destructor of a line leaves, before a fatal one aborts.
unfoldable pub flush_fatal : Level → Settings → Settings
flush_fatal fatal s = flush_console s
flush_fatal level s = s

-- A logging macro, from the test of the level to the destructor: the settings, the time that is
-- cached, and how the line ends.
unfoldable pub log_statement :
    ℕ
    → (ℕ → List ℕ)
    → (ℕ → List ℕ)
    → ℕ
    → Settings
    → TimeCache
    → Kind
    → Place
    → List Value
    → Outcome (Settings × TimeCache × Outcome (Unit {0}))
log_statement size format print_micros microseconds s cache kind p body =
    if is_enabled s.level kind
    then (do
      (text, cache', end) ← log_line format print_micros microseconds cache kind p body
      s' ← write_line size s.output s text
      done (flush_fatal (level_of kind) s', cache', end))
    else done (s, cache, done tt)

-- What the program calls before its exit, where every thread can be made.
pub data Step (os : Os) (size : ℕ) (s : Settings) : Settings → Type 0 where
  sets_level : (level : Level) → Step os size s (set_log_level s level)
  sets_output : (output : OutputFunc) → Step os size s (set_output s output)
  sets_default :
      (created : ℕ) (base_name : List ℕ) (roll_size : ℕ) (q : Settings)
      → set_default_async os size created s base_name roll_size ≡ done q
      → Step os size s q
  starts : (q : Settings) → start_default_async joinable s ≡ done q → Step os size s q
  stops : (q : Settings) → stop_default_async s ≡ done q → Step os size s q
  logs :
      (text : List ℕ) (q : Settings) → write_line size s.output s text ≡ done q → Step os size s q

pub data Reach (os : Os) (size : ℕ) : Settings → Type 0 where
  here : Reach os size initial
  next : {s q : Settings} → Reach os size s → Step os size s q → Reach os size q
