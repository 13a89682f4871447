-- ===== src/AsyncLogging/System.antt =====
-- Every interleaving of the threads that call `AsyncLogging` with its writer.
pub mod Safety
pub mod Loss
use turbo_net.Common.{ℕ, ◌≡◌, Bool, true, false, List, [], ◌++◌, length, ltb, ◌||◌, Outcome, done}
use turbo_net.AsyncLogging.{
  Front, Writer, make, start, stop, no_writer, prologue, append_front, collect, write_out, epilogue,
  backlog,
}
use turbo_net.AsyncLogging.Appending.{kept}

-- Where the writer stands: not started, started by `Start` but not begun, before the test of the loop, behind the critical section,
-- past the loop.
pub data Stage : Type 0 where
  unstarted born at_top at_work finished : Stage

-- `accepted` records the bytes of all messages that are shorter than a buffer, and `trimmed` whether
-- the writer ever met more than 25 buffers; the code keeps neither.
pub record System : Type 0 where
  pub front : Front
  pub writer : Writer
  pub stage : Stage
  pub accepted : List ℕ
  pub trimmed : Bool

module _ (size : ℕ) (notice : ℕ → List ℕ) where
  unfoldable pub initial : System
  initial = record {
    front = make size;
    writer = no_writer;
    stage = unstarted;
    accepted = [];
    trimmed = false;
  }

  -- The mutex makes `Append` and the writer's critical section single steps. A wait on the condition
  -- is the time before the step `collects`; it may end at any moment. `Stop` may come at any time. With
  -- `throws` no thread can be made, and the exception leaves `Start`.
  pub data Step (s : System) : System → Type 0 where
    starts : s.stage ≡ unstarted → Step s (record s { front = start s.front; stage = born })
    throws : s.stage ≡ unstarted → Step s (record s { front = start s.front })
    begins :
        (w : Writer)
        → s.stage ≡ born
        → prologue size s.front ≡ done w
        → Step s (record s { writer = w; stage = at_top })
    appends :
        (m : List ℕ) (f : Front)
        → append_front size s.front m ≡ done f
        → Step s (record s { front = f; accepted = s.accepted ++ kept size m })
    collects :
        (f : Front) (w : Writer)
        → s.stage ≡ at_top
        → s.front.running ≡ true
        → collect s.front s.writer ≡ done (f, w)
        → Step s (record s { front = f; writer = w; stage = at_work })
    writes :
        (w : Writer)
        → s.stage ≡ at_work
        → write_out notice s.writer ≡ done w
        → Step s (record s {
          writer = w;
          stage = at_top;
          trimmed = s.trimmed || ltb backlog (length s.writer.buffers_to_write);
        })
    stops : Step s (record s { front = stop s.front })
    exits :
        s.stage ≡ at_top
        → s.front.running ≡ false
        → Step s (record s { writer = epilogue s.writer; stage = finished })

  pub data Reach : System → Type 0 where
    here : Reach initial
    next : {s t : System} → Reach s → Step s t → Reach t
