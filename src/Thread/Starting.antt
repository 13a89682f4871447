-- ===== src/Thread/Starting.antt =====
-- That `Start` comes to its end.
use turbo_net.Common.{ℕ, ◌+◌, ◌*◌, ◌≢◌, ◌<◌, ◌≡◌, List}
use turbo_net.CountDownLatch as CountDownLatch
use turbo_net.CountDownLatch.{make_latch, passed, outside, asleep, woken, Where}
use turbo_net.CurrentThread.{Os}
use turbo_net.Thread.{
  Child, unborn, born, numbered, named, counted, working, finished, idle, Thread, Step, starts,
  enters, rises, tests, returns, joins, joined_up, destroys, runs,
}

-- How far the new thread is from its return, and the other from the end of its wait.
abbrev steps_left : Child → ℕ
steps_left unborn = 0
steps_left born = 6
steps_left numbered = 5
steps_left named = 4
steps_left counted = 3
steps_left working = 2
steps_left finished = 0

abbrev wait_rank : Where → ℕ
wait_rank outside = 3
wait_rank woken = 2
wait_rank asleep = 1
wait_rank passed = 0

abbrev HasNext : Child → Type 0
HasNext c = (c ≢ unborn) × (c ≢ finished)

module _ (os : Os) (t : ℕ) where
  -- Steps that get on: no wake-up without a reason, and no empty step of a thread that is not there.
  abbrev pub IsQuiet : {s q : Thread} → Step os t s q → Type 0
  IsQuiet (rises p e) = ⊥
  IsQuiet {s} (runs throws q e) = HasNext s.child
  IsQuiet (starts l q p d e) = Unit {0}
  IsQuiet (enters p e) = Unit {0}
  IsQuiet (tests p e) = Unit {0}
  IsQuiet (returns q p e f) = Unit {0}
  IsQuiet (joins q p d e) = Unit {0}
  IsQuiet (joined_up p e) = Unit {0}
  IsQuiet (destroys q p d e) = Unit {0}

  -- Whatever turns the two threads take, without a wake-up for no reason, they come to a state with
  -- the property, and before that one of them can always take a step.
  pub data Inevitable (P : Thread → Type 0) : Thread → Type 0 where
    now : {s : Thread} → P s → Inevitable P s
    later :
        {s : Thread} (q : Thread) (st : Step os t s q)
        → IsQuiet st
        → ((r : Thread) (st : Step os t s r) → IsQuiet st → Inevitable P r)
        → Inevitable P s

  module _ (numbers : 0 < os.gettid t) (created : ℕ) (name : List ℕ) where
    abbrev pub Ended : Thread → Type 0
    Ended s = (s.parent ≡ idle) × (s.tid ≡ os.gettid t)

    abbrev measure : Thread → ℕ
    measure s = steps_left s.child * 4 + wait_rank (s.latch.threads 0)
