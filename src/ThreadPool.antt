-- ===== src/ThreadPool.antt =====
-- src/base/thread_pool.h and src/base/thread_pool.cpp: the workers of a pool, its queue of tasks, and
-- the monitor that joins the workers that left.
pub mod Growing
pub mod Counts
pub mod Tasks
pub mod Limits
pub mod Starved
mod Tests
use turbo_net.Common.{
  ℕ, ◌+◌, ◌-◌, ◌%◌, ◌^◌, ◌<◌, ◌≡◌, Bool, true, false, ◌&&◌, List, [], ◌∷◌, ◌++◌, length, ltb, ◌==◌,
  if◌then◌else◌, Outcome, done, assertion, check, ◌>>=◌, ◌>>◌,
}

pub data Status : Type 0 where
  running shutdown terminated : Status

-- The constants of a pool, and whether the system can make every thread that is asked for.
pub record Config : Type 0 where
  pub max_pool_size : ℕ
  pub core_pool_size : ℕ
  pub max_task_size : ℕ
  pub threads_start : Bool

-- Where a worker stands: before the lock of `tasks_mutex_`, in `WaitForSeconds`, with a task that it
-- took, in its task, behind its task, returned. A task is named by a number.
pub data Place : Type 0 where
  at_head waiting : Place
  holding : ℕ → Place
  working : ℕ → Place
  worked gone : Place

pub record Worker : Type 0 where
  pub tid : ℕ
  pub place : Place

-- `threads` is `thread_pool_`, by the numbers of its threads, and `free` is `monitor_thread_free_`.
-- `workers` is where the threads stand, those that returned included. The code does not keep the
-- tasks that were committed, taken and finished, nor `asking`: how many calls of `Commit` have passed
-- their assertion and not yet the lock.
pub record Pool : Type 0 where
  pub status : Status
  pub tasks : List ℕ
  pub threads : List ℕ
  pub workers : List Worker
  pub free : List ℕ
  pub idle : ℕ
  pub now : ℕ
  pub committed : List ℕ
  pub taken : List ℕ
  pub finished : List ℕ
  pub asking : ℕ

abbrev pub is_running : Status → Bool
is_running running = true
is_running shutdown = false
is_running terminated = false

-- `++` and `--` of an `unsigned int`.
unfoldable pub increment : ℕ → ℕ
increment n = (n + 1) % 2 ^ 32

unfoldable pub decrement : ℕ → ℕ
decrement n = (n + 2 ^ 32 - 1) % 2 ^ 32

-- One round of `AddThread`, up to `Start` and with it. The counts go up first, and stay up if `Start`
-- throws.
unfoldable pub count_worker : Pool → ℕ → Pool
count_worker p tid = record p {
  threads = p.threads ++ tid ∷ [];
  idle = increment p.idle;
  now = increment p.now;
}

unfoldable pub add_worker : Pool → ℕ → Pool
unfolding count_worker
add_worker p tid = record (count_worker p tid) {
  workers = p.workers ++ record { tid = tid; place = at_head } ∷ [];
}

-- The loop of `AddThread` where every `Start` returns, for the numbers that the new threads get; their
-- count is `size`.
unfoldable pub add_workers : Config → Pool → List ℕ → Pool
add_workers c p [] = p
add_workers c p (tid ∷ tids) =
    let rest = add_workers c (add_worker p tid) tids in
    if ltb p.now c.max_pool_size then rest else p

unfoldable pub add_thread : Config → Pool → List ℕ → Outcome Pool
add_thread c p tids = check (is_running p.status) assertion >> done (add_workers c p tids)

-- The members before the constructor's body, and the constructor.
unfoldable pub empty_pool : Pool
empty_pool = record {
  status = running;
  tasks = [];
  threads = [];
  workers = [];
  free = [];
  idle = 0;
  now = 0;
  committed = [];
  taken = [];
  finished = [];
  asking = 0;
}

unfoldable pub make_pool : Config → List ℕ → Outcome Pool
make_pool c tids = add_thread c empty_pool tids

-- `Commit` up to its lock, without it.
unfoldable pub begin_commit : Pool → Outcome Pool
begin_commit p = check (is_running p.status) assertion >> done (record p { asking = p.asking + 1 })

-- `Commit` under the lock, where a new thread would get the number `tid`.
unfoldable pub enqueue : Pool → ℕ → Pool
enqueue p task = record p {
  tasks = p.tasks ++ task ∷ [];
  committed = p.committed ++ task ∷ [];
  asking = p.asking - 1;
}

unfoldable pub commit_task : Config → Pool → ℕ → ℕ → Outcome Pool
commit_task c p tid task = do
  p' ← (if ltb (length p.tasks) c.max_task_size then done p else add_thread c p (tid ∷ []))
  done (enqueue p' task)

-- `Start` throws in `AddThread`, and the exception leaves `Commit` without its task.
unfoldable pub fail_commit : Config → Pool → ℕ → Outcome Pool
fail_commit c p tid =
    check (is_running p.status) assertion
    >> done (
        if ltb p.now c.max_pool_size
        then (record (count_worker p tid) { asking = p.asking - 1 })
        else p)

-- `ShutDown`.
unfoldable pub shut_down : Pool → Pool
shut_down p = record p { status = shutdown }

-- The worker between `before` and `after` moves to `place`.
unfoldable pub move_worker : Pool → List Worker → Worker → List Worker → Place → Pool
move_worker p before w after place = record p {
  workers = before ++ record w { place = place } ∷ after;
}

-- A worker's own counts when it returns.
unfoldable pub leave : Pool → Pool
leave p = record p { idle = decrement p.idle; now = decrement p.now }

-- The test of the inner loop, and what follows it under the lock.
unfoldable pub next_task : Pool → List Worker → Worker → List Worker → List ℕ → Pool
next_task p before w after [] =
    if is_running p.status
    then move_worker p before w after waiting
    else record (leave (move_worker p before w after gone)) { status = terminated }
next_task p before w after (task ∷ tasks) = record (move_worker p before w after (holding task)) {
  tasks = tasks;
  taken = p.taken ++ task ∷ [];
}

-- The return of `WaitForSeconds`, and the rest of the critical section.
unfoldable pub wake_up : Config → Bool → Pool → List Worker → Worker → List Worker → Pool
wake_up c timed_out p before w after =
    if timed_out && ltb c.core_pool_size p.now
    then record (leave (move_worker p before w after gone)) { free = p.free ++ w.tid ∷ [] }
    else next_task p before w after p.tasks

-- `erase` of the first thread with the number, if there is one.
unfoldable pub erase : ℕ → List ℕ → List ℕ
erase tid [] = []
erase tid (t ∷ ts) = let rest = erase tid ts in if t == tid then ts else t ∷ rest

abbrev pub is_gone : Place → Bool
is_gone gone = true
is_gone at_head = false
is_gone waiting = false
is_gone (holding task) = false
is_gone (working task) = false
is_gone worked = false

-- Whether every `Join` of the destructor returns, which wakes the workers but leaves the status. The
-- threads that the monitor erased have returned.
unfoldable pub destructor_returns : List Worker → Bool
destructor_returns [] = true
destructor_returns (w ∷ ws) = is_gone w.place && destructor_returns ws

-- The threads take turns between their critical sections; `ShutDown` and the workers may come between
-- the assertion of `Commit` and its lock. A condition may end a wait at any moment.
-- The monitor erases a thread when it has joined it.
pub data Step (c : Config) (p : Pool) : Pool → Type 0 where
  asks : (q : Pool) → begin_commit p ≡ done q → Step c p q
  commits :
      (tid task : ℕ) (q : Pool) → 0 < p.asking → commit_task c p tid task ≡ done q → Step c p q
  fails :
      (tid : ℕ) (q : Pool)
      → 0 < p.asking
      → c.threads_start ≡ false
      → ltb (length p.tasks) c.max_task_size ≡ false
      → fail_commit c p tid ≡ done q
      → Step c p q
  shuts : Step c p (shut_down p)
  looks :
      (before : List Worker) (w : Worker) (after : List Worker)
      → p.workers ≡ before ++ w ∷ after
      → w.place ≡ at_head
      → Step c p (next_task p before w after p.tasks)
  wakes :
      (timed_out : Bool) (before : List Worker) (w : Worker) (after : List Worker)
      → p.workers ≡ before ++ w ∷ after
      → w.place ≡ waiting
      → Step c p (wake_up c timed_out p before w after)
  begins :
      (before : List Worker) (w : Worker) (after : List Worker) (task : ℕ)
      → p.workers ≡ before ++ w ∷ after
      → w.place ≡ holding task
      → Step c p (record (move_worker p before w after (working task)) { idle = decrement p.idle })
  ends :
      (before : List Worker) (w : Worker) (after : List Worker) (task : ℕ)
      → p.workers ≡ before ++ w ∷ after
      → w.place ≡ working task
      → Step c p
          (record (move_worker p before w after worked) { finished = p.finished ++ task ∷ [] })
  returns :
      (before : List Worker) (w : Worker) (after : List Worker)
      → p.workers ≡ before ++ w ∷ after
      → w.place ≡ worked
      → Step c p (record (move_worker p before w after at_head) { idle = increment p.idle })
  reaps :
      (tid : ℕ) (free : List ℕ)
      → p.free ≡ tid ∷ free
      → Step c p (record p { threads = erase tid p.threads; free = free })

pub data Reach (c : Config) : Pool → Type 0 where
  made :
      (tids : List ℕ) (p : Pool)
      → length tids ≡ c.core_pool_size
      → make_pool c tids ≡ done p
      → Reach c p
  next : {p q : Pool} → Reach c p → Step c p q → Reach c q
