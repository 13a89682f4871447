-- ===== src/ThreadPool/Tests.antt =====
-- A pool of one worker that takes a task, and a pool without a core.
use turbo_net.Common.{false, true, ◌≡◌, ◌≤◌, refl, [], ◌∷◌, arith}
use turbo_net.ThreadPool.{
  destructor_returns, running, Config, at_head, working, Pool, increment, decrement, add_worker,
  add_workers, add_thread, empty_pool, make_pool, enqueue, begin_commit, commit_task, count_worker,
  move_worker, next_task, asks, commits, looks, begins, Reach, made, next,
}
use turbo_net.ThreadPool.Counts.{total, is_alive, Counted, Reach-Counted}
use turbo_net.ThreadPool.Tasks.{Ordered, Reach-Ordered}
use turbo_net.ThreadPool.Limits.{Reach-core_alive}
use turbo_net.ThreadPool.Starved.{Reach-starved}

abbrev small_pool : Config
small_pool = record {
  max_pool_size = 2;
  core_pool_size = 1;
  max_task_size = 1;
  threads_start = true;
}

-- The worker 7 is in the first task, and the second waits.
abbrev busy : Pool
busy = record {
  status = running;
  tasks = 31 ∷ [];
  threads = 7 ∷ [];
  workers = record { tid = 7; place = working 30 } ∷ [];
  free = [];
  idle = 0;
  now = 1;
  committed = 30 ∷ 31 ∷ [];
  taken = 30 ∷ [];
  finished = [];
  asking = 0;
}

reach_busy : Reach small_pool busy
unfolding make_pool add_thread add_workers add_worker count_worker empty_pool increment decrement
    begin_commit commit_task enqueue next_task move_worker
reach_busy =
    next
      (next
        (next
          (next
            (next (next (made (7 ∷ []) _ refl refl) (asks _ refl))
              (commits 8 30 _ (omega arith) refl))
            (looks [] (record { tid = 7; place = at_head }) [] refl refl))
          (begins [] _ [] 30 refl refl))
        (asks _ refl))
      (commits 8 31 _ (omega arith) refl)

Reach-Counted_example : Counted small_pool (omega arith) refl busy
Reach-Counted_example = Reach-Counted small_pool (omega arith) refl reach_busy

Reach-Ordered_example : Ordered busy
Reach-Ordered_example = Reach-Ordered small_pool reach_busy

Reach-core_alive_example :
    (1 ≤ total is_alive busy.workers) × (destructor_returns busy.workers ≡ false)
Reach-core_alive_example =
    Reach-core_alive small_pool (omega arith) refl reach_busy refl (omega arith) (omega arith)

abbrev no_core : Config
no_core = record {
  max_pool_size = 1;
  core_pool_size = 0;
  max_task_size = 1000;
  threads_start = false;
}

abbrev left_alone : Pool
left_alone = record {
  status = running;
  tasks = 30 ∷ [];
  threads = [];
  workers = [];
  free = [];
  idle = 0;
  now = 0;
  committed = 30 ∷ [];
  taken = [];
  finished = [];
  asking = 0;
}

reach_left_alone : Reach no_core left_alone
unfolding make_pool add_thread add_workers empty_pool begin_commit commit_task enqueue
reach_left_alone =
    next (next (made [] _ refl refl) (asks _ refl)) (commits 8 30 _ (omega arith) refl)

Reach-starved_example : (left_alone.workers ≡ []) × (left_alone.taken ≡ [])
Reach-starved_example = Reach-starved no_core refl reach_left_alone (omega arith)
