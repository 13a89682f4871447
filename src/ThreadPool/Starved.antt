-- ===== src/ThreadPool/Starved.antt =====
-- A pool with a core of no threads.
use turbo_net.Common.{
  ℕ, ◌≤◌, ◌<◌, ◌≡◌, refl, sym, ap, Bool, List, [], ◌∷◌, ◌++◌, length, ltb, lt→ltb, arith, subst,
  length-append, Bool-cases, inl, inr, ◌&&◌,
}
use turbo_net.ThreadPool.{
  Config, Worker, Pool, Step, asks, commits, fails, count_worker, shuts, looks, wakes, begins, ends,
  returns, reaps, Reach, made, next, add_workers, add_worker, empty_pool, enqueue, shut_down,
  next_task, move_worker, leave, wake_up, is_running,
}
use turbo_net.ThreadPool.Growing.{
  add_workers-keeps, make_pool_lem, commit_lem, begin_commit_lem, fail_commit_lem, wanted,
}

no_worker {ℓ} :
    {A : Type ℓ} (ws before : List Worker) (w : Worker) (after : List Worker)
    → ws ≡ []
    → ws ≡ before ++ w ∷ after
    → A
no_worker ws [] w after e f = cc
no_worker ws (b ∷ before) w after e f = cc

module _ (c : Config) where
  -- Nothing has happened but commits.
  record Quiet (p : Pool) : Type 0 where
    no_workers : p.workers ≡ []
    none_taken : p.taken ≡ []
    all_queued : p.tasks ≡ p.committed

  abbrev QuietSoFar : Pool → Type 0
  QuietSoFar p = length p.committed ≤ c.max_task_size → Quiet p

  same_committed : (p : Pool) (tids : List ℕ) → (add_workers c p tids).committed ≡ p.committed
  unfolding add_worker
  same_committed p tids =
      add_workers-keeps c (λ (q : Pool). q.committed ≡ p.committed) (λ q tid h room. h) p tids refl

  commits-Quiet :
      (p : Pool) (tid task : ℕ)
      → QuietSoFar p
      → QuietSoFar (enqueue (add_workers c p (wanted c p tid)) task)
  unfolding enqueue add_workers
  commits-Quiet p tid task h few =
      let n = length-append (add_workers c p (wanted c p tid)).committed (task ∷ []) in
      let s = ap length (same_committed p (wanted c p tid)) in
      let k = h (omega (arith, n, s, few)) in
      let fits : length p.tasks < c.max_task_size =
        omega (arith, n, s, few, ap length k.all_queued) in
      let none_wanted : wanted c p tid ≡ [] =
        rw (lt→ltb (length p.tasks) c.max_task_size fits) refl in
      subst (λ tids. Quiet (enqueue (add_workers c p tids) task)) (sym none_wanted)
        (record {
          no_workers = k.no_workers;
          none_taken = k.none_taken;
          all_queued = ap (λ x. x ++ task ∷ []) k.all_queued;
        })

  -- A step of a worker needs one.
  worker-Quiet :
      (p q : Pool) (before : List Worker) (w : Worker) (after : List Worker)
      → p.workers ≡ before ++ w ∷ after
      → p.committed ≡ q.committed
      → QuietSoFar p
      → QuietSoFar q
  worker-Quiet p q before w after e f h few =
      no_worker p.workers before w after (h (omega (arith, few, ap length f))).no_workers e

  next_task-committed :
      (p : Pool) (before : List Worker) (w : Worker) (after : List Worker) (tasks : List ℕ)
      → p.committed ≡ (next_task p before w after tasks).committed
  unfolding next_task move_worker leave
  next_task-committed p before w after [] = elim (Bool-cases (is_running p.status)) [
    | inl r ↦ rw r refl
    | inr r ↦ rw r refl
  ]
  next_task-committed p before w after (task ∷ tasks) = refl

  wake_up-committed :
      (timed_out : Bool) (p : Pool) (before : List Worker) (w : Worker) (after : List Worker)
      → p.committed ≡ (wake_up c timed_out p before w after).committed
  unfolding wake_up move_worker leave
  wake_up-committed timed_out p before w after =
      elim (Bool-cases (timed_out && ltb c.core_pool_size p.now)) [
        | inl r ↦ rw r refl
        | inr r ↦ rw r (next_task-committed p before w after p.tasks)
      ]

  Step-Quiet : {p q : Pool} → Step c p q → QuietSoFar p → QuietSoFar q
  unfolding shut_down move_worker count_worker
  Step-Quiet {p} (asks q e) h = subst QuietSoFar (begin_commit_lem c p q e) (λ few.
      let k = h few in
      record { no_workers = k.no_workers; none_taken = k.none_taken; all_queued = k.all_queued })
  Step-Quiet {p} (commits tid task q a e) h =
      subst QuietSoFar (commit_lem c p q tid task e) (commits-Quiet p tid task h)
  Step-Quiet {p} (fails tid q a f full e) h = fail_commit_lem c QuietSoFar p q tid e h (λ few.
      let k = h few in
      record { no_workers = k.no_workers; none_taken = k.none_taken; all_queued = k.all_queued })
  Step-Quiet {p} shuts h = λ few.
      let k = h few in
      record { no_workers = k.no_workers; none_taken = k.none_taken; all_queued = k.all_queued }
  Step-Quiet {p} (looks before w after e at) h =
      worker-Quiet p _ before w after e (next_task-committed p before w after p.tasks) h
  Step-Quiet {p} (wakes timed_out before w after e at) h =
      worker-Quiet p _ before w after e (wake_up-committed timed_out p before w after) h
  Step-Quiet {p} (begins before w after task e at) h = worker-Quiet p _ before w after e refl h
  Step-Quiet {p} (ends before w after task e at) h = worker-Quiet p _ before w after e refl h
  Step-Quiet {p} (returns before w after e at) h = worker-Quiet p _ before w after e refl h
  Step-Quiet {p} (reaps tid free e) h = λ few.
      let k = h few in
      record { no_workers = k.no_workers; none_taken = k.none_taken; all_queued = k.all_queued }

  no_core-Quiet : c.core_pool_size ≡ 0 → {p : Pool} → Reach c p → QuietSoFar p
  unfolding empty_pool add_workers
  no_core-Quiet z (made [] p l e) =
      subst QuietSoFar (make_pool_lem c p [] e)
        (λ few. record { no_workers = refl; none_taken = refl; all_queued = refl })
  no_core-Quiet z (made (tid ∷ tids) p l e) = absurd (omega (arith, z, l))
  no_core-Quiet z (next r s) = Step-Quiet s (no_core-Quiet z r)

  -- A pool whose core is of no threads, as the default is on a machine with one processor, has no
  -- worker and takes no task, whatever the threads do, until more tasks were committed than its
  -- maximal task size.
  pub Reach-starved :
      c.core_pool_size ≡ 0
      → {p : Pool} → Reach c p
      → length p.committed ≤ c.max_task_size
      → (p.workers ≡ []) × (p.taken ≡ [])
  Reach-starved z r few = let k = no_core-Quiet z r few in (k.no_workers, k.none_taken)
