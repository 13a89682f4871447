-- ===== src/ThreadPool/Limits.antt =====
-- How few workers a running pool has.
use turbo_net.Common.{
  ◌⊎◌, false, ℕ, ◌+◌, ◌≤◌, ◌<◌, ◌^◌, ◌≡◌, refl, ap, Bool, true, ◌&&◌, inl, inr, List, [], ◌∷◌,
  length, ltb, min, Bool-cases, arith, subst,
}
use turbo_net.ThreadPool.{
  is_gone, destructor_returns, Place, gone, at_head, waiting, holding, working, worked, Config,
  Worker, Pool, is_running, increment, decrement, add_worker, count_worker, add_workers, empty_pool,
  enqueue, shut_down, move_worker, leave, next_task, wake_up, Step, asks, commits, fails, shuts,
  looks, wakes, begins, ends, returns, reaps, Reach, made, next,
}
use turbo_net.ThreadPool.Growing.{
  add_workers-keeps, make_pool_lem, commit_lem, begin_commit_lem, wanted,
}
use turbo_net.ThreadPool.Counts.{is_alive, total, Counted, Reach-Counted}

gone-cases : (p : Place) → (p ≡ gone) ⊎ (is_gone p ≡ false)
gone-cases gone = inl refl
gone-cases at_head = inr refl
gone-cases waiting = inr refl
gone-cases (holding task) = inr refl
gone-cases (working task) = inr refl
gone-cases worked = inr refl

-- A worker that has not returned holds the destructor up.
alive-destructor_returns :
    (ws : List Worker) → 0 < total is_alive ws → destructor_returns ws ≡ false
unfolding destructor_returns total
alive-destructor_returns [] h = absurd (omega arith)
alive-destructor_returns (w ∷ ws) h = elim (gone-cases w.place) [
  | inl e ↦ let a = ap is_alive e in rw e (alive-destructor_returns ws (omega (arith, a)))
  | inr e ↦ ap (λ b. b && destructor_returns ws) e
]

module _ (c : Config) (small : c.max_pool_size < 2 ^ 32) (sure : c.threads_start ≡ true) where
  -- The constructor starts as many threads as it is told to and may.
  add_workers-full :
      (p : Pool) (tids : List ℕ)
      → p.now ≤ c.max_pool_size
      → min (p.now + length tids) c.max_pool_size ≤ (add_workers c p tids).now
  unfolding add_workers add_worker count_worker increment
  add_workers-full p [] h = omega arith
  add_workers-full p (tid ∷ tids) h = elim (Bool-cases (ltb p.now c.max_pool_size)) [
    | inl room ↦ rw room (ground (arith, room, add_workers-full (add_worker p tid) tids))
    | inr no_room ↦ rw no_room (ground (arith, no_room))
  ]

  abbrev HasCore : Pool → Type 0
  HasCore p = is_running p.status ≡ true → min c.core_pool_size c.max_pool_size ≤ p.now

  add_worker-HasCore :
      (p : Pool) (tid : ℕ) → HasCore p → p.now < c.max_pool_size → HasCore (add_worker p tid)
  unfolding add_worker count_worker increment
  add_worker-HasCore p tid h room r = omega (arith, h r, small)

  next_task-HasCore :
      (p : Pool) (before : List Worker) (w : Worker) (after : List Worker) (tasks : List ℕ)
      → HasCore p
      → HasCore (next_task p before w after tasks)
  unfolding next_task move_worker leave
  next_task-HasCore p before w after [] h = elim (Bool-cases (is_running p.status)) [
    | inl r ↦ rw r h
    | inr r ↦ rw r (λ e. cc)
  ]
  next_task-HasCore p before w after (task ∷ tasks) h = h

  wake_up-HasCore :
      (timed_out : Bool) (p : Pool) (before : List Worker) (w : Worker) (after : List Worker)
      → Counted c small sure p
      → HasCore p
      → HasCore (wake_up c timed_out p before w after)
  unfolding wake_up move_worker leave decrement
  wake_up-HasCore timed_out p before w after k h =
      elim (Bool-cases (timed_out && ltb c.core_pool_size p.now)) [
        | inl r ↦ rw r (λ e. ground (arith, r, k.few, small))
        | inr r ↦ rw r (next_task-HasCore p before w after p.tasks h)
      ]

  Step-HasCore : {p q : Pool} → Step c p q → Counted c small sure p → HasCore p → HasCore q
  unfolding shut_down move_worker enqueue
  Step-HasCore {p} (asks q e) k h = subst HasCore (begin_commit_lem c p q e) h
  Step-HasCore {p} (fails tid q a f full e) k h = absurd (cc (sure, f))
  Step-HasCore {p} (commits tid task q a e) k h =
      subst HasCore (commit_lem c p q tid task e)
        (add_workers-keeps c HasCore add_worker-HasCore p (wanted c p tid) h)
  Step-HasCore {p} shuts k h = λ e. cc
  Step-HasCore {p} (looks before w after e at) k h = next_task-HasCore p before w after p.tasks h
  Step-HasCore {p} (wakes timed_out before w after e at) k h =
      wake_up-HasCore timed_out p before w after k h
  Step-HasCore {p} (begins before w after task e at) k h = h
  Step-HasCore {p} (ends before w after task e at) k h = h
  Step-HasCore {p} (returns before w after e at) k h = h
  Step-HasCore {p} (reaps tid free e) k h = h

  Reach-HasCore : {p : Pool} → Reach c p → HasCore p
  unfolding empty_pool
  Reach-HasCore (made tids p l e) =
      subst HasCore (make_pool_lem c p tids e)
        (λ r. omega (arith, l, add_workers-full empty_pool tids (omega arith)))
  Reach-HasCore (next r s) = Step-HasCore s (Reach-Counted c small sure r) (Reach-HasCore r)

  -- For a maximal size that an `unsigned int` holds, and as long as every thread can be made: in every state that the threads can reach before
  -- `ShutDown`, at least the core size of workers has not returned, or the maximal size if that is
  -- less; and if neither is 0, not every `Join` of the destructor returns.
  pub Reach-core_alive :
      {p : Pool}
      → Reach c p
      → is_running p.status ≡ true
      → 0 < c.core_pool_size
      → 0 < c.max_pool_size
      → (min c.core_pool_size c.max_pool_size ≤ total is_alive p.workers)
        × (destructor_returns p.workers ≡ false)
  Reach-core_alive {p} r h core most =
      let alive : min c.core_pool_size c.max_pool_size ≤ total is_alive p.workers =
        omega (arith, Reach-HasCore r h, (Reach-Counted c small sure r).now_counts) in
      (alive, alive-destructor_returns p.workers (omega (arith, core, most, alive)))
