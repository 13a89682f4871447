-- ===== src/ThreadPool/Counts.antt =====
-- The pool's counters against its workers.
use turbo_net.Common.{
  ℕ, ◌+◌, ◌^◌, ◌≤◌, ◌<◌, ◌≡◌, inl, inr, refl, ap, Bool, true, List, [], ◌∷◌, ◌++◌, ltb, Bool-cases,
  arith, subst, ◌&&◌,
}
use turbo_net.ThreadPool.{
  Config, Place, at_head, waiting, holding, working, worked, gone, Worker, Pool, is_running,
  increment, decrement, add_worker, count_worker, empty_pool, enqueue, shut_down, move_worker,
  leave, next_task, wake_up, Step, asks, commits, fails, shuts, looks, wakes, begins, ends, returns,
  reaps, Reach, made, next,
}
use turbo_net.ThreadPool.Growing.{
  add_workers-keeps, make_pool_lem, commit_lem, begin_commit_lem, wanted,
}

-- Whether a worker at a place has not returned, and whether it is counted as idle.
abbrev pub is_alive : Place → ℕ
is_alive gone = 0
is_alive at_head = 1
is_alive waiting = 1
is_alive (holding task) = 1
is_alive (working task) = 1
is_alive worked = 1

abbrev pub is_idle : Place → ℕ
is_idle at_head = 1
is_idle waiting = 1
is_idle (holding task) = 1
is_idle (working task) = 0
is_idle worked = 0
is_idle gone = 0

unfoldable pub total : (Place → ℕ) → List Worker → ℕ
total f [] = 0
total f (w ∷ ws) = f w.place + total f ws

pub total-append :
    (f : Place → ℕ) (xs ys : List Worker) → total f (xs ++ ys) ≡ total f xs + total f ys
unfolding total
total-append f [] ys = omega arith
total-append f (x ∷ xs) ys = omega (arith, total-append f xs ys)

pub total-cons :
    (f : Place → ℕ) (w : Worker) (ws : List Worker) → total f (w ∷ ws) ≡ f w.place + total f ws
unfolding total
total-cons f w ws = refl

pub total-split :
    (f : Place → ℕ) (ws before : List Worker) (w : Worker) (after : List Worker)
    → ws ≡ before ++ w ∷ after
    → total f ws ≡ total f before + f w.place + total f after
total-split f ws before w after e =
    omega (arith, ap (total f) e, total-append f before (w ∷ after), total-cons f w after)

-- A count after one worker moved.
pub total-move :
    (f : Place → ℕ) (ws before : List Worker) (w : Worker) (after : List Worker) (place : Place)
    → ws ≡ before ++ w ∷ after
    → total f (before ++ record w { place = place } ∷ after) + f w.place ≡ total f ws + f place
total-move f ws before w after place e = omega (
  arith,
  total-split f ws before w after e,
  total-split f (before ++ record w { place = place } ∷ after) before (record w { place = place })
      after refl,
)

idle-le : (ws : List Worker) → total is_idle ws ≤ total is_alive ws
unfolding total
idle-le [] = omega arith
idle-le (w ∷ ws) = ground (arith, idle-le ws)

module _ (c : Config) (small : c.max_pool_size < 2 ^ 32) (sure : c.threads_start ≡ true) where
  -- The counters are the numbers of workers.
  pub record Counted (p : Pool) : Type 0 where
    pub now_counts : p.now ≡ total is_alive p.workers
    pub idle_counts : p.idle ≡ total is_idle p.workers
    pub few : p.now ≤ c.max_pool_size

  add_worker-Counted :
      (p : Pool) (tid : ℕ) → Counted p → p.now < c.max_pool_size → Counted (add_worker p tid)
  unfolding add_worker count_worker increment total
  add_worker-Counted p tid h room =
      let w : Worker = record { tid = tid; place = at_head } in
      let a = total-split is_alive (p.workers ++ w ∷ []) p.workers w [] refl in
      let b = total-split is_idle (p.workers ++ w ∷ []) p.workers w [] refl in
      record {
        now_counts = omega (arith, small, h.now_counts, a);
        idle_counts =
            omega (arith, small, h.idle_counts, h.now_counts, h.few, idle-le p.workers, b);
        few = omega (arith, small);
      }

  enqueue-Counted : (p : Pool) (task : ℕ) → Counted p → Counted (enqueue p task)
  unfolding enqueue
  enqueue-Counted p task h = record {
    now_counts = h.now_counts;
    idle_counts = h.idle_counts;
    few = h.few;
  }

  -- One worker moved, and the counters went along.
  moved-Counted :
      (p q : Pool) (before : List Worker) (w : Worker) (after : List Worker) (place : Place)
      → Counted p
      → p.workers ≡ before ++ w ∷ after
      → q.workers ≡ before ++ record w { place = place } ∷ after
      → q.idle + is_idle w.place ≡ p.idle + is_idle place
      → q.now + is_alive w.place ≡ p.now + is_alive place
      → q.now ≤ p.now
      → Counted q
  moved-Counted p q before w after place h e f i n l = record {
    now_counts = omega (
      arith,
      h.now_counts,
      total-move is_alive p.workers before w after place e,
      ap (total is_alive) f,
    );
    idle_counts = omega (
      arith,
      h.idle_counts,
      total-move is_idle p.workers before w after place e,
      ap (total is_idle) f,
    );
    few = omega (arith, h.few);
  }

  -- A worker that is counted makes the counters positive.
  positive :
      (p : Pool) (before : List Worker) (w : Worker) (after : List Worker)
      → Counted p
      → p.workers ≡ before ++ w ∷ after
      → (is_idle w.place ≤ p.idle)
        × (is_alive w.place ≤ p.now)
        × (p.idle + is_alive w.place ≤ p.now + is_idle w.place)
        × (p.now < 2 ^ 32)
  positive p before w after h e =
      let a = total-split is_alive p.workers before w after e in
      let b = total-split is_idle p.workers before w after e in
      (
        omega (arith, b, h.idle_counts),
        omega (arith, a, h.now_counts),
        omega (arith, h.now_counts, h.idle_counts, a, b, idle-le before, idle-le after),
        omega (arith, h.few, small),
      )

  leaves-Counted :
      (p q : Pool) (before : List Worker) (w : Worker) (after : List Worker)
      → Counted p
      → p.workers ≡ before ++ w ∷ after
      → is_idle w.place ≡ 1
      → is_alive w.place ≡ 1
      → q.workers ≡ before ++ record w { place = gone } ∷ after
      → q.idle ≡ decrement p.idle
      → q.now ≡ decrement p.now
      → Counted q
  unfolding decrement
  leaves-Counted p q before w after h e i a f g k =
      let (pi, pn, l, s) = positive p before w after h e in
      moved-Counted p q before w after gone h e f (omega (arith, i, a, g, k, pi, pn, l, s))
        (omega (arith, i, a, g, k, pi, pn, l, s)) (omega (arith, i, a, g, k, pi, pn, l, s))

  next_task-Counted :
      (p : Pool) (before : List Worker) (w : Worker) (after : List Worker) (tasks : List ℕ)
      → Counted p
      → p.workers ≡ before ++ w ∷ after
      → is_idle w.place ≡ 1
      → is_alive w.place ≡ 1
      → Counted (next_task p before w after tasks)
  unfolding next_task move_worker leave
  next_task-Counted p before w after [] h e i a = elim (Bool-cases (is_running p.status)) [
    | inl r ↦ rw r (
        moved-Counted p (record p { workers = before ++ record w { place = waiting } ∷ after })
          before w after waiting h e refl (omega (arith, i)) (omega (arith, a)) (omega arith))
    | inr r ↦ rw r (leaves-Counted p _ before w after h e i a refl refl refl)
  ]
  next_task-Counted p before w after (task ∷ tasks) h e i a =
      moved-Counted p _ before w after (holding task) h e refl (omega (arith, i)) (omega (arith, a))
        (omega arith)

  wake_up-Counted :
      (timed_out : Bool) (p : Pool) (before : List Worker) (w : Worker) (after : List Worker)
      → Counted p
      → p.workers ≡ before ++ w ∷ after
      → w.place ≡ waiting
      → Counted (wake_up c timed_out p before w after)
  unfolding wake_up move_worker leave
  wake_up-Counted timed_out p before w after h e at =
      elim (Bool-cases (timed_out && ltb c.core_pool_size p.now)) [
        | inl r ↦
            rw r (
              leaves-Counted p _ before w after h e (ap is_idle at) (ap is_alive at) refl refl refl)
        | inr r ↦
            rw r (next_task-Counted p before w after p.tasks h e (ap is_idle at) (ap is_alive at))
      ]

  Step-Counted : {p q : Pool} → Step c p q → Counted p → Counted q
  unfolding shut_down move_worker increment decrement
  Step-Counted {p} (asks q e) h =
      subst Counted (begin_commit_lem c p q e)
        (record { now_counts = h.now_counts; idle_counts = h.idle_counts; few = h.few })
  Step-Counted {p} (fails tid q a f full e) h = absurd (cc (sure, f))
  Step-Counted {p} (commits tid task q a e) h =
      subst Counted (commit_lem c p q tid task e) (
        enqueue-Counted _ task
          (add_workers-keeps c Counted add_worker-Counted p (wanted c p tid) h))
  Step-Counted {p} shuts h = record {
    now_counts = h.now_counts;
    idle_counts = h.idle_counts;
    few = h.few;
  }
  Step-Counted {p} (looks before w after e at) h =
      next_task-Counted p before w after p.tasks h e (ap is_idle at) (ap is_alive at)
  Step-Counted {p} (wakes timed_out before w after e at) h =
      wake_up-Counted timed_out p before w after h e at
  Step-Counted {p} (begins before w after task e at) h =
      let (pi, pn, l, s) = positive p before w after h e in
      moved-Counted p _ before w after (working task) h e refl
        (omega (arith, ap is_idle at, pi, l, s)) (omega (arith, ap is_alive at)) (omega arith)
  Step-Counted {p} (ends before w after task e at) h =
      moved-Counted p _ before w after worked h e refl (omega (arith, ap is_idle at))
        (omega (arith, ap is_alive at)) (omega arith)
  Step-Counted {p} (returns before w after e at) h =
      let (pi, pn, l, s) = positive p before w after h e in
      moved-Counted p _ before w after at_head h e refl
        (omega (arith, ap is_idle at, ap is_alive at, l, s)) (omega (arith, ap is_alive at))
        (omega arith)
  Step-Counted {p} (reaps tid free e) h = record {
    now_counts = h.now_counts;
    idle_counts = h.idle_counts;
    few = h.few;
  }

  empty_pool-Counted : Counted empty_pool
  unfolding empty_pool total
  empty_pool-Counted = record { now_counts = refl; idle_counts = refl; few = omega arith }

  -- For a maximal size that an `unsigned int` holds, and as long as every thread can be made: in every state that the threads can reach,
  -- `now_thread_num_` is the number of workers that have not returned, `idle_thread_num_` that of the
  -- workers that are not between the start of a task and its count, and neither passes the maximal
  -- size.
  pub Reach-Counted : {p : Pool} → Reach c p → Counted p
  Reach-Counted (made tids p l e) =
      subst Counted (make_pool_lem c p tids e)
        (add_workers-keeps c Counted add_worker-Counted empty_pool tids empty_pool-Counted)
  Reach-Counted (next r s) = Step-Counted s (Reach-Counted r)
