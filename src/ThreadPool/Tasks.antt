-- ===== src/ThreadPool/Tasks.antt =====
-- Which tasks are taken, in which order, and which are finished.
use turbo_net.Common.{
  ℕ, ◌+◌, ◌<◌, inl, inr, ◌≡◌, refl, sym, ap, ap₂, ◌∙◌, Bool, ◌&&◌, List, [], ◌∷◌, ◌++◌, ltb, ◌==◌,
  Bool-cases, if◌then◌else◌, arith, append_assoc, subst,
}
use turbo_net.ThreadPool.{
  Config, Place, at_head, waiting, holding, working, worked, gone, Worker, Pool, is_running,
  add_worker, count_worker, empty_pool, enqueue, shut_down, move_worker, leave, next_task, wake_up,
  Step, asks, commits, fails, shuts, looks, wakes, begins, ends, returns, reaps, Reach, made, next,
}
use turbo_net.ThreadPool.Counts.{total, total-append, total-move}
use turbo_net.ThreadPool.Growing.{
  add_workers-keeps, make_pool_lem, commit_lem, begin_commit_lem, fail_commit_lem, wanted,
}

-- How often a task stands in a list, and in the hands of a worker.
pub times : ℕ → List ℕ → ℕ
times x [] = 0
times x (y ∷ ys) = (if x == y then 1 else 0) + times x ys

times-append : (x : ℕ) (ys zs : List ℕ) → times x (ys ++ zs) ≡ times x ys + times x zs
unfolding times
times-append x [] zs = omega arith
times-append x (y ∷ ys) zs = omega (arith, times-append x ys zs)

abbrev pub in_hand : ℕ → Place → ℕ
in_hand x (holding y) = if x == y then 1 else 0
in_hand x (working y) = if x == y then 1 else 0
in_hand x at_head = 0
in_hand x waiting = 0
in_hand x worked = 0
in_hand x gone = 0

-- The queue is what was committed and not taken, and what was taken is finished or in a worker's
-- hands.
pub record Ordered (p : Pool) : Type 0 where
  pub in_order : p.committed ≡ p.taken ++ p.tasks
  pub in_hands : (x : ℕ) → times x p.taken ≡ times x p.finished + total (in_hand x) p.workers

module _ (c : Config) where
  add_worker-Ordered :
      (p : Pool) (tid : ℕ) → Ordered p → p.now < c.max_pool_size → Ordered (add_worker p tid)
  unfolding add_worker count_worker total
  add_worker-Ordered p tid h room = record {
    in_order = h.in_order;
    in_hands = λ x. omega (
      arith,
      h.in_hands x,
      total-append (in_hand x) p.workers (record { tid = tid; place = at_head } ∷ []),
    );
  }

  enqueue-Ordered : (p : Pool) (task : ℕ) → Ordered p → Ordered (enqueue p task)
  unfolding enqueue
  enqueue-Ordered p task h = record {
    in_order = ap (λ x. x ++ task ∷ []) h.in_order ∙ append_assoc p.taken p.tasks (task ∷ []);
    in_hands = h.in_hands;
  }

  -- A worker that did not take a task moved.
  moved-Ordered :
      (p q : Pool) (before : List Worker) (w : Worker) (after : List Worker) (place : Place)
      → Ordered p
      → p.workers ≡ before ++ w ∷ after
      → q.workers ≡ before ++ record w { place = place } ∷ after
      → ((x : ℕ) → times x p.taken + in_hand x place ≡ times x p.taken + in_hand x w.place)
      → q.committed ≡ p.committed
      → q.taken ≡ p.taken
      → q.tasks ≡ p.tasks
      → q.finished ≡ p.finished
      → Ordered q
  moved-Ordered p q before w after place h e f same a b d g = record {
    in_order = a ∙ h.in_order ∙ ap₂ ◌++◌ (sym b) (sym d);
    in_hands = λ x. omega (
      arith,
      h.in_hands x,
      same x,
      total-move (in_hand x) p.workers before w after place e,
      ap (total (in_hand x)) f,
      ap (times x) b,
      ap (times x) g,
    );
  }

  next_task-Ordered :
      (p : Pool) (before : List Worker) (w : Worker) (after : List Worker) (tasks : List ℕ)
      → p.tasks ≡ tasks
      → Ordered p
      → p.workers ≡ before ++ w ∷ after
      → ((x : ℕ) → in_hand x w.place ≡ 0)
      → Ordered (next_task p before w after tasks)
  unfolding next_task move_worker leave times
  next_task-Ordered p before w after [] t h e n = elim (Bool-cases (is_running p.status)) [
    | inl r ↦ rw r (
        moved-Ordered p (record p { workers = before ++ record w { place = waiting } ∷ after })
          before w after waiting h e refl (λ x. omega (arith, n x)) refl refl refl refl)
    | inr r ↦ rw r (
        moved-Ordered p _ before w after gone h e refl (λ x. omega (arith, n x)) refl refl refl
          refl)
  ]
  next_task-Ordered p before w after (task ∷ tasks) t h e n = record {
    in_order = h.in_order ∙ ap (◌++◌ p.taken) t ∙ sym (append_assoc p.taken (task ∷ []) tasks);
    in_hands = λ x. omega (
      arith,
      h.in_hands x,
      n x,
      total-move (in_hand x) p.workers before w after (holding task) e,
      times-append x p.taken (task ∷ []),
    );
  }

  wake_up-Ordered :
      (timed_out : Bool) (p : Pool) (before : List Worker) (w : Worker) (after : List Worker)
      → Ordered p
      → p.workers ≡ before ++ w ∷ after
      → ((x : ℕ) → in_hand x w.place ≡ 0)
      → Ordered (wake_up c timed_out p before w after)
  unfolding wake_up move_worker leave
  wake_up-Ordered timed_out p before w after h e n =
      elim (Bool-cases (timed_out && ltb c.core_pool_size p.now)) [
        | inl r ↦ rw r (
            moved-Ordered p _ before w after gone h e refl (λ x. omega (arith, n x)) refl refl refl
              refl)
        | inr r ↦ rw r (next_task-Ordered p before w after p.tasks refl h e n)
      ]

  Step-Ordered : {p q : Pool} → Step c p q → Ordered p → Ordered q
  unfolding shut_down move_worker count_worker times
  Step-Ordered {p} (asks q e) h =
      subst Ordered (begin_commit_lem c p q e)
        (record { in_order = h.in_order; in_hands = h.in_hands })
  Step-Ordered {p} (fails tid q a f full e) h =
      fail_commit_lem c Ordered p q tid e h
        (record { in_order = h.in_order; in_hands = h.in_hands })
  Step-Ordered {p} (commits tid task q a e) h =
      subst Ordered (commit_lem c p q tid task e) (
        enqueue-Ordered _ task
          (add_workers-keeps c Ordered add_worker-Ordered p (wanted c p tid) h))
  Step-Ordered {p} shuts h = record { in_order = h.in_order; in_hands = h.in_hands }
  Step-Ordered {p} (looks before w after e at) h =
      next_task-Ordered p before w after p.tasks refl h e (λ x. ap (in_hand x) at)
  Step-Ordered {p} (wakes timed_out before w after e at) h =
      wake_up-Ordered timed_out p before w after h e (λ x. ap (in_hand x) at)
  Step-Ordered {p} (begins before w after task e at) h =
      moved-Ordered p _ before w after (working task) h e refl
        (λ x. omega (arith, ap (in_hand x) at)) refl refl refl refl
  Step-Ordered {p} (ends before w after task e at) h = record {
    in_order = h.in_order;
    in_hands = λ x. omega (
      arith,
      h.in_hands x,
      ap (in_hand x) at,
      total-move (in_hand x) p.workers before w after worked e,
      times-append x p.finished (task ∷ []),
    );
  }
  Step-Ordered {p} (returns before w after e at) h =
      moved-Ordered p _ before w after at_head h e refl (λ x. omega (arith, ap (in_hand x) at)) refl
        refl refl refl
  Step-Ordered {p} (reaps tid free e) h = record { in_order = h.in_order; in_hands = h.in_hands }

  empty_pool-Ordered : Ordered empty_pool
  unfolding empty_pool times total
  empty_pool-Ordered = record { in_order = refl; in_hands = λ x. refl }

  -- In every state that the threads can reach, the tasks that workers took are the front part of
  -- those that were committed, in the order of the commits, and the queue is the rest. Each was taken
  -- as often as it was finished or is in a worker's hands.
  pub Reach-Ordered : {p : Pool} → Reach c p → Ordered p
  Reach-Ordered (made tids p l e) =
      subst Ordered (make_pool_lem c p tids e)
        (add_workers-keeps c Ordered add_worker-Ordered empty_pool tids empty_pool-Ordered)
  Reach-Ordered (next r s) = Step-Ordered s (Reach-Ordered r)
