-- ===== src/ThreadPool/Growing.antt =====
-- `AddThread`, and the calls of it.
use turbo_net.Common.{
  ℕ, ◌+◌, ◌-◌, subst, ◌≡◌, ◌<◌, ap, ◌∙◌, Bool, true, false, inl, inr, List, [], ◌∷◌, length, ltb,
  ltb→lt, Bool-cases, if◌then◌else◌, done, check, assertion, check-eq-done, done-injective,
  >>=-eq-done,
}
use turbo_net.ThreadPool.{
  Config, Pool, is_running, add_worker, add_workers, add_thread, empty_pool, make_pool, enqueue,
  commit_task, begin_commit, fail_commit, count_worker,
}

module _ (c : Config) where
  -- What one round keeps, the loop keeps.
  pub add_workers-keeps {ℓ} :
      (P : Pool → Type ℓ)
      → ((p : Pool) (tid : ℕ) → P p → p.now < c.max_pool_size → P (add_worker p tid))
      → (p : Pool) (tids : List ℕ) → P p
      → P (add_workers c p tids)
  unfolding add_workers
  add_workers-keeps P keep p [] h = h
  add_workers-keeps P keep p (tid ∷ tids) h = elim (Bool-cases (ltb p.now c.max_pool_size)) [
    | inl room ↦
        rw room (add_workers-keeps P keep (add_worker p tid) tids (keep p tid h (ltb→lt _ _ room)))
    | inr no_room ↦ rw no_room h
  ]

  add_thread_lem :
      (p q : Pool) (tids : List ℕ)
      → add_thread c p tids ≡ done q
      → (is_running p.status ≡ true) × (add_workers c p tids ≡ q)
  unfolding add_thread
  add_thread_lem p q tids e =
      let (u, a, b) = >>=-eq-done (check (is_running p.status) assertion) _ e in
      (check-eq-done _ assertion a, done-injective b)

  pub make_pool_lem :
      (p : Pool) (tids : List ℕ) → make_pool c tids ≡ done p → add_workers c empty_pool tids ≡ p
  unfolding make_pool
  make_pool_lem p tids e = (add_thread_lem empty_pool p tids e).1

  -- The threads that `Commit` asks for.
  abbrev pub wanted : Pool → ℕ → List ℕ
  wanted p tid = if ltb (length p.tasks) c.max_task_size then [] else tid ∷ []

  grown :
      (p m : Pool) (tid : ℕ) (room : Bool)
      → (if room then done p else add_thread c p (tid ∷ [])) ≡ done m
      → add_workers c p (if room then [] else tid ∷ []) ≡ m
  unfolding add_workers
  grown p m tid true e = done-injective e
  grown p m tid false e = (add_thread_lem p m (tid ∷ []) e).1

  pub commit_lem :
      (p q : Pool) (tid task : ℕ)
      → commit_task c p tid task ≡ done q
      → enqueue (add_workers c p (wanted p tid)) task ≡ q
  unfolding commit_task
  commit_lem p q tid task e =
      let (m, d, f) =
        >>=-eq-done
          (if ltb (length p.tasks) c.max_task_size then done p else add_thread c p (tid ∷ [])) _
          e in
      ap (λ x. enqueue x task) (grown p m tid (ltb (length p.tasks) c.max_task_size) d)
      ∙ done-injective f

  -- The two calls that change counts only.
  pub begin_commit_lem :
      (p q : Pool) → begin_commit p ≡ done q → record p { asking = p.asking + 1 } ≡ q
  unfolding begin_commit
  begin_commit_lem p q e =
      let (u, a, b) = >>=-eq-done (check (is_running p.status) assertion) _ e in done-injective b

  pub fail_commit_lem {ℓ} :
      (P : Pool → Type ℓ) (p q : Pool) (tid : ℕ)
      → fail_commit c p tid ≡ done q
      → P p
      → P (record (count_worker p tid) { asking = p.asking - 1 })
      → P q
  unfolding fail_commit
  fail_commit_lem P p q tid e h k =
      let (u, a, b) = >>=-eq-done (check (is_running p.status) assertion) _ e in
      subst P (done-injective b) (elim (Bool-cases (ltb p.now c.max_pool_size)) [
        | inl room ↦ rw room k
        | inr full ↦ rw full h
      ])
