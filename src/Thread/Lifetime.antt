-- ===== src/Thread/Lifetime.antt =====
-- What `Start` returns with.
use turbo_net.Common.{
  ℕ, ◌≤◌, ◌<◌, ◌≡◌, inl, inr, refl, ◌∙◌, subst, true, false, not, ◌&&◌, List, ltb, done, Bool-cases,
  done-injective, if◌then◌else◌, lt→ltb, arith,
}
use turbo_net.CountDownLatch as CountDownLatch
use turbo_net.CountDownLatch.{make_latch, test_count, passed, Where}
use turbo_net.CountDownLatch.Waiting.{PlaceOk, Reach-PlaceOk}
use turbo_net.CurrentThread.{Os}
use turbo_net.Thread.{
  Child, unborn, born, numbered, named, counted, working, finished, idle, starting, joining, Launch,
  Thread, make_thread, launch, start, end_start, join, destroy, Step, starts, enters, rises, tests,
  returns, joins, joined_up, destroys, runs, Reach, here, next,
}
use turbo_net.Thread.Keeping.{
  counts_of, tid_at, is_early, Ok, start-Ok, waits-Ok, end_start-Ok, joining-Ok, joined_up-Ok,
  destroys-Ok, child_step-Ok,
}

pub late : (c : Child) → 1 ≤ counts_of c → is_early c ≡ false
late unborn h = refl
late born h = absurd (omega arith)
late numbered h = absurd (omega arith)
late named h = absurd (omega arith)
late counted h = refl
late working h = refl
late finished h = refl

module _ (os : Os) (t : ℕ) where
  late_tid : (c : Child) → 1 ≤ counts_of c → tid_at os t c ≡ os.gettid t
  late_tid unborn h = absurd (omega arith)
  late_tid born h = absurd (omega arith)
  late_tid numbered h = refl
  late_tid named h = refl
  late_tid counted h = refl
  late_tid working h = refl
  late_tid finished h = refl

  -- Behind the wait the new thread has counted down.
  pub passed-counts : (s : Thread) → Ok os t s → s.latch.threads 0 ≡ passed → 1 ≤ counts_of s.child
  passed-counts s h e =
      let f = subst (PlaceOk 1 s.latch.downs) e (Reach-PlaceOk 1 h.latch_ok 0) in
      omega (arith, h.downs_ok, f)

  start-eq :
      (l : Launch) (s q : Thread) → start l s ≡ done q → (s.started ≡ false) × (launch l s ≡ q)
  unfolding start
  start-eq l s q = elim (Bool-cases s.started) [
    | inl d ↦ rw d (λ e. absurd cc)
    | inr d ↦ rw d (λ e. (refl, done-injective e))
  ]

  end_start-eq : (s q : Thread) → end_start s ≡ done q → record s { parent = idle } ≡ q
  unfolding end_start
  end_start-eq s q = elim (Bool-cases (ltb 0 s.tid)) [
    | inl d ↦ rw d (λ e. done-injective e)
    | inr d ↦ rw d (λ e. absurd cc)
  ]

  join-eq : (s q : Thread) → join s ≡ done q → record s { joined = true; parent = joining } ≡ q
  unfolding join
  join-eq s q = elim (Bool-cases (s.started && not s.joined)) [
    | inl d ↦ elim (Bool-cases s.has_thread) [
      | inl f ↦ rw (d, f) (λ e. done-injective e)
      | inr f ↦ rw (d, f) (λ e. absurd cc)
    ]
    | inr d ↦ rw d (λ e. absurd cc)
  ]

  destroy-eq : (s q : Thread) → destroy s ≡ done q → record s { destroyed = true } ≡ q
  unfolding destroy
  destroy-eq s q = elim (Bool-cases (if s.started && not s.joined then s.has_thread else true)) [
    | inl d ↦ rw d (λ e. done-injective e)
    | inr d ↦ rw d (λ e. absurd cc)
  ]

  Step-Ok : {s q : Thread} → Step os t s q → Ok os t s → Ok os t q
  unfolding CountDownLatch.test_count CountDownLatch.move_to
  Step-Ok {s} (starts l q i d e) h =
      let (n, f) = start-eq l s q e in subst (Ok os t) f (start-Ok os t l s h n i d)
  Step-Ok {s} (enters p e) h = waits-Ok os t s _ h (CountDownLatch.enters 0 e) refl
  Step-Ok {s} (rises p e) h = waits-Ok os t s _ h (CountDownLatch.rises 0 e) refl
  Step-Ok {s} (tests p e) h = waits-Ok os t s _ h (CountDownLatch.tests 0 e) refl
  Step-Ok {s} (returns q p e f) h =
      subst (Ok os t) (end_start-eq s q f)
        (end_start-Ok os t s h p (late s.child (passed-counts s h e)))
  Step-Ok {s} (joins q p d e) h = subst (Ok os t) (join-eq s q e) (joining-Ok os t s h p d)
  Step-Ok {s} (joined_up p e) h = joined_up-Ok os t s h e
  Step-Ok {s} (destroys q p d e) h = subst (Ok os t) (destroy-eq s q e) (destroys-Ok os t s h p)
  Step-Ok {s} (runs throws q e) h = child_step-Ok os t throws s.child s q h refl e

  module _ (created : ℕ) (name : List ℕ) where
    pub Reach-Ok : {s : Thread} → Reach os t created name s → Ok os t s
    unfolding make_thread CountDownLatch.make_latch
    Reach-Ok here = record {
      latch_ok = CountDownLatch.here;
      downs_ok = refl;
      tid_ok = refl;
      early = λ k. absurd cc;
      fresh = λ k. refl;
      joined_ok = λ k. absurd cc;
      launched = λ k. absurd cc;
      whole = λ k. refl;
    }
    Reach-Ok (next r s) = Step-Ok s (Reach-Ok r)

    -- In every state that the two threads can reach, where the kernel numbers the new thread from 1
    -- on: once `Start` is past the wait on the latch, its last assertion holds, and `tid_` is the
    -- kernel's number of the new thread.
    pub Reach-end_start :
        (s : Thread)
        → 0 < os.gettid t
        → Reach os t created name s
        → s.parent ≡ starting
        → s.latch.threads 0 ≡ passed
        → (end_start s ≡ done (record s { parent = idle })) × (s.tid ≡ os.gettid t)
    unfolding end_start
    Reach-end_start s n r p e =
        let h = Reach-Ok r in
        let i = h.tid_ok ∙ late_tid s.child (passed-counts s h e) in
        (rw (lt→ltb 0 s.tid (omega arith)) refl, i)
