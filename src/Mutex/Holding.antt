-- ===== src/Mutex/Holding.antt =====
-- That the holder is the thread with the lock.
use turbo_net.Common.{
  ℕ, ◌<◌, ◌≡◌, ◌≢◌, ◌↔◌, inl, inr, refl, sym, ◌∙◌, ap, subst, true, false, some, ◌==◌, Bool-cases,
  done, stopped, assertion, arith, done-injective,
}
use turbo_net.CurrentThread.{Os, new_local}
use turbo_net.Mutex.Owner.{
  owns, is_inside, Held, is_locked-eq, touch-Held, acquire-Held, release-Held, assigns-Held,
  un_assigns-Held, begin_wait-eq,
}
use turbo_net.Mutex.{
  Place, outside, acquired, inside, leaving, falling, asleep, MutexLock, make_mutex, touch,
  is_locked_by_this_thread, begin_wait, destroy, Step, locks, assigns, asks, un_assigns, unlocks,
  waits, sleeps, wakes, Reach, here, next,
}

is_inside-eq : (p : Place) → is_inside p ≡ true → p ≡ inside
is_inside-eq outside e = cc
is_inside-eq acquired e = cc
is_inside-eq inside e = refl
is_inside-eq leaving e = cc
is_inside-eq falling e = cc
is_inside-eq asleep e = cc

not_zero : (n : ℕ) → 0 < n → (n == 0) ≡ false
not_zero n h = ground arith

module _ (os : Os) where
  -- What the lock tells and checks, against where the threads stand.
  pub record Guarded (m : MutexLock) : Type 0 where
    pub asked : (t : ℕ) → (is_locked_by_this_thread os m t ≡ true) ↔ (m.places t ≡ inside)
    pub owner : (t : ℕ) → (owns (m.places t) ≡ true) ↔ (m.owner ≡ some t)
    pub waiting : (t : ℕ) → (begin_wait os m t ≡ stopped assertion) ↔ (m.places t ≢ inside)
    pub ending : (destroy m ≡ stopped assertion) ↔ ((t : ℕ) × (m.places t ≡ inside))

module _ (os : Os) (numbered : (t : ℕ) → 0 < os.gettid t)
    (distinct : (t u : ℕ) → os.gettid t ≡ os.gettid u → t ≡ u) where
  -- The holder is inside.
  holder-inside :
      (m : MutexLock) (t : ℕ) → Held os m → m.holder ≡ os.gettid t → is_inside (m.places t) ≡ true
  holder-inside m t h e = elim h.held [
    | inl z ↦ absurd (omega (arith, numbered t))
    | inr (u, i, z) ↦ subst (λ x. is_inside (m.places x) ≡ true) (distinct u t (sym z ∙ e)) i
  ]

  begin_wait-Held : (m n : MutexLock) (t : ℕ) → Held os m → begin_wait os m t ≡ done n → Held os n
  unfolding touch
  begin_wait-Held m n t h e = elim (Bool-cases (is_locked_by_this_thread os m t)) [
    | inl l ↦
        let f = begin_wait-eq os m t true l in
        let i = holder-inside m t h ((is_locked-eq os m t h).0 l) in
        subst (Held os) (done-injective (sym f ∙ e))
          (un_assigns-Held os (touch os m t) t falling (touch-Held os m t h) i refl refl)
    | inr l ↦ let f = begin_wait-eq os m t false l in absurd cc
  ]

  Step-Held : {m n : MutexLock} → Step os m n → Held os m → Held os n
  unfolding touch
  Step-Held {m} (locks t e f) h = acquire-Held os m t h f
  Step-Held {m} (assigns t e) h = assigns-Held os m t h (ap owns e)
  Step-Held {m} (asks t) h = touch-Held os m t h
  Step-Held {m} (un_assigns t e) h = un_assigns-Held os m t leaving h (ap is_inside e) refl refl
  Step-Held {m} (unlocks t e) h = release-Held os m t outside h (ap owns e) (ap is_inside e) refl
  Step-Held {m} (waits t n e) h = begin_wait-Held m n t h e
  Step-Held {m} (sleeps t e) h = release-Held os m t asleep h (ap owns e) (ap is_inside e) refl
  Step-Held {m} (wakes t e f) h = acquire-Held os m t h f

  Reach-Held : {m : MutexLock} → Reach os m → Held os m
  unfolding make_mutex new_local
  Reach-Held here = record {
    owned = λ t k. absurd cc;
    owning = λ t k. absurd cc;
    caches = λ t. inl refl;
    holding = λ t k. absurd cc;
    held = inl refl;
  }
  Reach-Held (next r s) = Step-Held s (Reach-Held r)

  is_inside-asked :
      (m : MutexLock) (t : ℕ)
      → Held os m
      → (is_locked_by_this_thread os m t ≡ true) ↔ (m.places t ≡ inside)
  is_inside-asked m t h = (
    λ l. is_inside-eq (m.places t) (holder-inside m t h ((is_locked-eq os m t h).0 l)),
    λ e. (is_locked-eq os m t h).1 (h.holding t (ap is_inside e)),
  )

  -- In every state that the threads can reach, where the kernel numbers them from 1 on and apart:
  -- `IsLockedByThisThread` tells a thread that it has the lock just between its `AssignHolder` and its
  -- `UnAssignHolder`; the `std::mutex` belongs to a thread just from its `lock()` to its `unlock()` or
  -- its wait, and so to one at a time; a wait on a condition fails its assertion just if the thread is
  -- not between `AssignHolder` and `UnAssignHolder`; and the destructor fails its assertion just if
  -- some thread is there.
  pub Reach-Guarded : {m : MutexLock} → Reach os m → Guarded os m
  unfolding destroy
  Reach-Guarded {m} r =
      let h = Reach-Held r in
      record {
        asked = λ t. is_inside-asked m t h;
        owner = λ t. (h.owned t, h.owning t);
        waiting = λ t. elim (Bool-cases (is_locked_by_this_thread os m t)) [
          | inl l ↦
              let f = begin_wait-eq os m t true l in
              (λ k. absurd cc, λ k. absurd (k ((is_inside-asked m t h).0 l)))
          | inr l ↦
              (λ k i. let g = (is_inside-asked m t h).1 i in cc, λ k. begin_wait-eq os m t false l)
        ];
        ending = elim h.held [
          | inl z ↦ (
            λ k. let f : destroy m ≡ done m = rw z refl in absurd cc,
            λ (t, i). let o = h.holding t (ap is_inside i) in absurd (omega (arith, numbered t)),
          )
          | inr (t, i, z) ↦ (
            λ k. (t, is_inside-eq (m.places t) i),
            λ k. rw (not_zero m.holder (omega (arith, numbered t))) refl,
          )
        ];
      }
