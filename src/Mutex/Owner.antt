-- ===== src/Mutex/Owner.antt =====
-- That the steps on the lock keep its owner and its holder together.
use turbo_net.Common.{
  ℕ, ◌≡◌, ◌↔◌, ◌⊎◌, inl, inr, refl, sym, ◌∙◌, ap, Bool, true, false, none, some, ◌==◌,
  if◌then◌else◌, ==_iff, Bool-cases, done, stopped, assertion, arith,
}
use turbo_net.CurrentThread.{Os, Local, fill, construct_tid, cached_tid}
use turbo_net.Mutex.{
  Place, outside, acquired, inside, leaving, falling, asleep, MutexLock, move_to, touch, tid_of,
  assign_holder, un_assign_holder, is_locked_by_this_thread, assert_locked, acquire, release,
  begin_wait,
}

-- The places in which the `std::mutex` belongs to the thread.
abbrev pub owns : Place → Bool
owns outside = false
owns acquired = true
owns inside = true
owns leaving = true
owns falling = true
owns asleep = false

abbrev pub is_inside : Place → Bool
is_inside outside = false
is_inside acquired = false
is_inside inside = true
is_inside leaving = false
is_inside falling = false
is_inside asleep = false

pub inside-owns : (p : Place) → is_inside p ≡ true → owns p ≡ true
inside-owns outside e = cc
inside-owns acquired e = cc
inside-owns inside e = refl
inside-owns leaving e = cc
inside-owns falling e = cc
inside-owns asleep e = cc

module _ (os : Os) where
  -- What a thread has cached is nothing or its number.
  abbrev CacheOk : ℕ → ℕ → Type 0
  CacheOk t tid = (tid ≡ 0) ⊎ (tid ≡ os.gettid t)

  cached_tid-eq :
      (t : ℕ) (l : Local) → CacheOk t l.cached_tid → (cached_tid os t l).cached_tid ≡ os.gettid t
  unfolding cached_tid construct_tid fill
  cached_tid-eq t l h = elim (Bool-cases (l.cached_tid == 0)) [
    | inl e ↦ rw e refl
    | inr e ↦ rw e (elim h [ inl z ↦ absurd (ground arith) | inr z ↦ z ])
  ]

  pub record Held (m : MutexLock) : Type 0 where
    pub owned : (t : ℕ) → owns (m.places t) ≡ true → m.owner ≡ some t
    pub owning : (t : ℕ) → m.owner ≡ some t → owns (m.places t) ≡ true
    pub caches : (t : ℕ) → CacheOk t (tid_of m t)
    pub holding : (t : ℕ) → is_inside (m.places t) ≡ true → m.holder ≡ os.gettid t
    pub held :
        (m.holder ≡ 0) ⊎ ((t : ℕ) × (is_inside (m.places t) ≡ true) × (m.holder ≡ os.gettid t))

  tid_at :
      (m : MutexLock) (t u : ℕ) (b : Bool)
      → (u == t) ≡ b
      → tid_of (touch os m t) u
        ≡ (if b then cached_tid os t (m.locals t) else m.locals u).cached_tid
  unfolding touch
  tid_at m t u b e = ap (λ c. (if c then cached_tid os t (m.locals t) else m.locals u).cached_tid) e

  pub tid_of-touch : (m : MutexLock) (t : ℕ) → Held m → tid_of (touch os m t) t ≡ os.gettid t
  tid_of-touch m t h =
      tid_at m t t true ((==_iff t t).1 refl) ∙ cached_tid-eq t (m.locals t) (h.caches t)

  pub is_locked-eq :
      (m : MutexLock) (t : ℕ)
      → Held m
      → (is_locked_by_this_thread os m t ≡ true) ↔ (m.holder ≡ os.gettid t)
  unfolding is_locked_by_this_thread
  is_locked-eq m t h = rw (tid_of-touch m t h) (==_iff m.holder (os.gettid t))

  -- At most one thread has the mutex.
  pub only :
      (m : MutexLock) (t u : ℕ)
      → Held m
      → owns (m.places t) ≡ true
      → owns (m.places u) ≡ true
      → u ≡ t
  only m t u h a b = let e = h.owned t a in let f = h.owned u b in cc

  pub touch-Held : (m : MutexLock) (t : ℕ) → Held m → Held (touch os m t)
  unfolding touch
  touch-Held m t h = record {
    owned = h.owned;
    owning = h.owning;
    caches = λ u. elim (Bool-cases (u == t)) [
      | inl e ↦ inr (
          tid_at m t u true e
          ∙ cached_tid-eq t (m.locals t) (h.caches t)
          ∙ ap os.gettid (sym ((==_iff u t).0 e)))
      | inr e ↦ rw (tid_at m t u false e) (h.caches u)
    ];
    holding = h.holding;
    held = h.held;
  }

  pub acquire-Held : (m : MutexLock) (t : ℕ) → Held m → m.owner ≡ none → Held (acquire m t)
  unfolding acquire move_to
  acquire-Held m t h free = record {
    owned = λ u. elim (Bool-cases (u == t)) [
      | inl e ↦ rw e (λ k. ap some (sym ((==_iff u t).0 e)))
      | inr e ↦ rw e (λ k. let f = h.owned u k in absurd cc)
    ];
    owning = λ u. elim (Bool-cases (u == t)) [
      | inl e ↦ rw e (λ k. refl)
      | inr e ↦ rw e (λ k. let v : u ≡ t = cc in let f = (==_iff u t).1 v in absurd cc)
    ];
    caches = h.caches;
    holding = λ u. elim (Bool-cases (u == t)) [
      | inl e ↦ rw e (λ k. absurd cc)
      | inr e ↦ rw e (λ k. let f = h.owned u (inside-owns (m.places u) k) in absurd cc)
    ];
    held = elim h.held [
      | inl z ↦ inl z
      | inr (u, i, z) ↦ let f = h.owned u (inside-owns (m.places u) i) in absurd cc
    ];
  }

  -- The owner that is not the holder has the lock to itself.
  unassigned :
      (m : MutexLock) (t : ℕ)
      → Held m
      → owns (m.places t) ≡ true
      → is_inside (m.places t) ≡ false
      → m.holder ≡ 0
  unassigned m t h a i = elim h.held [
    | inl z ↦ z
    | inr (u, j, z) ↦
        let v = ap (λ x. is_inside (m.places x)) (only m t u h a (inside-owns (m.places u) j)) in
        absurd cc
  ]

  pub release-Held :
      (m : MutexLock) (t : ℕ) (place : Place)
      → Held m
      → owns (m.places t) ≡ true
      → is_inside (m.places t) ≡ false
      → owns place ≡ false
      → Held (release m t place)
  unfolding release move_to
  release-Held m t place h a i b = record {
    owned = λ u. elim (Bool-cases (u == t)) [
      | inl e ↦ rw e (λ k. absurd cc)
      | inr e ↦ rw e (λ k. let f = (==_iff u t).1 (only m t u h a k) in absurd cc)
    ];
    owning = λ u k. absurd cc;
    caches = h.caches;
    holding = λ u. elim (Bool-cases (u == t)) [
      | inl e ↦ rw e (λ k. let f = inside-owns place k in absurd cc)
      | inr e ↦ rw e (h.holding u)
    ];
    held = inl (unassigned m t h a i);
  }

  pub assigns-Held :
      (m : MutexLock) (t : ℕ)
      → Held m
      → owns (m.places t) ≡ true
      → Held (move_to (assign_holder os m t) t inside)
  unfolding assign_holder move_to touch
  assigns-Held m t h a =
      let h' = touch-Held m t h in
      let tid = tid_of-touch m t h in
      record {
        owned = λ u. elim (Bool-cases (u == t)) [
          | inl e ↦ rw e (λ k. let v = (==_iff u t).0 e in h'.owned t a ∙ ap some (sym v))
          | inr e ↦ rw e (h'.owned u)
        ];
        owning = λ u. elim (Bool-cases (u == t)) [
          | inl e ↦ rw e (λ k. refl)
          | inr e ↦ rw e (h.owning u)
        ];
        caches = h'.caches;
        holding = λ u. elim (Bool-cases (u == t)) [
          | inl e ↦ rw e (λ k. let v = (==_iff u t).0 e in tid ∙ ap os.gettid (sym v))
          | inr e ↦ rw e (λ k.
              let f = (==_iff u t).1 (only m t u h a (inside-owns (m.places u) k)) in absurd cc)
        ];
        held = inr (t, rw ((==_iff t t).1 refl) refl, tid);
      }

  pub un_assigns-Held :
      (m : MutexLock) (t : ℕ) (place : Place)
      → Held m
      → is_inside (m.places t) ≡ true
      → owns place ≡ true
      → is_inside place ≡ false
      → Held (move_to (un_assign_holder m) t place)
  unfolding un_assign_holder move_to
  un_assigns-Held m t place h i a b =
      let o = inside-owns (m.places t) i in
      record {
        owned = λ u. elim (Bool-cases (u == t)) [
          | inl e ↦ rw e (λ k. h.owned t o ∙ ap some (sym ((==_iff u t).0 e)))
          | inr e ↦ rw e (h.owned u)
        ];
        owning =
            λ u. elim (Bool-cases (u == t)) [ inl e ↦ rw e (λ k. a) | inr e ↦ rw e (h.owning u) ];
        caches = h.caches;
        holding = λ u. elim (Bool-cases (u == t)) [
          | inl e ↦ rw e (λ k. absurd cc)
          | inr e ↦ rw e (λ k.
              let f = (==_iff u t).1 (only m t u h o (inside-owns (m.places u) k)) in absurd cc)
        ];
        held = inl refl;
      }

  pub begin_wait-eq :
      (m : MutexLock) (t : ℕ) (b : Bool)
      → is_locked_by_this_thread os m t ≡ b
      → begin_wait os m t ≡ (
          if b
          then done (move_to (un_assign_holder (touch os m t)) t falling)
          else stopped assertion)
  unfolding begin_wait assert_locked
  begin_wait-eq m t true e = rw e refl
  begin_wait-eq m t false e = rw e refl
