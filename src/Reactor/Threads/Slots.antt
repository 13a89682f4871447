-- ===== src/Reactor/Threads/Slots.antt =====
-- Whose pointer leads where.
use turbo_net.Common.{
  ℕ, ◌≡◌, ◌≢◌, logged_fatal, ◌↔◌, inl, inr, refl, sym, ap, ◌∙◌, Bool, true, false, not, ◌||◌,
  Option, none, some, ◌==◌, ==_iff, if◌then◌else◌, Bool-cases, done, stopped, >>=-eq-done,
  done-injective, subst, arith,
}
use turbo_net.Logger.{end_of_line}
use turbo_net.Reactor.{set}
use turbo_net.Reactor.EventLoop.{EventLoop, make_loop}
use turbo_net.Reactor.Threads.{
  Threads, destroy_loop, create, destroy, get_event_loop_current_thread, no_loops, Step, creates,
  destroys, Reach, here, next,
}

-- The thread of the loop at an address.
abbrev pub owner_of : {K : Type 0} → Option (EventLoop K) → Option ℕ
owner_of none = none
owner_of (some e) = some e.thread_id

not_== : (a b : ℕ) → a ≢ b → (a == b) ≡ false
not_== a b h = elim (Bool-cases (a == b)) [ inl e ↦ absurd (h ((==_iff a b).0 e)) | inr e ↦ e ]

both_false : (a b : Bool) → (a || not b) ≡ false → (a ≡ false) × (b ≡ true)
both_false a b e = ground arith

module _ {K : Type 0} where
  abbrev Agree : Threads K → Type 0
  Agree s = (t l : ℕ) → (s.slots t ≡ some l) ↔ (owner_of (s.loops l) ≡ some t)

  abbrev fresh_loop : ℕ → ℕ → EventLoop K
  fresh_loop self tid = record {
    self = self;
    thread_id = tid;
    looping = false;
    quit = false;
    poller = none;
  }

  make_loop-eq :
      (self tid : ℕ) (o : Option ℕ) (r : EventLoop K × Option ℕ)
      → make_loop self tid o ≡ done r
      → (o ≡ none) × ((fresh_loop self tid, some self) ≡ r)
  unfolding make_loop end_of_line
  make_loop-eq self tid none r e = (refl, done-injective e)
  make_loop-eq self tid (some other) r e = absurd cc

  create-eq :
      (self tid : ℕ) (s q : Threads K)
      → create self tid s ≡ done q
      → (s.slots tid ≡ none)
        × (record s {
          slots = set s.slots tid (some self);
          loops = set s.loops self (some (fresh_loop self tid));
        }
            ≡ q)
  unfolding create
  create-eq self tid s q r =
      let step : EventLoop K × Option ℕ → Threads K = λ made. record s {
        slots = set s.slots tid made.1;
        loops = set s.loops self (some made.0);
      } in
      let (made, m, f) =
        >>=-eq-done (make_loop self tid (s.slots tid)) (λ made. done (step made)) r in
      let (n, g) = make_loop-eq self tid (s.slots tid) made m in (n, ap step g ∙ done-injective f)

  create-Agree :
      (self tid : ℕ) (e : EventLoop K) (s : Threads K)
      → Agree s
      → e.thread_id ≡ tid
      → s.slots tid ≡ none
      → s.loops self ≡ none
      → Agree (record s { slots = set s.slots tid (some self); loops = set s.loops self (some e) })
  unfolding set
  create-Agree self tid e s h o n m t l = elim (Bool-cases (t == tid)) [
    | inl a ↦ elim (Bool-cases (l == self)) [
      | inl b ↦
          let t_tid = (==_iff t tid).0 a in
          let l_self = (==_iff l self).0 b in
          rw (a, b) (λ k. ap some (o ∙ sym t_tid), λ k. ap some (sym l_self))
      | inr b ↦
          let t_tid = (==_iff t tid).0 a in
          rw (a, b)
            (
              λ k. let x : l ≡ self = cc in let y = (==_iff l self).1 x in absurd cc,
              λ k. let x = (h t l).1 k in absurd cc,
            )
    ]
    | inr a ↦ elim (Bool-cases (l == self)) [
      | inl b ↦
          let l_self = (==_iff l self).0 b in
          rw (a, b)
            (
              λ k.
                  let x = (h t l).0 k in
                  let y = ap (λ z. owner_of (s.loops z)) l_self in
                  let z = ap owner_of m in absurd cc,
              λ k. let x : t ≡ tid = cc in let y = (==_iff t tid).1 x in absurd cc,
            )
      | inr b ↦ rw (a, b) (h t l)
    ]
  ]

  destroy-eq :
      (self tid : ℕ) (e : EventLoop K) (s q : Threads K)
      → destroy self tid e s ≡ done q
      → record {
        slots = set s.slots tid none;
        loops = set s.loops self none;
        foreign = s.foreign || not (e.thread_id == tid);
      }
        ≡ q
  unfolding destroy destroy_loop
  destroy-eq self tid e s q = elim (Bool-cases (not e.looping)) [
    | inl a ↦ rw a (λ r. done-injective r)
    | inr a ↦ rw a (λ r. absurd cc)
  ]

  destroy-Agree :
      (self tid : ℕ) (e : EventLoop K) (s : Threads K) (foreign : Bool)
      → Agree s
      → e.thread_id ≡ tid
      → s.loops self ≡ some e
      → Agree (record {
        slots = set s.slots tid none;
        loops = set s.loops self none;
        foreign = foreign;
      })
  unfolding set
  destroy-Agree self tid e s foreign h o m t l =
      let mine : s.slots tid ≡ some self = (h tid self).1 (ap owner_of m ∙ ap some o) in
      elim (Bool-cases (t == tid)) [
        | inl a ↦ elim (Bool-cases (l == self)) [
          | inl b ↦ rw (a, b) (λ k. absurd cc, λ k. absurd cc)
          | inr b ↦
              let t_tid = ap s.slots ((==_iff t tid).0 a) in
              rw (a, b)
                (
                  λ k. absurd cc,
                  λ k.
                      let x = (h t l).1 k in
                      let y : l ≡ self = cc in let z = (==_iff l self).1 y in absurd cc,
                )
        ]
        | inr a ↦ elim (Bool-cases (l == self)) [
          | inl b ↦
              let l_self = ap (λ z. owner_of (s.loops z)) ((==_iff l self).0 b) in
              let own = ap owner_of m in
              rw (a, b)
                (
                  λ k.
                      let x = (h t l).0 k in
                      let y : t ≡ tid = cc in let z = (==_iff t tid).1 y in absurd cc,
                  λ k. absurd cc,
                )
          | inr b ↦ rw (a, b) (h t l)
        ]
      ]

  Step-Agree :
      {s q : Threads K} → Step s q → (s.foreign ≡ false → Agree s) → q.foreign ≡ false → Agree q
  Step-Agree {s} (creates self tid q m e) h f =
      let (n, g) = create-eq self tid s q e in
      subst Agree g (create-Agree self tid _ s (h (ap Threads.foreign g ∙ f)) refl n m)
  Step-Agree {s} (destroys self tid e q m r) h f =
      let g = destroy-eq self tid e s q r in
      let (still, own) = both_false s.foreign (e.thread_id == tid) (ap Threads.foreign g ∙ f) in
      subst Agree g (
        destroy-Agree self tid e s (s.foreign || not (e.thread_id == tid)) (h still)
          ((==_iff e.thread_id tid).0 own) m)

  Reach-slots : {s : Threads K} → Reach s → s.foreign ≡ false → Agree s
  unfolding no_loops
  Reach-slots here f = λ t l. (λ k. absurd cc, λ k. absurd cc)
  Reach-slots (next r st) f = Step-Agree st (Reach-slots r) f

  -- As long as every loop is destroyed in its own thread: in every state that the threads can reach,
  -- the loop that `GetEventLoopCurrentThread` gives a thread is the one that was made in that thread
  -- and lives, and every loop that lives is given so; a thread has one loop at most.
  pub Reach-Agree :
      {s : Threads K} (t l : ℕ)
      → Reach s
      → s.foreign ≡ false
      → (get_event_loop_current_thread t s ≡ some l) ↔ (owner_of (s.loops l) ≡ some t)
  unfolding get_event_loop_current_thread
  Reach-Agree t l r f = Reach-slots r f t l

  -- If no loop was destroyed in another thread before: the destructor of a loop that is not looping
  -- returns in another thread too. It leaves the loop's own thread with the pointer to it, so that
  -- the thread can make no loop any more, and the other thread without the pointer to its own.
  pub destroy_foreign :
      {s : Threads K} (self tid other : ℕ) (e : EventLoop K)
      → Reach s
      → s.foreign ≡ false
      → s.loops self ≡ some e
      → e.looping ≡ false
      → e.thread_id ≢ tid
      → (q : Threads K) × (destroy self tid e s ≡ done q)
        × (get_event_loop_current_thread e.thread_id q ≡ some self)
        × (q.loops self ≡ none)
        × (create other e.thread_id q ≡ stopped logged_fatal)
        × (get_event_loop_current_thread tid q ≡ none)
  unfolding get_event_loop_current_thread set destroy destroy_loop create make_loop end_of_line
  destroy_foreign {s} self tid other e r f m still apart =
      let kept : (if e.thread_id == tid then none else s.slots e.thread_id) ≡ some self =
        rw (not_== e.thread_id tid apart) ((Reach-slots r f e.thread_id self).1 (ap owner_of m)) in
      (
        record {
          slots = set s.slots tid none;
          loops = set s.loops self none;
          foreign = s.foreign || not (e.thread_id == tid);
        },
        rw still refl,
        kept,
        rw ((==_iff self self).1 refl) refl,
        rw kept refl,
        rw ((==_iff tid tid).1 refl) refl,
      )
