-- ===== src/Thread/Keeping.antt =====
-- What the steps of the two threads keep.
use turbo_net.Common.{
  ℕ, suc, ◌≡◌, ◌≢◌, ◌⊎◌, inl, inr, refl, ◌∙◌, ap, subst, Bool, true, false, List, done, Bool-cases,
  done-injective, >>=-eq-done,
}
use turbo_net.CountDownLatch as CountDownLatch
use turbo_net.CountDownLatch.{make_latch, test_count, count_down}
use turbo_net.CurrentThread.{Os, new_local, fill, construct_tid, cached_tid}
use turbo_net.Thread.{
  Child, unborn, born, numbered, named, counted, working, finished, idle, starting, joining, Launch,
  thrown, unjoinable, joinable, Thread, finished_text, launch, use_object, child_step,
}

-- What the new thread has done, by its place.
abbrev pub counts_of : Child → ℕ
counts_of unborn = 0
counts_of born = 0
counts_of numbered = 0
counts_of named = 0
counts_of counted = 1
counts_of working = 1
counts_of finished = 1

abbrev pub tid_at : Os → ℕ → Child → ℕ
tid_at os t unborn = 0
tid_at os t born = 0
tid_at os t numbered = os.gettid t
tid_at os t named = os.gettid t
tid_at os t counted = os.gettid t
tid_at os t working = os.gettid t
tid_at os t finished = os.gettid t

-- The places of `Start`'s wait.
abbrev pub is_early : Child → Bool
is_early unborn = false
is_early born = true
is_early numbered = true
is_early named = true
is_early counted = false
is_early working = false
is_early finished = false

counted_down : (l : CountDownLatch.Latch) (n : ℕ) → l.downs ≡ n → (count_down l).downs ≡ suc n
unfolding CountDownLatch.count_down
counted_down l n e = ap suc e

module _ (os : Os) (t : ℕ) where
  pub record Ok (s : Thread) : Type 0 where
    pub latch_ok : CountDownLatch.Reach 1 s.latch
    pub downs_ok : s.latch.downs ≡ counts_of s.child
    pub tid_ok : s.tid ≡ tid_at os t s.child
    pub early : is_early s.child ≡ true → s.parent ≡ starting
    pub fresh : s.started ≡ false → s.child ≡ unborn
    pub joined_ok : s.joined ≡ true → (s.parent ≡ joining) ⊎ (s.child ≡ finished)
    pub launched : s.parent ≡ starting → s.child ≢ unborn
    pub whole : s.destroyed ≡ true → s.parent ≡ idle

  pub start-Ok :
      (l : Launch) (s : Thread)
      → Ok s
      → s.started ≡ false
      → s.parent ≡ idle
      → s.destroyed ≡ false
      → Ok (launch l s)
  unfolding launch
  start-Ok thrown s h n i d = record {
    latch_ok = h.latch_ok;
    downs_ok = h.downs_ok;
    tid_ok = h.tid_ok;
    early = h.early;
    fresh = λ k. absurd cc;
    joined_ok = h.joined_ok;
    launched = h.launched;
    whole = h.whole;
  }
  start-Ok unjoinable s h n i d = record {
    latch_ok = h.latch_ok;
    downs_ok = h.downs_ok;
    tid_ok = h.tid_ok;
    early = h.early;
    fresh = λ k. h.fresh n;
    joined_ok = h.joined_ok;
    launched = h.launched;
    whole = h.whole;
  }
  start-Ok joinable s h n i d =
      let u = h.fresh n in
      record {
        latch_ok = h.latch_ok;
        downs_ok = h.downs_ok ∙ ap counts_of u;
        tid_ok = h.tid_ok ∙ ap (tid_at os t) u;
        early = λ k. refl;
        fresh = λ k. absurd cc;
        joined_ok = λ k. elim (h.joined_ok k) [ inl j ↦ absurd cc | inr f ↦ absurd cc ];
        launched = λ k j. cc;
        whole = λ k. absurd cc;
      }

  -- A step of the latch that is no `CountDown`.
  pub waits-Ok :
      (s : Thread) (l : CountDownLatch.Latch)
      → Ok s
      → CountDownLatch.Step s.latch l
      → l.downs ≡ s.latch.downs
      → Ok (record s { latch = l })
  waits-Ok s l h w e = record {
    latch_ok = CountDownLatch.next h.latch_ok w;
    downs_ok = e ∙ h.downs_ok;
    tid_ok = h.tid_ok;
    early = h.early;
    fresh = h.fresh;
    joined_ok = h.joined_ok;
    launched = h.launched;
    whole = h.whole;
  }

  pub end_start-Ok :
      (s : Thread)
      → Ok s
      → s.parent ≡ starting
      → is_early s.child ≡ false
      → Ok (record s { parent = idle })
  end_start-Ok s h p e = record {
    latch_ok = h.latch_ok;
    downs_ok = h.downs_ok;
    tid_ok = h.tid_ok;
    early = λ k. absurd cc;
    fresh = h.fresh;
    joined_ok = λ k. elim (h.joined_ok k) [ inl j ↦ absurd cc | inr f ↦ inr f ];
    launched = λ k. absurd cc;
    whole = λ k. refl;
  }

  pub joining-Ok :
      (s : Thread)
      → Ok s
      → s.parent ≡ idle
      → s.destroyed ≡ false
      → Ok (record s { joined = true; parent = joining })
  joining-Ok s h p d = record {
    latch_ok = h.latch_ok;
    downs_ok = h.downs_ok;
    tid_ok = h.tid_ok;
    early = λ k. let f = h.early k in absurd cc;
    fresh = h.fresh;
    joined_ok = λ k. inl refl;
    launched = λ k. absurd cc;
    whole = λ k. absurd cc;
  }

  pub joined_up-Ok : (s : Thread) → Ok s → s.child ≡ finished → Ok (record s { parent = idle })
  joined_up-Ok s h e = record {
    latch_ok = h.latch_ok;
    downs_ok = h.downs_ok;
    tid_ok = h.tid_ok;
    early = λ k. let f = ap is_early e in absurd cc;
    fresh = h.fresh;
    joined_ok = λ k. inr e;
    launched = λ k. absurd cc;
    whole = λ k. refl;
  }

  pub destroys-Ok : (s : Thread) → Ok s → s.parent ≡ idle → Ok (record s { destroyed = true })
  destroys-Ok s h p = record {
    latch_ok = h.latch_ok;
    downs_ok = h.downs_ok;
    tid_ok = h.tid_ok;
    early = h.early;
    fresh = h.fresh;
    joined_ok = h.joined_ok;
    launched = h.launched;
    whole = λ k. p;
  }

  -- The new thread moved to `c`.
  child-Ok :
      (s : Thread) (c : Child) (tid : ℕ) (l : CountDownLatch.Latch) (name : List ℕ)
      → Ok s
      → CountDownLatch.Reach 1 l
      → l.downs ≡ counts_of c
      → tid ≡ tid_at os t c
      → (is_early c ≡ true → is_early s.child ≡ true)
      → s.child ≢ unborn
      → c ≢ unborn
      → s.child ≢ finished
      → Ok (record s { tid = tid; latch = l; child = c; child_name = name })
  child-Ok s c tid l name h r d i e u g f = record {
    latch_ok = r;
    downs_ok = d;
    tid_ok = i;
    early = λ k. h.early (e k);
    fresh = λ k. absurd (u (h.fresh k));
    joined_ok = λ k. elim (h.joined_ok k) [ inl j ↦ inl j | inr g ↦ absurd (f g) ];
    launched = λ k. g;
    whole = h.whole;
  }

  pub use_object-eq :
      (s s' q : Thread) → use_object s s' ≡ done q → (s.destroyed ≡ false) × (s' ≡ q)
  use_object-eq s s' q = elim (Bool-cases s.destroyed) [
    | inl d ↦ rw d (λ e. absurd cc)
    | inr d ↦ rw d (λ e. (refl, done-injective e))
  ]

  new_tid : (cached_tid os t new_local).cached_tid ≡ os.gettid t
  unfolding cached_tid construct_tid new_local fill
  new_tid = refl

  pub child_step-Ok :
      (throws : Bool) (c : Child) (s q : Thread)
      → Ok s
      → s.child ≡ c
      → child_step os t throws c s ≡ done q
      → Ok q
  unfolding child_step
  child_step-Ok throws unborn s q h e f = subst Ok (done-injective f) h
  child_step-Ok throws born s q h e f = subst Ok (use_object-eq s _ q f).1 (
      child-Ok s numbered _ s.latch s.child_name h h.latch_ok (h.downs_ok ∙ ap counts_of e) new_tid
        (λ k. ap is_early e) (λ k. cc) (λ k. cc) (λ k. cc))
  child_step-Ok throws numbered s q h e f = subst Ok (use_object-eq s _ q f).1 (
      child-Ok s named s.tid s.latch s.name h h.latch_ok (h.downs_ok ∙ ap counts_of e)
        (h.tid_ok ∙ ap (tid_at os t) e) (λ k. ap is_early e) (λ k. cc) (λ k. cc) (λ k. cc))
  child_step-Ok throws named s q h e f = subst Ok (use_object-eq s _ q f).1 (
      child-Ok s counted s.tid (count_down s.latch) s.child_name h
        (CountDownLatch.next h.latch_ok CountDownLatch.counts)
        (counted_down s.latch 0 (h.downs_ok ∙ ap counts_of e)) (h.tid_ok ∙ ap (tid_at os t) e)
        (λ k. ap is_early e) (λ k. cc) (λ k. cc) (λ k. cc))
  child_step-Ok throws counted s q h e f = subst Ok (use_object-eq s _ q f).1 (
      child-Ok s working s.tid s.latch s.child_name h h.latch_ok (h.downs_ok ∙ ap counts_of e)
        (h.tid_ok ∙ ap (tid_at os t) e) (λ k. absurd cc) (λ k. cc) (λ k. cc) (λ k. cc))
  child_step-Ok true working s q h e f =
      let (u, _, g) = >>=-eq-done (use_object s s) _ f in absurd cc
  child_step-Ok false working s q h e f = subst Ok (use_object-eq s _ q f).1 (
      child-Ok s finished s.tid s.latch finished_text h h.latch_ok (h.downs_ok ∙ ap counts_of e)
        (h.tid_ok ∙ ap (tid_at os t) e) (λ k. absurd cc) (λ k. cc) (λ k. cc) (λ k. cc))
  child_step-Ok throws finished s q h e f = subst Ok (done-injective f) h
