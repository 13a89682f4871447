-- ===== src/Thread/Detached.antt =====
-- When the new thread uses an object that is gone.
use turbo_net.Common.{
  ℕ, ◌≡◌, ◌≢◌, ◌↔◌, ◌⊎◌, inl, inr, refl, ap, Bool, true, false, List, stopped, out_of_range,
  Bool-cases,
}
use turbo_net.CurrentThread.{Os}
use turbo_net.Thread.{
  Child, unborn, born, numbered, named, counted, working, finished, Thread, use_object, child_step,
  Reach,
}
use turbo_net.Thread.Keeping.{is_early}
use turbo_net.Thread.Lifetime.{Reach-Ok}

abbrev uses_object : Child → Bool
uses_object unborn = false
uses_object born = true
uses_object numbered = true
uses_object named = true
uses_object counted = true
uses_object working = true
uses_object finished = false

use_object_iff : (s s' : Thread) → (use_object s s' ≡ stopped out_of_range) ↔ (s.destroyed ≡ true)
use_object_iff s s' = elim (Bool-cases s.destroyed) [
  | inl d ↦ rw d (λ e. refl, λ e. refl)
  | inr d ↦ rw d (λ e. absurd cc, λ e. absurd cc)
]

module _ (os : Os) (t : ℕ) where
  -- A place that uses the object.
  uses :
      (s s' : Thread) (c : Child)
      → uses_object c ≡ true
      → (use_object s s' ≡ stopped out_of_range) ↔ ((uses_object c ≡ true) × (s.destroyed ≡ true))
  uses s s' c u = (λ e. (u, (use_object_iff s s').0 e), λ (u, d). (use_object_iff s s').1 d)

  child_step_iff :
      (throws : Bool) (c : Child) (s : Thread)
      → (child_step os t throws c s ≡ stopped out_of_range)
        ↔ ((uses_object c ≡ true) × (s.destroyed ≡ true))
  unfolding child_step
  child_step_iff throws unborn s = (λ e. absurd cc, λ (u, d). absurd cc)
  child_step_iff throws born s = uses s _ born refl
  child_step_iff throws numbered s = uses s _ numbered refl
  child_step_iff throws named s = uses s _ named refl
  child_step_iff throws counted s = uses s _ counted refl
  child_step_iff true working s = elim (Bool-cases s.destroyed) [
    | inl d ↦ rw d (λ e. (refl, refl), λ e. refl)
    | inr d ↦ rw d (λ e. absurd cc, λ (u, d). absurd cc)
  ]
  child_step_iff false working s = uses s _ working refl
  child_step_iff throws finished s = (λ e. absurd cc, λ (u, d). absurd cc)

  uses-late : (c : Child) → uses_object c ≡ true → is_early c ≢ true → (c ≡ counted) ⊎ (c ≡ working)
  uses-late unborn u n = absurd cc
  uses-late born u n = absurd (n refl)
  uses-late numbered u n = absurd (n refl)
  uses-late named u n = absurd (n refl)
  uses-late counted u n = inl refl
  uses-late working u n = inr refl
  uses-late finished u n = absurd cc

  late-uses : (c : Child) → (c ≡ counted) ⊎ (c ≡ working) → uses_object c ≡ true
  late-uses c (inl e) = ap uses_object e
  late-uses c (inr e) = ap uses_object e

  late-unfinished : (c : Child) → (c ≡ counted) ⊎ (c ≡ working) → c ≢ finished
  late-unfinished c (inl e) f = cc
  late-unfinished c (inr e) f = cc

  -- In every state that the two threads can reach: the next step of the new thread uses an object that
  -- is gone just if the thread has counted down and has not returned from `func_`, and the object is
  -- destroyed and was not joined.
  pub Reach-child_step :
      (created : ℕ) (name : List ℕ) (throws : Bool) (s : Thread)
      → Reach os t created name s
      → (child_step os t throws s.child s ≡ stopped out_of_range)
        ↔ (((s.child ≡ counted) ⊎ (s.child ≡ working)) × (s.destroyed ≡ true) × (s.joined ≡ false))
  Reach-child_step created name throws s r =
      let h = Reach-Ok os t created name r in
      let i = child_step_iff throws s.child s in
      (
        λ e.
            let (u, d) = i.0 e in
            let p = h.whole d in
            let c = uses-late s.child u (λ k. let f = h.early k in cc) in
            (
              c,
              d,
              elim (Bool-cases s.joined) [
                | inl j ↦ elim (h.joined_ok j) [
                  | inl k ↦ absurd cc
                  | inr f ↦ absurd (late-unfinished s.child c f)
                ]
                | inr j ↦ j
              ],
            ),
        λ (c, d, j). i.1 (late-uses s.child c, d),
      )
