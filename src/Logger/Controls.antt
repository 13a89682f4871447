-- ===== src/Logger/Controls.antt =====
-- When the default asynchronous logger can be started and stopped.
use turbo_net.Common.{ℕ, ◌≡◌, ◌↔◌, sym, ap, subst, ◌∙◌, true, false, some, done}
use turbo_net.CurrentThread.{Os}
use turbo_net.Thread.{joinable}
use turbo_net.Logger.Settings.{Async, Settings, start_default_async, stop_default_async, Reach}
use turbo_net.Logger.Switching.{
  FlagsOk, with_object, already, again, first, start_default_async-Started, not_running, ends,
  stop_default_async-Ended,
}
use turbo_net.Logger.Phases.{Phase, unset, set, start-unset, stop-unset, Reach-Phase}

some-injective : {a b : Async} → some a ≡ some b → a ≡ b
some-injective e = cc

-- When the two calls return.
pub record Controlled (s : Settings) : Type 0 where
  pub starting : ((q : Settings) × (start_default_async joinable s ≡ done q)) ↔ (
      (a : Async) × (s.has_async ≡ true) × (s.singleton.value ≡ some a) × (a.thread.joined ≡ false))
  pub stopping : ((q : Settings) × (stop_default_async s ≡ done q)) ↔ (s.has_async ≡ true)

Phase-Controlled : (s : Settings) → Phase s → Controlled s
unfolding with_object
Phase-Controlled s (unset h c f) =
    let r = start-unset s h in
    let k = stop-unset s h in
    record {
      starting = (λ (q, e). absurd cc, λ (a, g, v, j). absurd cc);
      stopping = (λ (q, e). absurd cc, λ g. absurd cc);
    }
Phase-Controlled s (set a h c v f) = record {
  starting = elim (start_default_async-Started s a h v f) [
    | already b r ↦
        let g = subst (λ x. FlagsOk x a.thread) b f in (λ q. (a, h, v, g.1), λ x. (s, r))
    | again j r ↦ (
      λ (q, e). absurd cc,
      λ (a', g, w, k). let x = ap (λ z. z.thread.joined) (some-injective (sym v ∙ w)) in absurd cc,
    )
    | first a' j r g ↦ (λ q. (a, h, v, j), λ x. (_, r))
  ];
  stopping = elim (stop_default_async-Ended s a h v f) [
    | not_running b r ↦ (λ q. h, λ x. (s, r))
    | ends a' r g ↦ (λ q. h, λ x. (_, r))
  ];
}

module _ (os : Os) (size : ℕ) where
  -- In every state of the settings that a program can reach before its exit, where every thread can
  -- be made: `StartDefaultSingletonAsyncLogging`
  -- returns just if the asynchronous logger was set and its thread was not joined, so never after it
  -- was started and stopped; and `StopDefaultSingletonAsyncLogging` returns just if it was set.
  pub Reach-Controlled : {s : Settings} → Reach os size s → Controlled s
  Reach-Controlled {s} r = Phase-Controlled s (Reach-Phase os size r)
