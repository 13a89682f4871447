-- ===== src/Logger/Phases.antt =====
-- What the calls of a program keep of the default asynchronous logger.
use turbo_net.Common.{
  ℕ, ◌≡◌, refl, sym, ap, subst, ◌∙◌, true, false, List, some, if◌then◌else◌, Outcome, done, stopped,
  assertion, null_deref, check, ◌>>=◌, ◌>>◌, done-injective, >>=-eq-done,
}
use turbo_net.AsyncLogging.{append_front}
use turbo_net.CurrentThread.{Os}
use turbo_net.Singleton.{Once, make_once, call_once, object_of, instance_of}
use turbo_net.Thread.{joinable, make_thread}
use turbo_net.Logger.Settings.{
  Async, OutputFunc, default_output, async_output, Settings, initial, set_log_level, set_output,
  make_async, was_thrown, start_async, stop_async, call_object, with_async, set_default_async,
  start_default_async, stop_default_async, write_line, Step, sets_level, sets_output, sets_default,
  starts, stops, logs, Reach, here, next,
}
use turbo_net.Logger.Switching.{
  FlagsOk, with_object, already, again, first, start_default_async-Started, not_running, ends,
  stop_default_async-Ended,
}

pub data Phase (s : Settings) : Type 0 where
  unset : s.has_async ≡ false → s.singleton.called ≡ false → s.async_started ≡ false → Phase s
  set :
      (a : Async)
      → s.has_async ≡ true
      → s.singleton.called ≡ true
      → s.singleton.value ≡ some a
      → FlagsOk s.async_started a.thread
      → Phase s

-- The two cases of `Instance`.
instance_of-first :
    (o : Once Async) (n : Async)
    → o.called ≡ false
    → instance_of false o n ≡ done (record { called = true; value = some n; at_exit = true }, n)
unfolding instance_of call_once object_of
instance_of-first o n e =
    ap
      (λ b.
        let o' : Once Async =
          if b then o else record { called = true; value = some n; at_exit = true } in
        object_of o' o'.value)
      e

instance_of-again :
    (o : Once Async) (n a : Async)
    → o.called ≡ true
    → o.value ≡ some a
    → instance_of false o n ≡ done (o, a)
unfolding instance_of call_once object_of
instance_of-again o n a e v =
    ap
      (λ b.
        let o' : Once Async =
          if b then o else record { called = true; value = some n; at_exit = true } in
        object_of o' o'.value)
      e
    ∙ ap (object_of o) v

pub start-unset :
    (s : Settings) → s.has_async ≡ false → start_default_async joinable s ≡ stopped assertion
unfolding start_default_async was_thrown
start-unset s h =
    ap
      (λ b.
        check b assertion
        >> (if s.async_started
            then done s
            else with_async (start_async joinable) s >>= λ s'.
                done (record s' { async_started = true })))
      h

pub stop-unset : (s : Settings) → s.has_async ≡ false → stop_default_async s ≡ stopped assertion
unfolding stop_default_async
stop-unset s h =
    ap
      (λ b.
        check b assertion
        >> (if s.async_started
            then (with_async stop_async s >>= λ s'. done (record s' { async_started = false }))
            else done s))
      h

module _ (os : Os) (size : ℕ) where
  make_async-FlagsOk :
      (created : ℕ) (base_name : List ℕ) (roll_size : ℕ)
      → FlagsOk false (make_async os size created base_name roll_size).thread
  unfolding make_async make_thread
  make_async-FlagsOk created base_name roll_size = refl

  sets_default-Phase :
      (created : ℕ) (base_name : List ℕ) (roll_size : ℕ) (s q : Settings)
      → Phase s
      → set_default_async os size created s base_name roll_size ≡ done q
      → Phase q
  unfolding set_default_async set_output
  sets_default-Phase created base_name roll_size s q p e =
      let n = make_async os size created base_name roll_size in
      let finish : Outcome (Once Async × Async) → Outcome Settings = λ m. m >>= λ made.
      done (set_output (record s { singleton = made.0; has_async = true }) async_output) in
      elim p [
        | unset h c f ↦
            subst Phase (done-injective (sym (ap finish (instance_of-first s.singleton n c)) ∙ e)) (
              set n refl refl refl (
                subst (λ b. FlagsOk b n.thread) (sym f)
                  (make_async-FlagsOk created base_name roll_size)))
        | set a h c v f ↦
            subst Phase
              (done-injective (sym (ap finish (instance_of-again s.singleton n a c v)) ∙ e))
              (set a refl c v f)
      ]

  starts-Phase : (s q : Settings) → Phase s → start_default_async joinable s ≡ done q → Phase q
  unfolding with_object
  starts-Phase s q (unset h c f) e = let r = start-unset s h in absurd cc
  starts-Phase s q (set a h c v f) e = elim (start_default_async-Started s a h v f) [
    | already b r ↦ subst Phase (done-injective (sym r ∙ e)) (set a h c v f)
    | again j r ↦ absurd cc
    | first a' j r g ↦ subst Phase (done-injective (sym r ∙ e)) (set a' h c refl g)
  ]

  stops-Phase : (s q : Settings) → Phase s → stop_default_async s ≡ done q → Phase q
  unfolding with_object
  stops-Phase s q (unset h c f) e = let r = stop-unset s h in absurd cc
  stops-Phase s q (set a h c v f) e = elim (stop_default_async-Ended s a h v f) [
    | not_running b r ↦ subst Phase (done-injective (sym r ∙ e)) (set a h c v f)
    | ends a' r g ↦ subst Phase (done-injective (sym r ∙ e)) (set a' h c refl g)
  ]

  append_call : List ℕ → Async → Outcome Async
  append_call text a = append_front size a.front text >>= λ front. done (record a { front = front })

  logs-Phase :
      (o : OutputFunc) (s q : Settings) (text : List ℕ)
      → Phase s
      → write_line size o s text ≡ done q
      → Phase q
  unfolding write_line with_async call_object append_call
  logs-Phase default_output s q text (unset h c f) e = subst Phase (done-injective e) (unset h c f)
  logs-Phase default_output s q text (set a h c v f) e =
      subst Phase (done-injective e) (set a h c v f)
  logs-Phase async_output s q text (unset h c f) e =
      let call = append_call text in
      let r = ap (λ b. check b null_deref >> with_async call s) h in absurd cc
  logs-Phase async_output s q text (set a h c v f) e =
      let call = append_call text in
      let r = ap (λ b. check b null_deref >> with_async call s) h ∙ ap (call_object call s) v in
      let (a', g, k) = >>=-eq-done (call a) _ (sym r ∙ e) in
      let (front, m, n) = >>=-eq-done (append_front size a.front text) _ g in
      subst Phase (done-injective k)
        (set a' h c refl (subst (λ x. FlagsOk s.async_started x.thread) (done-injective n) f))

  Step-Phase : {s q : Settings} → Step os size s q → Phase s → Phase q
  unfolding set_log_level set_output
  Step-Phase {s} (sets_level l) (unset h c f) = unset h c f
  Step-Phase {s} (sets_level l) (set a h c v f) = set a h c v f
  Step-Phase {s} (sets_output o) (unset h c f) = unset h c f
  Step-Phase {s} (sets_output o) (set a h c v f) = set a h c v f
  Step-Phase {s} (sets_default created name roll_size q e) p =
      sets_default-Phase created name roll_size s q p e
  Step-Phase {s} (starts q e) p = starts-Phase s q p e
  Step-Phase {s} (stops q e) p = stops-Phase s q p e
  Step-Phase {s} (logs text q e) p = logs-Phase s.output s q text p e

  pub Reach-Phase : {s : Settings} → Reach os size s → Phase s
  unfolding initial make_once
  Reach-Phase here = unset refl refl refl
  Reach-Phase (next r s) = Step-Phase s (Reach-Phase r)
