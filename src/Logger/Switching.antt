-- ===== src/Logger/Switching.antt =====
-- How the calls that start and stop the default asynchronous logger end.
use turbo_net.Common.{
  ◌≡◌, inl, inr, refl, ap, ap₂, subst, ◌∙◌, Bool, true, false, not, ◌&&◌, some, if◌then◌else◌,
  Outcome, done, stopped, assertion, null_deref, check, ◌>>=◌, ◌>>◌, Bool-cases,
}
use turbo_net.AsyncLogging as AsyncLogging
use turbo_net.AsyncLogging.{Front, append_front}
use turbo_net.Thread as Thread
use turbo_net.Thread.{joinable}
use turbo_net.Logger.Settings.{
  Async, Settings, was_thrown, start_async, stop_async, call_object, with_async,
  start_default_async, stop_default_async,
}

-- The flags of the thread, by `g_is_default_async_started`.
abbrev pub FlagsOk : Bool → Thread.Thread → Type 0
FlagsOk true t = (t.started ≡ true) × (t.joined ≡ false) × (t.has_thread ≡ true)
FlagsOk false t = t.started ≡ t.joined

module _ (a : Async) where
  start_async-eq :
      a.thread.started ≡ false
      → start_async joinable a
        ≡ done (record a {
          front = AsyncLogging.start a.front;
          thread = Thread.launch joinable a.thread;
        })
  unfolding start_async Thread.start
  start_async-eq e =
      ap
        (λ b. check (not b) assertion >> done (Thread.launch joinable a.thread) >>= λ t.
          done (record a { front = AsyncLogging.start a.front; thread = t }))
        e

  start_async-stops : a.thread.started ≡ true → start_async joinable a ≡ stopped assertion
  unfolding start_async Thread.start
  start_async-stops e =
      ap
        (λ b. check (not b) assertion >> done (Thread.launch joinable a.thread) >>= λ t.
          done (record a { front = AsyncLogging.start a.front; thread = t }))
        e

  launched-FlagsOk : a.thread.joined ≡ false → FlagsOk true (Thread.launch joinable a.thread)
  unfolding Thread.launch
  launched-FlagsOk e = (refl, e, refl)

  stop_async-eq :
      FlagsOk true a.thread → (a' : Async) × (stop_async a ≡ done a') × FlagsOk false a'.thread
  unfolding stop_async Thread.join
  stop_async-eq (s, j, h) =
      let joined : Thread.Thread = record a.thread { joined = true; parent = Thread.joining } in
      let a' : Async = record a { front = AsyncLogging.stop a.front; thread = joined } in
      (
        a',
        ap
              (λ b.
                (check b assertion >> (check a.thread.has_thread null_deref >> done joined))
                >>= λ t. done (record a { front = AsyncLogging.stop a.front; thread = t }))
              (ap₂ (λ x y. x && not y) s j)
            ∙ ap
                (λ b. (check b null_deref >> done joined) >>= λ t.
                  done (record a { front = AsyncLogging.stop a.front; thread = t }))
                h,
        s,
      )

-- A call at the object, and the settings behind it.
unfoldable pub with_object : Settings → Async → Settings
with_object s a = record s { singleton = record s.singleton { value = some a } }

with_async-at :
    (call : Async → Outcome Async) (s : Settings) (a : Async)
    → s.singleton.value ≡ some a
    → with_async call s ≡ (call a >>= λ a'. done (with_object s a'))
unfolding with_async call_object with_object
with_async-at call s a e = ap (call_object call s) e

-- The ways in which the two calls end for an object.
pub data Started (s : Settings) (a : Async) : Type 0 where
  already : s.async_started ≡ true → start_default_async joinable s ≡ done s → Started s a
  again : a.thread.joined ≡ true → start_default_async joinable s ≡ stopped assertion → Started s a
  first :
      (a' : Async)
      → a.thread.joined ≡ false
      → start_default_async joinable s ≡ done (record (with_object s a') { async_started = true })
      → FlagsOk true a'.thread
      → Started s a

pub start_default_async-Started :
    (s : Settings) (a : Async)
    → s.has_async ≡ true
    → s.singleton.value ≡ some a
    → FlagsOk s.async_started a.thread
    → Started s a
unfolding start_default_async was_thrown
start_default_async-Started s a h v f =
    let finish : Outcome Settings → Outcome Settings =
      λ m. m >>= λ s'. done (record s' { async_started = true }) in
    let branch : Bool → Outcome Settings =
      λ b. if b then done s else finish (with_async (start_async joinable) s) in
    let begin : start_default_async joinable s ≡ branch s.async_started =
      ap (λ b. check b assertion >> branch s.async_started) h in
    elim (Bool-cases s.async_started) [
      | inl e ↦ already e (begin ∙ ap branch e)
      | inr e ↦
          let same = subst (λ b. FlagsOk b a.thread) e f in
          let run = begin ∙ ap branch e ∙ ap finish (with_async-at (start_async joinable) s a v) in
          elim (Bool-cases a.thread.joined) [
            | inl j ↦ again j (
                run
                ∙ ap (λ m. finish (m >>= λ a'. done (with_object s a')))
                    (start_async-stops a (same ∙ j)))
            | inr j ↦
                first _ j
                  (run
                    ∙ ap (λ m. finish (m >>= λ a'. done (with_object s a')))
                        (start_async-eq a (same ∙ j)))
                  (launched-FlagsOk a j)
          ]
    ]

pub data Ended (s : Settings) (a : Async) : Type 0 where
  not_running : s.async_started ≡ false → stop_default_async s ≡ done s → Ended s a
  ends :
      (a' : Async)
      → stop_default_async s ≡ done (record (with_object s a') { async_started = false })
      → FlagsOk false a'.thread
      → Ended s a

pub stop_default_async-Ended :
    (s : Settings) (a : Async)
    → s.has_async ≡ true
    → s.singleton.value ≡ some a
    → FlagsOk s.async_started a.thread
    → Ended s a
unfolding stop_default_async
stop_default_async-Ended s a h v f =
    let finish : Outcome Settings → Outcome Settings =
      λ m. m >>= λ s'. done (record s' { async_started = false }) in
    let branch : Bool → Outcome Settings =
      λ b. if b then finish (with_async stop_async s) else done s in
    let begin : stop_default_async s ≡ branch s.async_started =
      ap (λ b. check b assertion >> branch s.async_started) h in
    elim (Bool-cases s.async_started) [
      | inl e ↦
          let (a', r, g) = stop_async-eq a (subst (λ b. FlagsOk b a.thread) e f) in
          ends a'
            (begin
              ∙ ap branch e
              ∙ ap finish (with_async-at stop_async s a v)
              ∙ ap (λ m. finish (m >>= λ a'. done (with_object s a'))) r)
            g
      | inr e ↦ not_running e (begin ∙ ap branch e)
    ]
