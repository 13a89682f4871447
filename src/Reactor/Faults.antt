-- ===== src/Reactor/Faults.antt =====
-- Where the loop, the poller and a channel do not fit together.
use turbo_net.Common.{
  ℕ, ◌≡◌, ◌≢◌, ◌↔◌, ◌<◌, refl, sym, ap, ap₂, ◌∙◌, Bool, true, false, not, List, [], ◌∷◌, ◌++◌, map,
  Option, none, some, length, ltb, ltb→lt, lt→ltb, ◌==◌, ==_iff, Bool-cases, inl, inr,
  if◌then◌else◌, Outcome, done, stopped, assertion, arith, subst, check, ◌>>=◌, >>=-eq-done,
  done-injective, check-eq-done, append-nil, append_assoc,
}
use turbo_net.Logger.{sys_level, end_of_line}
use turbo_net.Reactor.{
  Events, Index, k_new, k_add, k_del, Channel, Operation, ctl_add, ctl_mod, ctl_del, Event, Poller,
  Store, set, set_index, is_none_events, assert_in_loop_thread, maps_to, assert_that, update,
  control_failed, unregister, remove_channel, have_channel, Change,
}
use turbo_net.Reactor.Mirror.{set_same, set_other}
use turbo_net.Reactor.EventLoop.{
  EventLoop, make_loop, happened, fill_active_channels, grow, poll, through, loop_update_channel,
  loop_remove_channel, loop_change, channel_remove,
}

-- The events of the last report for the channel at `c`.
abbrev pub latest : ℕ → List Event → Events → Events
latest c [] old = old
latest c (e ∷ es) old = latest c es (if e.ptr == c then e.events else old)

fill-active :
    (es : List Event) (chs : ℕ → Channel) (active : List ℕ)
    → (fill_active_channels es chs active).1 ≡ active ++ map (λ (e : Event). e.ptr) es
unfolding fill_active_channels
fill-active [] chs active = sym (append-nil active)
fill-active (e ∷ es) chs active =
    fill-active es _ (active ++ e.ptr ∷ [])
    ∙ append_assoc active (e.ptr ∷ []) (map (λ (e : Event). e.ptr) es)

set_revents :
    (chs : ℕ → Channel) (d : ℕ) (ev : Events) (c : ℕ)
    → set chs d (record (chs d) { revents = ev }) c
      ≡ record (chs c) { revents = if d == c then ev else (chs c).revents }
set_revents chs d ev c = elim (Bool-cases (d == c)) [
  | inl p ↦ rw p (
      subst (λ x. set chs d (record (chs d) { revents = ev }) x ≡ record (chs x) { revents = ev })
        ((==_iff d c).0 p) (set_same chs d (record (chs d) { revents = ev })))
  | inr p ↦ rw p (set_other chs d (record (chs d) { revents = ev }) c (λ q. ground (arith, p, q)))
]

fill-revents :
    (es : List Event) (chs : ℕ → Channel) (active : List ℕ) (c : ℕ)
    → (fill_active_channels es chs active).0 c
      ≡ record (chs c) { revents = latest c es (chs c).revents }
unfolding fill_active_channels
fill-revents [] chs active c = refl
fill-revents (e ∷ es) chs active c =
    fill-revents es _ _ c
    ∙ ap (λ (x : Channel). record x { revents = latest c es x.revents })
        (set_revents chs e.ptr e.events c)

module _ {K : Type 0} (epoll_ctl : K → Operation → ℕ → Event → Bool × K) where
  abbrev filled : List Event → Store K → List ℕ → Store K
  filled es s active = record {
    channels = (fill_active_channels es s.channels active).0;
    poller = record s.poller { event_list_size = grow (length es) s.poller.event_list_size };
  }

  -- In a build that keeps assertions, `Poll` returns from a report of at least one event, with the
  -- reported channels added to the active ones in order and each channel given the events of its
  -- last report, exactly if the events are fewer than `event_list_` has room for.
  pub poll_iff :
      (es : List Event) (s : Store K) (active : List ℕ)
      → 0 < length es
      → ((s' : Store K) × (poll true epoll_ctl (happened es) s active
            ≡ done (s', active ++ map (λ (e : Event). e.ptr) es))
          × ((c : ℕ)
              → s'.channels c
                ≡ record (s.channels c) { revents = latest c es (s.channels c).revents }))
        ↔ (length es < s.poller.event_list_size)
  unfolding poll assert_that
  poll_iff [] s active h = absurd (omega arith)
  poll_iff (e ∷ es) s active h = (
    λ (s', p, q). ltb→lt _ _ (
        check-eq-done _ assertion
          (>>=-eq-done (check (ltb (length (e ∷ es)) s.poller.event_list_size) assertion) _ p).1),
    λ k. (
      filled (e ∷ es) s active,
      rw (lt→ltb _ _ k)
          (ap (λ a. done (filled (e ∷ es) s active, a)) (fill-active (e ∷ es) s.channels active)),
      fill-revents (e ∷ es) s.channels active,
    ),
  )

module _ {K : Type 0} (asserts : Bool) (epoll_ctl : K → Operation → ℕ → Event → Bool × K) where
  null_poller : Outcome (EventLoop K × Option ℕ) → Option (Poller K)
  null_poller (done (l, slot)) = l.poller
  null_poller (stopped e) = none

  through_null :
      (o : Option (Poller K)) (f : Poller K → Outcome (Store K)) (s' : Store K)
      → o ≡ none
      → through asserts epoll_ctl o f ≢ done s'
  unfolding through
  through_null none f s' e p = cc
  through_null (some q) f s' e p = cc

  -- A loop as its constructor leaves it has no poller: no method that changes the events of a
  -- channel returns.
  pub make_loop_stops :
      (self tid tid' : ℕ) (slot slot' : Option ℕ) (loop : EventLoop K)
      → make_loop self tid slot ≡ done (loop, slot')
      → (op : Change) (channels : ℕ → Channel) (c : ℕ) (s' : Store K)
      → loop_change asserts epoll_ctl tid' op loop channels c ≢ done s'
  unfolding make_loop loop_change loop_update_channel end_of_line null_poller
  make_loop_stops self tid tid' none slot' loop e op channels c s' p =
      through_null loop.poller _ s' (sym (ap null_poller e))
        (>>=-eq-done (assert_in_loop_thread tid' loop.thread_id) _
          (>>=-eq-done (assert_that asserts epoll_ctl _) _ p).2).2
  make_loop_stops self tid tid' (some o) slot' loop e op channels c s' p = ground (arith, e)

  abbrev after : Store K → K → Store K
  after s k = record s { poller = record s.poller { epoll = k } }

  -- If `epoll_ctl` fails, the poller goes on exactly if the operation was not a deletion.
  pub update_failed_iff :
      (op : Operation) (s : Store K) (c : ℕ) (k : K)
      → epoll_ctl s.poller.epoll op
          (s.channels c).fd
          (record { events = (s.channels c).events; ptr = c })
        ≡ (false, k)
      → ((s' : Store K) × (update asserts epoll_ctl op s c ≡ done s')) ↔ (op ≢ ctl_del)
  unfolding update control_failed end_of_line sys_level
  update_failed_iff ctl_add s c k h = (λ (s', e) p. cc, λ n. (after s k, rw h refl))
  update_failed_iff ctl_mod s c k h = (λ (s', e) p. cc, λ n. (after s k, rw h refl))
  update_failed_iff ctl_del s c k h = (λ (s', e). ground (arith, h, e), λ n. absurd (n refl))

module _ {K : Type 0} (epoll_ctl : K → Operation → ℕ → Event → Bool × K) where
  both_ways : (b : Bool) → not b ≡ true → b ≡ true → ⊥
  both_ways b e h = ground arith

  remove_channel-bare :
      (tid : ℕ) (s s' : Store K) (c : ℕ)
      → remove_channel true epoll_ctl tid s c ≡ done s'
      → is_none_events (s.channels c) ≡ true
  unfolding remove_channel assert_that
  remove_channel-bare tid s s' c p =
      let (u, e, q) = >>=-eq-done (assert_in_loop_thread tid s.poller.thread) _ p in
      let (u', e', q') =
        >>=-eq-done (check (maps_to (s.poller.channel_map (s.channels c).fd) c) assertion) _ q in
      check-eq-done _ assertion
        (>>=-eq-done (check (is_none_events (s.channels c)) assertion) _ q').1

  through-bare :
      (tid : ℕ) (o : Option (Poller K)) (channels : ℕ → Channel) (c : ℕ) (s' : Store K)
      → through true epoll_ctl o
          (λ q. remove_channel true epoll_ctl tid (record { channels = channels; poller = q }) c)
        ≡ done s'
      → is_none_events (channels c) ≡ true
  unfolding through
  through-bare tid none channels c s' p = cc
  through-bare tid (some q) channels c s' p = remove_channel-bare tid _ s' c p

  -- In a build that keeps assertions `Channel::Remove` never returns: it asks for some events, and
  -- the poller for none.
  pub channel_remove_stops :
      (tid : ℕ) (loop : EventLoop K) (channels : ℕ → Channel) (c : ℕ) (s' : Store K)
      → channel_remove true epoll_ctl tid loop channels c ≢ done s'
  unfolding channel_remove loop_remove_channel assert_that is_none_events
  channel_remove_stops tid loop channels c s' p =
      let (u, e, q) = >>=-eq-done (check (not (is_none_events (channels c))) assertion) _ p in
      let ch : Channel = record (channels c) { add_to_loop = false } in
      let (u', e', q') =
        >>=-eq-done (check ((set channels c ch c).loop == loop.self) assertion) _ q in
      let (u'', e'', q'') = >>=-eq-done (assert_in_loop_thread tid loop.thread_id) _ q' in
      both_ways _ (check-eq-done _ assertion e) (
        ap is_none_events (sym (set_same channels c ch))
        ∙ through-bare tid loop.poller (set channels c ch) c s' q'')

  -- What `EpollPoller::Update` leaves alone.
  record Same (s s' : Store K) : Type 0 where
    same_thread : s'.poller.thread ≡ s.poller.thread
    same_map : s'.poller.channel_map ≡ s.poller.channel_map
    same_channels : s'.channels ≡ s.channels

  either :
      (b : Bool) (op : Operation) (s s' : Store K)
      → (if b then done s else (control_failed op >>= λ _. done s)) ≡ done s'
      → s ≡ s'
  either true op s s' p = done-injective p
  either false op s s' p = done-injective (>>=-eq-done (control_failed op) _ p).2

  update-Same :
      (op : Operation) (s s' : Store K) (c : ℕ)
      → update false epoll_ctl op s c ≡ done s'
      → Same s s'
  unfolding update
  update-Same op s s' c p =
      let answer =
        epoll_ctl s.poller.epoll op (s.channels c).fd
          (record { events = (s.channels c).events; ptr = c }) in
      let s1 : Store K = record s { poller = record s.poller { epoll = answer.1 } } in
      let q : s1 ≡ s' = either answer.0 op s1 s' p in
      record {
        same_thread = sym (ap (λ (x : Store K). x.poller.thread) q);
        same_map = sym (ap (λ (x : Store K). x.poller.channel_map) q);
        same_channels = sym (ap (λ (x : Store K). x.channels) q);
      }

  unregister-keeps :
      (i : Index) (s s' : Store K) (c : ℕ)
      → unregister false epoll_ctl i s c ≡ done s'
      → (s'.poller.thread ≡ s.poller.thread)
        × (s'.poller.channel_map ≡ s.poller.channel_map)
        × (s'.channels ≡ set s.channels c (record (s.channels c) { index = k_new }))
  unfolding unregister set_index assert_that
  unregister-keeps k_add s s' c p =
      let (s1, e, q) = >>=-eq-done (update false epoll_ctl ctl_del s c) _ p in
      let r = update-Same ctl_del s s1 c e in
      let z = done-injective q in
      (
        sym (ap (λ (x : Store K). x.poller.thread) z) ∙ r.same_thread,
        sym (ap (λ (x : Store K). x.poller.channel_map) z) ∙ r.same_map,
        sym (ap (λ (x : Store K). x.channels) z)
            ∙ ap (λ chs. set chs c (record (chs c) { index = k_new })) r.same_channels,
      )
  unregister-keeps k_del s s' c p =
      let z = done-injective p in
      (
        sym (ap (λ (x : Store K). x.poller.thread) z),
        sym (ap (λ (x : Store K). x.poller.channel_map) z),
        sym (ap (λ (x : Store K). x.channels) z),
      )
  unregister-keeps k_new s s' c p =
      let z = done-injective p in
      (
        sym (ap (λ (x : Store K). x.poller.thread) z),
        sym (ap (λ (x : Store K). x.poller.channel_map) z),
        sym (ap (λ (x : Store K). x.channels) z),
      )

  found : (o : Option ℕ) (c : ℕ) → o ≡ some c → maps_to o c ≡ true
  unfolding maps_to
  found o c h = rw h ((==_iff c c).1 refl)

  -- In a build without assertions, when `RemoveChannel` returned for a channel of the map, the
  -- channel is new and yet `HaveChannel` still finds it.
  pub remove_channel_keeps :
      (tid : ℕ) (s s' : Store K) (c : ℕ)
      → s.poller.channel_map (s.channels c).fd ≡ some c
      → remove_channel false epoll_ctl tid s c ≡ done s'
      → ((s'.channels c).index ≡ k_new) × (have_channel tid s' c ≡ done true)
  unfolding remove_channel have_channel assert_that
  remove_channel_keeps tid s s' c m p =
      let (u, e, q) = >>=-eq-done (assert_in_loop_thread tid s.poller.thread) _ p in
      let (t, m', z) = unregister-keeps (s.channels c).index s s' c q in
      let y =
        ap (λ chs. chs c) z ∙ set_same s.channels c (record (s.channels c) { index = k_new }) in
      (
        ap (λ (x : Channel). x.index) y,
        ap
              (λ n. assert_in_loop_thread tid n >>= λ _.
                done (maps_to (s'.poller.channel_map (s'.channels c).fd) c))
              t
            ∙ ap (λ r. r >>= λ _. done (maps_to (s'.poller.channel_map (s'.channels c).fd) c)) e
            ∙ ap done (found _ c (ap₂ (λ f (x : Channel). f x.fd) m' y ∙ m)),
      )
