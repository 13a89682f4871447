-- ===== src/Reactor/Removing.antt =====
-- The removal of a channel, in a build that keeps assertions.
use turbo_net.Common.{ℕ, ◌≡◌, ◌≢◌, refl, ap, Bool, true, Option, none, some, ==_iff, done, subst}
use turbo_net.Reactor.{
  Index, k_new, k_add, k_del, Channel, Operation, Event, Store, set_index, set_map, is_none_events,
  assert_in_loop_thread, unregister, remove_channel,
}
use turbo_net.Reactor.Mirror.{set_same, set_other, Laws, Entry, Linked, Belongs, Mirrors}
use turbo_net.Reactor.Registering.{
  Settled, with_epoll, update_del_lem, here_of, away_of, assert_that-true, maps_to-some,
}
use turbo_net.Reactor.Changing.{Follows, Settled-Follows, now_watched, unwatched}

module _ {K : Type 0} (epoll_ctl : K → Operation → ℕ → Event → Bool × K)
    (watched : K → ℕ → Option Event) (laws : Laws epoll_ctl watched) where
  gone_at :
      (chs : ℕ → Channel) (fd : ℕ) (m : Option ℕ) (w : Option Event)
      → m ≡ none
      → w ≡ none
      → Entry chs fd m w
  gone_at chs fd m w p h = rw p h

  -- `s'` is `s` without the channel at `c`.
  dropped :
      (s : Store K) (c : ℕ) (k : K)
      → (w : (j : ℕ) → j ≢ (s.channels c).fd → watched k j ≡ watched s.poller.epoll j)
      → watched k (s.channels c).fd ≡ none
      → Settled true epoll_ctl watched laws s c k_new (
          set_index
            (with_epoll true epoll_ctl watched laws (set_map s (s.channels c).fd none) k)
            c
            k_new)
  unfolding set_index set_map with_epoll
  dropped s c k w h =
      let fd = (s.channels c).fd in
      let q = set_same s.channels c (record (s.channels c) { index = k_new }) in
      let m = set_same s.poller.channel_map fd none in
      record {
        local = record {
          thread_same = refl;
          channels_same = λ d n. set_other s.channels c _ d n;
          map_same = λ j n. set_other s.poller.channel_map fd none j n;
          watched_same = w;
        };
        channel = q;
        linked = m;
        seen = gone_at _ fd _ _ m h;
      }

  unregister_lem :
      (s : Store K) (c : ℕ) (i : Index)
      → i ≢ k_new
      → (i ≡ k_add → (old : Event) × (watched s.poller.epoll (s.channels c).fd ≡ some old))
      → (i ≢ k_add → watched s.poller.epoll (s.channels c).fd ≡ none)
      → (s' : Store K) × (unregister true epoll_ctl i (set_map s (s.channels c).fd none) c
          ≡ done s')
        × Settled true epoll_ctl watched laws s c k_new s'
  unfolding unregister set_map with_epoll
  unregister_lem s c k_new n y h = absurd (n refl)
  unregister_lem s c k_add n y h =
      let (old, e) = y refl in
      let (k, p, w) =
        update_del_lem true epoll_ctl watched laws (set_map s (s.channels c).fd none) c old e in
      (
        _,
        rw p refl,
        dropped s c k (λ j a. away_of true epoll_ctl watched laws _ _ _ _ j _ w refl a)
            (here_of true epoll_ctl watched laws _ _ _ _ _ w refl),
      )
  unregister_lem s c k_del n y h = (_, refl, dropped s c s.poller.epoll (λ j a. refl) (h (λ e. cc)))

  Linked-some : (i : Index) (m : Option ℕ) (c : ℕ) → i ≢ k_new → Linked i m c → m ≡ some c
  Linked-some k_new m c n l = absurd (n refl)
  Linked-some k_add m c n l = l
  Linked-some k_del m c n l = l

  -- The kernel answers as `Laws` says, the interest set is in step, and assertions are kept. Then
  -- in the loop's thread `RemoveChannel` of a registered channel without events returns, keeps the
  -- interest set in step, makes the channel new, and leaves its descriptor unwatched.
  pub remove_channel_lem :
      (tid : ℕ) (s : Store K) (c : ℕ)
      → Mirrors watched s
      → Belongs s c
      → s.poller.thread ≡ tid
      → is_none_events (s.channels c) ≡ true
      → (s.channels c).index ≢ k_new
      → (s' : Store K) × (remove_channel true epoll_ctl tid s c ≡ done s')
        × Follows true epoll_ctl watched laws s c (s.channels c).events s'
        × ((s'.channels c).index ≡ k_new)
        × (watched s'.poller.epoll (s.channels c).fd ≡ none)
  unfolding remove_channel assert_in_loop_thread
  remove_channel_lem tid s c mi b h bare n =
      let fd = (s.channels c).fd in
      let i = (s.channels c).index in
      let (s', p, r) =
        unregister_lem s c i n
          (λ y. (_, now_watched true epoll_ctl watched laws s.channels c fd _ _ i refl b (mi fd) y))
          (unwatched true epoll_ctl watched laws s.channels c fd _ _ i refl b (mi fd)) in
      (
        s',
        rw
            (
              (==_iff s.poller.thread tid).1 h,
              assert_that-true true epoll_ctl watched laws _
                  (maps_to-some true epoll_ctl watched laws _ _ (Linked-some i _ c n b)),
              assert_that-true true epoll_ctl watched laws _ bare,
            )
            p,
        Settled-Follows true epoll_ctl watched laws s s s' c k_new mi
            (record {
              thread_same = refl;
              channels_same = λ d n. refl;
              map_same = λ j n. refl;
              watched_same = λ j n. refl;
            })
            refl r,
        ap (λ (x : Channel). x.index) r.channel,
        subst (λ m. Entry s'.channels fd m (watched s'.poller.epoll fd)) r.linked r.seen,
      )
