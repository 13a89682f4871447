-- ===== src/Reactor/Changing.antt =====
-- A change of a channel's events keeps the interest set in step.
use turbo_net.Common.{
  ℕ, ◌≡◌, ◌≢◌, refl, sym, ap, ◌∙◌, Bool, true, Option, none, some, ==_iff, done, subst,
}
use turbo_net.Reactor.{
  Events, Index, k_new, k_add, k_del, Channel, Operation, Event, Store, set, assert_in_loop_thread,
  update_channel, Change, changed, update_events,
}
use turbo_net.Reactor.Mirror.{
  set_same, set_other, Laws, Shows, Entry, Linked, Belongs, Mirrors, Local, Local-Mirrors,
}
use turbo_net.Reactor.Registering.{Settled, update_at_lem}

module _ {K : Type 0} (asserts : Bool) (epoll_ctl : K → Operation → ℕ → Event → Bool × K)
    (watched : K → ℕ → Option Event) (laws : Laws epoll_ctl watched) where
  pub unwatched :
      (chs : ℕ → Channel) (c fd : ℕ) (m : Option ℕ) (w : Option Event) (i : Index)
      → (chs c).index ≡ i
      → Linked i m c
      → Entry chs fd m w
      → i ≢ k_add
      → w ≡ none
  unwatched chs c fd m w k_new a l e n = subst (λ x. Entry chs fd x w) l e
  unwatched chs c fd m w k_add a l e n = absurd (n refl)
  unwatched chs c fd m w k_del a l e n =
      subst (λ x. Shows x (chs c) c w) a (subst (λ x. Entry chs fd x w) l e).1

  pub now_watched :
      (chs : ℕ → Channel) (c fd : ℕ) (m : Option ℕ) (w : Option Event) (i : Index)
      → (chs c).index ≡ i
      → Linked i m c
      → Entry chs fd m w
      → i ≡ k_add
      → w ≡ some (record { events = (chs c).events; ptr = c })
  now_watched chs c fd m w k_new a l e y = cc
  now_watched chs c fd m w k_add a l e y =
      subst (λ x. Shows x (chs c) c w) a (subst (λ x. Entry chs fd x w) l e).1
  now_watched chs c fd m w k_del a l e y = cc

  -- What a method of the channel at `c` leaves behind: its events are `ev`.
  pub record Follows (s : Store K) (c : ℕ) (ev : Events) (s' : Store K) : Type 0 where
    pub mirrors : Mirrors watched s'
    pub belongs : Belongs s' c
    pub events_are : (s'.channels c).events ≡ ev
    pub fd_same : (s'.channels c).fd ≡ (s.channels c).fd
    pub local : Local watched s c (s.channels c).fd s'

  pub Settled-Follows :
      (s s1 s' : Store K) (c : ℕ) (i : Index)
      → Mirrors watched s
      → Local watched s c (s.channels c).fd s1
      → (s1.channels c).fd ≡ (s.channels c).fd
      → Settled asserts epoll_ctl watched laws s1 c i s'
      → Follows s c (s1.channels c).events s'
  Settled-Follows s s1 s' c i mi l f r =
      let fd = (s.channels c).fd in
      let whole : Local watched s c fd s' = record {
        thread_same = r.local.thread_same ∙ l.thread_same;
        channels_same = λ d n. r.local.channels_same d n ∙ l.channels_same d n;
        map_same = λ j n. r.local.map_same j (λ e. n (e ∙ f)) ∙ l.map_same j n;
        watched_same = λ j n. r.local.watched_same j (λ e. n (e ∙ f)) ∙ l.watched_same j n;
      } in
      let fd_same : (s'.channels c).fd ≡ fd = ap (λ (x : Channel). x.fd) r.channel ∙ f in
      record {
        mirrors = Local-Mirrors watched s s' c fd refl mi whole (
            subst (λ j. Entry s'.channels j (s'.poller.channel_map j) (watched s'.poller.epoll j)) f
              r.seen);
        belongs =
            subst (λ j. Linked (s'.channels c).index (s'.poller.channel_map j) c) (f ∙ sym fd_same)
              (subst (λ k. Linked k (s'.poller.channel_map (s1.channels c).fd) c)
                (sym (ap (λ (x : Channel). x.index) r.channel)) r.linked);
        events_are = ap (λ (x : Channel). x.events) r.channel;
        fd_same = fd_same;
        local = whole;
      }

  -- In the loop's thread, a method that changes the events of a channel returns: the kernel watches
  -- each descriptor as the channels ask, before and after.
  pub change_lem :
      (tid : ℕ) (op : Change) (s : Store K) (c : ℕ)
      → Mirrors watched s
      → Belongs s c
      → s.poller.thread ≡ tid
      → (s' : Store K) × (update_events asserts epoll_ctl tid op s c ≡ done s')
        × Follows s c (changed op (s.channels c).events) s'
  unfolding update_events update_channel assert_in_loop_thread
  change_lem tid op s c mi b h =
      let ch : Channel = record (s.channels c) {
        events = changed op (s.channels c).events;
        add_to_loop = true;
      } in
      let s1 : Store K = record s { channels = set s.channels c ch } in
      let q : s1.channels c ≡ ch = set_same s.channels c ch in
      let fd = (s.channels c).fd in
      let f : (s1.channels c).fd ≡ fd = ap (λ (x : Channel). x.fd) q in
      let i : (s1.channels c).index ≡ (s.channels c).index = ap (λ (x : Channel). x.index) q in
      let at_c = mi fd in
      let l : Linked (s1.channels c).index (s.poller.channel_map (s1.channels c).fd) c =
        subst (λ (x : Channel). Linked x.index (s.poller.channel_map x.fd) c) (sym q) b in
      let (s', j, p, r) =
        update_at_lem asserts epoll_ctl watched laws s1 c (s1.channels c).index
          (watched s.poller.epoll fd) refl l (ap (watched s.poller.epoll) f)
          (λ n. unwatched s.channels c fd _ _ (s.channels c).index refl b at_c (λ e. n (i ∙ e)))
          (λ y.
            (_, now_watched s.channels c fd _ _ (s.channels c).index refl b at_c (sym i ∙ y))) in
      let before : Local watched s c fd s1 = record {
        thread_same = refl;
        channels_same = λ d n. set_other s.channels c ch d n;
        map_same = λ j n. refl;
        watched_same = λ j n. refl;
      } in
      let done_ = Settled-Follows s s1 s' c j mi before f r in
      (
        s',
        rw ((==_iff s.poller.thread tid).1 h) p,
        subst (λ ev. Follows s c ev s') (ap (λ (x : Channel). x.events) q) done_,
      )
