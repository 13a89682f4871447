-- ===== src/Reactor/Registering.antt =====
-- What the branches of `UpdateChannel` leave in the map and with the kernel.
use turbo_net.Common.{
  ℕ, ◌≡◌, ◌≢◌, refl, sym, ap, ◌∙◌, Bool, true, Option, none, some, ==_iff, Bool-cases, inl, inr,
  done, arith, subst,
}
use turbo_net.Reactor.{
  Index, k_new, k_add, k_del, Channel, Operation, ctl_add, ctl_mod, ctl_del, Event, Store, set,
  set_index, set_map, is_none_events, maps_to, is_none, update, register, modify, update_at,
  assert_that,
}
use turbo_net.Reactor.Mirror.{set_same, set_other, Laws, Shows, Entry, Linked, Local}

module _ {K : Type 0} (asserts : Bool) (epoll_ctl : K → Operation → ℕ → Event → Bool × K)
    (watched : K → ℕ → Option Event) (laws : Laws epoll_ctl watched) where
  pub event_of : Store K → ℕ → Event
  event_of s c = record { events = (s.channels c).events; ptr = c }

  unfoldable pub with_epoll : Store K → K → Store K
  with_epoll s k = record s { poller = record s.poller { epoll = k } }

  update_add_lem :
      (s : Store K) (c : ℕ)
      → watched s.poller.epoll (s.channels c).fd ≡ none
      → (k : K) × (update asserts epoll_ctl ctl_add s c ≡ done (with_epoll s k))
        × (watched k ≡ set (watched s.poller.epoll) (s.channels c).fd (some (event_of s c)))
  unfolding update with_epoll event_of
  update_add_lem s c h =
      let (k, p, w) = laws.adds s.poller.epoll (s.channels c).fd (event_of s c) h in
      (k, rw p refl, w)

  update_mod_lem :
      (s : Store K) (c : ℕ) (old : Event)
      → watched s.poller.epoll (s.channels c).fd ≡ some old
      → (k : K) × (update asserts epoll_ctl ctl_mod s c ≡ done (with_epoll s k))
        × (watched k ≡ set (watched s.poller.epoll) (s.channels c).fd (some (event_of s c)))
  unfolding update with_epoll event_of
  update_mod_lem s c old h =
      let (k, p, w) = laws.changes s.poller.epoll (s.channels c).fd (event_of s c) old h in
      (k, rw p refl, w)

  pub update_del_lem :
      (s : Store K) (c : ℕ) (old : Event)
      → watched s.poller.epoll (s.channels c).fd ≡ some old
      → (k : K) × (update asserts epoll_ctl ctl_del s c ≡ done (with_epoll s k))
        × (watched k ≡ set (watched s.poller.epoll) (s.channels c).fd none)
  unfolding update with_epoll event_of
  update_del_lem s c old h =
      let (k, p, w) = laws.deletes s.poller.epoll (s.channels c).fd (event_of s c) old h in
      (k, rw p refl, w)

  -- `s'` is `s` with the channel at `c` at index `i`, linked and watched accordingly.
  pub record Settled (s : Store K) (c : ℕ) (i : Index) (s' : Store K) : Type 0 where
    pub local : Local watched s c (s.channels c).fd s'
    pub channel : s'.channels c ≡ record (s.channels c) { index = i }
    pub linked : Linked i (s'.poller.channel_map (s.channels c).fd) c
    pub seen :
        Entry s'.channels
          (s.channels c).fd
          (s'.poller.channel_map (s.channels c).fd)
          (watched s'.poller.epoll (s.channels c).fd)

  pub here_of :
      (w w' : ℕ → Option Event) (f fd : ℕ) (v : Option Event) → w' ≡ set w f v → f ≡ fd → w' fd ≡ v
  here_of w w' f fd v e q = ap (λ g. g fd) e ∙ ap (λ x. set w x v fd) q ∙ set_same w fd v

  pub away_of :
      (w w' : ℕ → Option Event) (f fd j : ℕ) (v : Option Event)
      → w' ≡ set w f v
      → f ≡ fd
      → j ≢ fd
      → w' j ≡ w j
  away_of w w' f fd j v e q n = ap (λ g. g j) e ∙ set_other w f v j (λ p. n (p ∙ q))

  pub shown_at :
      (chs : ℕ → Channel) (c fd : ℕ) (m : Option ℕ) (w : Option Event)
      → m ≡ some c
      → (chs c).fd ≡ fd
      → Shows (chs c).index (chs c) c w
      → Entry chs fd m w
  shown_at chs c fd m w p a h = rw p (a, h)

  pub register_lem :
      (s : Store K) (c : ℕ)
      → watched s.poller.epoll (s.channels c).fd ≡ none
      → s.poller.channel_map (s.channels c).fd ≡ some c
      → (s' : Store K) × (register asserts epoll_ctl s c ≡ done s') × Settled s c k_add s'
  unfolding register set_index with_epoll event_of
  register_lem s c h m =
      let s1 = set_index s c k_add in
      let q : s1.channels c ≡ record (s.channels c) { index = k_add } = set_same s.channels c _ in
      let f : (s1.channels c).fd ≡ (s.channels c).fd = ap (λ (x : Channel). x.fd) q in
      let (k, p, w) = update_add_lem s1 c (ap (watched s.poller.epoll) f ∙ h) in
      (
        with_epoll s1 k,
        p,
        record {
          local = record {
            thread_same = refl;
            channels_same = λ d n. set_other s.channels c _ d n;
            map_same = λ j n. refl;
            watched_same = λ j n. away_of _ _ _ _ j _ w f n;
          };
          channel = q;
          linked = m;
          seen = shown_at s1.channels c (s.channels c).fd _ _ m f (
              subst (λ (x : Channel). Shows x.index x c (watched k (s.channels c).fd)) (sym q)
                (here_of _ _ _ _ _ w f
                  ∙ ap (λ (x : Channel). some (record { events = x.events; ptr = c })) q));
        },
      )

  pub assert_that-true : (b : Bool) → b ≡ true → assert_that asserts epoll_ctl b ≡ done tt
  unfolding assert_that
  assert_that-true b h = ground (arith, h)

  pub maps_to-some : (m : Option ℕ) (c : ℕ) → m ≡ some c → maps_to m c ≡ true
  unfolding maps_to
  maps_to-some m c h = rw h ((==_iff c c).1 refl)

  -- `UpdateChannel` for a channel that is registered.
  modify_lem :
      (s : Store K) (c : ℕ) (old : Event)
      → (s.channels c).index ≡ k_add
      → watched s.poller.epoll (s.channels c).fd ≡ some old
      → s.poller.channel_map (s.channels c).fd ≡ some c
      → (s' : Store K) × (i : Index) × (modify asserts epoll_ctl s c ≡ done s') × Settled s c i s'
  unfolding modify set_index with_epoll event_of
  modify_lem s c old a h m = elim (Bool-cases (is_none_events (s.channels c))) [
    | inl bare ↦
        let (k, p, w) = update_del_lem s c old h in
        let s1 = with_epoll s k in
        let q : set s.channels c (record (s.channels c) { index = k_del }) c
            ≡ record (s.channels c) { index = k_del } =
          set_same s.channels c _ in
        (
          set_index s1 c k_del,
          k_del,
          rw (assert_that-true _ (maps_to-some _ _ m), bare, p) refl,
          record {
            local = record {
              thread_same = refl;
              channels_same = λ d n. set_other s.channels c _ d n;
              map_same = λ j n. refl;
              watched_same = λ j n. away_of _ _ _ _ j _ w refl n;
            };
            channel = q;
            linked = m;
            seen = shown_at _ c (s.channels c).fd _ _ m (ap (λ (x : Channel). x.fd) q) (
                subst (λ (x : Channel). Shows x.index x c (watched k (s.channels c).fd)) (sym q)
                  (here_of _ _ _ _ _ w refl));
          },
        )
    | inr some_events ↦
        let (k, p, w) = update_mod_lem s c old h in
        (
          with_epoll s k,
          k_add,
          rw (assert_that-true _ (maps_to-some _ _ m), some_events, p) refl,
          record {
            local = record {
              thread_same = refl;
              channels_same = λ d n. refl;
              map_same = λ j n. refl;
              watched_same = λ j n. away_of _ _ _ _ j _ w refl n;
            };
            channel = rw (sym a) refl;
            linked = m;
            seen = shown_at _ c (s.channels c).fd _ _ m refl (
                subst (λ i. Shows i (s.channels c) c (watched k (s.channels c).fd)) (sym a)
                  (here_of _ _ _ _ _ w refl));
          },
        )
  ]

  is_none-none : (m : Option ℕ) → m ≡ none → is_none m ≡ true
  unfolding is_none
  is_none-none m h = rw h refl

  pub update_at_lem :
      (s : Store K) (c : ℕ) (i : Index) (w : Option Event)
      → (s.channels c).index ≡ i
      → Linked i (s.poller.channel_map (s.channels c).fd) c
      → watched s.poller.epoll (s.channels c).fd ≡ w
      → (i ≢ k_add → w ≡ none)
      → (i ≡ k_add → (old : Event) × (w ≡ some old))
      → (s' : Store K) × (j : Index) × (update_at asserts epoll_ctl i s c ≡ done s')
        × Settled s c j s'
  unfolding update_at set_map
  update_at_lem s c k_new w a l h n y =
      let fd = (s.channels c).fd in
      let (s', p, r) =
        register_lem (set_map s fd (some c)) c (h ∙ n (λ e. cc)) (set_same _ fd (some c)) in
      (
        s',
        k_add,
        rw (assert_that-true (is_none (s.poller.channel_map fd)) (is_none-none _ l)) p,
        record {
          local = record {
            thread_same = r.local.thread_same;
            channels_same = r.local.channels_same;
            map_same = λ j m. r.local.map_same j m ∙ set_other s.poller.channel_map fd (some c) j m;
            watched_same = r.local.watched_same;
          };
          channel = r.channel;
          linked = r.linked;
          seen = r.seen;
        },
      )
  update_at_lem s c k_del w a l h n y =
      let (s', p, r) = register_lem s c (h ∙ n (λ e. cc)) l in
      (s', k_add, rw (assert_that-true _ (maps_to-some _ _ l)) p, r)
  update_at_lem s c k_add w a l h n y = let (old, e) = y refl in modify_lem s c old a (h ∙ e) l
