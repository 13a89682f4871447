-- ===== src/Reactor/Sequences.antt =====
-- Any sequence of changes to the channels of a loop.
use turbo_net.Common.{
  ℕ, ◌≡◌, ◌≢◌, refl, sym, ap, ◌∙◌, Bool, List, [], ◌∷◌, Option, none, some, ◌==◌, ==_iff,
  Bool-cases, inl, inr, Outcome, done, arith, subst, ◌>>=◌, if◌then◌else◌,
}
use turbo_net.Reactor.{
  Events, Index, k_new, k_add, k_del, Channel, Operation, Event, Store, Change, changed,
  update_events,
}
use turbo_net.Reactor.Mirror.{Laws, Shows, Entry, Linked, Belongs, Mirrors, Local}
use turbo_net.Reactor.Changing.{Follows, change_lem}

-- The events that the channel at `c` asks for after the calls, each with the channel it is made on.
abbrev pub asked : ℕ → List (ℕ × Change) → Events → Events
asked c [] ev = ev
asked c ((d, op) ∷ ops) ev = asked c ops (if d == c then changed op ev else ev)

abbrev pub AllLive : (ℕ → Type 0) → List (ℕ × Change) → Type 0
AllLive Live [] = Unit {0}
AllLive Live ((c, op) ∷ ops) = Live c × AllLive Live ops

module _ {K : Type 0} (asserts : Bool) (epoll_ctl : K → Operation → ℕ → Event → Bool × K)
    (tid : ℕ) where
  unfoldable pub change_all : List (ℕ × Change) → Store K → Outcome (Store K)
  change_all [] s = done s
  change_all ((c, op) ∷ ops) s =
      update_events asserts epoll_ctl tid op s c >>= λ s'. change_all ops s'

module _ {K : Type 0} (asserts : Bool) (epoll_ctl : K → Operation → ℕ → Event → Bool × K)
    (watched : K → ℕ → Option Event) (laws : Laws epoll_ctl watched) (tid : ℕ)
    (Live : ℕ → Type 0) where
  -- The channels of the loop: their descriptors differ, and the loop's thread makes the calls.
  pub record Apart (s : Store K) : Type 0 where
    pub mirrors : Mirrors watched s
    pub belongs : (c : ℕ) → Live c → Belongs s c
    pub distinct : (c d : ℕ) → Live c → Live d → (s.channels c).fd ≡ (s.channels d).fd → c ≡ d
    pub thread : s.poller.thread ≡ tid

  Belongs-away :
      (s s' : Store K) (c d : ℕ)
      → d ≢ c
      → ((s.channels d).fd ≢ (s.channels c).fd)
      → Local watched s c (s.channels c).fd s'
      → Belongs s d
      → Belongs s' d
  Belongs-away s s' c d n m l b =
      let e = l.channels_same d n in
      subst (λ (x : Channel). Linked x.index (s'.poller.channel_map x.fd) d) (sym e)
        (subst (λ o. Linked (s.channels d).index o d) (sym (l.map_same (s.channels d).fd m)) b)

  Follows-fd :
      (s s' : Store K) (c : ℕ) (ev : Events)
      → Follows asserts epoll_ctl watched laws s c ev s'
      → (d : ℕ) → (s'.channels d).fd ≡ (s.channels d).fd
  Follows-fd s s' c ev f d = elim (Bool-cases (d == c)) [
    | inl e ↦ subst (λ x. (s'.channels x).fd ≡ (s.channels x).fd) (sym ((==_iff d c).0 e)) f.fd_same
    | inr e ↦ ap (λ (x : Channel). x.fd) (f.local.channels_same d (λ p. ground (arith, e, p)))
  ]

  Follows-Apart :
      (s s' : Store K) (c : ℕ) (ev : Events)
      → Live c
      → Apart s
      → Follows asserts epoll_ctl watched laws s c ev s'
      → Apart s'
  Follows-Apart s s' c ev live a f =
      let same = Follows-fd s s' c ev f in
      record {
        mirrors = f.mirrors;
        belongs = λ d ld. elim (Bool-cases (d == c)) [
          | inl e ↦ subst (Belongs s') (sym ((==_iff d c).0 e)) f.belongs
          | inr e ↦
              let n : d ≢ c = λ p. ground (arith, e, p) in
              Belongs-away s s' c d n (λ p. n (a.distinct d c ld live p)) f.local (a.belongs d ld)
        ];
        distinct = λ x y lx ly p. a.distinct x y lx ly (sym (same x) ∙ p ∙ same y);
        thread = f.local.thread_same ∙ a.thread;
      }

  Follows-events :
      (s s' : Store K) (c : ℕ) (op : Change)
      → Follows asserts epoll_ctl watched laws s c (changed op (s.channels c).events) s'
      → (d : ℕ)
      → (s'.channels d).events
        ≡ (if c == d then changed op (s.channels d).events else (s.channels d).events)
  Follows-events s s' c op f d = elim (Bool-cases (c == d)) [
    | inl e ↦ rw e (
        subst (λ x. (s'.channels x).events ≡ changed op (s.channels x).events) ((==_iff c d).0 e)
          f.events_are)
    | inr e ↦
        rw e (ap (λ (x : Channel). x.events) (f.local.channels_same d (λ p. ground (arith, e, p))))
  ]

  -- What the kernel watches for the channel at `c` that asks for `ev`.
  abbrev pub WatchedAs : Index → ℕ → Events → Option Event → Type 0
  WatchedAs k_add c ev w = w ≡ some (record { events = ev; ptr = c })
  WatchedAs k_new c ev w = w ≡ none
  WatchedAs k_del c ev w = w ≡ none

  Belongs-WatchedAs :
      (chs : ℕ → Channel) (c fd : ℕ) (m : Option ℕ) (w : Option Event) (i : Index)
      → (chs c).index ≡ i
      → Linked i m c
      → Entry chs fd m w
      → WatchedAs i c (chs c).events w
  Belongs-WatchedAs chs c fd m w k_new a l e = subst (λ x. Entry chs fd x w) l e
  Belongs-WatchedAs chs c fd m w k_add a l e =
      subst (λ x. Shows x (chs c) c w) a (subst (λ x. Entry chs fd x w) l e).1
  Belongs-WatchedAs chs c fd m w k_del a l e =
      subst (λ x. Shows x (chs c) c w) a (subst (λ x. Entry chs fd x w) l e).1

  -- The kernel answers as `Laws` says, the interest set is in step, and the loop's thread makes
  -- the calls. Then any sequence of calls of `EpollPoller::UpdateChannel`, each behind a change of
  -- the events of its channel, on channels with descriptors of their own returns: no
  -- assertion fails and no `epoll_ctl` does. Afterwards a channel asks for what the calls on it
  -- come to, and the kernel watches just that for it while it is registered, and nothing for it
  -- otherwise.
  pub change_all_lem :
      (ops : List (ℕ × Change)) (s : Store K)
      → Apart s
      → AllLive Live ops
      → (s' : Store K) × (change_all asserts epoll_ctl tid ops s ≡ done s')
        × Apart s'
        × ((c : ℕ)
            → Live c
            → ((s'.channels c).events ≡ asked c ops (s.channels c).events)
              × WatchedAs
                  (s'.channels c).index
                  c
                  (asked c ops (s.channels c).events)
                  (watched s'.poller.epoll (s'.channels c).fd))
  unfolding change_all
  change_all_lem [] s a l = (
    s,
    refl,
    a,
    λ c lc. (
      refl,
      Belongs-WatchedAs s.channels c (s.channels c).fd _ _ _ refl (a.belongs c lc) (a.mirrors _),
    ),
  )
  change_all_lem ((c, op) ∷ ops) s a l =
      let (s1, p, f) =
        change_lem asserts epoll_ctl watched laws tid op s c a.mirrors (a.belongs c l.0) a.thread in
      let (s', q, a', r) = change_all_lem ops s1 (Follows-Apart s s1 c _ l.0 a f) l.1 in
      (
        s',
        rw p q,
        a',
        λ d ld.
            subst
              (λ ev.
                ((s'.channels d).events ≡ asked d ops ev)
                × WatchedAs (s'.channels d).index d (asked d ops ev)
                    (watched s'.poller.epoll (s'.channels d).fd))
              (Follows-events s s1 c op f d) (r d ld),
      )
