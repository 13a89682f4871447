-- ===== src/Reactor/Mirror.antt =====
-- The interest set of the kernel mirrors the channels.
use turbo_net.Common.{
  ℕ, ◌≡◌, ◌≢◌, refl, sym, ap, ◌∙◌, Bool, true, Option, none, some, ◌==◌, ==_iff, Bool-cases, inl,
  inr, arith, subst,
}
use turbo_net.Reactor.{
  Index, k_new, k_add, k_del, Channel, Operation, ctl_add, ctl_mod, ctl_del, Event, Store, set,
}

pub set_same {ℓ} : {A : Type ℓ} (m : ℕ → A) (k : ℕ) (a : A) → set m k a k ≡ a
unfolding set
set_same m k a = rw ((==_iff k k).1 refl) refl

pub set_other {ℓ} : {A : Type ℓ} (m : ℕ → A) (k : ℕ) (a : A) (j : ℕ) → j ≢ k → set m k a j ≡ m j
unfolding set
set_other m k a j h = elim (Bool-cases (j == k)) [
  | inl e ↦ absurd (h ((==_iff j k).0 e))
  | inr e ↦ rw e refl
]

-- How the kernel answers: an addition of what is not watched, and a change or a deletion of what is,
-- succeed, and touch that descriptor alone.
pub record Laws {K : Type 0} (epoll_ctl : K → Operation → ℕ → Event → Bool × K)
    (watched : K → ℕ → Option Event) : Type 0 where
  pub adds :
      (k : K) (fd : ℕ) (e : Event)
      → watched k fd ≡ none
      → (k' : K) × (epoll_ctl k ctl_add fd e ≡ (true, k'))
        × (watched k' ≡ set (watched k) fd (some e))
  pub changes :
      (k : K) (fd : ℕ) (e old : Event)
      → watched k fd ≡ some old
      → (k' : K) × (epoll_ctl k ctl_mod fd e ≡ (true, k'))
        × (watched k' ≡ set (watched k) fd (some e))
  pub deletes :
      (k : K) (fd : ℕ) (e old : Event)
      → watched k fd ≡ some old
      → (k' : K) × (epoll_ctl k ctl_del fd e ≡ (true, k')) × (watched k' ≡ set (watched k) fd none)

-- What the kernel watches for a channel of the map, by its index.
abbrev pub Shows : Index → Channel → ℕ → Option Event → Type 0
Shows k_new channel c w = ⊥
Shows k_add channel c w = w ≡ some (record { events = channel.events; ptr = c })
Shows k_del channel c w = w ≡ none

abbrev pub Entry : (ℕ → Channel) → ℕ → Option ℕ → Option Event → Type 0
Entry channels fd none w = w ≡ none
Entry channels fd (some c) w = ((channels c).fd ≡ fd) × Shows (channels c).index (channels c) c w

-- Whether the channel at `c` is in the map, by its index.
abbrev pub Linked : Index → Option ℕ → ℕ → Type 0
Linked k_new m c = m ≡ none
Linked k_add m c = m ≡ some c
Linked k_del m c = m ≡ some c

abbrev pub Belongs : {K : Type 0} → Store K → ℕ → Type 0
Belongs s c = Linked (s.channels c).index (s.poller.channel_map (s.channels c).fd) c

module _ {K : Type 0} (watched : K → ℕ → Option Event) where
  -- Every descriptor is watched as its entry in the map says.
  abbrev pub Mirrors : Store K → Type 0
  Mirrors s = (fd : ℕ) → Entry s.channels fd (s.poller.channel_map fd) (watched s.poller.epoll fd)

  -- `s'` differs from `s` in the channel at `c` and its descriptor `fd` only.
  pub record Local (s : Store K) (c fd : ℕ) (s' : Store K) : Type 0 where
    pub thread_same : s'.poller.thread ≡ s.poller.thread
    pub channels_same : (d : ℕ) → d ≢ c → s'.channels d ≡ s.channels d
    pub map_same : (j : ℕ) → j ≢ fd → s'.poller.channel_map j ≡ s.poller.channel_map j
    pub watched_same : (j : ℕ) → j ≢ fd → watched s'.poller.epoll j ≡ watched s.poller.epoll j

  Entry-apart :
      (chs chs' : ℕ → Channel) (c fd j : ℕ) (m : Option ℕ) (w : Option Event)
      → (chs c).fd ≡ fd
      → j ≢ fd
      → ((d : ℕ) → d ≢ c → chs' d ≡ chs d)
      → Entry chs j m w
      → Entry chs' j m w
  Entry-apart chs chs' c fd j none w a h same e = e
  Entry-apart chs chs' c fd j (some d) w a h same e =
      subst (λ (x : Channel). (x.fd ≡ j) × Shows x.index x d w)
        (sym (same d (λ p. h (sym e.0 ∙ ap (λ x. (chs x).fd) p ∙ a)))) e

  pub Local-Mirrors :
      (s s' : Store K) (c fd : ℕ)
      → (s.channels c).fd ≡ fd
      → Mirrors s
      → Local s c fd s'
      → Entry s'.channels fd (s'.poller.channel_map fd) (watched s'.poller.epoll fd)
      → Mirrors s'
  Local-Mirrors s s' c fd a mi l e j = elim (Bool-cases (j == fd)) [
    | inl p ↦
        subst (λ i. Entry s'.channels i (s'.poller.channel_map i) (watched s'.poller.epoll i))
          (sym ((==_iff j fd).0 p)) e
    | inr p ↦
        let h : j ≢ fd = λ q. ground (arith, p, q) in
        rw (l.map_same j h, l.watched_same j h)
          (Entry-apart s.channels s'.channels c fd j _ _ a h l.channels_same (mi j))
  ]
