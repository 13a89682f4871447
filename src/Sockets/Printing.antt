-- ===== src/Sockets/Printing.antt =====
-- Addresses as texts, and back.
use turbo_net.Common.{
  ℕ, ◌^◌, ◌<◌, ◌≡◌, ◌⊎◌, ◌↔◌, inl, inr, refl, Bool, true, false, ◌||◌, List, [], ◌∷◌, Option, none,
  some, length, if◌then◌else◌, done, ◌>>=◌, arith, lt→ltb, replicate, Bool-cases,
}
use turbo_net.Sockets.{
  SockAddr, af_inet, af_inet6, zeroed, ByteOrder, Presentation, has_colon, sys_error,
}
use turbo_net.Sockets.Address.{
  ip_from_string4, ip_from_string6, store4, store6, ip_port_from_string4, ip_port_from_string6,
  from_ip, port_host, port_net, ip_to_string, ip_to_buffer,
}
use turbo_net.Logger.{sys_level, end_of_line}

abbrev pub AreBytes : List ℕ → Type 0
AreBytes [] = Unit {0}
AreBytes (b ∷ bs) = (b < 256) × AreBytes bs

-- What `inet_pton` and `inet_ntop` promise.
pub record Laws (inet : Presentation) : Type 0 where
  pub read4-show4 : (w : ℕ) → w < 2 ^ 32 → inet.read4 (inet.show4 w) ≡ some w
  pub read6-show6 :
      (bs : List ℕ) → length bs ≡ 16 → AreBytes bs → inet.read6 (inet.show6 bs) ≡ some bs
  pub show4_plain : (w : ℕ) → has_colon (inet.show4 w) ≡ false
  pub show6_colons : (bs : List ℕ) → has_colon (inet.show6 bs) ≡ true
  pub show4_short : (w : ℕ) → length (inet.show4 w) < 16
  pub show6_short : (bs : List ℕ) → length bs ≡ 16 → length (inet.show6 bs) < 46

-- An address of each family as the constructors leave it.
pub record IsV4 (a : SockAddr) : Type 0 where
  pub family_is : a.family ≡ af_inet
  pub port_small : a.port < 2 ^ 16
  pub word_small : a.word < 2 ^ 32
  pub padded : a.tail ≡ replicate 16 0
  pub unscoped : a.scope ≡ 0

pub record IsV6 (a : SockAddr) : Type 0 where
  pub family_is : a.family ≡ af_inet6
  pub port_small : a.port < 2 ^ 16
  pub no_flow : a.word ≡ 0
  pub sixteen : length a.tail ≡ 16
  pub bytes : AreBytes a.tail
  pub unscoped : a.scope ≡ 0

module _ (order : ByteOrder) (inet : Presentation) (laws : Laws inet) where
  from_ip-v4 :
      (a : SockAddr)
      → IsV4 a
      → (ip_to_string order inet a ≡ done (inet.show4 a.word))
        × (from_ip order inet (inet.show4 a.word) (port_host order inet a) false ≡ done a)
  unfolding ip_to_string ip_to_buffer from_ip ip_port_from_string4 ip_from_string4 store4 port_host
      port_net
  from_ip-v4 a v = (
    rw
        (
          v.family_is,
          lt→ltb (length (inet.show4 a.word)) 64 (omega (arith, laws.show4_short a.word)),
        )
        refl,
    rw
        (
          laws.show4_plain a.word,
          laws.read4-show4 a.word v.word_small,
          order.to16-from16 a.port v.port_small,
        )
        (cc (v.family_is, v.padded, v.unscoped)),
  )

  from_ip-v6 :
      (a : SockAddr)
      → IsV6 a
      → (ip_to_string order inet a ≡ done (inet.show6 a.tail))
        × (from_ip order inet (inet.show6 a.tail) (port_host order inet a) false ≡ done a)
  unfolding ip_to_string ip_to_buffer from_ip ip_port_from_string6 ip_from_string6 store6 port_host
      port_net
  from_ip-v6 a v = (
    rw
        (
          v.family_is,
          lt→ltb (length (inet.show6 a.tail)) 64 (omega (arith, laws.show6_short a.tail v.sixteen)),
        )
        refl,
    rw
        (
          laws.show6_colons a.tail,
          laws.read6-show6 a.tail v.sixteen v.bytes,
          order.to16-from16 a.port v.port_small,
        )
        (cc (v.family_is, v.no_flow, v.unscoped)),
  )

  -- Where `inet_pton` reads what `inet_ntop` prints, the text of an IPv6 address has a colon and that
  -- of an IPv4 address none: an address of either family is printed by `IpToString`, and its text and
  -- `PortHost` make the same address again, of the right family without being told.
  pub from_ip-ip_to_string :
      (a : SockAddr)
      → IsV4 a ⊎ IsV6 a
      → (ip : List ℕ) × (ip_to_string order inet a ≡ done ip)
        × (from_ip order inet ip (port_host order inet a) false ≡ done a)
  from_ip-ip_to_string a (inl v) = let (e, f) = from_ip-v4 a v in (inet.show4 a.word, e, f)
  from_ip-ip_to_string a (inr v) = let (e, f) = from_ip-v6 a v in (inet.show6 a.tail, e, f)

module _ (order : ByteOrder) (inet : Presentation) where
  -- Whether the text reads as an address of the family that the constructor chooses.
  abbrev pub Readable : List ℕ → Bool → Type 0
  Readable ip ipv6 =
      if ipv6 || has_colon ip
      then ((bytes : List ℕ) × (inet.read6 ip ≡ some bytes))
      else ((word : ℕ) × (inet.read4 ip ≡ some word))

  stored6 :
      (port : ℕ) (a : SockAddr) (o : Option (List ℕ))
      → port < 2 ^ 16
      → ((b : SockAddr) × ((store6 order inet a o >>= λ b.
              done (record b { port = order.to16 port }))
            ≡ done b)
          × (port_host order inet b ≡ port))
        ↔ ((bytes : List ℕ) × (o ≡ some bytes))
  unfolding store6 sys_error end_of_line sys_level port_host port_net
  stored6 port a none h = (λ (b, e, p). cc, λ (bytes, e). cc)
  stored6 port a (some bytes) h = (
    λ (b, e, p). (bytes, refl),
    λ (x, e). (record a { tail = bytes; port = order.to16 port }, refl, order.from16-to16 port h),
  )

  stored4 :
      (port : ℕ) (a : SockAddr) (o : Option ℕ)
      → port < 2 ^ 16
      → ((b : SockAddr) × ((store4 order inet a o >>= λ b.
              done (record b { port = order.to16 port }))
            ≡ done b)
          × (port_host order inet b ≡ port))
        ↔ ((word : ℕ) × (o ≡ some word))
  unfolding store4 sys_error end_of_line sys_level port_host port_net
  stored4 port a none h = (λ (b, e, p). cc, λ (word, e). cc)
  stored4 port a (some word) h = (
    λ (b, e, p). (word, refl),
    λ (x, e). (record a { word = word; port = order.to16 port }, refl, order.from16-to16 port h),
  )

  -- The constructor from a text and a port returns, with the port that it was given, exactly if the
  -- text reads as an address of the family that it chooses; otherwise it logs and the run is over.
  pub from_ip_iff :
      (ip : List ℕ) (port : ℕ) (ipv6 : Bool)
      → port < 2 ^ 16
      → ((a : SockAddr) × (from_ip order inet ip port ipv6 ≡ done a)
          × (port_host order inet a ≡ port))
        ↔ Readable ip ipv6
  unfolding from_ip ip_port_from_string4 ip_port_from_string6 ip_from_string4 ip_from_string6
  from_ip_iff ip port ipv6 h = elim (Bool-cases (ipv6 || has_colon ip)) [
    | inl e ↦ rw e (stored6 port (record zeroed { family = af_inet6 }) (inet.read6 ip) h)
    | inr e ↦ rw e (stored4 port (record zeroed { family = af_inet }) (inet.read4 ip) h)
  ]
