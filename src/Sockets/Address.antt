-- ===== src/Sockets/Address.antt =====
-- src/net/inet_address.cpp, and the functions of src/net/socket_ops.cpp on addresses.
use turbo_net.Common.{
  ℕ, ◌-◌, Bool, ◌||◌, List, [], ◌∷◌, ◌++◌, Option, none, some, length, take, drop, ltb, leb, ◌==◌,
  if◌then◌else◌, Outcome, done, assertion, check, ◌>>=◌, ◌>>◌,
}
use turbo_net.Sockets.{
  SockAddr, af_inet, af_inet6, zeroed, ByteOrder, Presentation, has_colon, colon, sys_error,
}

module _ (order : ByteOrder) (inet : Presentation) where
  -- `IpFromString`, into a `sockaddr_in` and a `sockaddr_in6`. A failure is logged.
  unfoldable pub store4 : SockAddr → Option ℕ → Outcome SockAddr
  store4 a none = sys_error >> done a
  store4 a (some word) = done (record a { word = word })

  unfoldable pub ip_from_string4 : List ℕ → SockAddr → Outcome SockAddr
  ip_from_string4 ip a = store4 (record a { family = af_inet }) (inet.read4 ip)

  unfoldable pub store6 : SockAddr → Option (List ℕ) → Outcome SockAddr
  store6 a none = sys_error >> done a
  store6 a (some bytes) = done (record a { tail = bytes })

  unfoldable pub ip_from_string6 : List ℕ → SockAddr → Outcome SockAddr
  ip_from_string6 ip a = store6 (record a { family = af_inet6 }) (inet.read6 ip)

  -- `IpPortFromString`.
  unfoldable pub ip_port_from_string4 : List ℕ → ℕ → SockAddr → Outcome SockAddr
  ip_port_from_string4 ip port a = do
    b ← ip_from_string4 ip a
    done (record b { port = order.to16 port })

  unfoldable pub ip_port_from_string6 : List ℕ → ℕ → SockAddr → Outcome SockAddr
  ip_port_from_string6 ip port a = do
    b ← ip_from_string6 ip a
    done (record b { port = order.to16 port })

  -- The constructors. `loopback` and `any` are the bytes of `in6addr_loopback` and `in6addr_any`.
  abbrev pub inaddr_loopback : ℕ
  inaddr_loopback = 0x7f000001

  unfoldable pub from_port : List ℕ → List ℕ → ℕ → Bool → Bool → SockAddr
  from_port loopback any port loop_back_only ipv6 =
      if ipv6
      then (record zeroed {
        family = af_inet6;
        port = order.to16 port;
        tail = if loop_back_only then loopback else any;
      })
      else (record zeroed {
        family = af_inet;
        port = order.to16 port;
        word = order.to32 (if loop_back_only then inaddr_loopback else 0);
      })

  unfoldable pub from_ip : List ℕ → ℕ → Bool → Outcome SockAddr
  from_ip ip port ipv6 =
      if ipv6 || has_colon ip
      then ip_port_from_string6 ip port zeroed
      else ip_port_from_string4 ip port zeroed

  -- The getters.
  unfoldable pub port_net : SockAddr → ℕ
  port_net a = a.port

  unfoldable pub port_host : SockAddr → ℕ
  port_host a = order.from16 (port_net a)

  unfoldable pub ipv4_net : SockAddr → Outcome ℕ
  ipv4_net a = check (a.family == af_inet) assertion >> done a.word

  unfoldable pub ipv4_host : SockAddr → Outcome ℕ
  ipv4_host a = check (a.family == af_inet) assertion >> done (order.from32 a.word)

  unfoldable pub ipv6 : SockAddr → Outcome (List ℕ)
  ipv6 a = check (a.family == af_inet6) assertion >> done a.tail

  -- `SetSockAddrInet4` writes the first half of the union, `SetSockAddrInet6` all of it.
  unfoldable pub set_sock_addr_inet4 : SockAddr → SockAddr → SockAddr
  set_sock_addr_inet4 a b = record b { tail = take 8 b.tail ++ drop 8 a.tail; scope = a.scope }

  unfoldable pub set_sock_addr_inet6 : SockAddr → SockAddr → SockAddr
  set_sock_addr_inet6 a b = b

  -- The constructors from an address of the system: the first leaves the back of the union as it was.
  unfoldable pub from_sock_addr4 : SockAddr → SockAddr → SockAddr
  from_sock_addr4 before addr = set_sock_addr_inet4 before addr

  unfoldable pub from_sock_addr6 : SockAddr → SockAddr
  from_sock_addr6 addr6 = addr6

  unfoldable pub family_of : SockAddr → ℕ
  family_of a = a.family

  unfoldable pub get_sock_addr : SockAddr → SockAddr
  get_sock_addr a = a

  -- `IpToString` of src/net/socket_ops.cpp, into a buffer of `size` zeroed bytes; then as the buffer
  -- of 64 bytes in `InetAddress`. `inet_ntop` writes nothing if the text has no room.
  abbrev fitting : ℕ → List ℕ → List ℕ
  fitting size text = if ltb (length text) size then text else []

  unfoldable pub ip_to_buffer : ℕ → SockAddr → Outcome (List ℕ)
  ip_to_buffer size a =
      if a.family == af_inet
      then check (leb 16 size) assertion >> done (fitting size (inet.show4 a.word))
      else (if a.family == af_inet6
          then (check (leb 46 size) assertion >> done (fitting size (inet.show6 a.tail)))
          else done [])

  unfoldable pub ip_to_string : SockAddr → Outcome (List ℕ)
  ip_to_string a = ip_to_buffer 64 a

  -- `IpPortToString`: `decimal` is what "%u" prints.
  unfoldable pub ip_port_to_buffer : (ℕ → List ℕ) → ℕ → SockAddr → Outcome (List ℕ)
  ip_port_to_buffer decimal size a = do
    ip ← ip_to_buffer size a
    let port = order.from16 a.port
    check (ltb (length ip) size) assertion
    done (ip ++ take (size - length ip - 1) (colon ∷ decimal port))

  unfoldable pub ip_port_to_string : (ℕ → List ℕ) → SockAddr → Outcome (List ℕ)
  ip_port_to_string decimal a = ip_port_to_buffer decimal 64 a
