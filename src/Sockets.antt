-- ===== src/Sockets.antt =====
-- src/net/inet_endian.h, src/net/inet_address.h, src/net/inet_address.cpp, src/net/socket_ops.h,
-- src/net/socket_ops.cpp, src/net/socket.h and src/net/socket.cpp: addresses, and the calls of the
-- kernel's sockets.
pub mod Address
pub mod Calls
pub mod Printing
pub mod Failing
pub mod Resolve
pub mod Options
pub mod TcpInfo
mod Tests
use turbo_net.Common.{
  ℕ, zero, suc, ◌+◌, ◌-◌, ◌^◌, ◌<◌, ◌≡◌, Bool, true, false, ◌&&◌, ◌||◌, List, [], ◌∷◌, ◌++◌, Option,
  none, some, replicate, ◌==◌, if◌then◌else◌, Outcome, done, assertion, check, ◌>>=◌, ◌>>◌,
}
use turbo_net.Logger.{sys_level, end_of_line}

-- The union of `InetAddress`, by the offsets of its bytes: 0 the family, 2 the port and 4 a word, as
-- they are stored; 8 the sixteen bytes of `sin6_addr`, of which `sin_zero` is the front half; 24 the
-- scope. The word is `sin_addr` in a `sockaddr_in` and `sin6_flowinfo` in a `sockaddr_in6`.
pub record SockAddr : Type 0 where
  pub family : ℕ
  pub port : ℕ
  pub word : ℕ
  pub tail : List ℕ
  pub scope : ℕ

abbrev pub af_inet : ℕ
af_inet = 2

abbrev pub af_inet6 : ℕ
af_inet6 = 10

-- After `MemZero`.
abbrev pub zeroed : SockAddr
zeroed = record { family = 0; port = 0; word = 0; tail = replicate 16 0; scope = 0 }

-- `htobe16`, `be16toh`, `htobe32` and `be32toh`.
pub record ByteOrder : Type 0 where
  pub to16 : ℕ → ℕ
  pub from16 : ℕ → ℕ
  pub to32 : ℕ → ℕ
  pub from32 : ℕ → ℕ
  pub from16-to16 : (n : ℕ) → n < 2 ^ 16 → from16 (to16 n) ≡ n
  pub to16-from16 : (n : ℕ) → n < 2 ^ 16 → to16 (from16 n) ≡ n
  pub from16_small : (n : ℕ) → n < 2 ^ 16 → from16 n < 2 ^ 16
  pub from32-to32 : (n : ℕ) → n < 2 ^ 32 → from32 (to32 n) ≡ n

-- `inet_pton` and `inet_ntop`, for the two families. A failure is `none`.
pub record Presentation : Type 0 where
  pub read4 : List ℕ → Option ℕ
  pub read6 : List ℕ → Option (List ℕ)
  pub show4 : ℕ → List ℕ
  pub show6 : List ℕ → List ℕ

abbrev pub colon : ℕ
colon = 58

-- `ip.find_first_of(':') != std::string::npos`.
unfoldable pub has_colon : List ℕ → Bool
has_colon [] = false
has_colon (c ∷ cs) = c == colon || has_colon cs

unfoldable pub sys_error : Outcome (Unit {0})
sys_error = end_of_line (sys_level false)

unfoldable pub sys_fatal : Outcome (Unit {0})
sys_fatal = end_of_line (sys_level true)
