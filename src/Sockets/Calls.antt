-- ===== src/Sockets/Calls.antt =====
-- The calls of the kernel in src/net/socket_ops.cpp, and src/net/socket.cpp. Each function takes what
-- the kernel answers.
use turbo_net.Common.{
  ℕ, Bool, true, false, ◌&&◌, List, [], ◌∷◌, Option, none, some, take, replicate, ◌==◌,
  if◌then◌else◌, Outcome, done, ◌>>=◌, ◌>>◌,
}
use turbo_net.Common.Int.{ℤ, is_negative}
use turbo_net.Common.Slice.{write_at}
use turbo_net.Sockets.{SockAddr, af_inet, af_inet6, zeroed, sys_error, sys_fatal}

-- `CreateNoBlockingSocketOrDie`, `BindOrDie` and `ListenOrDie`.
unfoldable pub create_no_blocking_socket_or_die : ℤ → Outcome ℤ
create_no_blocking_socket_or_die sockfd =
    if is_negative sockfd then (sys_fatal >> done sockfd) else done sockfd

unfoldable pub bind_or_die : ℤ → Outcome (Unit {0})
bind_or_die ret = if is_negative ret then sys_fatal else done tt

unfoldable pub listen_or_die : ℤ → Outcome (Unit {0})
listen_or_die ret = if is_negative ret then sys_fatal else done tt

-- `AcceptOrDie`, where `accept4` also stores an address.
unfoldable pub accept_or_die : ℤ → Outcome ℤ
accept_or_die connect_fd =
    if is_negative connect_fd then (sys_fatal >> done connect_fd) else done connect_fd

-- `CloseOrDie` and `ShutdownWriteOrDie`.
unfoldable pub close_or_die : ℤ → Outcome (Unit {0})
close_or_die ret = if is_negative ret then sys_error else done tt

unfoldable pub shutdown_write_or_die : ℤ → Outcome (Unit {0})
shutdown_write_or_die ret = if is_negative ret then sys_error else done tt

-- What `getsockopt` answers: an `errno`, or the bytes of the option, of which it stores as many as
-- `opt_len` says.
pub data OptionReply : Type 0 where
  option_failed : ℕ → OptionReply
  option : List ℕ → OptionReply

-- What `GetSocketError` returns: `errno`, or the bytes of `opt_val`.
pub data SocketError : Type 0 where
  errno : ℕ → SocketError
  opt_val : List ℕ → SocketError

abbrev pub int_size : ℕ
int_size = 4

unfoldable pub stored : ℕ → List ℕ → List ℕ → List ℕ
stored opt_len old bytes = write_at old 0 (take opt_len bytes)

-- `opt_len` is cast from `opt_val`, which is 0.
unfoldable pub get_socket_error : OptionReply → SocketError
get_socket_error (option_failed e) = errno e
get_socket_error (option bytes) = opt_val (stored 0 (replicate int_size 0) bytes)

-- `GetLocalAddr` and `GetPeerAddr`: `none` where the call fails.
unfoldable pub get_addr : Option SockAddr → Outcome SockAddr
get_addr none = sys_error >> done zeroed
get_addr (some a) = done a

-- `memcmp(…) == 0` over blocks of the same length.
unfoldable pub same_bytes : List ℕ → List ℕ → Bool
same_bytes [] [] = true
same_bytes [] (y ∷ ys) = false
same_bytes (x ∷ xs) [] = false
same_bytes (x ∷ xs) (y ∷ ys) = x == y && same_bytes xs ys

unfoldable pub self_connected : SockAddr → SockAddr → Bool
self_connected local peer =
    if local.family == af_inet
    then local.port == peer.port && local.word == peer.word
    else (if local.family == af_inet6
        then (local.port == peer.port && same_bytes local.tail peer.tail)
        else false)

unfoldable pub is_self_connect : Option SockAddr → Option SockAddr → Outcome Bool
is_self_connect local_reply peer_reply = do
  local ← get_addr local_reply
  peer ← get_addr peer_reply
  done (self_connected local peer)

-- `Socket::Accept`: the returned number, and the address at `peer_addr` afterwards. `stored_addr` is
-- what `accept4` stores in the zeroed address.
unfoldable pub accept : ℤ → SockAddr → SockAddr → Outcome (ℤ × SockAddr)
accept reply stored_addr peer_addr = do
  conn_fd ← accept_or_die reply
  done (conn_fd, if is_negative conn_fd then peer_addr else stored_addr)

-- `~Socket`.
unfoldable pub destroy_socket : ℤ → Outcome (Unit {0})
destroy_socket ret = close_or_die ret

-- `Socket::BindAddress`, `Listen` and `ShutdownWrite`.
unfoldable pub bind_address : ℤ → Outcome (Unit {0})
bind_address ret = bind_or_die ret

unfoldable pub listen : ℤ → Outcome (Unit {0})
listen ret = listen_or_die ret

unfoldable pub shutdown_write : ℤ → Outcome (Unit {0})
shutdown_write ret = shutdown_write_or_die ret

-- `Connect`, `Read`, `ReadV` and `Write`, which hand the kernel's answer back. `Connect` always gives
-- the size of a `sockaddr_in6`.
abbrev pub sock_addr_in6_size : ℕ
sock_addr_in6_size = 28

unfoldable pub connect : (ℤ → SockAddr → ℕ → ℤ) → ℤ → SockAddr → ℤ
connect kernel_connect sockfd addr = kernel_connect sockfd addr sock_addr_in6_size

unfoldable pub read : (ℤ → ℕ → ℤ × List ℕ) → ℤ → ℕ → ℤ × List ℕ
read kernel_read sockfd cnt = kernel_read sockfd cnt

unfoldable pub read_v : (ℤ → List ℕ → ℤ × List ℕ) → ℤ → List ℕ → ℤ × List ℕ
read_v kernel_readv sockfd lengths = kernel_readv sockfd lengths

unfoldable pub write : (ℤ → List ℕ → ℤ) → ℤ → List ℕ → ℤ
write kernel_write sockfd bytes = kernel_write sockfd bytes
