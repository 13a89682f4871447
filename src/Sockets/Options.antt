-- ===== src/Sockets/Options.antt =====
-- The options of a `Socket`, of src/net/socket.cpp.
use turbo_net.Common.{
  true, false, ℕ, zero, suc, ◌≡◌, ◌≢◌, refl, sym, ap, ◌∙◌, Bool, ◌&&◌, List, [], ◌∷◌, ◌==◌, ==_iff,
  Bool-cases, inl, inr, if◌then◌else◌, Outcome, done, ◌>>◌, ◌>>=◌,
}
use turbo_net.Common.Int.{ℤ, pos, is_negative}
use turbo_net.Sockets.{sys_error}

pub data SocketOption : Type 0 where
  tcp_nodelay so_reuseaddr so_reuseport so_keepalive : SocketOption

-- `SOL_SOCKET` and `IPPROTO_TCP`.
pub data SocketLevel : Type 0 where
  sol_socket ipproto_tcp : SocketLevel

unfoldable pub option_value : Bool → ℕ
option_value on = if on then 1 else 0

-- `setsockopt` for a descriptor, a level, an option and a value, with what it answers.
module _ {K : Type 0} (setsockopt : K → ℤ → SocketLevel → SocketOption → ℕ → ℤ × K) where
  unfoldable pub set_tcp_no_delay : ℤ → Bool → K → K
  set_tcp_no_delay sockfd on k = (setsockopt k sockfd ipproto_tcp tcp_nodelay (option_value on)).1

  unfoldable pub set_reuse_addr : ℤ → Bool → K → K
  set_reuse_addr sockfd on k = (setsockopt k sockfd sol_socket so_reuseaddr (option_value on)).1

  -- `SetReusePort`, where the system has `SO_REUSEPORT`.
  unfoldable pub set_reuse_port : ℤ → Bool → K → Outcome K
  set_reuse_port sockfd on k =
      let reply = setsockopt k sockfd sol_socket so_reuseport (option_value on) in
      if is_negative (reply.0) && on then (sys_error >> done (reply.1)) else done (reply.1)

  unfoldable pub set_keep_alive : ℤ → Bool → K → K
  set_keep_alive sockfd on k = (setsockopt k sockfd sol_socket so_keepalive (option_value on)).1

  -- A call of one of the setters, and calls in sequence.
  abbrev pub set_option : ℤ → SocketOption → Bool → K → Outcome K
  set_option sockfd tcp_nodelay on k = done (set_tcp_no_delay sockfd on k)
  set_option sockfd so_reuseaddr on k = done (set_reuse_addr sockfd on k)
  set_option sockfd so_reuseport on k = set_reuse_port sockfd on k
  set_option sockfd so_keepalive on k = done (set_keep_alive sockfd on k)

  abbrev pub set_options : ℤ → List (SocketOption × Bool) → K → Outcome K
  set_options sockfd [] k = done k
  set_options sockfd ((o, on) ∷ calls) k =
      set_option sockfd o on k >>= λ k'. set_options sockfd calls k'

abbrev pub code : SocketOption → ℕ
code tcp_nodelay = 0
code so_reuseaddr = 1
code so_reuseport = 2
code so_keepalive = 3

-- The level that an option belongs to.
abbrev pub socket_level : SocketOption → SocketLevel
socket_level tcp_nodelay = ipproto_tcp
socket_level so_reuseaddr = sol_socket
socket_level so_reuseport = sol_socket
socket_level so_keepalive = sol_socket

-- A kernel that takes the options at their levels: what it then holds for a descriptor.
pub record Laws (K : Type 0) (setsockopt : K → ℤ → SocketLevel → SocketOption → ℕ → ℤ × K)
    (value : K → ℤ → SocketOption → ℕ) : Type 0 where
  pub accepted :
      (k : K) (fd : ℤ) (o : SocketOption) (v : ℕ) → (setsockopt k fd (socket_level o) o v).0 ≡ pos 0
  pub stored :
      (k : K) (fd : ℤ) (o : SocketOption) (v : ℕ)
      → value ((setsockopt k fd (socket_level o) o v).1) fd o ≡ v
  pub kept :
      (k : K) (fd : ℤ) (o p : SocketOption) (v : ℕ)
      → code o ≢ code p
      → value ((setsockopt k fd (socket_level o) o v).1) fd p ≡ value k fd p

-- An option that is on has the value 1, and one that is off the value 0.
abbrev pub as_asked : Bool → ℕ
as_asked true = 1
as_asked false = 0

-- The value that the last call for an option asked for.
abbrev pub last_choice : List (SocketOption × Bool) → SocketOption → ℕ → ℕ
last_choice [] p old = old
last_choice ((o, on) ∷ calls) p old =
    last_choice calls p (if code o == code p then as_asked on else old)

option_value-as_asked : (on : Bool) → option_value on ≡ as_asked on
unfolding option_value
option_value-as_asked true = refl
option_value-as_asked false = refl

abbrev option_of : ℕ → SocketOption
option_of zero = tcp_nodelay
option_of (suc zero) = so_reuseaddr
option_of (suc (suc zero)) = so_reuseport
option_of (suc (suc (suc n))) = so_keepalive

option_of-code : (o : SocketOption) → option_of (code o) ≡ o
option_of-code tcp_nodelay = refl
option_of-code so_reuseaddr = refl
option_of-code so_reuseport = refl
option_of-code so_keepalive = refl

code-injective : (o p : SocketOption) → code o ≡ code p → o ≡ p
code-injective o p e = sym (option_of-code o) ∙ ap option_of e ∙ option_of-code p

module _ {K : Type 0} {setsockopt : K → ℤ → SocketLevel → SocketOption → ℕ → ℤ × K}
    {value : K → ℤ → SocketOption → ℕ} (laws : Laws K setsockopt value) (fd : ℤ) where
  set_option_lem :
      (o : SocketOption) (on : Bool) (k : K)
      → set_option setsockopt fd o on k
        ≡ done ((setsockopt k fd (socket_level o) o (option_value on)).1)
  unfolding set_tcp_no_delay set_reuse_addr set_reuse_port set_keep_alive
  set_option_lem tcp_nodelay on k = refl
  set_option_lem so_reuseaddr on k = refl
  set_option_lem so_reuseport on k = rw (laws.accepted k fd so_reuseport (option_value on)) refl
  set_option_lem so_keepalive on k = refl

  value_after :
      (o p : SocketOption) (v : ℕ) (k : K)
      → value ((setsockopt k fd (socket_level o) o v).1) fd p
        ≡ (if code o == code p then v else value k fd p)
  value_after o p v k = elim (Bool-cases (code o == code p)) [
    | inl same ↦
        rw (same, sym (code-injective o p ((==_iff (code o) (code p)).0 same)))
          (laws.stored k fd o v)
    | inr other ↦
        rw other (laws.kept k fd o p v (λ e. let s = (==_iff (code o) (code p)).1 e in cc))
  ]

  -- On a kernel that takes the options at their levels, any sequence of `SetTcpNoDelay`,
  -- `SetReuseAddr`, `SetReusePort` and `SetKeepAlive` returns, and each option then has the value 1 if
  -- the last call for it turned it on, 0 if that turned it off, and its old value if there was no call.
  pub set_options_lem :
      (calls : List (SocketOption × Bool)) (k : K)
      → (k' : K) × (set_options setsockopt fd calls k ≡ done k')
        × ((p : SocketOption) → value k' fd p ≡ last_choice calls p (value k fd p))
  set_options_lem [] k = (k, refl, λ p. refl)
  set_options_lem ((o, on) ∷ calls) k =
      let next = (setsockopt k fd (socket_level o) o (option_value on)).1 in
      let (k', runs, holds) = set_options_lem calls next in
      (
        k',
        ap (λ m. m >>= λ k'. set_options setsockopt fd calls k') (set_option_lem o on k) ∙ runs,
        λ p.
            holds p
            ∙ ap (last_choice calls p) (
                value_after o p (option_value on) k
                ∙ ap (λ v. if code o == code p then v else value k fd p)
                    (option_value-as_asked on)),
      )
