-- ===== src/Sockets/Failing.antt =====
-- What the calls do when the kernel refuses, and when two ends of a connection are the same.
use turbo_net.Common.{
  ℕ, ◌≡◌, ◌↔◌, ◌⊎◌, inl, inr, refl, sym, ap, Bool, true, false, ◌&&◌, List, [], ◌∷◌, some, ◌==◌,
  ==_iff, if◌then◌else◌, done, arith, replicate, done-injective,
}
use turbo_net.Common.Int.{ℤ, pos, negsuc, is_negative}
use turbo_net.Common.Slice.{write_at}
use turbo_net.Logger.{sys_level, end_of_line}
use turbo_net.Sockets.{SockAddr, sys_error, sys_fatal}
use turbo_net.Sockets.Printing.{IsV4, IsV6}
use turbo_net.Sockets.Calls.{
  create_no_blocking_socket_or_die, bind_or_die, listen_or_die, accept_or_die, accept, close_or_die,
  shutdown_write_or_die, option, opt_val, stored, int_size, get_socket_error, get_addr, same_bytes,
  self_connected, is_self_connect,
}

returns_iff : (b : Bool) → ((if b then sys_error else done tt) ≡ done tt) ↔ (b ≡ false)
unfolding sys_error end_of_line sys_level
returns_iff true = (λ e. cc, λ e. cc)
returns_iff false = (λ e. refl, λ e. refl)

-- `CreateNoBlockingSocketOrDie`, `BindOrDie`, `ListenOrDie` and `Accept` return whatever the kernel
-- answers, and the caller goes on with a failure; `Accept` then leaves the peer's address alone.
-- `CloseOrDie` and `ShutdownWriteOrDie` return exactly if the kernel did not fail.
pub or_die_lem :
    (ret : ℤ) (stored_addr peer_addr : SockAddr)
    → (create_no_blocking_socket_or_die ret ≡ done ret)
      × (bind_or_die ret ≡ done tt)
      × (listen_or_die ret ≡ done tt)
      × (accept ret stored_addr peer_addr
          ≡ done (ret, if is_negative ret then peer_addr else stored_addr))
      × ((close_or_die ret ≡ done tt) ↔ (is_negative ret ≡ false))
      × ((shutdown_write_or_die ret ≡ done tt) ↔ (is_negative ret ≡ false))
unfolding create_no_blocking_socket_or_die bind_or_die listen_or_die accept_or_die accept
    close_or_die shutdown_write_or_die sys_fatal end_of_line sys_level
or_die_lem (pos n) stored_addr peer_addr =
    (refl, refl, refl, refl, returns_iff false, returns_iff false)
or_die_lem (negsuc n) stored_addr peer_addr =
    (refl, refl, refl, refl, returns_iff true, returns_iff true)

-- `GetSocketError` tells the option that the kernel answers with, of four bytes, exactly if that is 0:
-- it offers no room for it, and returns 0 always.
pub get_socket_error_iff :
    (bytes : List ℕ)
    → (get_socket_error (option bytes) ≡ opt_val bytes) ↔ (bytes ≡ replicate int_size 0)
unfolding get_socket_error stored write_at
get_socket_error_iff bytes = (λ e. cc (e), λ e. ap opt_val (sym e))

same_bytes_iff : (xs ys : List ℕ) → (same_bytes xs ys ≡ true) ↔ (xs ≡ ys)
unfolding same_bytes
same_bytes_iff [] [] = (λ e. refl, λ e. refl)
same_bytes_iff [] (y ∷ ys) = (λ e. cc, λ e. cc)
same_bytes_iff (x ∷ xs) [] = (λ e. cc, λ e. cc)
same_bytes_iff (x ∷ xs) (y ∷ ys) =
    let (there, back) = same_bytes_iff xs ys in
    (
      λ e. ground (arith, e, there),
      λ e. let h : x ≡ y = cc (e) in let t : xs ≡ ys = cc (e) in rw ((==_iff x y).1 h) (back t),
    )

both_iff {ℓ κ} :
    {A : Type ℓ} {B : Type κ} (a b : Bool)
    → (a ≡ true) ↔ A
    → (b ≡ true) ↔ B
    → ((a && b) ≡ true) ↔ (A × B)
both_iff true true (f, g) (h, k) = (λ e. (f refl, h refl), λ (x, y). refl)
both_iff true false (f, g) (h, k) = (λ e. cc, λ (x, y). k y)
both_iff false b (f, g) (h, k) = (λ e. cc, λ (x, y). g x)

-- Between two addresses of the same family, as the constructors and the kernel fill them in,
-- `IsSelfConnect` is true exactly if they are the same. It returns if both calls of the kernel do.
is_self_connect_iff :
    (a b : SockAddr)
    → (IsV4 a × IsV4 b) ⊎ (IsV6 a × IsV6 b)
    → (is_self_connect (some a) (some b) ≡ done true) ↔ (a ≡ b)
unfolding is_self_connect get_addr self_connected
is_self_connect_iff a b (inl (v, w)) =
    let (there, back) =
      both_iff (a.port == b.port) (a.word == b.word) (==_iff a.port b.port)
        (==_iff a.word b.word) in
    rw v.family_is (
      λ e.
          let (p, q) = there (done-injective e) in
          cc (p, q, w.family_is, v.padded, w.padded, v.unscoped, w.unscoped),
      λ e. ap done (back (ap (λ (x : SockAddr). x.port) e, ap (λ (x : SockAddr). x.word) e)),
    )
is_self_connect_iff a b (inr (v, w)) =
    let (there, back) =
      both_iff (a.port == b.port) (same_bytes a.tail b.tail) (==_iff a.port b.port)
        (same_bytes_iff a.tail b.tail) in
    rw v.family_is (
      λ e.
          let (p, q) = there (done-injective e) in
          cc (p, q, w.family_is, v.no_flow, w.no_flow, v.unscoped, w.unscoped),
      λ e. ap done (back (ap (λ (x : SockAddr). x.port) e, ap (λ (x : SockAddr). x.tail) e)),
    )
