-- ===== src/Sockets/Resolve.antt =====
-- `Resolve` of src/net/inet_address.cpp.
use turbo_net.Common.{
  ℕ, ◌≡◌, ◌↔◌, refl, Bool, true, false, List, Option, none, some, if◌then◌else◌, Outcome, done,
  stopped, null_deref, ◌>>◌, ap, ap₂, sym, done-injective, zero, suc,
}
use turbo_net.Common.Int.{ℤ, pos, negsuc}
use turbo_net.Logger.{sys_level, end_of_line}
use turbo_net.Sockets.{sys_error}

-- `ret != 0`.
unfoldable pub is_failure : ℤ → Bool
is_failure (pos zero) = false
is_failure (pos (suc n)) = true
is_failure (negsuc n) = true

-- `getaddrinfo_a` answers for a name, and leaves in `ar_result` what the lookup found, or a null
-- pointer. `getnameinfo` answers for an `addrinfo`, and stores a text.
module _ {ℓ} {AddrInfo : Type ℓ} (getaddrinfo_a : List ℕ → ℤ × Option AddrInfo)
    (getnameinfo : AddrInfo → ℤ × List ℕ) where
  -- The returned value, and `ip` afterwards.
  unfoldable pub name_result : AddrInfo → List ℕ → Outcome (Bool × List ℕ)
  name_result res ip =
      if is_failure ((getnameinfo res).0)
      then (sys_error >> done (false, ip))
      else done (true, (getnameinfo res).1)

  unfoldable pub resolved : Option AddrInfo → List ℕ → Outcome (Bool × List ℕ)
  resolved none ip = stopped null_deref
  resolved (some res) ip = name_result res ip

  unfoldable pub resolve : List ℕ → List ℕ → Outcome (Bool × List ℕ)
  resolve host_name ip =
      if is_failure ((getaddrinfo_a host_name).0)
      then (sys_error >> done (false, ip))
      else resolved ((getaddrinfo_a host_name).1) ip

-- A failure is logged, and never returned.
failed-done {ℓ} :
    {A : Type ℓ} (b : Bool) (x y : A) (m : Outcome A)
    → (if b then (sys_error >> done x) else m) ≡ done y
    → (b ≡ false) × (m ≡ done y)
unfolding sys_error end_of_line sys_level
failed-done true x y m e = cc
failed-done false x y m e = (refl, e)

is_failure-false : (v : ℤ) → is_failure v ≡ false → v ≡ pos 0
unfolding is_failure
is_failure-false (pos zero) e = refl
is_failure-false (pos (suc n)) e = cc
is_failure-false (negsuc n) e = cc

module _ {ℓ} {AddrInfo : Type ℓ} (getaddrinfo_a : List ℕ → ℤ × Option AddrInfo)
    (getnameinfo : AddrInfo → ℤ × List ℕ) (ip : List ℕ) (found : Bool) (text : List ℕ) where
  resolved-done :
      (o : Option AddrInfo)
      → resolved getaddrinfo_a getnameinfo o ip ≡ done (found, text)
      → (found ≡ true) × (res : AddrInfo) × (o ≡ some res) × (getnameinfo res ≡ (pos 0, text))
  unfolding resolved name_result
  resolved-done none e = cc
  resolved-done (some res) e =
      let (ok, more) =
        failed-done (is_failure ((getnameinfo res).0)) (false, ip) (found, text)
          (done (true, (getnameinfo res).1)) e in
      let same : (true, (getnameinfo res).1) ≡ (found, text) = done-injective more in
      (
        sym (ap (λ r. r.0) same),
        res,
        refl,
        ap₂ (λ v t. (v, t)) (is_failure-false ((getnameinfo res).0) ok) (ap (λ r. r.1) same),
      )

  resolved-found :
      (res : AddrInfo)
      → found ≡ true
      → getnameinfo res ≡ (pos 0, text)
      → resolved getaddrinfo_a getnameinfo (some res) ip ≡ done (found, text)
  unfolding resolved name_result is_failure
  resolved-found res t e = rw (e, t) refl

-- `Resolve` never returns false. It returns true, with a text, exactly if both lookups answer 0, the
-- first one left a result and the text is what the second one stored; else the run is over.
pub resolve_iff {ℓ} :
    {AddrInfo : Type ℓ} (getaddrinfo_a : List ℕ → ℤ × Option AddrInfo)
    (getnameinfo : AddrInfo → ℤ × List ℕ) (host_name ip : List ℕ) (found : Bool) (text : List ℕ)
    → (resolve getaddrinfo_a getnameinfo host_name ip ≡ done (found, text)) ↔ (
        (found ≡ true)
        × (res : AddrInfo) × (getaddrinfo_a host_name ≡ (pos 0, some res))
        × (getnameinfo res ≡ (pos 0, text)))
unfolding resolve is_failure
resolve_iff getaddrinfo_a getnameinfo host_name ip found text = (
  λ e.
      let reply = getaddrinfo_a host_name in
      let (ok, more) =
        failed-done (is_failure (reply.0)) (false, ip) (found, text)
          (resolved getaddrinfo_a getnameinfo (reply.1) ip) e in
      let (t, res, left, named) =
        resolved-done getaddrinfo_a getnameinfo ip found text (reply.1) more in
      (t, res, ap₂ (λ v o. (v, o)) (is_failure-false (reply.0) ok) left, named),
  λ (t, res, e, f). rw e (resolved-found getaddrinfo_a getnameinfo ip found text res t f),
)
