-- ===== src/Sockets/Tests.antt =====
-- A byte order that swaps, a presentation of few characters, and the theorems at them.
use turbo_net.Common.{
  true, ==_iff, ◌==◌, if◌then◌else◌, ℕ, ◌+◌, ◌-◌, ◌*◌, ◌/◌, ◌%◌, ◌^◌, ◌<◌, ◌≡◌, ◌↔◌, inl, refl,
  false, List, [], ◌∷◌, Option, none, some, replicate, done, arith,
}
use turbo_net.Common.Int.{ℤ, pos}
use turbo_net.Sockets.{SockAddr, af_inet, ByteOrder, Presentation, has_colon, colon}
use turbo_net.Sockets.Address.{ip_to_string, from_ip, port_host}
use turbo_net.Sockets.Printing.{Laws, IsV4, from_ip-ip_to_string, from_ip_iff}
use turbo_net.Sockets.Resolve.{resolve, resolve_iff}
use turbo_net.Sockets.Options as Options
use turbo_net.Sockets.Options.{
  SocketOption, SocketLevel, tcp_nodelay, so_reuseport, code, set_options, last_choice,
  set_options_lem,
}

abbrev swap16 : ℕ → ℕ
swap16 n = (n % 256) * 256 + n / 256

abbrev swap32 : ℕ → ℕ
swap32 n = (n % 256) * 2 ^ 24 + (n / 256 % 256) * 2 ^ 16 + (n / 2 ^ 16 % 256) * 256 + n / 2 ^ 24

swap16_twice : (n : ℕ) → n < 2 ^ 16 → swap16 (swap16 n) ≡ n
swap16_twice n h = omega arith

swap16_small : (n : ℕ) → n < 2 ^ 16 → swap16 n < 2 ^ 16
swap16_small n h = omega arith

swap32_twice : (n : ℕ) → n < 2 ^ 32 → swap32 (swap32 n) ≡ n
swap32_twice n h = omega arith

abbrev little : ByteOrder
little = record {
  to16 = swap16;
  from16 = swap16;
  to32 = swap32;
  from32 = swap32;
  from16-to16 = swap16_twice;
  to16-from16 = swap16_twice;
  from16_small = swap16_small;
  from32-to32 = swap32_twice;
}

abbrev read_word : List ℕ → Option ℕ
read_word [] = none
read_word (c ∷ cs) = some (c - 59)

abbrev read_bytes : List ℕ → Option (List ℕ)
read_bytes [] = none
read_bytes (c ∷ cs) = some cs

abbrev terse : Presentation
terse = record {
  read4 = read_word;
  read6 = read_bytes;
  show4 = λ w. (w + 59) ∷ [];
  show6 = λ bs. colon ∷ bs;
}

terse-Laws : Laws terse
unfolding has_colon
terse-Laws = record {
  read4-show4 = λ w h. ground arith;
  read6-show6 = λ bs n h. refl;
  show4_plain = λ w. ground arith;
  show6_colons = λ bs. refl;
  show4_short = λ w. omega arith;
  show6_short = λ bs n. omega (arith, n);
}

abbrev local_host : SockAddr
local_host = record {
  family = af_inet;
  port = 80;
  word = 0x0100007f;
  tail = replicate 16 0;
  scope = 0;
}

local_host-IsV4 : IsV4 local_host
local_host-IsV4 = record {
  family_is = refl;
  port_small = omega arith;
  word_small = omega arith;
  padded = refl;
  unscoped = refl;
}

from_ip-ip_to_string_example :
    (ip : List ℕ) × (ip_to_string little terse local_host ≡ done ip)
    × (from_ip little terse ip (port_host little terse local_host) false ≡ done local_host)
from_ip-ip_to_string_example =
    from_ip-ip_to_string little terse terse-Laws local_host (inl local_host-IsV4)

from_ip_iff_example :
    ((a : SockAddr) × (from_ip little terse (60 ∷ []) 80 false ≡ done a)
      × (port_host little terse a ≡ 80))
    ↔ ((word : ℕ) × (some 1 ≡ some word))
unfolding has_colon
from_ip_iff_example = from_ip_iff little terse (60 ∷ []) 80 false (omega arith)

abbrev one_result : List ℕ → ℤ × Option ℕ
one_result name = (pos 0, some 7)

abbrev short_text : ℕ → ℤ × List ℕ
short_text res = (pos 0, res ∷ [])

resolve_iff_example : (resolve one_result short_text (97 ∷ []) [] ≡ done (true, 7 ∷ [])) ↔ (
    (true ≡ true)
    × (res : ℕ) × (one_result (97 ∷ []) ≡ (pos 0, some res))
    × (short_text res ≡ (pos 0, 7 ∷ [])))
resolve_iff_example = resolve_iff one_result short_text (97 ∷ []) [] true (7 ∷ [])

-- The options of a single socket.
abbrev set_one : (SocketOption → ℕ) → ℤ → SocketLevel → SocketOption → ℕ → ℤ × (SocketOption → ℕ)
set_one k fd level o v = (pos 0, λ p. if code o == code p then v else k p)

abbrev value_of : (SocketOption → ℕ) → ℤ → SocketOption → ℕ
value_of k fd o = k o

set_one-Laws : Options.Laws (SocketOption → ℕ) set_one value_of
set_one-Laws = record {
  accepted = λ k fd o v. refl;
  stored = λ k fd o v. rw ((==_iff (code o) (code o)).1 refl) refl;
  kept = λ k fd o p v other. ground (arith, other);
}

set_options_lem_example :
    (k' : SocketOption → ℕ) × (set_options set_one
        (pos 3)
        ((tcp_nodelay, true) ∷ (so_reuseport, true) ∷ [])
        (λ o. 0)
      ≡ done k')
    × ((p : SocketOption)
        → value_of k' (pos 3) p ≡ last_choice ((tcp_nodelay, true) ∷ (so_reuseport, true) ∷ []) p 0)
set_options_lem_example =
    set_options_lem set_one-Laws (pos 3) ((tcp_nodelay, true) ∷ (so_reuseport, true) ∷ []) (λ o. 0)
