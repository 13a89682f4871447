-- ===== src/Sockets/TcpInfo.antt =====
-- `GetTcpInfo` and `GetTcpInfoString` of src/net/socket.cpp.
use turbo_net.Common.{
  ℕ, suc, ◌+◌, ◌-◌, ◌≤◌, ◌≡◌, refl, Bool, true, false, List, [], ◌∷◌, ◌++◌, Option, none, some,
  length, take, length-take, ◌==◌, if◌then◌else◌, arith,
}

-- The members of `struct tcp_info` that are shown.
pub record TcpInfo : Type 0 where
  pub tcpi_retransmits : ℕ
  pub tcpi_rto : ℕ
  pub tcpi_ato : ℕ
  pub tcpi_snd_mss : ℕ
  pub tcpi_rcv_mss : ℕ
  pub tcpi_lost : ℕ
  pub tcpi_retrans : ℕ
  pub tcpi_rtt : ℕ
  pub tcpi_rttvar : ℕ
  pub tcpi_snd_ssthresh : ℕ
  pub tcpi_snd_cwnd : ℕ
  pub tcpi_total_retrans : ℕ

-- What the caller passes is zeroed, and the kernel's `getsockopt` stores an answer or fails.
abbrev pub zeroed_info : TcpInfo
zeroed_info = record {
  tcpi_retransmits = 0;
  tcpi_rto = 0;
  tcpi_ato = 0;
  tcpi_snd_mss = 0;
  tcpi_rcv_mss = 0;
  tcpi_lost = 0;
  tcpi_retrans = 0;
  tcpi_rtt = 0;
  tcpi_rttvar = 0;
  tcpi_snd_ssthresh = 0;
  tcpi_snd_cwnd = 0;
  tcpi_total_retrans = 0;
}

unfoldable pub get_tcp_info : Option TcpInfo → Bool × TcpInfo
get_tcp_info none = (false, zeroed_info)
get_tcp_info (some info) = (true, info)

abbrev retransmits_label : List ℕ
retransmits_label =
    b'r' ∷ b'e' ∷ b't' ∷ b'r' ∷ b'a' ∷ b'n' ∷ b's' ∷ b'm' ∷ b'i' ∷ b't' ∷ b's' ∷ b'=' ∷ []

abbrev rto_label : List ℕ
rto_label = b'r' ∷ b't' ∷ b'o' ∷ b'=' ∷ []

abbrev ato_label : List ℕ
ato_label = b' ' ∷ b'a' ∷ b't' ∷ b'o' ∷ b'=' ∷ []

abbrev snd_mss_label : List ℕ
snd_mss_label = b' ' ∷ b's' ∷ b'n' ∷ b'd' ∷ b'_' ∷ b'm' ∷ b's' ∷ b's' ∷ b'=' ∷ []

abbrev rcv_mss_label : List ℕ
rcv_mss_label = b' ' ∷ b'r' ∷ b'c' ∷ b'v' ∷ b'_' ∷ b'm' ∷ b's' ∷ b's' ∷ b'=' ∷ []

abbrev lost_label : List ℕ
lost_label = b' ' ∷ b'l' ∷ b'o' ∷ b's' ∷ b't' ∷ b'=' ∷ []

abbrev retrans_label : List ℕ
retrans_label = b' ' ∷ b'r' ∷ b'e' ∷ b't' ∷ b'r' ∷ b'a' ∷ b'n' ∷ b's' ∷ b'=' ∷ []

abbrev rtt_label : List ℕ
rtt_label = b' ' ∷ b'r' ∷ b't' ∷ b't' ∷ b'=' ∷ []

abbrev rttvar_label : List ℕ
rttvar_label = b' ' ∷ b'r' ∷ b't' ∷ b't' ∷ b'v' ∷ b'a' ∷ b'r' ∷ b'=' ∷ []

abbrev snd_ssthresh_label : List ℕ
snd_ssthresh_label =
    b' ' ∷ b's' ∷ b'n' ∷ b'd' ∷ b'_' ∷ b's' ∷ b's' ∷ b't' ∷ b'h' ∷ b'r' ∷ b'e' ∷ b's' ∷ b'h' ∷ b'='
    ∷ []

abbrev snd_cwnd_label : List ℕ
snd_cwnd_label = b' ' ∷ b's' ∷ b'n' ∷ b'd' ∷ b'_' ∷ b'c' ∷ b'w' ∷ b'n' ∷ b'd' ∷ b'=' ∷ []

abbrev total_retrans_label : List ℕ
total_retrans_label =
    b' ' ∷ b't' ∷ b'o' ∷ b't' ∷ b'a' ∷ b'l' ∷ b'_' ∷ b'r' ∷ b'e' ∷ b't' ∷ b'r' ∷ b'a' ∷ b'n' ∷ b's'
    ∷ b'=' ∷ []

-- `decimal` is what "%u" prints.
module _ (decimal : ℕ → List ℕ) where
  abbrev labelled : List (List ℕ × ℕ) → List ℕ
  labelled [] = []
  labelled ((label, n) ∷ rest) = label ++ (decimal n ++ labelled rest)

  unfoldable pub tcp_info_text : TcpInfo → List ℕ
  tcp_info_text info = labelled (
      (retransmits_label, info.tcpi_retransmits)
      ∷ (rto_label, info.tcpi_rto)
      ∷ (ato_label, info.tcpi_ato)
      ∷ (snd_mss_label, info.tcpi_snd_mss)
      ∷ (rcv_mss_label, info.tcpi_rcv_mss)
      ∷ (lost_label, info.tcpi_lost)
      ∷ (retrans_label, info.tcpi_retrans)
      ∷ (rtt_label, info.tcpi_rtt)
      ∷ (rttvar_label, info.tcpi_rttvar)
      ∷ (snd_ssthresh_label, info.tcpi_snd_ssthresh)
      ∷ (snd_cwnd_label, info.tcpi_snd_cwnd)
      ∷ (total_retrans_label, info.tcpi_total_retrans)
      ∷ [])

  -- `snprintf` into a buffer that holds `buf`, of which `len` bytes may be filled with the NUL.
  unfoldable pub printed_text : List ℕ → ℕ → TcpInfo → List ℕ
  printed_text buf len info = if len == 0 then buf else take (len - 1) (tcp_info_text info)

  unfoldable pub info_string : List ℕ → ℕ → Bool × TcpInfo → Bool × List ℕ
  info_string buf len (false, info) = (false, buf)
  info_string buf len (true, info) = (true, printed_text buf len info)

  -- The returned value, and the text in the buffer afterwards.
  unfoldable pub get_tcp_info_string : List ℕ → ℕ → Option TcpInfo → Bool × List ℕ
  get_tcp_info_string buf len reply = info_string buf len (get_tcp_info reply)

abbrev pub blanks : List ℕ → ℕ
blanks [] = 0
blanks (c ∷ cs) = (if c == b' ' then 1 else 0) + blanks cs

blanks-append : (xs ys : List ℕ) → blanks (xs ++ ys) ≡ blanks xs + blanks ys
blanks-append [] ys = omega arith
blanks-append (x ∷ xs) ys = omega (arith, blanks-append xs ys)

blanks-labelled :
    (decimal : ℕ → List ℕ)
    → ((n : ℕ) → blanks (decimal n) ≡ 0)
    → (label : List ℕ) (n : ℕ) (rest : List (List ℕ × ℕ))
    → blanks (labelled decimal ((label, n) ∷ rest)) ≡ blanks label + blanks (labelled decimal rest)
blanks-labelled decimal plain label n rest = omega (
  arith,
  blanks-append label (decimal n ++ labelled decimal rest),
  blanks-append (decimal n) (labelled decimal rest),
  plain n,
)

-- Numbers are printed without blanks. Then the text of twelve numbers has ten blanks: the first two
-- numbers stand in one word.
blanks-tcp_info_text :
    (decimal : ℕ → List ℕ) (info : TcpInfo)
    → ((n : ℕ) → blanks (decimal n) ≡ 0)
    → blanks (tcp_info_text decimal info) ≡ 10
unfolding tcp_info_text
blanks-tcp_info_text decimal info plain = simp (blanks-labelled decimal plain) refl

-- `GetTcpInfoString` leaves room for the NUL.
length-get_tcp_info_string :
    (decimal : ℕ → List ℕ) (buf : List ℕ) (len : ℕ) (info : TcpInfo)
    → length ((get_tcp_info_string decimal buf (suc len) (some info)).1) ≤ len
unfolding get_tcp_info_string get_tcp_info info_string printed_text
length-get_tcp_info_string decimal buf len info =
    ground (arith, length-take (suc len - 1) (tcp_info_text decimal info))
