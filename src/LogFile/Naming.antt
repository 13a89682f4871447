-- ===== src/LogFile/Naming.antt =====
-- The names of log files: `GetLogFileName` of src/logger/log_file.cpp, on top of
-- src/base/timestamp.cpp, and `GetHostName` of src/base/public_define.h.
use turbo_net.Common.{
  ℕ, ◌≤◌, ◌≡◌, ◌↔◌, refl, sym, ap, ◌∙◌, false, List, [], ◌∷◌, ◌++◌, Option, none, some, length,
  take, take_all, length-take, length-append, ◌≢◌, Bool-cases, inl, inr, ◌==◌, if◌then◌else◌,
  Outcome, done, done-injective, ◌>>=◌, arith,
}
use turbo_net.Common.Int.{ℤ}
use turbo_net.Timestamp.{Timestamp, time_since_epoch_seconds}
use turbo_net.Timestamp.Text.{
  Printf, Laws, Tm, calendar, formatted, at_local_time, to_format_string,
}
use turbo_net.Timestamp.Calendar.{IsSound, length-calendar}
use turbo_net.Timestamp.Distinct.{parts-injective, calendar-injective}

abbrev until_nul : List ℕ → List ℕ
until_nul [] = []
until_nul (c ∷ cs) = let rest = until_nul cs in if c == 0 then [] else c ∷ rest

-- `GetHostName`: the bytes that `gethostname` stores in the 256, of which the last is overwritten,
-- or a failure.
unfoldable pub get_host_name : Option (List ℕ) → List ℕ
get_host_name none =
    b'U' ∷ b'n' ∷ b'k' ∷ b'n' ∷ b'o' ∷ b'w' ∷ b'n' ∷ b' ' ∷ b'H' ∷ b'o' ∷ b's' ∷ b't' ∷ []
get_host_name (some bytes) = until_nul (take 255 bytes)

abbrev suffix : List ℕ
suffix = b'.' ∷ b'l' ∷ b'o' ∷ b'g' ∷ []

-- `pid` is what `GetPid` makes of the number of the process.
unfoldable pub get_log_file_name :
    Printf → (ℤ → Option Tm) → Option (List ℕ) → List ℕ → List ℕ → Timestamp → Outcome (List ℕ)
get_log_file_name printf localtime host pid base_name now_time = do
  text ← to_format_string printf localtime false now_time
  done (base_name ++ text ++ get_host_name host ++ pid ++ suffix)

-- A host's name has at most 255 characters and no NUL.
abbrev NoNul : List ℕ → Type 0
NoNul [] = Unit {0}
NoNul (c ∷ cs) = (c ≢ 0) × NoNul cs

until_nul_lem : (cs : List ℕ) → NoNul (until_nul cs) × (length (until_nul cs) ≤ length cs)
until_nul_lem [] = (tt, omega arith)
until_nul_lem (c ∷ cs) =
    let (clean, short) = until_nul_lem cs in
    elim (Bool-cases (c == 0)) [
      | inl e ↦ rw e (tt, omega arith)
      | inr e ↦ rw e ((ground (arith, e), clean), omega (arith, short))
    ]

get_host_name_lem :
    (reply : Option (List ℕ)) → NoNul (get_host_name reply) × (length (get_host_name reply) ≤ 255)
unfolding get_host_name
get_host_name_lem none = (ground arith, omega arith)
get_host_name_lem (some bytes) =
    let (clean, short) = until_nul_lem (take 255 bytes) in
    (clean, omega (arith, short, length-take 255 bytes))

module _ (printf : Printf) (localtime : ℤ → Option Tm) (host : Option (List ℕ)) (pid : List ℕ)
    (base_name : List ℕ) where
  get_log_file_name_lem :
      (t : Timestamp) (tm : Tm)
      → Laws printf
      → localtime (time_since_epoch_seconds t) ≡ some tm
      → IsSound tm
      → get_log_file_name printf localtime host pid base_name t
        ≡ done (base_name ++ calendar printf tm ++ get_host_name host ++ pid ++ suffix)
  unfolding get_log_file_name to_format_string at_local_time formatted
  get_log_file_name_lem t tm laws e sound =
      rw (e, take_all 63 (calendar printf tm) (omega (arith, length-calendar printf laws tm sound)))
        refl

longer : (xs ys zs : List ℕ) → length xs ≡ length ys → length (xs ++ zs) ≡ length (ys ++ zs)
longer xs ys zs h = omega (arith, h, length-append xs zs, length-append ys zs)

-- Texts of the same length between the same ends.
middle-injective :
    (front xs ys bs cs ds : List ℕ)
    → length xs ≡ length ys
    → front ++ xs ++ bs ++ cs ++ ds ≡ front ++ ys ++ bs ++ cs ++ ds
    → xs ≡ ys
middle-injective front xs ys bs cs ds h e =
    let h1 : length (front ++ xs) ≡ length (front ++ ys) =
      omega (arith, h, length-append front xs, length-append front ys) in
    let h2 = longer (front ++ xs) (front ++ ys) bs h1 in
    let h3 = longer (front ++ xs ++ bs) (front ++ ys ++ bs) cs h2 in
    let (e3, d) = parts-injective (front ++ xs ++ bs ++ cs) (front ++ ys ++ bs ++ cs) ds ds h3 e in
    let (e2, c) = parts-injective (front ++ xs ++ bs) (front ++ ys ++ bs) cs cs h2 e3 in
    let (e1, b) = parts-injective (front ++ xs) (front ++ ys) bs bs h1 e2 in
    (parts-injective front front xs ys refl e1).1

-- The files of one process on one host, with one base name, in local times in the ranges of
-- `struct tm` up to the year 9999: `GetLogFileName` gives two points in time the same name exactly
-- if their local times are the same to the second.
pub get_log_file_name_iff :
    (printf : Printf) (localtime : ℤ → Option Tm) (host : Option (List ℕ)) (pid base_name : List ℕ)
    (s t : Timestamp) (u v : Tm)
    → Laws printf
    → localtime (time_since_epoch_seconds s) ≡ some u
    → localtime (time_since_epoch_seconds t) ≡ some v
    → IsSound u
    → IsSound v
    → (get_log_file_name printf localtime host pid base_name s
        ≡ get_log_file_name printf localtime host pid base_name t)
      ↔ (u ≡ v)
get_log_file_name_iff printf localtime host pid base_name s t u v laws e f p q =
    let first = get_log_file_name_lem printf localtime host pid base_name s u laws e p in
    let second = get_log_file_name_lem printf localtime host pid base_name t v laws f q in
    (
      λ same. calendar-injective printf laws u v p q (
          middle-injective base_name (calendar printf u) (calendar printf v) (get_host_name host)
            pid suffix (length-calendar printf laws u p ∙ sym (length-calendar printf laws v q))
            (done-injective (sym first ∙ same ∙ second))),
      λ same.
          first
          ∙ ap (λ tm. done (base_name ++ calendar printf tm ++ get_host_name host ++ pid ++ suffix))
              same
          ∙ sym second,
    )
