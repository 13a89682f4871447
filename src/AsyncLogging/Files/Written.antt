-- ===== src/AsyncLogging/Files/Written.antt =====
-- From the calls of `Append` to the bytes of the files.
use turbo_net.Common.{
  ℕ, suc, ◌+◌, ◌^◌, ◌≤◌, ◌<◌, ◌≡◌, refl, ap, ap₂, sym, ◌∙◌, subst, List, [], ◌∷◌, ◌++◌, length,
  none, some, Bool, true, inl, inr, false, Outcome, check, not, assertion, done, done-injective,
  >>=-eq-done, arith, append_assoc, append-nil, ◌>>=◌, lt→ltb,
}
use turbo_net.LogFile.{
  LogFile, FileUtil, flush, flush_to, make_log_file, roll_file, new_file, open_file, closing,
  has_slash,
}
use turbo_net.LogFile.Writing.{Stuck}
use turbo_net.LogFile.Rolling.{files_text, all_bytes, append_unlocked_lem}
use turbo_net.LogFile.Counting.{append_unlocked-count}
use turbo_net.AsyncLogging.{Output, appended, flushed}
use turbo_net.AsyncLogging.Writing.{output_text, output_text-append}
use turbo_net.AsyncLogging.System.{System, Reach}
use turbo_net.AsyncLogging.System.Loss.{pending, file_text, Reach-accepted}
use turbo_net.AsyncLogging.Files.{call_file, call_all}

module _ {K : Type 0} (fwrite : K → List ℕ → ℕ × K) (fopen : List ℕ → Bool) (name : ℕ → List ℕ)
    (clock : ℕ → ℕ × ℕ) (opens : (n : ℕ) → fopen (name n) ≡ true) where
  -- A stream that takes at least a byte of each call that has one.
  unfoldable pub Takes : Type 0
  Takes = (k : K) (c : ℕ) (bytes : List ℕ) → 0 < (fwrite k (c ∷ bytes)).0

  -- Then nothing is left over.
  not-Stuck : Takes → (rest : List ℕ) → Stuck fwrite rest → rest ≡ []
  unfolding Takes Stuck
  not-Stuck h [] s = refl
  not-Stuck h (c ∷ rest) (inl e) = e
  not-Stuck h (c ∷ rest) (inr (k, z)) = absurd (omega (arith, h k c rest, z))

  -- An open file, and the calls that it has counted.
  record Ready (n : ℕ) (l : LogFile) : Type 0 where
    current : FileUtil
    is_open : l.file ≡ some current
    counted : l.count ≤ n

  record Called (n : ℕ) (l : LogFile) (text : List ℕ) (r : Outcome (LogFile × K)) : Type 0 where
    file : LogFile
    rest_of : K
    runs : r ≡ done (file, rest_of)
    holds : all_bytes file ≡ all_bytes l ++ text
    again : Ready n file

  call_file-Called :
      (n : ℕ) (o : Output) (l : LogFile) (k : K)
      → Takes
      → Ready n l
      → suc n < 2 ^ 31
      → Called (suc n) l (output_text (o ∷ [])) (call_file fwrite fopen name clock n o (l, k))
  unfolding call_file flush flush_to
  call_file-Called n (appended bytes) l k h r few =
      let (l', k', f', added, rest, e, opened, parts, stuck, all, limit) =
        append_unlocked_lem fwrite fopen name opens (clock n).0 (clock n).1 k l r.current bytes
          r.is_open (omega (arith, r.counted)) in
      record {
        file = l';
        rest_of = k';
        runs = e;
        holds =
            all
            ∙ ap (◌++◌ (all_bytes l)) (
                sym (parts ∙ ap (◌++◌ added) (not-Stuck h rest stuck) ∙ append-nil added)
                ∙ sym (append-nil bytes));
        again = record {
          current = f';
          is_open = opened;
          counted = omega (
            arith,
            r.counted,
            append_unlocked-count fwrite fopen name (clock n).0 (clock n).1 k k' l l' bytes e,
          );
        };
      }
  call_file-Called n flushed l k h r few = record {
    file = record l { flushes = suc l.flushes };
    rest_of = k;
    runs = rw r.is_open refl;
    holds = sym (append-nil (all_bytes l));
    again = record { current = r.current; is_open = r.is_open; counted = omega (arith, r.counted) };
  }

  call_all-Called :
      (os : List Output) (n : ℕ) (l : LogFile) (k : K)
      → Takes
      → Ready n l
      → n + length os < 2 ^ 31
      → Called (n + length os) l (output_text os) (call_all fwrite fopen name clock n os (l, k))
  unfolding call_all
  call_all-Called [] n l k h r few = record {
    file = l;
    rest_of = k;
    runs = refl;
    holds = sym (append-nil (all_bytes l));
    again = record { current = r.current; is_open = r.is_open; counted = omega (arith, r.counted) };
  }
  call_all-Called (o ∷ os) n l k h r few =
      let c = call_file-Called n o l k h r (omega arith) in
      let d = call_all-Called os (suc n) c.file c.rest_of h c.again (omega arith) in
      record {
        file = d.file;
        rest_of = d.rest_of;
        runs = ap (λ m. m >>= call_all fwrite fopen name clock (suc n) os) c.runs ∙ d.runs;
        holds =
            d.holds
            ∙ ap (λ x. x ++ output_text os) c.holds
            ∙ append_assoc (all_bytes l) (output_text (o ∷ [])) (output_text os)
            ∙ ap (◌++◌ (all_bytes l)) (sym (output_text-append (o ∷ []) os));
        again = record {
          current = d.again.current;
          is_open = d.again.is_open;
          counted = omega (arith, d.again.counted);
        };
      }

  -- A new file is open and empty, if the clock is past the epoch.
  record New (l : LogFile) : Type 0 where
    at_start : Ready 0 l
    empty : all_bytes l ≡ []

  rolled-New :
      (now : ℕ) (l l' : LogFile)
      → l.last_roll < now
      → l.count ≡ 0
      → l.closed ≡ []
      → l.file ≡ none
      → roll_file fwrite fopen name now l ≡ done l'
      → New l'
  unfolding roll_file open_file new_file
  rolled-New now l l' h c e f =
      rw (lt→ltb l.last_roll now h, opens now)
        (λ g. subst New (done-injective g) (record {
          at_start = record {
            current = new_file (name now);
            is_open = refl;
            counted = omega (arith, c);
          };
          empty = append-nil _ ∙ ap files_text (ap₂ (λ x y. x ++ closing y) e f);
        }))

  make_log_file-New :
      (base : List ℕ) (now roll_size flush_interval check_every_n : ℕ) (l : LogFile)
      → 0 < now
      → make_log_file fwrite fopen name base now roll_size flush_interval check_every_n ≡ done l
      → New l
  unfolding make_log_file
  make_log_file-New base now roll_size flush_interval check_every_n l h e =
      let blank : LogFile = record {
        roll_size = roll_size;
        flush_interval = flush_interval;
        check_every_n = check_every_n;
        count = 0;
        file = none;
        start_period = 0;
        last_roll = 0;
        last_flush = 0;
        closed = [];
        flushes = 0;
      } in
      let (u, _, f) =
        >>=-eq-done (check (not (has_slash base)) assertion)
          (λ u. roll_file fwrite fopen name now blank) e in
      rolled-New now blank l h refl refl refl f

  module _ (size : ℕ) (small : size < 2 ^ 31) (notice : ℕ → List ℕ) where
    -- With buffers of less than 2^31 cells, a new file past the epoch, files that can be opened, and a
    -- stream that takes at least a byte of each call that has one: in every reachable state in which the writer never met more
    -- than 25 buffers and made fewer than 2^31 calls of its `LogFile`, those calls return, and the
    -- messages that are shorter than a buffer are, in the order of the calls of `Append`, in the files,
    -- oldest first, and then in the writer's buffers or in the front end.
    pub Reach-files :
        {s : System} (base : List ℕ) (now roll_size flush_interval check_every_n : ℕ) (l : LogFile)
        (k : K)
        → Takes
        → 0 < now
        → make_log_file fwrite fopen name base now roll_size flush_interval check_every_n ≡ done l
        → Reach size notice s
        → s.trimmed ≡ false
        → length s.writer.output < 2 ^ 31
        → (l' : LogFile) × (k' : K) × (call_all fwrite fopen name clock 0 s.writer.output (l, k)
            ≡ done (l', k'))
          × (s.accepted ≡ all_bytes l' ++ pending s)
    Reach-files {s} base now roll_size flush_interval check_every_n l k h t e r w few =
        let n = make_log_file-New base now roll_size flush_interval check_every_n l t e in
        let c = call_all-Called s.writer.output 0 l k h n.at_start (omega (arith, few)) in
        (
          c.file,
          c.rest_of,
          c.runs,
          Reach-accepted size small notice r w
              ∙ ap (λ x. x ++ pending s) (sym (c.holds ∙ ap (λ x. x ++ file_text s) n.empty)),
        )
