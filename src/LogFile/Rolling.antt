-- ===== src/LogFile/Rolling.antt =====
-- Rolling loses no bytes, and keeps the current file within its limit.
use turbo_net.Common.{
  Bool, true, ℕ, suc, ◌+◌, ◌^◌, ◌≤◌, ◌<◌, ◌≡◌, ◌⊎◌, inl, inr, refl, sym, ap, ◌∙◌, List, [], ◌∷◌,
  ◌++◌, some, ltb, leb, lt→ltb, arith, append_assoc, append-nil, Bool-cases, done,
}
use turbo_net.LogFile.{
  FileUtil, LogFile, new_file, open_file, append_file, roll_file, periodic, count_call, append_to,
  append_unlocked, closing, days_of,
}
use turbo_net.LogFile.Writing.{Stuck, append_file_lem}

abbrev pub files_text : List FileUtil → List ℕ
files_text [] = []
files_text (f ∷ fs) = f.bytes ++ files_text fs

-- The bytes of all files, oldest first.
abbrev pub all_bytes : LogFile → List ℕ
all_bytes l = files_text l.closed ++ files_text (closing l.file)

files_text-append : (fs gs : List FileUtil) → files_text (fs ++ gs) ≡ files_text fs ++ files_text gs
files_text-append [] gs = refl
files_text-append (f ∷ fs) gs =
    ap (◌++◌ f.bytes) (files_text-append fs gs)
    ∙ sym (append_assoc f.bytes (files_text fs) (files_text gs))

module _ {K : Type 0} (fwrite : K → List ℕ → ℕ × K) (fopen : List ℕ → Bool) (name : ℕ → List ℕ)
    (opens : (n : ℕ) → fopen (name n) ≡ true) where
  -- `l'` holds the bytes of `l`; its file is new or counts as many bytes as before.
  record Keeps (l : LogFile) (written : ℕ) (l' : LogFile) : Type 0 where
    current : FileUtil
    is_open : l'.file ≡ some current
    same_bytes : all_bytes l' ≡ all_bytes l
    size : (current.written_bytes ≡ 0) ⊎ (current.written_bytes ≡ written)

  -- Also, unless the file is new, the clock has not passed the second of the last roll.
  record Rolled (now : ℕ) (l : LogFile) (written : ℕ) (l' : LogFile) : Type 0 where
    kept : Keeps l written l'
    limit : (kept.current.written_bytes ≡ 0) ⊎ (now ≤ l'.last_roll)

  unchanged :
      (l l' : LogFile) (f : FileUtil)
      → l'.file ≡ some f
      → all_bytes l' ≡ all_bytes l
      → Keeps l f.written_bytes l'
  unchanged l l' f e b = record { current = f; is_open = e; same_bytes = b; size = inr refl }

  Keeps-from :
      (l m l' : LogFile) (written : ℕ)
      → all_bytes m ≡ all_bytes l
      → Keeps m written l'
      → Keeps l written l'
  Keeps-from l m l' written b k = record {
    current = k.current;
    is_open = k.is_open;
    same_bytes = k.same_bytes ∙ b;
    size = k.size;
  }

  roll_file-Rolled :
      (now : ℕ) (l : LogFile) (f : FileUtil)
      → l.file ≡ some f
      → (l' : LogFile) × (roll_file fwrite fopen name now l ≡ done l')
        × Rolled now l f.written_bytes l'
  unfolding roll_file open_file new_file
  roll_file-Rolled now l f e = elim (Bool-cases (ltb l.last_roll now)) [
    | inl later ↦ (
      record l {
        start_period = days_of now;
        last_roll = now;
        last_flush = now;
        file = some (new_file (name now));
        closed = l.closed ++ closing l.file;
      },
      rw (later, opens now) refl,
      record {
        kept = record {
          current = new_file (name now);
          is_open = refl;
          same_bytes =
              append-nil (files_text (l.closed ++ closing l.file))
              ∙ files_text-append l.closed (closing l.file);
          size = inl refl;
        };
        limit = inl refl;
      },
    )
    | inr same ↦ (
      l,
      rw same refl,
      record { kept = unchanged l l f e refl; limit = inr (ground (arith, same)) },
    )
  ]

  periodic-Keeps :
      (now now' : ℕ) (l : LogFile) (f : FileUtil)
      → l.file ≡ some f
      → (l' : LogFile) × (periodic fwrite fopen name now now' l ≡ done l')
        × Keeps l f.written_bytes l'
  unfolding periodic
  periodic-Keeps now now' l f e = elim (Bool-cases (ltb l.start_period (days_of now))) [
    | inl later ↦ let (l', runs, r) = roll_file-Rolled now' l f e in (l', rw later runs, r.kept)
    | inr same ↦ elim (Bool-cases (ltb (l.last_flush + l.flush_interval) now)) [
      | inl due ↦ (
        record l { last_flush = now; flushes = suc l.flushes },
        rw (same, due) refl,
        unchanged l (record l { last_flush = now; flushes = suc l.flushes }) f e refl,
      )
      | inr early ↦ (l, rw (same, early) refl, unchanged l l f e refl)
    ]
  ]

  count_call-Keeps :
      (now now' : ℕ) (l : LogFile) (f : FileUtil)
      → l.file ≡ some f
      → suc l.count < 2 ^ 31
      → (l' : LogFile) × (count_call fwrite fopen name now now' l ≡ done l')
        × Keeps l f.written_bytes l'
  unfolding count_call
  count_call-Keeps now now' l f e h =
      let counted : LogFile = record l { count = suc l.count } in
      elim (Bool-cases (leb l.check_every_n counted.count)) [
        | inl due ↦
            let (l', runs, r) = periodic-Keeps now now' counted f e in
            (l', rw (lt→ltb (suc l.count) (2 ^ 31) h, due) runs, Keeps-from l counted l' _ refl r)
        | inr early ↦ (
          counted,
          rw (lt→ltb (suc l.count) (2 ^ 31) h, early) refl,
          unchanged l counted f e refl,
        )
      ]

  pub append_unlocked_lem :
      (now now' : ℕ) (k : K) (l : LogFile) (f : FileUtil) (message : List ℕ)
      → l.file ≡ some f
      → suc l.count < 2 ^ 31
      → (l' : LogFile) × (k' : K) × (f' : FileUtil) × (added rest : List ℕ) × (append_unlocked
            fwrite fopen name now now' k l message
          ≡ done (l', k'))
        × (l'.file ≡ some f')
        × (message ≡ added ++ rest)
        × Stuck fwrite rest
        × (all_bytes l' ≡ all_bytes l ++ added)
        × ((f'.written_bytes ≤ l.roll_size) ⊎ (now' ≤ l'.last_roll))
  unfolding append_unlocked append_to
  append_unlocked_lem now now' k l f message e h =
      let (added, rest, p, s, b, w) = append_file_lem fwrite k f message in
      let appended = append_file fwrite k f message in
      let after : LogFile = record l { file = some appended.0 } in
      let more : all_bytes after ≡ all_bytes l ++ added =
        ap (◌++◌ (files_text l.closed)) (
          append-nil appended.0.bytes
          ∙ b
          ∙ ap (λ x. x ++ added) (sym (ap (λ o. files_text (closing o)) e ∙ append-nil f.bytes)))
        ∙ sym (append_assoc (files_text l.closed) (files_text (closing l.file)) added) in
      elim (Bool-cases (ltb l.roll_size appended.0.written_bytes)) [
        | inl full ↦
            let (l', q, r) = roll_file-Rolled now' after appended.0 refl in
            (
              l',
              appended.1,
              r.kept.current,
              added,
              rest,
              rw (e, full, q) refl,
              r.kept.is_open,
              p,
              s,
              r.kept.same_bytes ∙ more,
              elim r.limit [ inl z ↦ inl (omega (arith, z)) | inr z ↦ inr z ],
            )
        | inr room ↦
            let (l', q, r) = count_call-Keeps now now' after appended.0 refl h in
            (
              l',
              appended.1,
              r.current,
              added,
              rest,
              rw (e, room, q) refl,
              r.is_open,
              p,
              s,
              r.same_bytes ∙ more,
              inl (ground (arith, room, r.size)),
            )
      ]
