-- ===== src/LogFile/Counting.antt =====
-- A call of `LogFile` counts at most once.
use turbo_net.Common.{
  Bool, ℕ, suc, ◌+◌, ◌^◌, ◌≤◌, ◌≡◌, ap, sym, List, Option, none, some, ltb, leb, arith, Bool-cases,
  inl, inr, done, overflow, check, >>=-eq-done, done-injective,
}
use turbo_net.LogFile.{
  FileUtil, LogFile, open_file, append_file, roll_file, periodic, count_call, append_to,
  append_unlocked, days_of,
}

module _ {K : Type 0} (fwrite : K → List ℕ → ℕ × K) (fopen : List ℕ → Bool)
    (name : ℕ → List ℕ) where
  roll_file-count :
      (now : ℕ) (l l' : LogFile) → roll_file fwrite fopen name now l ≡ done l' → l'.count ≡ l.count
  unfolding roll_file
  roll_file-count now l l' = elim (Bool-cases (ltb l.last_roll now)) [
    | inl later ↦ rw later (λ e.
        let (f, _, g) = >>=-eq-done (open_file fopen (name now)) _ e in
        ap LogFile.count (sym (done-injective g)))
    | inr same ↦ rw same (λ e. ap LogFile.count (sym (done-injective e)))
  ]

  periodic-count :
      (now now' : ℕ) (l l' : LogFile)
      → periodic fwrite fopen name now now' l ≡ done l'
      → l'.count ≡ l.count
  unfolding periodic
  periodic-count now now' l l' = elim (Bool-cases (ltb l.start_period (days_of now))) [
    | inl later ↦ rw later (roll_file-count now' l l')
    | inr same ↦ elim (Bool-cases (ltb (l.last_flush + l.flush_interval) now)) [
      | inl due ↦ rw (same, due) (λ e. ap LogFile.count (sym (done-injective e)))
      | inr early ↦ rw (same, early) (λ e. ap LogFile.count (sym (done-injective e)))
    ]
  ]

  count_call-count :
      (now now' : ℕ) (l l' : LogFile)
      → count_call fwrite fopen name now now' l ≡ done l'
      → l'.count ≡ suc l.count
  unfolding count_call
  count_call-count now now' l l' e =
      let counted : LogFile = record l { count = suc l.count } in
      let (u, _, f) = >>=-eq-done (check (ltb (suc l.count) (2 ^ 31)) overflow) _ e in
      elim (Bool-cases (leb l.check_every_n (suc l.count))) [
        | inl d ↦ periodic-count now now' counted l' (rw d at f)
        | inr d ↦
            let g : done counted ≡ done l' = rw d at f in ap LogFile.count (sym (done-injective g))
      ]

  append_to-count :
      (now now' : ℕ) (o : Option FileUtil) (k k' : K) (l l' : LogFile) (msg : List ℕ)
      → append_to fwrite fopen name now now' o k l msg ≡ done (l', k')
      → l'.count ≤ suc l.count
  unfolding append_to
  append_to-count now now' none k k' l l' msg = λ e. absurd cc
  append_to-count now now' (some f) k k' l l' msg =
      let appended = append_file fwrite k f msg in
      let after : LogFile = record l { file = some appended.0 } in
      elim (Bool-cases (ltb l.roll_size appended.0.written_bytes)) [
        | inl full ↦ rw full (λ e.
            let (m, f, g) = >>=-eq-done (roll_file fwrite fopen name now' after) _ e in
            omega (arith, ap (λ p. p.0.count) (done-injective g), roll_file-count now' after m f))
        | inr room ↦ rw room (λ e.
            let (m, f, g) = >>=-eq-done (count_call fwrite fopen name now now' after) _ e in
            omega
              (arith, ap (λ p. p.0.count) (done-injective g), count_call-count now now' after m f))
      ]

  pub append_unlocked-count :
      (now now' : ℕ) (k k' : K) (l l' : LogFile) (msg : List ℕ)
      → append_unlocked fwrite fopen name now now' k l msg ≡ done (l', k')
      → l'.count ≤ suc l.count
  unfolding append_unlocked
  append_unlocked-count now now' k k' l l' msg e = append_to-count now now' l.file k k' l l' msg e
