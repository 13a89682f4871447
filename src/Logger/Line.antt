-- ===== src/Logger/Line.antt =====
-- What a log line shows.
use turbo_net.Common.{
  ℕ, ◌/◌, ◌%◌, ◌^◌, ◌<◌, ◌≡◌, ◌≢◌, ◌⊎◌, inl, inr, refl, ap, ◌∙◌, List, [], ◌∷◌, ◌++◌, Option, none,
  some, length, ◌==◌, ==_iff, if◌then◌else◌, arith, take_all, length-replicate, Bool-cases, Outcome,
  done, le→leb, ◌>>=◌,
}
use turbo_net.FixedBuffer.{fresh, to_string, FixedBuffer}
use turbo_net.FixedBuffer.Text.{IsValid}
use turbo_net.LogStream.{Value, stream_all, small_buffer}
use turbo_net.LogStream.Texts.{AllSound, needs, all_shown, stream_all_lem}
use turbo_net.Common.Memory.{load}
use turbo_net.Logger.{
  Kind, level_of, slash, after_slash, source_file, TimeCache, refresh, Place, line_values,
  end_of_line, log_line,
}

abbrev NoSlash : List ℕ → Type 0
NoSlash [] = Unit {0}
NoSlash (c ∷ cs) = (c ≢ slash) × NoSlash cs

-- How a path splits around its last '/'.
abbrev Splits : List ℕ → Option (List ℕ) → Type 0
Splits path none = NoSlash path
Splits path (some rest) = (dir : List ℕ) × (path ≡ dir ++ slash ∷ rest) × NoSlash rest

after_slash-Splits : (path : List ℕ) → Splits path (after_slash path)
after_slash-Splits [] = tt
after_slash-Splits (c ∷ cs) = cons-Splits c cs (after_slash cs) (after_slash-Splits cs)
  where
    cons-Splits :
        (c : ℕ) (cs : List ℕ) (o : Option (List ℕ))
        → Splits cs o
        → Splits
            (c ∷ cs)
            (elim o [ some rest ↦ some rest | none ↦ if c == slash then some cs else none ])
    cons-Splits c cs (some rest) (dir, e, n) = (c ∷ dir, ap (◌∷◌ c) e, n)
    cons-Splits c cs none n = elim (Bool-cases (c == slash)) [
      | inl e ↦ rw e ([], ap (λ x. x ∷ cs) ((==_iff c slash).0 e), n)
      | inr e ↦ rw e ((λ p. ground (arith, e, p)), n)
    ]

-- The name that a line shows is the part of the file's path behind its last '/', or the whole path
-- if it has none.
source_file_lem :
    (path : List ℕ)
    → NoSlash (source_file path)
      × ((source_file path ≡ path) ⊎ ((dir : List ℕ) × (path ≡ dir ++ slash ∷ source_file path)))
source_file_lem path = named (after_slash path) (after_slash-Splits path)
  where
    named :
        (o : Option (List ℕ))
        → Splits path o
        → NoSlash (elim o [ some rest ↦ rest | none ↦ path ])
          × (((elim o [ some rest ↦ rest | none ↦ path ]) ≡ path)
              ⊎ ((dir : List ℕ) × (path
                    ≡ dir ++ slash ∷ (elim o [ some rest ↦ rest | none ↦ path ]))))
    named none n = (n, inl refl)
    named (some rest) (dir, e, n) = (n, inr (dir, e))

fresh-IsValid : (size : ℕ) → size < 2 ^ 31 → IsValid (fresh size)
unfolding fresh
fresh-IsValid size h = record {
  within = omega arith;
  small = omega (arith, length-replicate {A = ℕ} size 0);
}

module _ (format : ℕ → List ℕ) (print_micros : ℕ → List ℕ) where
  refresh_lem :
      (seconds : ℕ) (cache : TimeCache)
      → (cache.last_seconds ≡ seconds → cache.time_str ≡ format seconds)
      → (refresh format seconds cache).time_str ≡ format seconds
  unfolding refresh
  refresh_lem seconds cache h = elim (Bool-cases (cache.last_seconds == seconds)) [
    | inl e ↦ rw e (h ((==_iff cache.last_seconds seconds).0 e))
    | inr e ↦ rw e refl
  ]

  load_all : (s : List ℕ) → length s ≡ 19 → load s 0 19 ≡ done s
  unfolding load
  load_all s h = rw (le→leb 19 (length s) (omega (arith, h)), take_all 19 s (omega (arith, h))) refl

  -- A line whose values are sound and leave a cell of 4000 free is written whole, in order: the
  -- time of its second, the microseconds, the thread, the level, the file, the line, the error if
  -- there is one, the message and a newline. The formatted time must have 19 characters, and a
  -- cached time of this second must be its text.
  pub log_line_lem :
      (microseconds : ℕ) (cache : TimeCache) (kind : Kind) (p : Place) (body : List Value)
      → (cache.last_seconds ≡ microseconds / 1000000
          → cache.time_str ≡ format (microseconds / 1000000))
      → length (format (microseconds / 1000000)) ≡ 19
      → AllSound (
          line_values
            (format (microseconds / 1000000))
            (print_micros (microseconds % 1000000))
            kind
            p
            body)
      → needs (
          line_values
            (format (microseconds / 1000000))
            (print_micros (microseconds % 1000000))
            kind
            p
            body)
        < small_buffer
      → log_line format print_micros microseconds cache kind p body
        ≡ done (
          all_shown (
              line_values
                (format (microseconds / 1000000))
                (print_micros (microseconds % 1000000))
                kind
                p
                body),
          refresh format (microseconds / 1000000) cache,
          end_of_line (level_of kind),
        )
  unfolding log_line fresh
  log_line_lem microseconds cache kind p body h nineteen sound room =
      let seconds = microseconds / 1000000 in
      let values =
        line_values (format seconds) (print_micros (microseconds % 1000000)) kind p body in
      let time = refresh_lem seconds cache h in
      let (b, e, w) =
        stream_all_lem (fresh small_buffer) values (fresh-IsValid small_buffer (omega arith)) sound
          (omega (arith, room, length-replicate {A = ℕ} small_buffer 0)) in
      let micros = print_micros (microseconds % 1000000) in
      let finish : FixedBuffer → List ℕ × TimeCache × Outcome (Unit {0}) =
        λ b. (to_string b, refresh format seconds cache, end_of_line (level_of kind)) in
      ap
        (λ r. r >>= λ time.
          stream_all (fresh small_buffer) (line_values time micros kind p body) >>= λ b.
          done (finish b))
        (ap (λ s. load s 0 19) time ∙ load_all (format seconds) nineteen)
      ∙ ap (λ r. r >>= λ b. done (finish b)) e
      ∙ ap (λ t. done (t, refresh format seconds cache, end_of_line (level_of kind))) w.holds
