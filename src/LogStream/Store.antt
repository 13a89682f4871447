-- ===== src/LogStream/Store.antt =====
-- The end that the number formats share: characters stored behind the text and reversed in place.
use turbo_net.Common.{
  ℕ, ◌+◌, ◌≤◌, ◌≡◌, refl, ap, sym, ◌∙◌, List, [], ◌∷◌, ◌++◌, reverse, length, take, drop, arith,
  le→leb, length-append, length-reverse, append-nil, append_assoc, take-append, drop-append, done,
}
use turbo_net.Common.Slice.{
  slice, write_at, length-write_at, slice-write_at_end, slice-write_at_front, take-slice,
  drop-slice,
}
use turbo_net.FixedBuffer.{FixedBuffer, to_string}
use turbo_net.FixedBuffer.Text.{IsValid, Writes, length-to_string}
use turbo_net.LogStream.{store_number}

module _ (b : FixedBuffer) (prefix chars : List ℕ) (v : IsValid b)
    (room : b.cur + length prefix + length chars + 1 ≤ length b.cells) where
  abbrev pub stored : List ℕ
  stored = prefix ++ (chars ++ 0 ∷ [])

  abbrev pub cells_stored : List ℕ
  cells_stored = write_at b.cells b.cur stored

  abbrev start : ℕ
  start = b.cur + length prefix

  pub length-stored : length stored ≡ length prefix + length chars + 1
  length-stored =
      omega (arith, length-append prefix (chars ++ 0 ∷ []), length-append chars (0 ∷ []))

  pub length-cells : length cells_stored ≡ length b.cells
  length-cells = length-write_at b.cells b.cur stored

  -- The characters stand where the reversal looks for them.
  chars_stored : slice cells_stored start (length chars) ≡ chars
  chars_stored =
      sym (take-slice cells_stored start (length chars) (length chars + 1) (omega arith))
      ∙ ap (take (length chars)) (
          sym (
            drop-slice cells_stored b.cur (length prefix) (length stored) start (length chars + 1)
              refl (omega (arith, length-stored)))
          ∙ ap (drop (length prefix)) all_stored
          ∙ drop-append prefix (chars ++ 0 ∷ []))
      ∙ take-append chars (0 ∷ [])
    where
      all_stored : slice cells_stored b.cur (length stored) ≡ stored
      all_stored =
          slice-write_at_front b.cells b.cur (b.cur + length stored) 0 (length stored) stored refl
            (omega arith) (omega (arith, length-stored))
          ∙ append-nil stored

  -- What stands before the characters.
  pub front_stored : take start cells_stored ≡ to_string b ++ prefix
  front_stored =
      sym (take-slice cells_stored 0 start (b.cur + length stored) (omega (arith, length-stored)))
      ∙ ap (take start) (
          slice-write_at_end b.cells 0 b.cur b.cur (b.cur + length stored) stored (omega arith) refl
            (omega (arith, length-stored))
          ∙ sym (append_assoc (to_string b) prefix (chars ++ 0 ∷ [])))
      ∙ ap (λ k. take k ((to_string b ++ prefix) ++ (chars ++ 0 ∷ [])))
          (omega (arith, length-append (to_string b) prefix, length-to_string b v))
      ∙ take-append (to_string b ++ prefix) (chars ++ 0 ∷ [])

  abbrev pub numbered : FixedBuffer
  numbered = record {
    cells = write_at cells_stored start (reverse chars);
    cur = b.cur + (length prefix + length chars);
  }

  store_number-done : store_number b prefix chars ≡ done numbered
  unfolding store_number
  store_number-done = rw (
    le→leb (b.cur + length stored) (length b.cells) (omega (arith, length-stored)),
    chars_stored,
    le→leb (start + length (reverse chars)) (length cells_stored)
        (omega (arith, length-cells, length-reverse chars)),
  )

  -- The text grows by the prefix and the reversed characters.
  pub store_number_lem :
      (b' : FixedBuffer) × (store_number b prefix chars ≡ done b')
      × Writes b (to_string b ++ prefix ++ reverse chars) b'
  store_number_lem = (
    numbered,
    store_number-done,
    record {
      valid = omega (arith, v, length-cells, length-write_at cells_stored start (reverse chars));
      holds =
          slice-write_at_end cells_stored 0 start start _ (reverse chars) (omega arith)
            (omega (arith, length-reverse chars))
            (omega (arith, length-reverse chars, length-cells))
          ∙ ap (λ s. s ++ reverse chars) front_stored;
      size = length-write_at cells_stored start (reverse chars) ∙ length-cells;
    },
  )
