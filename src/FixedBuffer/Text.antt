-- ===== src/FixedBuffer/Text.antt =====
-- What the operations of `FixedBuffer` do to the text before the cursor.
use turbo_net.Common.{
  ℕ, ◌+◌, ◌^◌, ◌≤◌, ◌<◌, ◌≡◌, refl, ◌∙◌, List, [], ◌++◌, length, if◌then◌else◌, ltb,
  length-replicate, length-take, arith, sub_size_lem, done,
}
use native.Mathlib.Decide.{dec_lt}
use turbo_net.Common.Slice.{write_at, length-write_at, slice-write_at_end}
use turbo_net.FixedBuffer.{FixedBuffer, fresh, append, reset, b_zero, to_string}

-- The cursor lies within the array, whose size is an `int`.
pub record IsValid (b : FixedBuffer) : Type 0 where
  pub within : b.cur ≤ length b.cells
  pub small : length b.cells < 2 ^ 31

-- `b'` is valid, holds `text` and is as large as `b`.
pub record Writes (b : FixedBuffer) (text : List ℕ) (b' : FixedBuffer) : Type 0 where
  pub valid : IsValid b'
  pub holds : to_string b' ≡ text
  pub size : length b'.cells ≡ length b.cells

pub length-to_string : (b : FixedBuffer) → IsValid b → length (to_string b) ≡ b.cur
length-to_string b v = omega (arith, length-take b.cur b.cells)

-- To a valid buffer a text is appended whole if it is shorter than the free space, and not at all
-- otherwise.
pub append_lem :
    (b : FixedBuffer) (bytes : List ℕ)
    → IsValid b
    → (b' : FixedBuffer) × (append b bytes ≡ done b')
      × Writes b
          (if ltb (b.cur + length bytes) (length b.cells)
            then to_string b ++ bytes
            else to_string b)
          b'
unfolding append
append_lem b bytes v = elim (dec_lt (b.cur + length bytes) (length b.cells)) [
  | yes fits ↦ (
    record { cells = write_at b.cells b.cur bytes; cur = b.cur + length bytes },
    ground (arith, sub_size_lem (length b.cells) b.cur v.within (omega arith)),
    record {
      valid = omega (arith, length-write_at b.cells b.cur bytes);
      holds =
          slice-write_at_end b.cells 0 b.cur b.cur (b.cur + length bytes) bytes (omega arith) refl
            (omega arith)
          ∙ ground arith;
      size = length-write_at b.cells b.cur bytes;
    },
  )
  | no full ↦ (
    b,
    ground (arith, sub_size_lem (length b.cells) b.cur v.within (omega arith)),
    record { valid = v; holds = ground arith; size = refl },
  )
]

-- `Reset` empties the text and `BZero` clears the cells; neither moves the end of the array.
pub reset-Writes : (b : FixedBuffer) → IsValid b → Writes b [] (reset (b_zero b))
unfolding reset b_zero
reset-Writes b v = record {
  valid = omega (arith, length-replicate {A = ℕ} (length b.cells) 0);
  holds = refl;
  size = length-replicate {A = ℕ} (length b.cells) 0;
}

pub fresh-Writes : (size : ℕ) → size < 2 ^ 31 → Writes (fresh size) [] (fresh size)
unfolding fresh
fresh-Writes size h = record {
  valid = omega (arith, length-replicate {A = ℕ} size 0);
  holds = refl;
  size = refl;
}
