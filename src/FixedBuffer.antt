-- ===== src/FixedBuffer.antt =====
-- src/logger/fixed_buffer.h: an array of `SIZE` cells and a cursor into it.
pub mod Text
mod Tests
use turbo_net.Common.{
  ℕ, ◌+◌, Bool, List, ◌++◌, length, take, replicate, ltb, if◌then◌else◌, sub_size, Outcome, done,
  ◌>>=◌,
}
use turbo_net.Common.Memory.{copy_to}

-- `data_` and `cur_ - data_`.
pub record FixedBuffer : Type 0 where
  pub cells : List ℕ
  pub cur : ℕ

-- The constructor, at the template's `SIZE`.
unfoldable pub fresh : ℕ → FixedBuffer
fresh size = record { cells = replicate size 0; cur = 0 }

-- `Avail()`, as `Append` casts it to `size_t`: an `int` below 0 becomes a number near 2^64.
unfoldable pub avail : FixedBuffer → ℕ
avail b = sub_size (length b.cells) b.cur

-- `Avail() < n`, which compares two `int`s.
unfoldable pub avail_below : FixedBuffer → ℕ → Bool
avail_below b n = ltb (length b.cells) (b.cur + n)

unfoldable pub append : FixedBuffer → List ℕ → Outcome FixedBuffer
unfolding avail copy_to
append b bytes =
    if ltb (length bytes) (avail b)
    then (do
      s ← copy_to b.cells b.cur bytes
      done (record { cells = s; cur = b.cur + length bytes }))
    else done b

unfoldable pub add : FixedBuffer → ℕ → FixedBuffer
add b len = record b { cur = b.cur + len }

unfoldable pub reset : FixedBuffer → FixedBuffer
reset b = record b { cur = 0 }

unfoldable pub b_zero : FixedBuffer → FixedBuffer
b_zero b = record b { cells = replicate (length b.cells) 0 }

-- `ToString()`, and what `Data()` and `Length()` show.
abbrev pub to_string : FixedBuffer → List ℕ
to_string b = take b.cur b.cells
