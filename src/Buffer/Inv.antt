-- ===== src/Buffer/Inv.antt =====
-- The representation invariant of `Buffer`, and the `size_t` differences that it keeps from wrapping.
use turbo_net.Common.{◌-◌, ◌≤◌, ◌≡◌, length, arith}
use turbo_net.Buffer.{Buffer, cheap_prepend, max_store, readable_bytes, writeable_bytes}

-- `reader_index_ <= write_index <= buffer_.size()`, and the storage keeps the prepend area.
pub record IsValid (b : Buffer) : Type 0 where
  pub ordered : b.reader_index ≤ b.write_index
  pub inside : b.write_index ≤ length b.store
  pub prepend : cheap_prepend ≤ b.write_index
  pub small : length b.store ≤ max_store

pub readable_bytes_lem :
    (b : Buffer) → IsValid b → readable_bytes b ≡ b.write_index - b.reader_index
unfolding readable_bytes
readable_bytes_lem b v = omega arith

pub writeable_bytes_lem :
    (b : Buffer) → IsValid b → writeable_bytes b ≡ length b.store - b.write_index
unfolding writeable_bytes
writeable_bytes_lem b v = omega arith
