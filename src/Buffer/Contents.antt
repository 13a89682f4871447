-- ===== src/Buffer/Contents.antt =====
-- The readable bytes of a buffer, and what making room, appending and reading do to them.
use turbo_net.Common.{
  ℕ, ◌+◌, ◌-◌, ◌≤◌, ◌<◌, ◌≡◌, refl, ◌∙◌, List, ◌++◌, length, take, replicate, length-append,
  length-replicate, take_all, append-nil, arith, sub_size, sub_size_lem, done,
}
use native.Mathlib.Decide.{dec_lt}
use turbo_net.Common.Slice.{
  slice, write_at, length-write_at, length-slice, slice-write_at_front, slice-append,
}
use turbo_net.Buffer.{Buffer, cheap_prepend, max_store, make_space, ensure_writeable_bytes}
use turbo_net.Buffer.Inv.{IsValid}

abbrev pub contents : Buffer → List ℕ
contents b = slice b.store b.reader_index (b.write_index - b.reader_index)

pub length-contents :
    (b : Buffer) → IsValid b → length (contents b) ≡ b.write_index - b.reader_index
length-contents b v =
    length-slice b.store b.reader_index (b.write_index - b.reader_index) (omega arith)

-- `b'` holds what `b` holds, with `len` free cells behind it.
pub record HasRoom (b : Buffer) (len : ℕ) (b' : Buffer) : Type 0 where
  pub valid : IsValid b'
  pub room : b'.write_index + len ≤ length b'.store
  pub same : contents b' ≡ contents b
  pub low : b'.write_index ≤ b.write_index

-- Growing the storage.
abbrev grown : Buffer → ℕ → Buffer
grown b len = record b {
  store = take (b.write_index + len) b.store ++ replicate (b.write_index + len - length b.store) 0;
}

-- Moving the readable bytes to the front.
abbrev compacted : Buffer → Buffer
compacted b = record {
  store = write_at b.store cheap_prepend (contents b);
  reader_index = cheap_prepend;
  write_index = cheap_prepend + (b.write_index - b.reader_index);
}

module _ (b : Buffer) (len : ℕ) (v : IsValid b) where
  grown-HasRoom :
      length b.store ≤ b.write_index + len
      → b.write_index + len ≤ max_store
      → HasRoom b len (grown b len)
  grown-HasRoom h m =
      let kept = take_all (b.write_index + len) b.store h in
      record {
        valid = omega (arith, length-grown kept);
        room = omega (arith, length-grown kept);
        same =
            rw kept (
              slice-append b.store _ b.reader_index (b.write_index - b.reader_index) (omega arith));
        low = omega arith;
      }
    where
      length-grown :
          take (b.write_index + len) b.store ≡ b.store
          → length (grown b len).store ≡ b.write_index + len
      length-grown kept = rw kept (
          omega (
            arith,
            length-append b.store (replicate (b.write_index + len - length b.store) 0),
            length-replicate {A = ℕ} (b.write_index + len - length b.store) 0,
          ))

  compacted-HasRoom :
      cheap_prepend < b.reader_index
      → cheap_prepend + (b.write_index - b.reader_index) + len ≤ length b.store
      → HasRoom b len (compacted b)
  compacted-HasRoom h m = record {
    valid = omega (arith, same_length, length-contents b v);
    room = omega (arith, same_length);
    same =
        slice-write_at_front b.store cheap_prepend _ 0 _ (contents b) refl
          (omega (arith, length-contents b v)) (omega (arith, length-contents b v))
        ∙ append-nil (contents b);
    low = omega arith;
  }
    where
      same_length : length (compacted b).store ≡ length b.store
      same_length = length-write_at b.store cheap_prepend (contents b)

  make_space_grows :
      length b.store - b.write_index + b.reader_index < cheap_prepend + len
      → b.write_index + len ≤ max_store
      → make_space b len ≡ done (grown b len)
  unfolding make_space
  make_space_grows h m = ground arith

  make_space_compacts :
      length b.store - b.write_index < len
      → cheap_prepend + len ≤ length b.store - b.write_index + b.reader_index
      → make_space b len ≡ done (compacted b)
  unfolding make_space
  make_space_compacts h m = ground (
    arith,
    length-slice b.store b.reader_index (sub_size b.write_index b.reader_index),
    sub_size_lem b.write_index b.reader_index,
  )

  -- Asked for `len` free cells, the buffer makes room, keeps what it holds, and no assertion fails.
  pub ensure_room :
      b.write_index + len ≤ max_store
      → (b' : Buffer) × (ensure_writeable_bytes b len ≡ done b') × HasRoom b len b'
  unfolding ensure_writeable_bytes
  ensure_room m = elim (dec_lt (length b.store - b.write_index) len) [
    | no enough ↦
        (b, ground arith, record { valid = v; room = omega arith; same = refl; low = omega arith })
    | yes short ↦
        elim (dec_lt (length b.store - b.write_index + b.reader_index) (cheap_prepend + len)) [
          | yes full ↦
              let r = grown-HasRoom (omega arith) m in
              (grown b len, ground (arith, make_space_grows full m, r), r)
          | no fits ↦
              let r = compacted-HasRoom (omega arith) (omega arith) in
              (compacted b, ground (arith, make_space_compacts short (omega arith), r), r)
        ]
  ]
