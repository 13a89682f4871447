-- ===== src/Buffer/Methods.antt =====
-- What each method of `Buffer` does to the readable bytes, and that its assertions hold.
use native.Mathlib.Decide.{dec_lt}
use turbo_net.Common.{
  ℕ, ◌+◌, ◌-◌, ◌≤◌, ◌≡◌, ◌↔◌, refl, sym, ap, ◌∙◌, List, [], ◌++◌, length, take, drop, arith,
  sub_size_lem, done, take_all, drop_all, le→leb,
}
use turbo_net.Common.Slice.{
  write_at, length-write_at, length-slice, slice-write_at_end, slice-write_at_front, take-slice,
  drop-slice,
}
use turbo_net.Buffer.{
  Buffer, cheap_prepend, max_store, swap, ensure_writeable_bytes, move_read_all, move_read_backward,
  read_to_string, read_all_to_string, push_back_range, push_front,
}
use turbo_net.Buffer.Inv.{IsValid}
use turbo_net.Buffer.Contents.{contents, length-contents, HasRoom, ensure_room}

-- `b'` is valid and holds `bytes`, with its write index at most at `top`.
pub record Holds (bytes : List ℕ) (top : ℕ) (b' : Buffer) : Type 0 where
  pub valid : IsValid b'
  pub holds : contents b' ≡ bytes
  pub below : b'.write_index ≤ top

-- The state that a copy of `bytes` behind the readable bytes leaves.
abbrev pub appended : Buffer → List ℕ → Buffer
appended b bytes = record b {
  store = write_at b.store b.write_index bytes;
  write_index = b.write_index + length bytes;
}

pub appended-Holds :
    (b : Buffer) (bytes : List ℕ)
    → IsValid b
    → b.write_index + length bytes ≤ length b.store
    → Holds (contents b ++ bytes) (b.write_index + length bytes) (appended b bytes)
appended-Holds b bytes v h = record {
  valid = omega (arith, length-write_at b.store b.write_index bytes);
  holds =
      slice-write_at_end b.store b.reader_index (b.write_index - b.reader_index) b.write_index _
        bytes (omega arith) (omega arith) h;
  below = omega arith;
}

-- The call's own steps, once there is room.
push_back_range-done :
    (b b1 : Buffer) (source : List ℕ) (len : ℕ)
    → ensure_writeable_bytes b len ≡ done b1
    → len ≤ length source
    → length (take len source) ≡ len
    → HasRoom b len b1
    → push_back_range b source len ≡ done (appended b1 (take len source))
unfolding push_back_range
push_back_range-done b b1 source len e h read r =
    rw (e, le→leb (0 + len) (length source) (omega arith))
      (ground (arith, length-write_at b1.store b1.write_index (take len source)))

module _ (b : Buffer) (v : IsValid b) where
  -- The first `len` bytes at `source` are appended; nothing else changes.
  pub push_back_range_lem :
      (source : List ℕ) (len : ℕ)
      → len ≤ length source
      → b.write_index + len ≤ max_store
      → (b' : Buffer) × (push_back_range b source len ≡ done b')
        × Holds (contents b ++ take len source) (b.write_index + len) b'
  push_back_range_lem source len h m = finish (ensure_room b len v m)
    where
      read : length (take len source) ≡ len
      read = length-slice source 0 len (omega arith)

      finish :
          (b1 : Buffer) × (ensure_writeable_bytes b len ≡ done b1) × HasRoom b len b1
          → (b' : Buffer) × (push_back_range b source len ≡ done b')
            × Holds (contents b ++ take len source) (b.write_index + len) b'
      finish (b1, e, r) =
          let held = appended-Holds b1 (take len source) r.valid (omega (arith, read, r)) in
          (
            appended b1 (take len source),
            push_back_range-done b b1 source len e h read r,
            record {
              valid = held.valid;
              holds = held.holds ∙ ap (λ s. s ++ take len source) r.same;
              below = omega (arith, held.below, r.low, read);
            },
          )

  pub move_read_backward_lem :
      (len : ℕ)
      → len ≤ length (contents b)
      → (b' : Buffer) × (move_read_backward b len ≡ done b')
        × Holds (drop len (contents b)) b.write_index b'
  unfolding move_read_backward move_read_all
  move_read_backward_lem len h =
      let n = length-contents b v in
      elim (dec_lt len (b.write_index - b.reader_index)) [
        | yes part ↦ (
          record b { reader_index = b.reader_index + len },
          ground arith,
          record {
            valid = omega arith;
            holds = sym (
                drop-slice b.store b.reader_index len (b.write_index - b.reader_index) _ _ refl
                  (omega arith));
            below = omega arith;
          },
        )
        | no all ↦ (
          record b { reader_index = cheap_prepend; write_index = cheap_prepend },
          ground arith,
          record {
            valid = omega arith;
            holds = sym (drop_all len (contents b) (omega arith));
            below = omega (arith, v.prepend);
          },
        )
      ]

  -- The first `len` readable bytes are returned, and are gone from the buffer.
  pub read_to_string_lem :
      (len : ℕ)
      → len ≤ length (contents b)
      → (b' : Buffer) × (read_to_string b len ≡ done (take len (contents b), b'))
        × Holds (drop len (contents b)) b.write_index b'
  unfolding read_to_string
  read_to_string_lem len h =
      let n = length-contents b v in
      let (b', e, r) = move_read_backward_lem len h in
      (
        b',
        ground (arith, e, take-slice b.store b.reader_index len (b.write_index - b.reader_index)),
        r,
      )

  pub read_all_to_string_lem :
      (b' : Buffer) × (read_all_to_string b ≡ done (contents b, b')) × Holds [] b.write_index b'
  unfolding read_all_to_string
  read_all_to_string_lem =
      let readable = b.write_index - b.reader_index in
      let n = length-contents b v in
      let whole = take_all readable (contents b) (omega arith) in
      let (b', e, r) = read_to_string_lem readable (omega arith) in
      (
        b',
        ground (arith, e, whole, sub_size_lem b.write_index b.reader_index),
        record {
          valid = r.valid;
          holds = r.holds ∙ drop_all readable (contents b) (omega arith);
          below = r.below;
        },
      )

  -- On a valid buffer, bytes that fit into the prependable space are put in front of the readable
  -- ones, and the write index does not grow.
  pub push_front_lem :
      (bytes : List ℕ)
      → length bytes ≤ b.reader_index
      → (b' : Buffer) × (push_front b bytes ≡ done b')
        × Holds (bytes ++ contents b) b.write_index b'
  unfolding push_front
  push_front_lem bytes h = (
    record b {
      store = write_at b.store (b.reader_index - length bytes) bytes;
      reader_index = b.reader_index - length bytes;
    },
    ground arith,
    record {
      valid = omega (arith, length-write_at b.store (b.reader_index - length bytes) bytes);
      holds =
          slice-write_at_front b.store (b.reader_index - length bytes) b.reader_index _ _ bytes
            (omega arith) (omega arith) (omega arith);
      below = omega arith;
    },
  )

-- `Swap` exchanges the two buffers exactly if their write indices agree: it swaps the write index
-- of the one with itself.
pub swap_iff : (a b : Buffer) → (swap a b ≡ (b, a)) ↔ (a.write_index ≡ b.write_index)
unfolding swap
swap_iff a b = (λ e. ap (λ (p : Buffer × Buffer). p.0.write_index) e, λ e. ground arith)
