-- ===== src/Buffer/Socket.antt =====
-- `ReadFd` and `WriteFd` against what the kernel answers.
use turbo_net.Common.{
  ℕ, ◌+◌, ◌-◌, ◌≤◌, ◌<◌, ◌≡◌, ◌≢◌, ◌↔◌, refl, sym, ap, ◌∙◌, List, [], ◌∷◌, ◌++◌, length, take, drop,
  arith, replicate, length-replicate, length-append, length-take, length-drop, take_all,
  append_assoc, sub_size, sub_size_lem, le→leb, not_ltb, append-nil, >>=-eq-done, done, ◌>>=◌,
}
use native.Mathlib.Decide.{dec_lt}
use turbo_net.Common.Slice.{take-slice, take-append-take, length-write_at, slice-write_at_front}
use turbo_net.Buffer.{
  Buffer, max_store, ReadReply, read_failed, received, WriteReply, write_failed, accepted, Transfer,
  failed, moved, extra_size, fill_array, iov_lengths, receive, read_fd, write_fd, take_written,
  writeable_bytes, push_back_range,
}
use turbo_net.Buffer.Inv.{IsValid, writeable_bytes_lem}
use turbo_net.Buffer.Contents.{contents}
use turbo_net.Buffer.Methods.{
  Holds, appended, appended-Holds, push_back_range_lem, move_read_backward_lem,
}

length-fill_array : (n : ℕ) (bytes : List ℕ) → length (fill_array n bytes) ≡ n
unfolding fill_array
length-fill_array n bytes = length-write_at (replicate n 0) 0 bytes ∙ length-replicate {A = ℕ} n 0

take-fill_array :
    (n k : ℕ) (bytes : List ℕ)
    → k ≤ length bytes
    → length bytes ≤ n
    → take k (fill_array n bytes) ≡ take k bytes
unfolding fill_array
take-fill_array n k bytes h m =
    sym (take-slice (fill_array n bytes) 0 k (length bytes) h)
    ∙ ap (take k) (
        slice-write_at_front (replicate n 0) 0 (length bytes) 0 (length bytes) bytes (omega arith)
          (omega arith) (omega (arith, length-replicate {A = ℕ} n 0))
        ∙ append-nil bytes)

-- A copy from memory that is too short stops the run.
push_back_range_overrun :
    (b b' : Buffer) (source : List ℕ) (len : ℕ)
    → length source < len
    → push_back_range b source len ≢ done b'
unfolding push_back_range
push_back_range_overrun b b' source len h e = ground arith

abbrev free : Buffer → ℕ
free b = length b.store - b.write_index

-- The storage once the kernel has filled the writeable space.
abbrev full : Buffer → List ℕ → Buffer
full b bytes = appended b (take (free b) bytes)

module _ (b : Buffer) (v : IsValid b) (bytes : List ℕ) where
  -- What is shorter than the writeable space is appended.
  receive_fits :
      length bytes < free b → receive b bytes ≡ done (moved (length bytes), appended b bytes)
  unfolding receive
  receive_fits h = ground (
    arith,
    take_all (free b) bytes,
    sub_size_lem (length b.store) b.write_index,
    length-write_at b.store b.write_index bytes,
  )

  length-first : free b ≤ length bytes → length (take (free b) bytes) ≡ free b
  length-first h = omega (arith, length-take (free b) bytes)

  -- Otherwise the rest of `extra_buf` is appended to the full storage, but the length passed is the
  -- count less the whole storage.
  receive_spills :
      free b ≤ length bytes
      → receive b bytes ≡ (
          push_back_range
            (full b bytes)
            (fill_array extra_size (drop (free b) bytes))
            (sub_size (length bytes) (length b.store))
          >>= λ b'. done (moved (length bytes), b'))
  unfolding receive
  receive_spills h =
      rw
        (
          sub_size_lem (length b.store) b.write_index v.inside (omega arith),
          le→leb (b.write_index + length (take (free b) bytes)) (length b.store)
              (omega (arith, length-first h)),
          not_ltb (length bytes) (free b) h,
          length-write_at b.store b.write_index (take (free b) bytes),
        )
        (ap
          (λ (w : ℕ).
            push_back_range (record (full b bytes) { write_index = w })
              (fill_array extra_size (drop (free b) bytes))
              (sub_size (length bytes) (length b.store))
            >>= λ b'. done (moved (length bytes), b'))
          (omega (arith, length-first h)))

abbrev pub total : List ℕ → ℕ
total [] = 0
total (n ∷ ns) = n + total ns

module _ (b : Buffer) (v : IsValid b) (readv : List ℕ → ReadReply) where
  -- A failed `readv` leaves the buffer alone and hands its `errno` on.
  pub read_fd_fails :
      (errno : ℕ)
      → readv (iov_lengths b) ≡ read_failed errno
      → read_fd readv b ≡ done (failed errno, b)
  unfolding read_fd
  read_fd_fails errno e = rw (e, read_fd)

  module _ (bytes : List ℕ) (got : readv (iov_lengths b) ≡ received bytes) where
    read_fd-receive : read_fd readv b ≡ receive b bytes
    unfolding read_fd
    read_fd-receive = rw (got, read_fd)

    pub read_fd_fits :
        length bytes < writeable_bytes b
        → (b' : Buffer) × (read_fd readv b ≡ done (moved (length bytes), b'))
          × Holds (contents b ++ bytes) (b.write_index + length bytes) b'
    read_fd_fits h =
        let short : length bytes < free b = omega (arith, writeable_bytes_lem b v) in
        (
          appended b bytes,
          read_fd-receive ∙ receive_fits b v bytes short,
          appended-Holds b bytes v (omega arith),
        )

    drop_rest : length bytes ≤ total (iov_lengths b) → length (drop (free b) bytes) ≤ extra_size
    unfolding iov_lengths
    drop_rest cap = ground (arith, length-drop (free b) bytes, writeable_bytes_lem b v)

    -- On a valid buffer, where `readv` receives no more bytes than it is offered and than a vector
    -- may hold: if their count reaches the size of the storage, `ReadFd` returns, and as many of
    -- them as the write index counts are lost off the end.
    pub read_fd_overflows :
        length bytes ≤ total (iov_lengths b)
        → length bytes ≤ max_store
        → length b.store ≤ length bytes
        → (b' : Buffer) × (read_fd readv b ≡ done (moved (length bytes), b'))
          × Holds (contents b ++ take (length bytes - b.write_index) bytes) (length bytes) b'
    read_fd_overflows cap m h =
        let len = length bytes - length b.store in
        let held = appended-Holds b (take (free b) bytes) v (omega (arith, first)) in
        let (b', e, r) =
          push_back_range_lem (full b bytes) held.valid
            (fill_array extra_size (drop (free b) bytes)) len
            (omega (arith, rest, cap', length-fill_array extra_size (drop (free b) bytes)))
            (omega (arith, first)) in
        (
          b',
          read_fd-receive
              ∙ receive_spills b v bytes (omega arith)
              ∙ rw (sub_size_lem (length bytes) (length b.store) h (omega arith), e) refl,
          record {
            valid = r.valid;
            holds = r.holds ∙ together;
            below = omega (arith, r.below, first);
          },
        )
      where
        extra : List ℕ
        extra = fill_array extra_size (drop (free b) bytes)

        first : length (take (free b) bytes) ≡ free b
        first = length-first b v bytes (omega arith)

        rest : length (drop (free b) bytes) ≡ length bytes - free b
        rest = length-drop (free b) bytes

        cap' : length (drop (free b) bytes) ≤ extra_size
        cap' = drop_rest cap

        together :
            contents (full b bytes)
              ++ take (length bytes - length b.store) (fill_array extra_size (drop (free b) bytes))
            ≡ contents b ++ take (length bytes - b.write_index) bytes
        together =
            ap (λ s. s ++ take (length bytes - length b.store) extra)
              (appended-Holds b (take (free b) bytes) v (omega (arith, first))).holds
            ∙ append_assoc (contents b) (take (free b) bytes) _
            ∙ ap (◌++◌ (contents b)) (
                ap (◌++◌ (take (free b) bytes))
                  (take-fill_array extra_size _ (drop (free b) bytes) (omega (arith, rest)) cap')
                ∙ take-append-take bytes (free b) _ _ (omega arith))

    read_fd_stops :
        writeable_bytes b ≤ length bytes
        → length bytes < length b.store
        → (b' : Buffer) (t : Transfer) → read_fd readv b ≢ done (t, b')
    read_fd_stops h k b' t e =
        let (b1, p, _) =
          >>=-eq-done
            (push_back_range (full b bytes) (fill_array extra_size (drop (free b) bytes)) len)
            (λ b1. done (moved (length bytes), b1))
            (sym (read_fd-receive ∙ receive_spills b v bytes long) ∙ e) in
        push_back_range_overrun (full b bytes) b1 (fill_array extra_size (drop (free b) bytes)) len
          (omega (arith, length-fill_array extra_size (drop (free b) bytes))) p
      where
        long : free b ≤ length bytes
        long = omega (arith, writeable_bytes_lem b v)

        len : ℕ
        len = sub_size (length bytes) (length b.store)

    lost :
        (b1 b2 : Buffer)
        → read_fd readv b ≡ done (moved (length bytes), b1)
        → read_fd readv b ≡ done (moved (length bytes), b2)
        → contents b1 ≡ contents b ++ bytes
        → contents b2 ≡ contents b ++ take (length bytes - b.write_index) bytes
        → 0 < length bytes
        → ⊥
    lost b1 b2 p q e f h =
        let same : b1 ≡ b2 = cc in
        omega (
          arith,
          ap length (sym e ∙ ap contents same ∙ f),
          length-append (contents b) bytes,
          length-append (contents b) (take (length bytes - b.write_index) bytes),
          length-take (length bytes - b.write_index) bytes,
        )

    -- On a valid buffer, where `readv` receives no more bytes than it is offered and than a vector
    -- may hold, `ReadFd` returns the count and appends all of them exactly if they are fewer than
    -- the writeable bytes.
    pub read_fd_keeps_iff :
        length bytes ≤ total (iov_lengths b)
        → length bytes ≤ max_store
        → ((b' : Buffer) × (read_fd readv b ≡ done (moved (length bytes), b'))
            × (contents b' ≡ contents b ++ bytes))
          ↔ (length bytes < writeable_bytes b)
    read_fd_keeps_iff cap m = (
      λ (b1, p, e). elim (dec_lt (length bytes) (writeable_bytes b)) [
        | yes short ↦ short
        | no long ↦ elim (dec_lt (length bytes) (length b.store)) [
          | yes k ↦ absurd (read_fd_stops (omega arith) k b1 (moved (length bytes)) p)
          | no k ↦
              let (b2, q, r) = read_fd_overflows cap m (omega arith) in
              absurd (lost b1 b2 p q e r.holds (omega (arith, v)))
        ]
      ],
      λ h. let (b', e, r) = read_fd_fits h in (b', e, r.holds),
    )

module _ (b : Buffer) (v : IsValid b) (write : List ℕ → WriteReply) where
  pub write_fd_fails :
      (errno : ℕ)
      → write (contents b) ≡ write_failed errno
      → write_fd write b ≡ done (failed errno, b)
  unfolding write_fd
  write_fd_fails errno e = rw (
    sub_size_lem b.write_index b.reader_index v.ordered (omega arith),
    le→leb (b.reader_index + (b.write_index - b.reader_index)) (length b.store) (omega arith),
    e,
    take_written,
  )

  -- `WriteFd` hands the readable bytes to the kernel and drops as many as the kernel took.
  pub write_fd_lem :
      (n : ℕ)
      → write (contents b) ≡ accepted n
      → n ≤ length (contents b)
      → (b' : Buffer) × (write_fd write b ≡ done (moved n, b'))
        × Holds (drop n (contents b)) b.write_index b'
  unfolding write_fd
  write_fd_lem n e h =
      let (b', p, r) = move_read_backward_lem b v n h in
      (
        b',
        rw (
          sub_size_lem b.write_index b.reader_index v.ordered (omega arith),
          le→leb (b.reader_index + (b.write_index - b.reader_index)) (length b.store) (omega arith),
          e,
          take_written,
          p,
        ),
        r,
      )
