-- ===== src/Buffer/Tests.antt =====
-- Runs of the buffer on small inputs, and its theorems at such inputs.
use turbo_net.Common.{
  ℕ, ◌<◌, ◌≡◌, ◌↔◌, refl, List, [], ◌∷◌, ◌++◌, Option, some, replicate, arith, done, stopped,
  assertion,
}
use turbo_net.Common.Slice.{write_at}
use turbo_net.Buffer.{
  Buffer, swap, make_space, ReadReply, received, WriteReply, accepted, moved, iov_lengths, read_fd,
  writeable_bytes, find_crlf, search_crlf, move_read_backward,
}
use turbo_net.Buffer.Inv.{IsValid}
use turbo_net.Buffer.Contents.{contents}
use turbo_net.Buffer.Methods.{swap_iff}
use turbo_net.Buffer.Socket.{read_fd_keeps_iff}
use turbo_net.Buffer.Search.{Finds, find_crlf-Finds}
use turbo_net.Buffer.Queue.{
  Op, push, read, read_all, reserve, send, nothing, text, sent, queue_run, queue_step, buffer_run,
  run_refines,
}

-- Eight cells of prepend area, two bytes read, "a\r\nb" readable and two cells free.
abbrev sample : Buffer
sample = record {
  store = replicate 10 0 ++ 97 ∷ 13 ∷ 10 ∷ 98 ∷ 0 ∷ 0 ∷ [];
  reader_index = 10;
  write_index = 14;
}

abbrev other : Buffer
other = record { store = replicate 9 7; reader_index = 8; write_index = 9 }

sample-IsValid : IsValid sample
sample-IsValid = omega arith

abbrev kernel_takes_two : List ℕ → WriteReply
kernel_takes_two bytes = accepted 2

abbrev calls : List Op
calls = read 1 ∷ push (1 ∷ 2 ∷ 3 ∷ []) ∷ send kernel_takes_two ∷ reserve 20 ∷ read_all ∷ []

-- The push finds the bytes moved to the front.
compacts :
    make_space sample 4
    ≡ done (record {
      store = replicate 8 0 ++ 97 ∷ 13 ∷ 10 ∷ 98 ∷ 10 ∷ 98 ∷ 0 ∷ 0 ∷ [];
      reader_index = 8;
      write_index = 12;
    })
unfolding make_space write_at
compacts = refl

too_many : move_read_backward sample 5 ≡ stopped assertion
unfolding move_read_backward
too_many = refl

run_refines_example :
    (b' : Buffer) × (buffer_run sample calls
      ≡ done (
        text (97 ∷ []) ∷ nothing ∷ sent (moved 2) ∷ nothing ∷ text (98 ∷ 1 ∷ 2 ∷ 3 ∷ []) ∷ [],
        b',
      ))
    × (contents b' ≡ [])
    × IsValid b'
unfolding queue_run queue_step
run_refines_example = run_refines sample calls _ [] sample-IsValid (omega arith) refl

abbrev gives_one : List ℕ → ReadReply
gives_one lengths = received (5 ∷ [])

read_fd_keeps_iff_example :
    ((b' : Buffer) × (read_fd gives_one sample ≡ done (moved 1, b'))
      × (contents b' ≡ contents sample ++ 5 ∷ []))
    ↔ (1 < writeable_bytes sample)
unfolding iov_lengths
read_fd_keeps_iff_example =
    read_fd_keeps_iff sample sample-IsValid gives_one (5 ∷ []) refl (omega arith) (omega arith)

abbrev long_input : List ℕ
long_input = replicate 14 1 ++ 2 ∷ 3 ∷ 4 ∷ []

abbrev gives_long : List ℕ → ReadReply
gives_long lengths = received long_input

-- Of 17 bytes received only the first three are kept.
find_crlf-Finds_example :
    (o : Option ℕ) × (find_crlf sample ≡ done o) × Finds 10 (contents sample) o
find_crlf-Finds_example = find_crlf-Finds sample sample-IsValid

finds_at_eleven : find_crlf sample ≡ done (some 11)
unfolding find_crlf search_crlf
finds_at_eleven = refl

swap_iff_example : (swap sample other ≡ (other, sample)) ↔ (◌≡◌ {A = ℕ} 14 9)
swap_iff_example = swap_iff sample other
