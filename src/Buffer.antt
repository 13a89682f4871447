-- ===== src/Buffer.antt =====
-- src/net/buffer.h and src/net/buffer.cpp: the I/O buffer of a connection. A method that changes
-- the object returns the new object, in a build that keeps assertions.
pub mod Inv
pub mod Contents
pub mod Socket
pub mod Queue
pub mod Search
pub mod Methods
mod Tests
use turbo_net.Common.{
  ℕ, zero, suc, ◌+◌, ◌-◌, ◌^◌, ◌⊎◌, inl, inr, Bool, true, false, ◌&&◌, List, [], ◌∷◌, ◌++◌, Option,
  none, some, length, take, drop, replicate, ltb, leb, ◌==◌, if◌then◌else◌, add_size, sub_size,
  Outcome, done, stopped, assertion, out_of_range, length_error, ◌>>=◌, ◌>>◌, check,
}
use turbo_net.Common.Slice.{write_at}
use turbo_net.Common.Memory.{load, copy_to}

-- Bytes are moved and compared with two constants, never computed with: a byte is a number.
pub record Buffer : Type 0 where
  pub store : List ℕ
  pub reader_index : ℕ
  pub write_index : ℕ

abbrev pub cheap_prepend : ℕ
cheap_prepend = 8

abbrev pub initial_size : ℕ
initial_size = 1024

-- `max_size()` of a `std::vector<char>`.
abbrev pub max_store : ℕ
max_store = 2 ^ 63 - 1

pub readable_bytes : Buffer → ℕ
readable_bytes b = sub_size b.write_index b.reader_index

pub writeable_bytes : Buffer → ℕ
writeable_bytes b = sub_size (length b.store) b.write_index

pub prependable_bytes : Buffer → ℕ
prependable_bytes b = b.reader_index

-- The constructor. The vector's constructor refuses what is longer than `max_size`.
pub make : ℕ → Outcome Buffer
unfolding readable_bytes writeable_bytes prependable_bytes
make size = do
  check (leb (add_size cheap_prepend size) max_store) length_error
  let b : Buffer = record {
    store = replicate (add_size cheap_prepend size) 0;
    reader_index = cheap_prepend;
    write_index = cheap_prepend;
  }
  check (readable_bytes b == 0) assertion
  check (writeable_bytes b == size) assertion
  check (prependable_bytes b == cheap_prepend) assertion
  done b

-- `a.Swap(b)`: the third statement swaps `a.write_index` with itself.
pub swap : Buffer → Buffer → Buffer × Buffer
swap a b = (
  record { store = b.store; reader_index = b.reader_index; write_index = a.write_index },
  record { store = a.store; reader_index = a.reader_index; write_index = b.write_index },
)

-- `buffer_.resize(n)`: new cells hold 0.
pub resize : List ℕ → ℕ → Outcome (List ℕ)
resize s n = do check (leb n max_store) length_error; done (take n s ++ replicate (n - length s) 0)

pub make_space : Buffer → ℕ → Outcome Buffer
unfolding readable_bytes writeable_bytes prependable_bytes resize load copy_to
make_space b len =
    if ltb (add_size (writeable_bytes b) (prependable_bytes b)) (add_size cheap_prepend len)
    then (do s ← resize b.store (add_size b.write_index len); done (record b { store = s }))
    else (do
      check (ltb cheap_prepend b.reader_index) assertion
      let read_able = readable_bytes b
      bytes ← load b.store b.reader_index read_able
      s ← copy_to b.store cheap_prepend bytes
      let b' : Buffer = record {
        store = s;
        reader_index = cheap_prepend;
        write_index = add_size cheap_prepend read_able;
      }
      check (read_able == readable_bytes b') assertion
      done b')

pub move_write_backward : Buffer → ℕ → Outcome Buffer
unfolding writeable_bytes
move_write_backward b len = do
  check (leb len (writeable_bytes b)) assertion
  done (record b { write_index = add_size b.write_index len })

pub ensure_writeable_bytes : Buffer → ℕ → Outcome Buffer
unfolding writeable_bytes
ensure_writeable_bytes b len = do
  b' ← (if ltb (writeable_bytes b) len then make_space b len else done b)
  check (leb len (writeable_bytes b')) assertion
  done b'

pub move_read_all : Buffer → Buffer
move_read_all b = record b { reader_index = cheap_prepend; write_index = cheap_prepend }

pub move_read_backward : Buffer → ℕ → Outcome Buffer
unfolding readable_bytes move_read_all
move_read_backward b len = do
  check (leb len (readable_bytes b)) assertion
  if ltb len (readable_bytes b)
      then done (record b { reader_index = add_size b.reader_index len })
      else done (move_read_all b)

pub read_to_string : Buffer → ℕ → Outcome (List ℕ × Buffer)
unfolding readable_bytes load move_read_backward
read_to_string b len = do
  check (leb len (readable_bytes b)) assertion
  result ← load b.store b.reader_index len
  b' ← move_read_backward b len
  done (result, b')

pub read_all_to_string : Buffer → Outcome (List ℕ × Buffer)
unfolding readable_bytes
read_all_to_string b = read_to_string b (readable_bytes b)

-- `PushBack(data, len)`, where `source` is the memory at `data`: all `len` bytes must lie in it.
pub push_back_range : Buffer → List ℕ → ℕ → Outcome Buffer
unfolding load copy_to move_write_backward
push_back_range b source len = do
  b' ← ensure_writeable_bytes b len
  bytes ← load source 0 len
  s ← copy_to b'.store b'.write_index bytes
  move_write_backward (record b' { store = s }) len

-- `PushBack(const std::string &)`.
pub push_back : Buffer → List ℕ → Outcome Buffer
push_back b bytes = push_back_range b bytes (length bytes)

pub push_front : Buffer → List ℕ → Outcome Buffer
unfolding prependable_bytes copy_to
push_front b bytes = do
  check (leb (length bytes) (prependable_bytes b)) assertion
  let reader = sub_size b.reader_index (length bytes)
  s ← copy_to b.store reader bytes
  done (record b { store = s; reader_index = reader })

-- What a call of the kernel answers: an `errno`, the bytes received, or the number of bytes taken.
pub data ReadReply : Type 0 where
  read_failed : ℕ → ReadReply
  received : List ℕ → ReadReply

pub data WriteReply : Type 0 where
  write_failed : ℕ → WriteReply
  accepted : ℕ → WriteReply

-- What `ReadFd` and `WriteFd` return: -1 with `*errno_info` set, or the count.
pub data Transfer : Type 0 where
  failed : ℕ → Transfer
  moved : ℕ → Transfer

abbrev pub extra_size : ℕ
extra_size = 65536

-- A zeroed array of `n` cells whose first cells were written.
pub fill_array : ℕ → List ℕ → List ℕ
fill_array n bytes = write_at (replicate n 0) 0 bytes

-- `iovec` lengths: the second array is offered only if the first is shorter than it.
pub iov_lengths : Buffer → List ℕ
unfolding writeable_bytes
iov_lengths b =
    if ltb (writeable_bytes b) extra_size
    then writeable_bytes b ∷ extra_size ∷ []
    else writeable_bytes b ∷ []

-- The rest of `ReadFd` once `readv` has stored `bytes`: first behind the readable bytes, then in
-- `extra_buf`.
pub receive : Buffer → List ℕ → Outcome (Transfer × Buffer)
unfolding writeable_bytes copy_to move_write_backward
receive b bytes = do
  let write_able = writeable_bytes b
  let n = length bytes
  s ← copy_to b.store b.write_index (take write_able bytes)
  let extra_buf = fill_array extra_size (drop write_able bytes)
  let filled : Buffer = record b { store = s }
  b' ←
      (if ltb n write_able
        then move_write_backward filled n
        else push_back_range (record filled { write_index = length s }) extra_buf
            (sub_size n (length s)))
  done (moved n, b')

-- `ReadFd`, for what `readv` answers to the lengths that it is offered.
pub read_fd : (List ℕ → ReadReply) → Buffer → Outcome (Transfer × Buffer)
unfolding iov_lengths
read_fd readv b = elim (readv (iov_lengths b)) [
  | read_failed errno ↦ done (failed errno, b)
  | received bytes ↦ receive b bytes
]

pub take_written : Buffer → WriteReply → Outcome (Transfer × Buffer)
unfolding move_read_backward
take_written b (write_failed errno) = done (failed errno, b)
take_written b (accepted n) = do b' ← move_read_backward b n; done (moved n, b')

-- `WriteFd`, for what `write` answers to the bytes that it is handed.
pub write_fd : (List ℕ → WriteReply) → Buffer → Outcome (Transfer × Buffer)
unfolding readable_bytes load take_written
write_fd write b = do
  bytes ← load b.store b.reader_index (readable_bytes b)
  take_written b (write bytes)

abbrev pub carriage_return : ℕ
carriage_return = b'\r'

abbrev pub line_feed : ℕ
line_feed = b'\n'

-- `std::search` for the two bytes: the index of the first match, or the end.
pub search_crlf : List ℕ → ℕ
search_crlf [] = 0
search_crlf (x ∷ []) = 1
search_crlf (x ∷ y ∷ r) =
    let rest = search_crlf (y ∷ r) in if x == carriage_return && y == line_feed then 0 else suc rest

-- `FindCRLF`: an index into the storage in place of the address.
pub find_crlf : Buffer → Outcome (Option ℕ)
unfolding readable_bytes load
find_crlf b = do
  bytes ← load b.store b.reader_index (readable_bytes b)
  let crlf = add_size b.reader_index (search_crlf bytes)
  done (if crlf == b.write_index then none else some crlf)
