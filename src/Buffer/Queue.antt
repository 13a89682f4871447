-- ===== src/Buffer/Queue.antt =====
-- The buffer against a queue of bytes: a client's calls in order, with what each returns.
use turbo_net.Common.{
  ℕ, ◌+◌, ◌≤◌, ◌≡◌, refl, sym, ap, subst, ◌∙◌, List, [], ◌∷◌, ◌++◌, Option, none, some, length,
  take, drop, arith, leb, leb→le, if◌then◌else◌, take_all, Bool-cases, Option-cases, inl, inr,
  Outcome, done, ◌>>=◌,
}
use turbo_net.Buffer.{
  Buffer, max_store, ensure_writeable_bytes, read_to_string, read_all_to_string, push_back,
  write_fd, WriteReply, write_failed, accepted, Transfer, failed, moved,
}
use turbo_net.Buffer.Inv.{IsValid}
use turbo_net.Buffer.Contents.{contents, ensure_room}
use turbo_net.Buffer.Methods.{
  Holds, push_back_range_lem, read_to_string_lem, read_all_to_string_lem,
}
use turbo_net.Buffer.Socket.{write_fd_fails, write_fd_lem}

-- A client's call: `PushBack`, `ReadToString`, `ReadAllToString`, `EnsureWriteableBytes`, `WriteFd`.
pub data Op : Type 0 where
  push : List ℕ → Op
  read : ℕ → Op
  read_all : Op
  reserve : ℕ → Op
  send : (List ℕ → WriteReply) → Op

pub data Reply : Type 0 where
  nothing : Reply
  text : List ℕ → Reply
  sent : Transfer → Reply

-- The same call on a queue of bytes; `none` is a call that asks for more bytes than there are.
abbrev drop_sent : List ℕ → WriteReply → Option (Reply × List ℕ)
drop_sent q (write_failed errno) = some (sent (failed errno), q)
drop_sent q (accepted n) = if leb n (length q) then some (sent (moved n), drop n q) else none

unfoldable pub queue_step : List ℕ → Op → Option (Reply × List ℕ)
queue_step q (push bytes) = some (nothing, q ++ bytes)
queue_step q (read n) = if leb n (length q) then some (text (take n q), drop n q) else none
queue_step q read_all = some (text q, [])
queue_step q (reserve n) = some (nothing, q)
queue_step q (send write) = drop_sent q (write q)

unfoldable pub queue_run : List ℕ → List Op → Option (List Reply × List ℕ)
queue_run q [] = some ([], q)
queue_run q (op ∷ ops) = elim (queue_step q op) [
  | none ↦ none
  | some (r, q1) ↦ elim (queue_run q1 ops) [ none ↦ none | some (rs, q2) ↦ some (r ∷ rs, q2) ]
]

pub buffer_step : Buffer → Op → Outcome (Reply × Buffer)
buffer_step b (push bytes) = push_back b bytes >>= λ b'. done (nothing, b')
buffer_step b (read n) = read_to_string b n >>= λ (s, b'). done (text s, b')
buffer_step b read_all = read_all_to_string b >>= λ (s, b'). done (text s, b')
buffer_step b (reserve n) = ensure_writeable_bytes b n >>= λ b'. done (nothing, b')
buffer_step b (send write) = write_fd write b >>= λ (t, b'). done (sent t, b')

pub buffer_run : Buffer → List Op → Outcome (List Reply × Buffer)
buffer_run b [] = done ([], b)
buffer_run b (op ∷ ops) =
    buffer_step b op >>= λ (r, b1). buffer_run b1 ops >>= λ (rs, b2). done (r ∷ rs, b2)

-- The cells that a call may ask for, and all the calls of a run.
abbrev pub space : Op → ℕ
space (push bytes) = length bytes
space (read n) = 0
space read_all = 0
space (reserve n) = n
space (send write) = 0

abbrev pub spaces : List Op → ℕ
spaces [] = 0
spaces (op ∷ ops) = space op + spaces ops

-- The call does on the buffer what it does on the queue.
record Follows (b : Buffer) (op : Op) (r : Reply) (q : List ℕ) : Type 0 where
  after : Buffer
  runs : buffer_step b op ≡ done (r, after)
  state : Holds q (b.write_index + space op) after

module _ (b : Buffer) (v : IsValid b) where
  send-Follows :
      (write : List ℕ → WriteReply) (w : WriteReply) (r : Reply) (q : List ℕ)
      → write (contents b) ≡ w
      → drop_sent (contents b) w ≡ some (r, q)
      → Follows b (send write) r q
  unfolding buffer_step
  send-Follows write (write_failed errno) r q e s = record {
    after = b;
    runs = rw (write_fd_fails b v write errno e) (ground arith);
    state = record { valid = v; holds = ground arith; below = omega arith };
  }
  send-Follows write (accepted n) r q e s = elim (Bool-cases (leb n (length (contents b)))) [
    | inl fits ↦
        let (b', p, h) = write_fd_lem b v write n e (leb→le _ _ fits) in
        record {
          after = b';
          runs = rw p (ground (arith, s, fits));
          state = record {
            valid = h.valid;
            holds = h.holds ∙ ground (arith, s, fits);
            below = omega (arith, h.below);
          };
        }
    | inr over ↦ absurd (ground (arith, s, over))
  ]

  step-Follows :
      (op : Op) (r : Reply) (q : List ℕ)
      → b.write_index + space op ≤ max_store
      → queue_step (contents b) op ≡ some (r, q)
      → Follows b op r q
  unfolding buffer_step queue_step push_back
  step-Follows (push bytes) r q m s =
      let (b', p, h) = push_back_range_lem b v bytes (length bytes) (omega arith) m in
      record {
        after = b';
        runs = rw p (ground arith);
        state = record {
          valid = h.valid;
          holds = h.holds ∙ ap (◌++◌ (contents b)) (take_all _ bytes (omega arith)) ∙ ground arith;
          below = h.below;
        };
      }
  step-Follows (read n) r q m s = elim (Bool-cases (leb n (length (contents b)))) [
    | inl fits ↦
        let (b', p, h) = read_to_string_lem b v n (leb→le _ _ fits) in
        record {
          after = b';
          runs = rw p (ground (arith, s, fits));
          state = record {
            valid = h.valid;
            holds = h.holds ∙ ground (arith, s, fits);
            below = omega (arith, h.below);
          };
        }
    | inr over ↦ absurd (ground (arith, s, over))
  ]
  step-Follows read_all r q m s =
      let (b', p, h) = read_all_to_string_lem b v in
      record {
        after = b';
        runs = rw p (ground arith);
        state = record {
          valid = h.valid;
          holds = h.holds ∙ ground arith;
          below = omega (arith, h.below);
        };
      }
  step-Follows (reserve n) r q m s =
      let (b', p, h) = ensure_room b n v m in
      record {
        after = b';
        runs = rw p (ground arith);
        state = record {
          valid = h.valid;
          holds = h.same ∙ ground arith;
          below = omega (arith, h.low);
        };
      }
  step-Follows (send write) r q m s = send-Follows write (write (contents b)) r q refl s

queue_run-cons :
    (q : List ℕ) (op : Op) (ops : List Op) (rs : List Reply) (q' : List ℕ)
    → queue_run q (op ∷ ops) ≡ some (rs, q')
    → (r : Reply) × (q1 : List ℕ) × (rest : List Reply) × (queue_step q op ≡ some (r, q1))
      × (queue_run q1 ops ≡ some (rest, q'))
      × (rs ≡ r ∷ rest)
unfolding queue_run
queue_run-cons q op ops rs q' e = elim (Option-cases (queue_step q op)) [
  | inl missing ↦ absurd (ground (arith, e, missing))
  | inr ((r, q1), s) ↦ elim (Option-cases (queue_run q1 ops)) [
    | inl missing ↦ absurd (ground (arith, e, s, missing))
    | inr ((rest, q2), t) ↦ (r, q1, rest, s, ground (arith, e, s, t), ground (arith, e, s, t))
  ]
]

-- As long as the storage may grow by what the calls ask for, a valid buffer answers every sequence
-- of calls of PushBack, ReadToString, ReadAllToString, EnsureWriteableBytes and WriteFd that the
-- queue of its bytes answers, with the same replies; it stays valid, holds the bytes of the queue,
-- and no assertion fails.
pub run_refines :
    (b : Buffer) (ops : List Op) (rs : List Reply) (q : List ℕ)
    → IsValid b
    → b.write_index + spaces ops ≤ max_store
    → queue_run (contents b) ops ≡ some (rs, q)
    → (b' : Buffer) × (buffer_run b ops ≡ done (rs, b')) × (contents b' ≡ q) × IsValid b'
unfolding buffer_run queue_run
run_refines b [] rs q v m e = (b, ground arith, ground arith, v)
run_refines b (op ∷ ops) rs q v m e =
    let (r, q1, rest, s, t, u) = queue_run-cons (contents b) op ops rs q e in
    let f = step-Follows b v op r q1 (omega arith) s in
    let (b2, p, h, w) =
      run_refines f.after ops rest q f.state.valid (omega (arith, f.state.below))
        (subst (λ c. queue_run c ops ≡ some (rest, q)) (sym f.state.holds) t) in
    (b2, rw (f.runs, p) (ap (λ (z : List Reply). done (z, b2)) (sym u)), h, w)
