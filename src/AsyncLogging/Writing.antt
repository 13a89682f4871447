-- ===== src/AsyncLogging/Writing.antt =====
-- The writer's iteration: what it takes over, what it writes, and its two spare buffers.
use turbo_net.Common.{
  ℕ, zero, suc, ◌<◌, ◌≡◌, refl, ap, ap₂, sym, subst, ◌∙◌, inl, inr, false, List, [], ◌∷◌, ◌++◌, map,
  Option, none, some, length, take, ltb, arith, length-append, length-take, append_assoc, ltb→lt,
  Bool-cases, done,
}
use turbo_net.FixedBuffer.{FixedBuffer, reset, to_string}
use turbo_net.AsyncLogging.{
  Front, Writer, Output, appended, flushed, ready, lend_spare, collect, split_last, refill, backlog,
  trim, write_out, is_null,
}
use turbo_net.AsyncLogging.Appending.{
  texts, texts-rotated, front_text, IsBuffer, IsEmpty, IsSpare, IsReady, AllBuffers,
  AllBuffers-append, FrontOk,
}

-- The bytes handed to the `LogFile`.
abbrev pub output_text : List Output → List ℕ
output_text [] = []
output_text (appended bytes ∷ os) = bytes ++ output_text os
output_text (flushed ∷ os) = output_text os

pub output_text-append :
    (os ps : List Output) → output_text (os ++ ps) ≡ output_text os ++ output_text ps
output_text-append [] ps = refl
output_text-append (appended bytes ∷ os) ps =
    ap (◌++◌ bytes) (output_text-append os ps)
    ∙ sym (append_assoc bytes (output_text os) (output_text ps))
output_text-append (flushed ∷ os) ps = output_text-append os ps

output_text-buffers :
    (bs : List FixedBuffer)
    → output_text (map (λ b. appended (to_string b)) bs ++ flushed ∷ []) ≡ texts bs
output_text-buffers [] = refl
output_text-buffers (b ∷ bs) = ap (◌++◌ (to_string b)) (output_text-buffers bs)

-- What an iteration writes of these buffers.
abbrev pub written : (ℕ → List ℕ) → List FixedBuffer → List ℕ
written notice bs = output_text (trim notice bs).0 ++ texts (trim notice bs).1

is_null-false : (bs : List FixedBuffer) → 0 < length bs → is_null bs ≡ false
is_null-false [] h = absurd (omega arith)
is_null-false (b ∷ bs) h = refl

-- The writer once both pointers hold a buffer again.
abbrev rested : (ℕ → List ℕ) → Writer → FixedBuffer → FixedBuffer → Writer
rested notice w b1 b2 =
    let kept = trim notice w.buffers_to_write in
    record {
      new_buffer_1 = some b1;
      new_buffer_2 = some b2;
      buffers_to_write = [];
      output = w.output ++ (kept.0 ++ (map (λ b. appended (to_string b)) kept.1 ++ flushed ∷ []));
    }

write_out-done :
    (notice : ℕ → List ℕ) (w : Writer) (b1 : FixedBuffer) (front : List FixedBuffer)
    (b2 : FixedBuffer) (rest : List FixedBuffer)
    → is_null w.buffers_to_write ≡ false
    → w.new_buffer_1 ≡ none
    → refill none (trim notice w.buffers_to_write).1 ≡ done (b1, front)
    → refill w.new_buffer_2 front ≡ done (b2, rest)
    → write_out notice w ≡ done (rested notice w b1 b2)
unfolding write_out
write_out-done notice w b1 front b2 rest some_work gone e1 e2 = rw (some_work, gone, e1, e2)

module _ (size : ℕ) where
  -- At the top of the loop the writer holds two empty buffers and nothing to write.
  pub record AtTop (w : Writer) : Type 0 where
    pub first : IsReady size w.new_buffer_1
    pub second : IsReady size w.new_buffer_2
    pub nothing_left : w.buffers_to_write ≡ []

  -- Behind the critical section it has buffers to write, two of them if both of its own are gone.
  pub record AtWork (w : Writer) : Type 0 where
    pub first_gone : w.new_buffer_1 ≡ none
    pub second_spare : IsSpare size w.new_buffer_2
    pub buffers_ok : AllBuffers size w.buffers_to_write
    pub some_work : 0 < length w.buffers_to_write
    pub more_work : w.new_buffer_2 ≡ none → 1 < length w.buffers_to_write

  ready_lem :
      (o : Option FixedBuffer)
      → IsReady size o
      → (b : FixedBuffer) × (o ≡ some b) × (ready o ≡ done b) × IsEmpty size b
  unfolding ready
  ready_lem none h = absurd h
  ready_lem (some b) h = (b, refl, ground (arith, h.at_start), h)

  record Lent (next : Option FixedBuffer) (spare : FixedBuffer)
      (r : Option FixedBuffer × Option FixedBuffer) : Type 0 where
    now : IsSpare size r.0
    given : r.0 ≡ none → ⊥
    left : IsSpare size r.1
    why : r.1 ≡ none → next ≡ none

  lend_spare-Lent :
      (next : Option FixedBuffer) (spare : FixedBuffer)
      → IsSpare size next
      → IsEmpty size spare
      → Lent next spare (lend_spare next spare)
  unfolding lend_spare
  lend_spare-Lent none spare h e = record { now = e; given = λ p. cc; left = tt; why = λ p. refl }
  lend_spare-Lent (some b) spare h e = record { now = h; given = λ p. cc; left = e; why = λ p. cc }

  empty_text : {b : FixedBuffer} → IsEmpty size b → to_string b ≡ []
  empty_text {b} m = ap (λ n. take n b.cells) m.at_start

  -- What the critical section leaves.
  pub record Collected (f : Front) (w : Writer) (f' : Front) (w' : Writer) : Type 0 where
    pub front_ok : FrontOk size f'
    pub work : AtWork w'
    pub taken : texts w'.buffers_to_write ≡ front_text f
    pub left_empty : front_text f' ≡ []
    pub same_output : w'.output ≡ w.output
    pub same_running : f'.running ≡ f.running

  -- The writer takes over all that the front end holds, and no assertion fails.
  pub collect_lem :
      (f : Front) (w : Writer)
      → FrontOk size f
      → AtTop w
      → (f' : Front) × (w' : Writer) × (collect f w ≡ done (f', w')) × Collected f w f' w'
  unfolding collect
  collect_lem f w h t =
      let (b1, e1, r1, m1) = ready_lem w.new_buffer_1 t.first in
      let (b2, e2, r2, m2) = ready_lem w.new_buffer_2 t.second in
      let l = lend_spare-Lent f.next b2 h.spare_ok m2 in
      (
        record f { current = b1; next = (lend_spare f.next b2).0; buffers = w.buffers_to_write },
        record w {
          new_buffer_1 = none;
          new_buffer_2 = (lend_spare f.next b2).1;
          buffers_to_write = f.buffers ++ f.current ∷ [];
        },
        rw (r1, r2, ap is_null t.nothing_left),
        record {
          front_ok = record {
            current_ok = m1.buffer;
            spare_ok = l.now;
            buffers_ok = subst (AllBuffers size) (sym t.nothing_left) tt;
            waiting = λ p. absurd (l.given p);
          };
          work = record {
            first_gone = refl;
            second_spare = l.left;
            buffers_ok = AllBuffers-append size f.buffers f.current h.buffers_ok h.current_ok;
            some_work = omega (arith, length-append f.buffers (f.current ∷ []));
            more_work =
                λ p. omega (arith, length-append f.buffers (f.current ∷ []), h.waiting (l.why p));
          };
          taken = texts-rotated f.buffers f.current;
          left_empty = ap₂ ◌++◌ (ap texts t.nothing_left) (empty_text m1);
          same_output = refl;
          same_running = refl;
        },
      )

  record Split (bs : List FixedBuffer) (r : FixedBuffer × List FixedBuffer) : Type 0 where
    last_ok : IsBuffer size r.0
    front_ok : AllBuffers size r.1
    count : length bs ≡ suc (length r.1)

  split_last-Split :
      (b : FixedBuffer) (bs : List FixedBuffer)
      → AllBuffers size (b ∷ bs)
      → Split (b ∷ bs) (split_last b bs)
  unfolding split_last
  split_last-Split b [] h = record { last_ok = h.0; front_ok = tt; count = refl }
  split_last-Split b (c ∷ bs) h =
      let s = split_last-Split c bs h.1 in
      record { last_ok = s.last_ok; front_ok = (h.0, s.front_ok); count = ap suc s.count }

  reset-IsEmpty : (b : FixedBuffer) → IsBuffer size b → IsEmpty size (reset b)
  unfolding reset
  reset-IsEmpty b h = record {
    buffer = record { valid = omega (arith, h.valid); full_size = h.full_size };
    at_start = refl;
  }

  -- A pointer that holds a buffer keeps it; a null one takes the last buffer, emptied.
  refill-none :
      (bs : List FixedBuffer)
      → AllBuffers size bs
      → 0 < length bs
      → (b : FixedBuffer) × (front : List FixedBuffer) × (refill none bs ≡ done (b, front))
        × IsEmpty size b
        × AllBuffers size front
        × (length bs ≡ suc (length front))
  unfolding refill
  refill-none [] h p = absurd (omega arith)
  refill-none (c ∷ bs) h p =
      let s = split_last-Split c bs h in
      (
        reset (split_last c bs).0,
        (split_last c bs).1,
        refl,
        reset-IsEmpty _ s.last_ok,
        s.front_ok,
        s.count,
      )

  refill_spare :
      (o : Option FixedBuffer) (bs : List FixedBuffer)
      → IsSpare size o
      → AllBuffers size bs
      → (o ≡ none → 0 < length bs)
      → (b : FixedBuffer) × (front : List FixedBuffer) × (refill o bs ≡ done (b, front))
        × IsEmpty size b
  unfolding refill
  refill_spare none bs s h p =
      let (b, front, e, m, _, _) = refill-none bs h (p refl) in (b, front, e, m)
  refill_spare (some b) bs s h p = (b, bs, refl, s)

  AllBuffers-take :
      (n : ℕ) (bs : List FixedBuffer) → AllBuffers size bs → AllBuffers size (take n bs)
  AllBuffers-take zero bs h = tt
  AllBuffers-take (suc n) [] h = tt
  AllBuffers-take (suc n) (b ∷ bs) h = (h.0, AllBuffers-take n bs h.1)

  -- What `trim` keeps serves as well as all the buffers.
  trim-kept :
      (notice : ℕ → List ℕ) (bs : List FixedBuffer)
      → AllBuffers size bs
      → AllBuffers size (trim notice bs).1
        × (0 < length bs → 0 < length (trim notice bs).1)
        × (1 < length bs → 1 < length (trim notice bs).1)
  unfolding trim
  trim-kept notice bs h = elim (Bool-cases (ltb backlog (length bs))) [
    | inl many ↦ rw many (
      AllBuffers-take 2 bs h,
      λ p. omega (arith, length-take 2 bs, ltb→lt _ _ many),
      λ p. omega (arith, length-take 2 bs, ltb→lt _ _ many),
    )
    | inr few ↦ rw few (h, λ p. p, λ p. p)
  ]

  -- The writer writes the buffers in order, has two empty buffers again, and no assertion fails.
  pub write_out_lem :
      (notice : ℕ → List ℕ) (w : Writer)
      → AtWork w
      → (w' : Writer) × (write_out notice w ≡ done w')
        × AtTop w'
        × (output_text w'.output ≡ output_text w.output ++ written notice w.buffers_to_write)
  write_out_lem notice w h =
      let bs = w.buffers_to_write in
      let kept = trim notice bs in
      let (all, some_left, more_left) = trim-kept notice bs h.buffers_ok in
      let (b1, front, e1, m1, all1, count) = refill-none kept.1 all (some_left h.some_work) in
      let (b2, rest, e2, m2) =
        refill_spare w.new_buffer_2 front h.second_spare all1
          (λ p. omega (arith, count, more_left (h.more_work p))) in
      (
        rested notice w b1 b2,
        write_out-done notice w b1 front b2 rest (is_null-false bs h.some_work) h.first_gone e1 e2,
        record { first = m1; second = m2; nothing_left = refl },
        output_text-append w.output _
            ∙ ap (◌++◌ (output_text w.output)) (
                output_text-append kept.0 _
                ∙ ap (◌++◌ (output_text kept.0)) (output_text-buffers kept.1)),
      )
