-- ===== src/AsyncLogging/System/Loss.antt =====
-- Which messages reach the log file, and in which order.
use turbo_net.Common.{
  done-injective, ℕ, ◌^◌, ◌<◌, ◌≡◌, refl, ap, ap₂, sym, ◌∙◌, Bool, true, false, ◌||◌, List, [], ◌∷◌,
  ◌++◌, length, ltb, arith, append_assoc, append-nil,
}
use turbo_net.AsyncLogging.{
  Front, Writer, make, new_buffer, start, stop, no_writer, new_writer, epilogue, trim, backlog,
  flushed,
}
use turbo_net.AsyncLogging.Appending.{texts, front_text, kept, append_front_lem}
use turbo_net.AsyncLogging.Writing.{
  collect_lem, write_out_lem, output_text, output_text-append, written,
}
use turbo_net.AsyncLogging.System.{
  System, Stage, unstarted, born, at_top, at_work, finished, initial, Step, starts, throws, begins,
  appends, collects, writes, stops, exits, Reach, here, next,
}
use turbo_net.AsyncLogging.System.Safety.{Ok, Reach-Ok, at, prologue-writer}

-- The bytes that were accepted and are not written yet, oldest first.
abbrev pub pending : System → List ℕ
pending s = texts s.writer.buffers_to_write ++ front_text s.front

abbrev pub file_text : System → List ℕ
file_text s = output_text s.writer.output

both_false : (a b : Bool) → (a || b) ≡ false → (a ≡ false) × (b ≡ false)
both_false a b e = ground arith

written_whole :
    (notice : ℕ → List ℕ) (w : Writer)
    → ltb backlog (length w.buffers_to_write) ≡ false
    → written notice w.buffers_to_write ≡ texts w.buffers_to_write
unfolding trim
written_whole notice w e = rw e refl

module _ (size : ℕ) (small : size < 2 ^ 31) (notice : ℕ → List ℕ) where
  -- Before the writer begins.
  abbrev is_early : Stage → Bool
  is_early unstarted = true
  is_early born = true
  is_early at_top = false
  is_early at_work = false
  is_early finished = false

  record Kept (s : System) : Type 0 where
    fresh_writer : is_early s.stage ≡ true → s.writer ≡ no_writer
    all_kept : s.trimmed ≡ false → s.accepted ≡ file_text s ++ pending s

  initial-Kept : Kept (initial size notice)
  unfolding initial make new_buffer
  initial-Kept = record { fresh_writer = λ e. refl; all_kept = λ e. refl }

  appends_kept : (a o t f f' m : List ℕ) → a ≡ o ++ (t ++ f) → f' ≡ f ++ m → a ++ m ≡ o ++ (t ++ f')
  appends_kept a o t f f' m e g =
      ap (λ x. x ++ m) e
      ∙ append_assoc o (t ++ f) m
      ∙ ap (◌++◌ o) (append_assoc t f m ∙ ap (◌++◌ t) (sym g))

  text_of : Front → Writer → List ℕ
  text_of f w = output_text w.output ++ (texts w.buffers_to_write ++ front_text f)

  new_writer-text : (f : Front) → text_of f no_writer ≡ text_of f (new_writer size)
  unfolding new_writer text_of
  new_writer-text f = refl

  Step-Kept : {s t : System} → Ok size s → Kept s → Step size notice s t → Kept t
  unfolding start stop epilogue text_of
  Step-Kept {s} h k (starts e) = record {
    fresh_writer = λ p. k.fresh_writer (ap is_early e);
    all_kept = k.all_kept;
  }
  Step-Kept {s} h k (throws e) = record { fresh_writer = k.fresh_writer; all_kept = k.all_kept }
  Step-Kept {s} h k (begins w e r) = record {
    fresh_writer = λ p. cc;
    all_kept = λ p.
        k.all_kept p
        ∙ ap (text_of s.front) (k.fresh_writer (ap is_early e))
        ∙ new_writer-text s.front
        ∙ ap (text_of s.front) (prologue-writer size s.front w r);
  }
  Step-Kept {s} h k (appends m f e) = record {
    fresh_writer = k.fresh_writer;
    all_kept = λ p.
        let (f', e', _, text, _) = append_front_lem size small s.front m h.front_ok in
        appends_kept s.accepted (file_text s) (texts s.writer.buffers_to_write) (front_text s.front)
          (front_text f) (kept size m) (k.all_kept p)
          (ap front_text (done-injective (sym e ∙ e')) ∙ text);
  }
  Step-Kept {s} h k (collects f w q r e) =
      let (f', w', e', c) = collect_lem size s.front s.writer h.front_ok (at size q h) in
      record {
        fresh_writer = λ p. cc;
        all_kept = λ p.
            k.all_kept p
            ∙ ap₂ ◌++◌ (ap output_text (sym c.same_output)) (
                ap (λ bs. texts bs ++ front_text s.front) (at size q h).nothing_left
                ∙ sym (append-nil (front_text s.front))
                ∙ ap₂ ◌++◌ (sym c.taken) (sym c.left_empty))
            ∙ ap
                (λ (g : Front × Writer).
                  output_text g.1.output ++ (texts g.1.buffers_to_write ++ front_text g.0))
                (done-injective (sym e' ∙ e));
      }
  Step-Kept {s} h k (writes w q e) =
      let (w', e', top, text) = write_out_lem size notice s.writer (at size q h) in
      record {
        fresh_writer = λ p. cc;
        all_kept = λ p.
            let (untrimmed, few) = both_false s.trimmed _ p in
            let o = file_text s in
            k.all_kept untrimmed
            ∙ sym (append_assoc o (texts s.writer.buffers_to_write) (front_text s.front))
            ∙ ap (λ x. x ++ front_text s.front)
                (ap (◌++◌ o) (sym (written_whole notice s.writer few)) ∙ sym text)
            ∙ ap (λ bs. output_text w'.output ++ (texts bs ++ front_text s.front))
                (sym top.nothing_left)
            ∙ ap
                (λ (v : Writer).
                  output_text v.output ++ (texts v.buffers_to_write ++ front_text s.front))
                (done-injective (sym e' ∙ e));
      }
  Step-Kept {s} h k stops = record { fresh_writer = k.fresh_writer; all_kept = k.all_kept }
  Step-Kept {s} h k (exits q r) = record {
    fresh_writer = λ p. cc;
    all_kept = λ p.
        k.all_kept p
        ∙ ap (λ o. o ++ pending s)
            (sym (output_text-append s.writer.output (flushed ∷ []) ∙ append-nil (file_text s)));
  }

  Reach-Kept : {s : System} → Reach size notice s → Kept s
  Reach-Kept here = initial-Kept
  Reach-Kept (next r st) = Step-Kept (Reach-Ok size small notice r) (Reach-Kept r) st

  -- With buffers of less than 2^31 cells: as long as the writer never meets more than 25 buffers,
  -- no interleaving of the threads loses or reorders a byte of the messages that are shorter than
  -- a buffer. In the order of the calls of `Append` they are in the log file, in the writer's
  -- buffers or in the front end.
  pub Reach-accepted :
      {s : System} → Reach size notice s → s.trimmed ≡ false → s.accepted ≡ file_text s ++ pending s
  Reach-accepted r e = (Reach-Kept r).all_kept e

  -- With buffers of less than 2^31 cells, `Stop` loses what the front end still holds: from any
  -- state before the test of the loop, in which the writer never met more than 25 buffers, it may
  -- finish with just those bytes missing from the log file.
  pub stop_loses :
      {s : System}
      → Reach size notice s
      → s.trimmed ≡ false
      → s.stage ≡ at_top
      → (t : System) × Reach size notice t
        × (t.stage ≡ finished)
        × (t.accepted ≡ s.accepted)
        × (s.accepted ≡ file_text t ++ front_text s.front)
  unfolding stop epilogue
  stop_loses {s} r e q =
      let top = at size q (Reach-Ok size small notice r) in
      (
        record s { front = stop s.front; writer = epilogue s.writer; stage = finished },
        next (next r stops) (exits q refl),
        refl,
        refl,
        Reach-accepted r e
            ∙ ap₂ ◌++◌
                (sym (output_text-append s.writer.output (flushed ∷ []) ∙ append-nil (file_text s)))
                (ap (λ bs. texts bs ++ front_text s.front) top.nothing_left),
      )
