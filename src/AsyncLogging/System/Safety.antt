-- ===== src/AsyncLogging/System/Safety.antt =====
-- No call of the logger can fail, whatever the threads do.
use turbo_net.Common.{
  done-injective, ap, Outcome, assertion, check, ◌>>◌, Bool-cases, inl, inr, ℕ, ◌^◌, ◌<◌, ◌≡◌, refl,
  sym, subst, ◌∙◌, Bool, true, false, List, length, replicate, length-replicate, arith, done,
}
use turbo_net.AsyncLogging.{Front, Writer, make, start, stop, new_writer, prologue, new_buffer}
use turbo_net.AsyncLogging.Appending.{IsEmpty, FrontOk, append_front_lem}
use turbo_net.AsyncLogging.Writing.{AtTop, AtWork, collect_lem, write_out_lem}
use turbo_net.AsyncLogging.System.{
  System, Stage, unstarted, born, at_top, at_work, finished, initial, Step, starts, throws, begins,
  appends, collects, writes, stops, exits, Reach, here, next,
}

module _ (size : ℕ) where
  -- What the writer's locals are at each stage.
  abbrev pub WriterOk : Stage → Writer → Type 0
  WriterOk unstarted w = Unit {0}
  WriterOk born w = Unit {0}
  WriterOk at_top w = AtTop size w
  WriterOk at_work w = AtWork size w
  WriterOk finished w = Unit {0}

  pub record Ok (s : System) : Type 0 where
    pub front_ok : FrontOk size s.front
    pub writer_ok : WriterOk s.stage s.writer

  pub at : {s : System} {p : Stage} → s.stage ≡ p → Ok s → WriterOk p s.writer
  at {s} e h = subst (λ p. WriterOk p s.writer) e h.writer_ok

pub prologue-writer :
    (size : ℕ) (f : Front) (w : Writer) → prologue size f ≡ done w → new_writer size ≡ w
unfolding prologue
prologue-writer size f w p =
    let run : Bool → Outcome Writer = λ b. check b assertion >> done (new_writer size) in
    elim (Bool-cases f.running) [
      | inl e ↦ done-injective (ap run (sym e) ∙ p)
      | inr e ↦ let r = ap run e in absurd cc
    ]

module _ (size : ℕ) (small : size < 2 ^ 31) (notice : ℕ → List ℕ) where
  new_buffer-IsEmpty : IsEmpty size (new_buffer size)
  unfolding new_buffer
  new_buffer-IsEmpty = record {
    buffer = record { valid = omega (arith, cleared, zeroed); full_size = cleared ∙ zeroed };
    at_start = refl;
  }
    where
      zeroed : length (replicate {A = ℕ} size 0) ≡ size
      zeroed = length-replicate {A = ℕ} size 0

      cleared :
          length (replicate {A = ℕ} (length (replicate {A = ℕ} size 0)) 0)
          ≡ length (replicate {A = ℕ} size 0)
      cleared = length-replicate {A = ℕ} (length (replicate {A = ℕ} size 0)) 0

  initial-Ok : Ok size (initial size notice)
  unfolding initial make
  initial-Ok = record {
    front_ok = record {
      current_ok = new_buffer-IsEmpty.buffer;
      spare_ok = new_buffer-IsEmpty;
      buffers_ok = tt;
      waiting = λ e. cc;
    };
    writer_ok = tt;
  }

  new_writer-AtTop : AtTop size (new_writer size)
  unfolding new_writer
  new_writer-AtTop = record {
    first = new_buffer-IsEmpty;
    second = new_buffer-IsEmpty;
    nothing_left = refl;
  }

  set_running-FrontOk :
      (f : Front) (r : Bool) → FrontOk size f → FrontOk size (record f { running = r })
  set_running-FrontOk f r h = record {
    current_ok = h.current_ok;
    spare_ok = h.spare_ok;
    buffers_ok = h.buffers_ok;
    waiting = h.waiting;
  }

  Step-Ok : {s t : System} → Step size notice s t → Ok size s → Ok size t
  unfolding start stop
  Step-Ok {s} (starts e) h = record {
    front_ok = set_running-FrontOk s.front true h.front_ok;
    writer_ok = tt;
  }
  Step-Ok {s} (throws e) h = record {
    front_ok = set_running-FrontOk s.front true h.front_ok;
    writer_ok = h.writer_ok;
  }
  Step-Ok {s} (begins w p e) h = record {
    front_ok = h.front_ok;
    writer_ok = subst (AtTop size) (prologue-writer size s.front w e) new_writer-AtTop;
  }
  Step-Ok {s} (appends m f e) h =
      let (f', e', ok, _, _) = append_front_lem size small s.front m h.front_ok in
      record {
        front_ok = subst (FrontOk size) (done-injective (sym e' ∙ e)) ok;
        writer_ok = h.writer_ok;
      }
  Step-Ok {s} (collects f w p r e) h =
      let (f', w', e', c) = collect_lem size s.front s.writer h.front_ok (at size p h) in
      let same = done-injective (sym e' ∙ e) in
      record {
        front_ok = subst (λ (q : Front × Writer). FrontOk size q.0) same c.front_ok;
        writer_ok = subst (λ (q : Front × Writer). AtWork size q.1) same c.work;
      }
  Step-Ok {s} (writes w p e) h =
      let (w', e', top, _) = write_out_lem size notice s.writer (at size p h) in
      record {
        front_ok = h.front_ok;
        writer_ok = subst (AtTop size) (done-injective (sym e' ∙ e)) top;
      }
  Step-Ok {s} stops h = record {
    front_ok = set_running-FrontOk s.front false h.front_ok;
    writer_ok = h.writer_ok;
  }
  Step-Ok {s} (exits p r) h = record { front_ok = h.front_ok; writer_ok = tt }

  pub Reach-Ok : {s : System} → Reach size notice s → Ok size s
  Reach-Ok here = initial-Ok
  Reach-Ok (next r st) = Step-Ok st (Reach-Ok r)
