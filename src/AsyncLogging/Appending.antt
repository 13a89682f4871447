-- ===== src/AsyncLogging/Appending.antt =====
-- The critical sections of `AsyncLogging`: `Append`, and what the writer takes over.
use turbo_net.Common.{
  ℕ, ◌+◌, ◌^◌, ◌<◌, ◌≡◌, refl, ap, ap₂, sym, subst, take, length-replicate, ◌∙◌, true, List, [],
  ◌∷◌, ◌++◌, Option, none, some, length, ltb, if◌then◌else◌, arith, length-append, append_assoc,
  append-nil, Bool-cases, inl, inr, lt→ltb, not_ltb, done,
}
use native.Mathlib.Decide.{dec_lt}
use turbo_net.FixedBuffer.{FixedBuffer, fresh, append, to_string}
use turbo_net.FixedBuffer.Text.{IsValid, append_lem, fresh-Writes}
use turbo_net.AsyncLogging.{Front, append_front, fits, or_new}

-- The texts of the buffers, in order.
abbrev pub texts : List FixedBuffer → List ℕ
texts [] = []
texts (b ∷ bs) = to_string b ++ texts bs

pub texts-append : (bs cs : List FixedBuffer) → texts (bs ++ cs) ≡ texts bs ++ texts cs
texts-append [] cs = refl
texts-append (b ∷ bs) cs =
    ap (◌++◌ (to_string b)) (texts-append bs cs)
    ∙ sym (append_assoc (to_string b) (texts bs) (texts cs))

pub texts-rotated :
    (bs : List FixedBuffer) (b : FixedBuffer) → texts (bs ++ b ∷ []) ≡ texts bs ++ to_string b
texts-rotated bs b = texts-append bs (b ∷ []) ∙ ap (◌++◌ (texts bs)) (append-nil (to_string b))

-- The bytes that the front end holds.
abbrev pub front_text : Front → List ℕ
front_text f = texts f.buffers ++ to_string f.current

-- A message is logged if it is shorter than a buffer, and dropped otherwise.
abbrev pub kept : ℕ → List ℕ → List ℕ
kept size m = if ltb (length m) size then m else []

module _ (size : ℕ) where
  -- A buffer of this size; one that holds nothing.
  pub record IsBuffer (b : FixedBuffer) : Type 0 where
    pub valid : IsValid b
    pub full_size : length b.cells ≡ size

  pub record IsEmpty (b : FixedBuffer) : Type 0 where
    pub buffer : IsBuffer b
    pub at_start : b.cur ≡ 0

  -- Nothing, or an empty buffer; an empty buffer.
  abbrev pub IsSpare : Option FixedBuffer → Type 0
  IsSpare none = Unit {0}
  IsSpare (some b) = IsEmpty b

  abbrev pub IsReady : Option FixedBuffer → Type 0
  IsReady none = ⊥
  IsReady (some b) = IsEmpty b

  abbrev pub AllBuffers : List FixedBuffer → Type 0
  AllBuffers [] = Unit {0}
  AllBuffers (b ∷ bs) = IsBuffer b × AllBuffers bs

  -- The front end between two critical sections: if the spare buffer is gone, a full one waits.
  pub record FrontOk (f : Front) : Type 0 where
    pub current_ok : IsBuffer f.current
    pub spare_ok : IsSpare f.next
    pub buffers_ok : AllBuffers f.buffers
    pub waiting : (f.next ≡ none) → 0 < length f.buffers

  pub AllBuffers-append :
      (bs : List FixedBuffer) (b : FixedBuffer)
      → AllBuffers bs
      → IsBuffer b
      → AllBuffers (bs ++ b ∷ [])
  AllBuffers-append [] b h k = (k, tt)
  AllBuffers-append (c ∷ bs) b h k = (h.0, AllBuffers-append bs b h.1 k)

  pub fresh-IsEmpty : size < 2 ^ 31 → IsEmpty (fresh size)
  unfolding fresh
  fresh-IsEmpty h =
      let w = fresh-Writes size h in
      record {
        buffer = record { valid = w.valid; full_size = length-replicate {A = ℕ} size 0 };
        at_start = refl;
      }

module _ (size : ℕ) (small : size < 2 ^ 31) where
  or_new-IsEmpty : (o : Option FixedBuffer) → IsSpare size o → IsEmpty size (or_new size o)
  unfolding or_new
  or_new-IsEmpty none h = fresh-IsEmpty size small
  or_new-IsEmpty (some b) h = h

  -- What `FixedBuffer::Append` does to a buffer of this size.
  record Filled (b : FixedBuffer) (m : List ℕ) (b' : FixedBuffer) : Type 0 where
    runs : append b m ≡ done b'
    ok : IsBuffer size b'
    text : to_string b' ≡ (if ltb (b.cur + length m) size then to_string b ++ m else to_string b)

  fill : (b : FixedBuffer) (m : List ℕ) → IsBuffer size b → (b' : FixedBuffer) × Filled b m b'
  fill b m h =
      let (b', e, w) = append_lem b m h.valid in
      (
        b',
        record {
          runs = e;
          ok = record { valid = w.valid; full_size = w.size ∙ h.full_size };
          text =
              w.holds
              ∙ ap (λ n. if ltb (b.cur + length m) n then to_string b ++ m else to_string b)
                  h.full_size;
        },
      )

  fits-kept :
      (b : FixedBuffer) (m t : List ℕ)
      → IsBuffer size b
      → fits b (length m) ≡ true
      → (if ltb (b.cur + length m) size then t ++ m else t) ≡ t ++ kept size m
  unfolding fits
  fits-kept b m t h e = elim (dec_lt (length m) size) [
    | yes short ↦
        let now : b.cur + length m < size = ground (arith, h, h.full_size) in
        rw (lt→ltb _ _ now, lt→ltb _ _ short)
    | no long ↦
        rw (not_ltb (b.cur + length m) size (omega arith), not_ltb (length m) size (omega arith))
          (sym (append-nil t))
  ]

  empty-kept :
      (b : FixedBuffer) (m : List ℕ)
      → IsEmpty size b
      → (if ltb (b.cur + length m) size then to_string b ++ m else to_string b) ≡ kept size m
  empty-kept b m h =
      subst
        (λ n.
          (if ltb (n + length m) size then take n b.cells ++ m else take n b.cells) ≡ kept size m)
        (sym h.at_start) (ground arith)

  -- A message goes behind all that the front end holds, whole, unless it is as long as a buffer.
  pub append_front_lem :
      (f : Front) (m : List ℕ)
      → FrontOk size f
      → (f' : Front) × (append_front size f m ≡ done f')
        × FrontOk size f'
        × (front_text f' ≡ front_text f ++ kept size m)
        × (f'.running ≡ f.running)
  unfolding append_front
  append_front_lem f m h = elim (Bool-cases (fits f.current (length m))) [
    | inl room ↦
        let (b, w) = fill f.current m h.current_ok in
        (
          record f { current = b },
          rw (room, w.runs),
          record {
            current_ok = w.ok;
            spare_ok = h.spare_ok;
            buffers_ok = h.buffers_ok;
            waiting = h.waiting;
          },
          ap (◌++◌ (texts f.buffers))
                (w.text ∙ fits-kept f.current m (to_string f.current) h.current_ok room)
              ∙ sym (append_assoc (texts f.buffers) (to_string f.current) (kept size m)),
          refl,
        )
    | inr full ↦
        let empty = or_new-IsEmpty f.next h.spare_ok in
        let (b, w) = fill (or_new size f.next) m empty.buffer in
        (
          record f { current = b; next = none; buffers = f.buffers ++ f.current ∷ [] },
          rw (full, w.runs),
          record {
            current_ok = w.ok;
            spare_ok = tt;
            buffers_ok = AllBuffers-append size f.buffers f.current h.buffers_ok h.current_ok;
            waiting = λ e. omega (arith, length-append f.buffers (f.current ∷ []));
          },
          ap₂ ◌++◌ (texts-rotated f.buffers f.current)
              (w.text ∙ empty-kept (or_new size f.next) m empty),
          refl,
        )
  ]
