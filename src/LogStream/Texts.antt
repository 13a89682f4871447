-- ===== src/LogStream/Texts.antt =====
-- A chain of `<<` on a buffer with room shows every value, in order.
use turbo_net.Common.{
  ℕ, ◌+◌, ◌-◌, ◌^◌, ◌≤◌, ◌<◌, ◌≡◌, refl, ap, sym, ◌∙◌, List, [], ◌∷◌, ◌++◌, reverse, none, some,
  length, arith, take_all, not_ltb, lt→ltb, le→leb, length-append, length-reverse, append-nil,
  append_assoc, if◌then◌else◌, done,
}
use turbo_net.Common.Int.{magnitude}
use turbo_net.FixedBuffer.{FixedBuffer, append, to_string}
use turbo_net.FixedBuffer.Text.{IsValid, Writes, append_lem, length-to_string}
use turbo_net.LogStream.{
  Value, bool, integer, double, char, c_string, pointer, string, buffer, stream, stream_all,
  integer_chars, format_double, max_numeric_size, null_text,
}
use turbo_net.LogStream.Store.{cells_stored, length-cells, front_stored}
use turbo_net.LogStream.Decimal.{format_integer_lem, length-integer_chars}
use turbo_net.LogStream.Hex.{hex_chars, format_pointer_lem, length-hex_chars}

-- What a value looks like.
abbrev pub shown : Value → List ℕ
shown (bool v) = if v then b'1' ∷ [] else b'0' ∷ []
shown (integer v) = reverse (integer_chars v)
shown (double printed) = printed
shown (char c) = c ∷ []
shown (c_string none) = null_text
shown (c_string (some s)) = s
shown (pointer v) = b'0' ∷ b'x' ∷ reverse (hex_chars v)
shown (string s) = s
shown (buffer v) = to_string v

abbrev pub all_shown : List Value → List ℕ
all_shown [] = []
all_shown (v ∷ vs) = shown v ++ all_shown vs

-- Integers and pointers of 64 bits, and what "%.12g" prints: at most 47 characters.
abbrev pub IsSound : Value → Type 0
IsSound (integer v) = magnitude v < 2 ^ 64
IsSound (double printed) = length printed < max_numeric_size
IsSound (pointer v) = v < 2 ^ 64
IsSound _ = Unit {0}

abbrev pub AllSound : List Value → Type 0
AllSound [] = Unit {0}
AllSound (v ∷ vs) = IsSound v × AllSound vs

-- The cells that a value asks to be free: 48 for a number.
abbrev pub need : Value → ℕ
need (integer v) = max_numeric_size
need (double printed) = max_numeric_size
need (pointer v) = max_numeric_size
need v = length (shown v)

abbrev pub needs : List Value → ℕ
needs [] = 0
needs (v ∷ vs) = need v + needs vs

module _ (b : FixedBuffer) (valid : IsValid b) where
  append-fits :
      (s : List ℕ)
      → b.cur + length s < length b.cells
      → (b' : FixedBuffer) × (append b s ≡ done b') × Writes b (to_string b ++ s) b'
  append-fits s h =
      let (b', e, w) = append_lem b s valid in
      (b', e, record { valid = w.valid; holds = w.holds ∙ rw (lt→ltb _ _ h) refl; size = w.size })

  format_double_lem :
      (printed : List ℕ)
      → length printed < max_numeric_size
      → b.cur + max_numeric_size ≤ length b.cells
      → (b' : FixedBuffer) × (format_double b printed ≡ done b')
        × Writes b (to_string b ++ printed) b'
  unfolding format_double
  format_double_lem printed short h =
      let room : b.cur + length printed + length {A = ℕ} [] + 1 ≤ length b.cells = omega arith in
      (
        record { cells = cells_stored b printed [] valid room; cur = b.cur + length printed },
        rw (
          not_ltb (length b.cells) (b.cur + max_numeric_size) h,
          take_all (max_numeric_size - 1) printed (omega arith),
          le→leb (b.cur + length (printed ++ 0 ∷ [])) (length b.cells)
              (omega (arith, length-append printed (0 ∷ []))),
        ),
        record {
          valid = omega (arith, valid, length-cells b printed [] valid room);
          holds = front_stored b printed [] valid room;
          size = length-cells b printed [] valid room;
        },
      )

  pub stream_lem :
      (v : Value)
      → IsSound v
      → b.cur + need v < length b.cells
      → (b' : FixedBuffer) × (stream b v ≡ done b') × Writes b (to_string b ++ shown v) b'
  unfolding stream
  stream_lem (bool v) s h = append-fits _ h
  stream_lem (integer v) s h = format_integer_lem b v valid s (omega arith)
  stream_lem (double printed) s h = format_double_lem printed s (omega arith)
  stream_lem (char c) s h = append-fits _ h
  stream_lem (c_string none) s h = append-fits _ h
  stream_lem (c_string (some t)) s h = append-fits _ h
  stream_lem (pointer v) s h =
      let (b', e, w) = format_pointer_lem b v valid s (omega arith) in
      (
        b',
        e,
        record {
          valid = w.valid;
          holds = w.holds ∙ append_assoc (to_string b) (b'0' ∷ b'x' ∷ []) (reverse (hex_chars v));
          size = w.size;
        },
      )
  stream_lem (string t) s h = append-fits _ h
  stream_lem (buffer t) s h = append-fits _ h

length-shown : (v : Value) → IsSound v → length (shown v) ≤ need v
length-shown (integer v) s =
    omega (arith, length-reverse (integer_chars v), length-integer_chars v s)
length-shown (double printed) s = omega arith
length-shown (pointer v) s = omega (arith, length-reverse (hex_chars v), length-hex_chars v s)
length-shown (bool v) s = omega arith
length-shown (char c) s = omega arith
length-shown (c_string none) s = omega arith
length-shown (c_string (some t)) s = omega arith
length-shown (string t) s = omega arith
length-shown (buffer t) s = omega arith

pub length-all_shown : (vs : List Value) → AllSound vs → length (all_shown vs) ≤ needs vs
length-all_shown [] s = omega arith
length-all_shown (v ∷ vs) s =
    omega
      (arith, length-append (shown v) (all_shown vs), length-shown v s.0, length-all_shown vs s.1)

-- A chain of `<<` on a valid buffer with room for all the values, each of which is sound, never
-- stops the run, and adds what they look like in order.
pub stream_all_lem :
    (b : FixedBuffer) (vs : List Value)
    → IsValid b
    → AllSound vs
    → b.cur + needs vs < length b.cells
    → (b' : FixedBuffer) × (stream_all b vs ≡ done b') × Writes b (to_string b ++ all_shown vs) b'
unfolding stream_all
stream_all_lem b [] valid s h =
    (b, refl, record { valid = valid; holds = sym (append-nil (to_string b)); size = refl })
stream_all_lem b (v ∷ vs) valid s h =
    let (b1, e, w) = stream_lem b valid v s.0 (omega arith) in
    let (b2, f, u) = stream_all_lem b1 vs w.valid s.1 (
      omega (
        arith,
        w.size,
        ap length w.holds,
        length-to_string b1 w.valid,
        length-to_string b valid,
        length-append (to_string b) (shown v),
        length-shown v s.0,
      )) in
    (
      b2,
      rw e f,
      record {
        valid = u.valid;
        holds =
            u.holds
            ∙ ap (λ t. t ++ all_shown vs) w.holds
            ∙ append_assoc (to_string b) (shown v) (all_shown vs);
        size = u.size ∙ w.size;
      },
    )
