-- ===== src/CountDownLatch/Waiting.antt =====
-- When a thread passes the latch, and that none sleeps on.
use turbo_net.Common.{
  ℕ, zero, suc, ◌+◌, ◌≤◌, ◌<◌, ◌≡◌, inl, inr, false, ◌==◌, if◌then◌else◌, Bool-cases, arith,
}
use turbo_net.Common.Int.{ℤ, pos, negsuc}
use turbo_net.CountDownLatch.{
  decrement, is_positive, is_zero, Where, outside, asleep, woken, passed, Latch, make_latch,
  move_to, test_count, wake, count_down, Step, enters, rises, tests, counts, Reach, here, next,
}

-- `z` is `count` less `downs`.
abbrev Counts : ℕ → ℕ → ℤ → Type 0
Counts count downs (pos n) = n + downs ≡ count
Counts count downs (negsuc n) = downs ≡ count + suc n

decrement-Counts :
    (count downs : ℕ) (z : ℤ) → Counts count downs z → Counts count (suc downs) (decrement z)
unfolding decrement
decrement-Counts count downs (pos zero) h = omega arith
decrement-Counts count downs (pos (suc n)) h = omega arith
decrement-Counts count downs (negsuc n) h = omega arith

-- What a thread's place says of the calls so far.
abbrev pub PlaceOk : ℕ → ℕ → Where → Type 0
PlaceOk count downs outside = Unit {0}
PlaceOk count downs asleep = downs < count
PlaceOk count downs woken = Unit {0}
PlaceOk count downs passed = count ≤ downs

tested :
    (count downs : ℕ) (z : ℤ)
    → Counts count downs z
    → PlaceOk count downs (if is_positive z then asleep else passed)
unfolding is_positive
tested count downs (pos zero) h = omega arith
tested count downs (pos (suc n)) h = omega arith
tested count downs (negsuc n) h = omega arith

woken_up :
    (count downs : ℕ) (w : Where) → PlaceOk count downs w → PlaceOk count (suc downs) (wake w)
unfolding wake
woken_up count downs outside h = tt
woken_up count downs asleep h = tt
woken_up count downs woken h = tt
woken_up count downs passed h = omega arith

-- Without a `NotifyAll` the count is not yet 0.
left_asleep :
    (count downs : ℕ) (z : ℤ) (w : Where)
    → Counts count (suc downs) z
    → is_zero z ≡ false
    → PlaceOk count downs w
    → PlaceOk count (suc downs) w
unfolding is_zero
left_asleep count downs z outside c e h = tt
left_asleep count downs (pos zero) asleep c e h = cc
left_asleep count downs (pos (suc n)) asleep c e h = omega arith
left_asleep count downs (negsuc n) asleep c e h = absurd (omega arith)
left_asleep count downs z woken c e h = tt
left_asleep count downs z passed c e h = omega arith

module _ (count : ℕ) where
  record Ok (l : Latch) : Type 0 where
    counted : Counts count l.downs l.count
    places : (t : ℕ) → PlaceOk count l.downs (l.threads t)

  move_to-Ok : (l : Latch) (t : ℕ) (w : Where) → Ok l → PlaceOk count l.downs w → Ok (move_to l t w)
  unfolding move_to
  move_to-Ok l t w h p = record {
    counted = h.counted;
    places = λ u. elim (Bool-cases (u == t)) [ inl e ↦ rw e p | inr e ↦ rw e (h.places u) ];
  }

  count_down-Ok : (l : Latch) → Ok l → Ok (count_down l)
  unfolding count_down
  count_down-Ok l h =
      let c = decrement-Counts count l.downs l.count h.counted in
      record {
        counted = c;
        places = λ t. elim (Bool-cases (is_zero (decrement l.count))) [
          | inl e ↦ rw e (woken_up count l.downs (l.threads t) (h.places t))
          | inr e ↦
              rw e (left_asleep count l.downs (decrement l.count) (l.threads t) c e (h.places t))
        ];
      }

  Step-Ok : {l m : Latch} → Step l m → Ok l → Ok m
  unfolding test_count
  Step-Ok {l} (enters t e) h = move_to-Ok l t _ h (tested count l.downs l.count h.counted)
  Step-Ok {l} (rises t e) h = move_to-Ok l t woken h tt
  Step-Ok {l} (tests t e) h = move_to-Ok l t _ h (tested count l.downs l.count h.counted)
  Step-Ok {l} counts h = count_down-Ok l h

  Reach-Ok : {l : Latch} → Reach count l → Ok l
  unfolding make_latch
  Reach-Ok here = record { counted = omega arith; places = λ t. tt }
  Reach-Ok (next r s) = Step-Ok s (Reach-Ok r)

  -- In every state that the threads can reach, a thread has passed `Wait` only if `CountDown` was
  -- called at least as often as the latch counts, and sleeps on the condition only if it was
  -- called less often.
  pub Reach-PlaceOk : {l : Latch} → Reach count l → (t : ℕ) → PlaceOk count l.downs (l.threads t)
  Reach-PlaceOk r t = (Reach-Ok r).places t
