-- ===== src/CountDownLatch.antt =====
-- src/base/count_down_latch.h and src/base/count_down_latch.cpp: threads that wait for a number of
-- calls.
pub mod Waiting
mod Tests
use turbo_net.Common.{ℕ, zero, suc, ◌+◌, ◌≡◌, Bool, true, false, ◌==◌, if◌then◌else◌}
use turbo_net.Common.Int.{ℤ, pos, negsuc}

-- `--count_`, above the least `int`.
unfoldable pub decrement : ℤ → ℤ
decrement (pos zero) = negsuc 0
decrement (pos (suc n)) = pos n
decrement (negsuc n) = negsuc (suc n)

unfoldable pub is_positive : ℤ → Bool
is_positive (pos zero) = false
is_positive (pos (suc n)) = true
is_positive (negsuc n) = false

unfoldable pub is_zero : ℤ → Bool
is_zero (pos zero) = true
is_zero (pos (suc n)) = false
is_zero (negsuc n) = false

-- Where a thread stands: not in `Wait`, asleep on the condition, woken, past `Wait`.
pub data Where : Type 0 where
  outside asleep woken passed : Where

-- `downs` counts the calls of `CountDown`; the code does not.
pub record Latch : Type 0 where
  pub count : ℤ
  pub threads : ℕ → Where
  pub downs : ℕ

unfoldable pub make_latch : ℕ → Latch
make_latch count = record { count = pos count; threads = λ t. outside; downs = 0 }

unfoldable pub move_to : Latch → ℕ → Where → Latch
move_to l t w = record l { threads = λ u. if u == t then w else l.threads u }

-- The test of the loop in `Wait`, under the lock, by the thread `t`.
unfoldable pub test_count : Latch → ℕ → Latch
test_count l t = move_to l t (if is_positive l.count then asleep else passed)

-- `NotifyAll`.
unfoldable pub wake : Where → Where
wake asleep = woken
wake outside = outside
wake woken = woken
wake passed = passed

unfoldable pub count_down : Latch → Latch
count_down l =
    let count = decrement l.count in
    record {
      count = count;
      threads = if is_zero count then (λ t. wake (l.threads t)) else l.threads;
      downs = suc l.downs;
    }

-- The lock makes a call of `CountDown`, and each test of `Wait`, one step. A thread may also wake up
-- for no reason.
pub data Step (l : Latch) : Latch → Type 0 where
  enters : (t : ℕ) → l.threads t ≡ outside → Step l (test_count l t)
  rises : (t : ℕ) → l.threads t ≡ asleep → Step l (move_to l t woken)
  tests : (t : ℕ) → l.threads t ≡ woken → Step l (test_count l t)
  counts : Step l (count_down l)

pub data Reach (count : ℕ) : Latch → Type 0 where
  here : Reach count (make_latch count)
  next : {l m : Latch} → Reach count l → Step l m → Reach count m
