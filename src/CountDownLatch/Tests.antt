-- ===== src/CountDownLatch/Tests.antt =====
-- A thread that waits for one call.
use turbo_net.Common.{refl}
use turbo_net.CountDownLatch.{
  decrement, is_positive, is_zero, Latch, make_latch, move_to, test_count, wake, count_down, enters,
  tests, counts, Reach, here, next,
}
use turbo_net.CountDownLatch.Waiting.{PlaceOk, Reach-PlaceOk}

abbrev through : Latch
unfolding test_count count_down make_latch
through = test_count (count_down (test_count (make_latch 1) 5)) 5

reach_through : Reach 1 through
unfolding decrement is_positive is_zero make_latch move_to test_count wake count_down
reach_through = next (next (next here (enters 5 refl)) counts) (tests 5 refl)

Reach-PlaceOk_example : PlaceOk 1 through.downs (through.threads 5)
Reach-PlaceOk_example = Reach-PlaceOk 1 reach_through 5
