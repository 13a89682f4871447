-- ===== src/Mutex/Tests.antt =====
-- Two threads, of which the first waits on a condition.
use turbo_net.Common.{suc, refl, [], ◌∷◌, arith}
use turbo_net.CurrentThread.{Os, new_local, fill, construct_tid, cached_tid}
use turbo_net.Mutex.{
  MutexLock, make_mutex, move_to, touch, assign_holder, un_assign_holder, is_locked_by_this_thread,
  assert_locked, acquire, release, begin_wait, locks, assigns, waits, sleeps, Reach, here, next,
  falling, inside, asleep,
}
use turbo_net.Mutex.Holding.{Guarded, Reach-Guarded}

abbrev linux : Os
linux = record { gettid = suc; to_string = λ n. n ∷ [] }

abbrev first_inside : MutexLock
first_inside = move_to (assign_holder linux (acquire make_mutex 0) 0) 0 inside

abbrev first_waits : MutexLock
first_waits = move_to (un_assign_holder (touch linux first_inside 0)) 0 falling

abbrev second_inside : MutexLock
second_inside = move_to (assign_holder linux (acquire (release first_waits 0 asleep) 1) 1) 1 inside

reach_waits : Reach linux first_waits
unfolding make_mutex move_to touch assign_holder un_assign_holder is_locked_by_this_thread
    assert_locked acquire release begin_wait new_local fill construct_tid cached_tid
reach_waits =
    next (next (next here (locks 0 refl refl)) (assigns 0 refl)) (waits 0 first_waits refl)

reach_second : Reach linux second_inside
unfolding make_mutex move_to touch assign_holder un_assign_holder acquire release
reach_second = next (next (next reach_waits (sleeps 0 refl)) (locks 1 refl refl)) (assigns 1 refl)

Reach-Guarded_example : Guarded linux second_inside
Reach-Guarded_example = Reach-Guarded linux (λ t. omega arith) (λ t u e. omega arith) reach_second
