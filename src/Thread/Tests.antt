-- ===== src/Thread/Tests.antt =====
-- A thread that is started, and whose object goes before its function runs.
use turbo_net.Common.{
  suc, ◌≡◌, ◌↔◌, ◌⊎◌, refl, true, false, [], ◌∷◌, done, stopped, out_of_range, arith,
}
use turbo_net.CountDownLatch.{
  decrement, is_positive, is_zero, make_latch, move_to, test_count, wake, count_down, passed,
}
use turbo_net.CurrentThread.{Os, new_local, fill, construct_tid, cached_tid}
use turbo_net.Thread.{
  counted, working, idle, starting, joinable, Thread, set_default_name, make_thread, launch, start,
  end_start, destroy, child_step, starts, enters, returns, destroys, runs, Reach, here, next,
}
use turbo_net.Thread.Detached.{Reach-child_step}
use turbo_net.Thread.Lifetime.{Reach-end_start}

abbrev linux : Os
linux = record { gettid = suc; to_string = λ n. n ∷ [] }

abbrev begun : Thread
begun = launch joinable (make_thread linux 0 [])

abbrev counted_down : Thread
counted_down = record begun {
  tid = 8;
  latch = count_down begun.latch;
  child = counted;
  child_name = begun.name;
}

abbrev waited : Thread
waited = record counted_down { latch = test_count counted_down.latch 0 }

abbrev gone : Thread
gone = record waited { parent = idle; destroyed = true }

reach_begun : Reach linux 7 0 [] begun
unfolding make_thread set_default_name launch start
reach_begun = next here (starts joinable begun refl refl refl)

reach_waited : Reach linux 7 0 [] waited
unfolding make_thread set_default_name launch start child_step new_local fill construct_tid
    cached_tid decrement is_positive is_zero make_latch move_to test_count wake count_down
reach_waited =
    next
      (next (next (next reach_begun (runs false _ refl)) (runs false _ refl))
        (runs false counted_down refl))
      (enters refl refl)

reach_gone : Reach linux 7 0 [] gone
unfolding make_thread set_default_name launch start end_start destroy decrement is_positive is_zero
    make_latch move_to test_count wake count_down
reach_gone =
    next (next reach_waited (returns (record waited { parent = idle }) refl refl refl))
      (destroys gone refl refl refl)

waited_passed : waited.latch.threads 0 ≡ passed
unfolding launch make_thread decrement is_positive is_zero make_latch move_to test_count wake
    count_down
waited_passed = refl

waited_starting : waited.parent ≡ starting
unfolding launch
waited_starting = refl

Reach-end_start_example :
    (end_start waited ≡ done (record waited { parent = idle })) × (waited.tid ≡ 8)
Reach-end_start_example =
    Reach-end_start linux 7 0 [] waited (omega arith) reach_waited waited_starting waited_passed

Reach-child_step_example : (child_step linux 7 false gone.child gone ≡ stopped out_of_range) ↔ (
    ((gone.child ≡ counted) ⊎ (gone.child ≡ working))
    × (gone.destroyed ≡ true)
    × (gone.joined ≡ false))
Reach-child_step_example = Reach-child_step linux 7 0 [] false gone reach_gone
