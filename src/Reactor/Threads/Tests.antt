-- ===== src/Reactor/Threads/Tests.antt =====
-- Two threads with a loop each.
use turbo_net.Common.{ℕ, ◌≡◌, ◌↔◌, refl, some, none, done, stopped, logged_fatal, false, arith}
use turbo_net.Reactor.{set}
use turbo_net.Reactor.EventLoop.{EventLoop, make_loop}
use turbo_net.Reactor.Threads.{
  Threads, create, destroy, get_event_loop_current_thread, no_loops, creates, Reach, here, next,
}
use turbo_net.Reactor.Threads.Slots.{owner_of, Reach-Agree, destroy_foreign}

abbrev loop_at : ℕ → ℕ → EventLoop ℕ
loop_at self tid = record {
  self = self;
  thread_id = tid;
  looping = false;
  quit = false;
  poller = none;
}

abbrev one_loop : Threads ℕ
one_loop = record (no_loops {K = ℕ}) {
  slots = set (no_loops {K = ℕ}).slots 1 (some 100);
  loops = set (no_loops {K = ℕ}).loops 100 (some (loop_at 100 1));
}

abbrev two_loops : Threads ℕ
two_loops = record one_loop {
  slots = set one_loop.slots 2 (some 200);
  loops = set one_loop.loops 200 (some (loop_at 200 2));
}

reach_two : Reach two_loops
unfolding create make_loop no_loops set
reach_two = next (next here (creates 100 1 one_loop refl refl)) (creates 200 2 two_loops refl refl)

Reach-Agree_example :
    (get_event_loop_current_thread 2 two_loops ≡ some 200)
    ↔ (owner_of (two_loops.loops 200) ≡ some 2)
unfolding no_loops
Reach-Agree_example = Reach-Agree 2 200 reach_two refl

destroy_foreign_example :
    (q : Threads ℕ) × (destroy 100 2 (loop_at 100 1) two_loops ≡ done q)
    × (get_event_loop_current_thread 1 q ≡ some 100)
    × (q.loops 100 ≡ none)
    × (create 300 1 q ≡ stopped logged_fatal)
    × (get_event_loop_current_thread 2 q ≡ none)
unfolding no_loops set
destroy_foreign_example =
    destroy_foreign 100 2 300 (loop_at 100 1) reach_two refl refl refl (λ e. omega (arith, e))
