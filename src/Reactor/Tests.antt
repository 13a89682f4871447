-- ===== src/Reactor/Tests.antt =====
-- A kernel that keeps its interest set in a function, and runs against it.
use turbo_net.Common.{
  ℕ, ◌≡◌, ◌↔◌, ◌<◌, refl, Bool, true, false, List, [], ◌∷◌, Option, none, some, done, arith,
}
use turbo_net.Reactor.{
  none_event, k_new, k_add, new_channel, Operation, ctl_add, ctl_mod, ctl_del, Event, Store, set,
  set_index, assert_in_loop_thread, assert_that, unregister, is_none_events, remove_channel,
  have_channel, update, enable_reading, enable_writing, disable_all, Change,
}
use turbo_net.Reactor.Mirror.{Laws}
use turbo_net.Reactor.Changing.{Follows}
use turbo_net.Reactor.Removing.{remove_channel_lem}
use turbo_net.Reactor.Sequences.{asked, change_all, Apart, WatchedAs, change_all_lem}
use turbo_net.Reactor.EventLoop.{EventLoop, happened, poll}
use turbo_net.Reactor.Faults.{latest, poll_iff, remove_channel_keeps}

abbrev Kernel : Type 0
Kernel = ℕ → Option Event

abbrev answer_add : Option Event → Kernel → ℕ → Event → Bool × Kernel
answer_add none k fd e = (true, set k fd (some e))
answer_add (some old) k fd e = (false, k)

abbrev answer_change : Option Event → Kernel → ℕ → Option Event → Bool × Kernel
answer_change none k fd e = (false, k)
answer_change (some old) k fd e = (true, set k fd e)

abbrev control : Kernel → Operation → ℕ → Event → Bool × Kernel
control k ctl_add fd e = answer_add (k fd) k fd e
control k ctl_mod fd e = answer_change (k fd) k fd (some e)
control k ctl_del fd e = answer_change (k fd) k fd none

abbrev watched : Kernel → ℕ → Option Event
watched k = k

control-Laws : Laws control watched
control-Laws = record {
  adds = λ k fd e h. (set k fd (some e), rw h refl, refl);
  changes = λ k fd e old h. (set k fd (some e), rw h refl, refl);
  deletes = λ k fd e old h. (set k fd none, rw h refl, refl);
}

abbrev empty : Store Kernel
empty = record {
  channels = λ c. new_channel 7 c;
  poller = record { thread = 9; channel_map = λ fd. none; epoll = λ fd. none; event_list_size = 2 };
}

abbrev calls : List (ℕ × Change)
calls = (3, enable_reading) ∷ (4, enable_writing) ∷ (3, disable_all) ∷ []

empty-Apart : Apart true control watched control-Laws 9 (λ c. Unit {0}) empty
unfolding new_channel
empty-Apart = record {
  mirrors = λ fd. refl;
  belongs = λ c l. refl;
  distinct = λ c d lc ld e. e;
  thread = refl;
}

change_all_lem_example :
    (s' : Store Kernel) × (change_all true control 9 calls empty ≡ done s')
    × Apart true control watched control-Laws 9 (λ c. Unit {0}) s'
    × ((c : ℕ)
        → Unit {0}
        → ((s'.channels c).events ≡ asked c calls none_event)
          × WatchedAs true control watched control-Laws 9
              (λ c. Unit {0})
              (s'.channels c).index
              c
              (asked c calls none_event)
              (s'.poller.epoll (s'.channels c).fd))
unfolding new_channel
change_all_lem_example =
    change_all_lem true control watched control-Laws 9 (λ c. Unit {0}) calls empty empty-Apart
      (tt, (tt, (tt, tt)))

abbrev full : Store Kernel
full = record {
  channels = λ c. record (new_channel 7 c) { index = k_add };
  poller = record {
    thread = 9;
    channel_map = λ fd. some fd;
    epoll = λ fd. some (record { events = none_event; ptr = fd });
    event_list_size = 2;
  };
}

remove_channel_lem_example :
    (s' : Store Kernel) × (remove_channel true control 9 full 3 ≡ done s')
    × Follows true control watched control-Laws full 3 none_event s'
    × ((s'.channels 3).index ≡ k_new)
    × (s'.poller.epoll 3 ≡ none)
unfolding new_channel is_none_events
remove_channel_lem_example =
    remove_channel_lem control watched control-Laws 9 full 3 (λ fd. (refl, refl)) refl refl refl
      (λ e. cc)

abbrev report : List Event
report = record { events = none_event; ptr = 3 } ∷ []

poll_iff_example :
    ((s' : Store Kernel) × (poll true control (happened report) full (5 ∷ [])
        ≡ done (s', 5 ∷ 3 ∷ []))
      × ((c : ℕ)
          → s'.channels c ≡ record (full.channels c) { revents = latest c report none_event }))
    ↔ (1 < 2)
unfolding new_channel
poll_iff_example = poll_iff control report full (5 ∷ []) (omega arith)

abbrev first_loop : EventLoop Kernel
first_loop = record { self = 7; thread_id = 9; looping = false; quit = false; poller = none }

abbrev removed : Store Kernel
removed = record {
  channels = set full.channels 3 (new_channel 7 3);
  poller = record full.poller { epoll = set full.poller.epoll 3 none };
}

remove_channel_keeps_example :
    ((removed.channels 3).index ≡ k_new) × (have_channel 9 removed 3 ≡ done true)
unfolding remove_channel new_channel assert_in_loop_thread assert_that unregister update set_index
remove_channel_keeps_example = remove_channel_keeps control 9 full removed 3 refl refl
