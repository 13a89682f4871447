-- ===== src/Reactor/Building.antt =====
-- The constructor and the destructor of `EpollPoller`, of src/net/epoll_poller.cpp, and what a new
-- poller is ready for.
use turbo_net.Common.{
  ℕ, ◌≡◌, refl, Bool, List, Option, none, if◌then◌else◌, Outcome, done, ◌>>◌, true,
}
use turbo_net.Common.Int.{ℤ, pos, negsuc, is_negative}
use turbo_net.Logger.{sys_level, end_of_line}
use turbo_net.Reactor.{none_event, new_channel, Operation, Event, Poller, Store, Change}
use turbo_net.Reactor.Mirror.{Laws}
use turbo_net.Reactor.Sequences.{asked, AllLive, change_all, Apart, change_all_lem}

abbrev pub init_event_list_size : ℕ
init_event_list_size = 16

-- The members as the constructor sets them. `thread` is the thread of the loop, and `epoll` the
-- kernel's side of the descriptor.
abbrev pub new_poller : {K : Type 0} → ℕ → K → Poller K
new_poller thread epoll = record {
  thread = thread;
  channel_map = λ fd. none;
  epoll = epoll;
  event_list_size = init_event_list_size;
}

-- `epoll_create` answers with a descriptor or a failure, which is logged.
unfoldable pub make_poller : {K : Type 0} → ℕ → ℤ → K → Outcome (Poller K)
make_poller thread epoll_fd epoll =
    if is_negative epoll_fd
    then (end_of_line (sys_level true) >> done (new_poller thread epoll))
    else done (new_poller thread epoll)

-- A new poller, and new channels of the loop at `loop`, with these descriptors.
abbrev pub new_store : {K : Type 0} → ℕ → (ℕ → ℕ) → ℕ → K → Store K
new_store loop fds thread epoll = record {
  channels = λ c. new_channel loop (fds c);
  poller = new_poller thread epoll;
}

-- The constructor of `EpollPoller` returns, also if the kernel made no descriptor.
pub make_poller_lem :
    {K : Type 0} (thread : ℕ) (epoll_fd : ℤ) (epoll : K)
    → make_poller thread epoll_fd epoll ≡ done (new_poller thread epoll)
unfolding make_poller sys_level end_of_line
make_poller_lem thread (pos n) epoll = refl
make_poller_lem thread (negsuc n) epoll = refl

module _ {K : Type 0} (asserts : Bool) (epoll_ctl : K → Operation → ℕ → Event → Bool × K)
    (watched : K → ℕ → Option Event) (laws : Laws epoll_ctl watched) (tid : ℕ)
    (Live : ℕ → Type 0) where
  -- A new poller on an empty interest set, and new channels with descriptors of their own, are in
  -- step.
  new_store-Apart :
      (loop : ℕ) (fds : ℕ → ℕ) (epoll : K)
      → ((fd : ℕ) → watched epoll fd ≡ none)
      → ((c d : ℕ) → Live c → Live d → fds c ≡ fds d → c ≡ d)
      → Apart asserts epoll_ctl watched laws tid Live (new_store loop fds tid epoll)
  unfolding new_channel
  new_store-Apart loop fds epoll clear apart = record {
    mirrors = clear;
    belongs = λ c l. refl;
    distinct = apart;
    thread = refl;
  }

  -- From there any sequence of changes to live channels returns, and each channel then has the
  -- events that were asked of it.
  new_store-events :
      (loop : ℕ) (fds : ℕ → ℕ) (epoll : K) (ops : List (ℕ × Change))
      → ((fd : ℕ) → watched epoll fd ≡ none)
      → ((c d : ℕ) → Live c → Live d → fds c ≡ fds d → c ≡ d)
      → AllLive Live ops
      → (s : Store K) × (change_all asserts epoll_ctl tid ops (new_store loop fds tid epoll)
          ≡ done s)
        × ((c : ℕ) → Live c → (s.channels c).events ≡ asked c ops none_event)
  unfolding new_channel
  new_store-events loop fds epoll ops clear apart live =
      let (s, runs, still, all) =
        change_all_lem asserts epoll_ctl watched laws tid Live ops (new_store loop fds tid epoll)
          (new_store-Apart loop fds epoll clear apart) live in
      (s, runs, λ c l. (all c l).0)
