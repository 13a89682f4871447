-- ===== src/Reactor.antt =====
-- src/net/channel.h, src/net/channel.cpp, src/net/poller.h, src/net/poller.cpp,
-- src/net/epoll_poller.h, src/net/epoll_poller.cpp, src/net/event_loop.h and
-- src/net/event_loop.cpp: the channels of a loop, and their registration with the kernel.
pub mod Mirror
pub mod Registering
pub mod Changing
pub mod Removing
pub mod Sequences
pub mod EventLoop
pub mod Faults
pub mod Threads
pub mod Interest
pub mod Building
mod Tests
use turbo_net.Common.{
  ℕ, ◌+◌, ◌*◌, ◌%◌, ◌^◌, Bool, true, false, not, ◌&&◌, ◌||◌, List, [], ◌∷◌, Option, none, some,
  length, ltb, ◌==◌, if◌then◌else◌, Outcome, done, stopped, assertion, null_deref, check, ◌>>=◌,
  ◌>>◌,
}
use turbo_net.Logger.{fatal, sys_level, end_of_line}

-- An event mask: the bits that the code names, and the rest of it as a number.
pub record Events : Type 0 where
  pub epoll_in : Bool
  pub epoll_pri : Bool
  pub epoll_out : Bool
  pub epoll_err : Bool
  pub epoll_hup : Bool
  pub epoll_rdhup : Bool
  pub others : ℕ

abbrev pub none_event : Events
none_event = record {
  epoll_in = false;
  epoll_pri = false;
  epoll_out = false;
  epoll_err = false;
  epoll_hup = false;
  epoll_rdhup = false;
  others = 0;
}

-- `kNew`, `kAdd` and `kDel`, the only values of `index_`.
pub data Index : Type 0 where
  k_new k_add k_del : Index

-- `loop` is the address of the channel's loop. The callbacks stand in `CallBacks`.
pub record Channel : Type 0 where
  pub loop : ℕ
  pub fd : ℕ
  pub events : Events
  pub revents : Events
  pub index : Index
  pub event_handing : Bool
  pub add_to_loop : Bool

pub new_channel : ℕ → ℕ → Channel
new_channel loop fd = record {
  loop = loop;
  fd = fd;
  events = none_event;
  revents = none_event;
  index = k_new;
  event_handing = false;
  add_to_loop = false;
}

unfoldable pub is_none_events : Channel → Bool
is_none_events c =
    let e = c.events in
    not (
      e.epoll_in
      || (e.epoll_pri || (e.epoll_out || (e.epoll_err || (e.epoll_hup || e.epoll_rdhup)))))
    && (e.others == 0)

-- `IsReading` and `IsWriting`, each with the mask that the source gives it.
unfoldable pub is_reading : Channel → Bool
is_reading c = c.events.epoll_out

unfoldable pub is_writing : Channel → Bool
is_writing c = c.events.epoll_in || c.events.epoll_pri

-- The methods that change `events_` and call `Update`.
pub data Change : Type 0 where
  enable_reading disable_reading enable_writing disable_writing disable_all : Change

unfoldable pub changed : Change → Events → Events
changed enable_reading e = record e { epoll_in = true; epoll_pri = true }
changed disable_reading e = record e { epoll_in = false; epoll_pri = false }
changed enable_writing e = record e { epoll_out = true }
changed disable_writing e = record e { epoll_out = false }
changed disable_all e = none_event

-- An empty `std::function` is `none`. A callback changes the state `S` around the channel, and
-- leaves `revents_` alone.
pub record CallBacks {ℓ} (S : Type ℓ) : Type ℓ where
  pub read : Option (ℕ → S → S)
  pub write : Option (S → S)
  pub close : Option (S → S)
  pub error : Option (S → S)

unfoldable pub call {ℓ} : {S : Type ℓ} → Bool → Option (S → S) → S → S
call false f s = s
call true none s = s
call true (some f) s = f s

unfoldable pub at_time {ℓ} : {S : Type ℓ} → ℕ → Option (ℕ → S → S) → Option (S → S)
at_time t none = none
at_time t (some f) = some (f t)

-- `HandleEvent`, for the received events.
unfoldable pub handle_event {ℓ} : {S : Type ℓ} → CallBacks S → Events → ℕ → S → S
unfolding call at_time
handle_event cb r t s =
    let s1 = call (r.epoll_in || (r.epoll_pri || r.epoll_rdhup)) (at_time t cb.read) s in
    let s2 = call r.epoll_out cb.write s1 in
    let s3 = call (r.epoll_hup && not r.epoll_in) cb.close s2 in call r.epoll_err cb.error s3

-- `epoll_ctl`'s operations, and its event: the mask and the address in `data.ptr`.
pub data Operation : Type 0 where
  ctl_add ctl_mod ctl_del : Operation

pub record Event : Type 0 where
  pub events : Events
  pub ptr : ℕ

-- `channel_map_`, the kernel's side of `epoll_fd_`, and the size of `event_list_`. `thread` is the
-- thread of the loop that the poller points to.
pub record Poller (K : Type 0) : Type 0 where
  pub thread : ℕ
  pub channel_map : ℕ → Option ℕ
  pub epoll : K
  pub event_list_size : ℕ

-- The objects: a channel for each address, and the poller.
pub record Store (K : Type 0) : Type 0 where
  pub channels : ℕ → Channel
  pub poller : Poller K

unfoldable pub set {ℓ} : {A : Type ℓ} → (ℕ → A) → ℕ → A → ℕ → A
set m k a j = if j == k then a else m j

unfoldable pub set_index : {K : Type 0} → Store K → ℕ → Index → Store K
set_index s c i = record s { channels = set s.channels c (record (s.channels c) { index = i }) }

unfoldable pub set_map : {K : Type 0} → Store K → ℕ → Option ℕ → Store K
set_map s fd a = record s {
  poller = record s.poller { channel_map = set s.poller.channel_map fd a };
}

-- `channel_map_[fd] == channel` for an entry that must exist.
unfoldable pub maps_to : Option ℕ → ℕ → Bool
maps_to none c = false
maps_to (some d) c = d == c

unfoldable pub is_none {ℓ} : {A : Type ℓ} → Option A → Bool
is_none none = true
is_none (some a) = false

-- `AssertInLoopThread` in the thread `tid`: the message is fatal.
unfoldable pub assert_in_loop_thread : ℕ → ℕ → Outcome (Unit {0})
assert_in_loop_thread tid thread = if thread == tid then done tt else end_of_line fatal

-- `HaveChannel` of the poller.
unfoldable pub have_channel : {K : Type 0} → ℕ → Store K → ℕ → Outcome Bool
have_channel tid s c =
    assert_in_loop_thread tid s.poller.thread
    >> done (maps_to (s.poller.channel_map (s.channels c).fd) c)

-- What a failed `epoll_ctl` logs.
unfoldable pub control_failed : Operation → Outcome (Unit {0})
control_failed ctl_del = end_of_line (sys_level false)
control_failed ctl_add = end_of_line (sys_level true)
control_failed ctl_mod = end_of_line (sys_level true)

-- `asserts` tells whether the build keeps assertions; `epoll_ctl` is the kernel's.
module _ {K : Type 0} (asserts : Bool) (epoll_ctl : K → Operation → ℕ → Event → Bool × K) where
  unfoldable pub assert_that : Bool → Outcome (Unit {0})
  assert_that b = if asserts then check b assertion else done tt

  -- `EpollPoller::Update`.
  unfoldable pub update : Operation → Store K → ℕ → Outcome (Store K)
  update op s c =
      let channel = s.channels c in
      let answer =
        epoll_ctl s.poller.epoll op channel.fd (record { events = channel.events; ptr = c }) in
      let s' : Store K = record s { poller = record s.poller { epoll = answer.1 } } in
      if answer.0 then done s' else (control_failed op >> done s')

  -- The two branches of `UpdateChannel`.
  unfoldable pub register : Store K → ℕ → Outcome (Store K)
  register s c = update ctl_add (set_index s c k_add) c

  unfoldable pub modify : Store K → ℕ → Outcome (Store K)
  modify s c = do
    assert_that (maps_to (s.poller.channel_map (s.channels c).fd) c)
    if is_none_events (s.channels c)
        then (do s' ← update ctl_del s c; done (set_index s' c k_del))
        else update ctl_mod s c

  unfoldable pub update_at : Index → Store K → ℕ → Outcome (Store K)
  update_at k_new s c = do
    assert_that (is_none (s.poller.channel_map (s.channels c).fd))
    register (set_map s (s.channels c).fd (some c)) c
  update_at k_del s c = do
    assert_that (maps_to (s.poller.channel_map (s.channels c).fd) c)
    register s c
  update_at k_add s c = modify s c

  -- `EpollPoller::UpdateChannel`.
  unfoldable pub update_channel : ℕ → Store K → ℕ → Outcome (Store K)
  update_channel tid s c =
      assert_in_loop_thread tid s.poller.thread >> update_at (s.channels c).index s c

  -- `EpollPoller::RemoveChannel`: `assert(channel_map_.erase(fd) == 1)` erases only in a build that
  -- keeps assertions.
  unfoldable pub unregister : Index → Store K → ℕ → Outcome (Store K)
  unregister k_add s c = do s' ← update ctl_del s c; done (set_index s' c k_new)
  unregister k_del s c = done (set_index s c k_new)
  unregister k_new s c = do assert_that false; done (set_index s c k_new)

  unfoldable pub remove_channel : ℕ → Store K → ℕ → Outcome (Store K)
  remove_channel tid s c = do
    assert_in_loop_thread tid s.poller.thread
    let fd = (s.channels c).fd
    assert_that (maps_to (s.poller.channel_map fd) c)
    assert_that (is_none_events (s.channels c))
    unregister (s.channels c).index (if asserts then set_map s fd none else s) c

  -- What a caller of the poller does: `events_` changes, then `EpollPoller::UpdateChannel` runs.
  unfoldable pub update_events : ℕ → Change → Store K → ℕ → Outcome (Store K)
  update_events tid op s c =
      let channel = s.channels c in
      update_channel tid
        (record s {
          channels =
              set s.channels c
                (record channel { events = changed op channel.events; add_to_loop = true });
        })
        c
