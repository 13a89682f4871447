-- ===== src/Reactor/EventLoop.antt =====
-- src/net/event_loop.cpp, `Poll` of src/net/epoll_poller.cpp, and the members of
-- src/net/channel.cpp that go through the loop.
use turbo_net.Common.{
  ℕ, ◌*◌, Bool, true, false, not, List, [], ◌∷◌, ◌++◌, Option, none, some, length, ltb, ◌==◌,
  if◌then◌else◌, Outcome, done, stopped, null_deref, ◌>>=◌, ◌>>◌,
}
use turbo_net.Logger.{fatal, sys_level, end_of_line}
use turbo_net.Reactor.{
  Channel, Operation, Event, Poller, Store, set, is_none_events, assert_in_loop_thread, assert_that,
  update_channel, remove_channel, have_channel, Change, changed,
}

-- `self` is the loop's address; a null `poller_` is `none`.
pub record EventLoop (K : Type 0) : Type 0 where
  pub self : ℕ
  pub thread_id : ℕ
  pub looping : Bool
  pub quit : Bool
  pub poller : Option (Poller K)

-- The constructor, in a thread whose `t_loop_in_this_thread` is `slot`: the loop, and the slot
-- afterwards. It leaves `poller_` null.
unfoldable pub make_loop : {K : Type 0} → ℕ → ℕ → Option ℕ → Outcome (EventLoop K × Option ℕ)
make_loop self tid none = done (
  record { self = self; thread_id = tid; looping = false; quit = false; poller = none },
  some self,
)
make_loop self tid (some other) =
    end_of_line fatal
    >> done (
      record { self = self; thread_id = tid; looping = false; quit = false; poller = none },
      some other,
    )

-- What `epoll_wait` answers.
pub data WaitReply : Type 0 where
  wait_failed : ℕ → WaitReply
  happened : List Event → WaitReply

abbrev pub eintr : ℕ
eintr = 4

-- `FillActiveChannels`: the channels, and the list of the active ones.
unfoldable pub fill_active_channels : List Event → (ℕ → Channel) → List ℕ → (ℕ → Channel) × List ℕ
fill_active_channels [] channels active = (channels, active)
fill_active_channels (e ∷ es) channels active =
    fill_active_channels es (set channels e.ptr (record (channels e.ptr) { revents = e.events }))
      (active ++ e.ptr ∷ [])

-- `event_list_` doubles when it was filled.
unfoldable pub grow : ℕ → ℕ → ℕ
grow n size = if n == size then size * 2 else size

module _ {K : Type 0} (asserts : Bool) (epoll_ctl : K → Operation → ℕ → Event → Bool × K) where
  -- `Poll`, for what `epoll_wait` answers.
  unfoldable pub poll : WaitReply → Store K → List ℕ → Outcome (Store K × List ℕ)
  poll (wait_failed errno) s active =
      if errno == eintr
      then done (s, active)
      else (end_of_line (sys_level false) >> done (s, active))
  poll (happened []) s active = done (s, active)
  poll (happened (e ∷ es)) s active = do
    assert_that asserts epoll_ctl (ltb (length (e ∷ es)) s.poller.event_list_size)
    let filled = fill_active_channels (e ∷ es) s.channels active
    done (
      record {
        channels = filled.0;
        poller = record s.poller {
          event_list_size = grow (length (e ∷ es)) s.poller.event_list_size;
        };
      },
      filled.1,
    )

  -- A call through `poller_`.
  unfoldable pub through {ℓ} : {A : Type ℓ} → Option (Poller K) → (Poller K → Outcome A) → Outcome A
  through none f = stopped null_deref
  through (some p) f = f p

  -- `UpdateChannel`, `RemoveChannel` and `HaveChannel` of the loop, in the thread `tid`.
  unfoldable pub loop_update_channel : ℕ → EventLoop K → (ℕ → Channel) → ℕ → Outcome (Store K)
  loop_update_channel tid loop channels c = do
    assert_that asserts epoll_ctl ((channels c).loop == loop.self)
    assert_in_loop_thread tid loop.thread_id
    through loop.poller
        (λ p. update_channel asserts epoll_ctl tid (record { channels = channels; poller = p }) c)

  unfoldable pub loop_remove_channel : ℕ → EventLoop K → (ℕ → Channel) → ℕ → Outcome (Store K)
  loop_remove_channel tid loop channels c = do
    assert_that asserts epoll_ctl ((channels c).loop == loop.self)
    assert_in_loop_thread tid loop.thread_id
    through loop.poller
        (λ p. remove_channel asserts epoll_ctl tid (record { channels = channels; poller = p }) c)

  unfoldable pub loop_have_channel : ℕ → EventLoop K → (ℕ → Channel) → ℕ → Outcome Bool
  loop_have_channel tid loop channels c = do
    assert_that asserts epoll_ctl ((channels c).loop == loop.self)
    assert_in_loop_thread tid loop.thread_id
    through loop.poller (λ p. have_channel tid (record { channels = channels; poller = p }) c)

  -- `Loop`: the wait in it changes nothing here.
  unfoldable pub loop_once : ℕ → EventLoop K → Outcome (EventLoop K)
  loop_once tid loop = do
    assert_that asserts epoll_ctl (not loop.looping)
    assert_in_loop_thread tid loop.thread_id
    let running : EventLoop K = record loop { looping = true; quit = false }
    done (record running { looping = false })

  -- The methods of a channel that change its events.
  unfoldable pub loop_change : ℕ → Change → EventLoop K → (ℕ → Channel) → ℕ → Outcome (Store K)
  loop_change tid op loop channels c =
      let channel = channels c in
      loop_update_channel tid loop
        (set channels c (record channel { events = changed op channel.events; add_to_loop = true }))
        c

  -- `Channel::Remove`.
  unfoldable pub channel_remove : ℕ → EventLoop K → (ℕ → Channel) → ℕ → Outcome (Store K)
  channel_remove tid loop channels c = do
    assert_that asserts epoll_ctl (not (is_none_events (channels c)))
    loop_remove_channel tid loop (set channels c (record (channels c) { add_to_loop = false })) c

  -- `~Channel`.
  unfoldable pub destroy_channel : ℕ → EventLoop K → (ℕ → Channel) → ℕ → Outcome (Unit {0})
  destroy_channel tid loop channels c = do
    assert_that asserts epoll_ctl (not (channels c).event_handing)
    assert_that asserts epoll_ctl (not (channels c).add_to_loop)
    if asserts
        then (if loop.thread_id == tid
            then (loop_have_channel tid loop channels c >>= λ have.
                assert_that asserts epoll_ctl (not have))
            else done tt)
        else done tt
