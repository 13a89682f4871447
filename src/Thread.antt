-- ===== src/Thread.antt =====
-- src/base/thread.h and src/base/thread.cpp: a thread from its object's constructor to its destructor.
pub mod Keeping
pub mod Lifetime
pub mod Detached
pub mod Starting
mod Tests
use turbo_net.Common.{
  ℕ, zero, suc, ◌+◌, ◌≡◌, Bool, true, false, not, ◌&&◌, List, [], ◌∷◌, ◌++◌, ltb, if◌then◌else◌,
  Outcome, done, stopped, assertion, out_of_range, null_deref, aborted, check, ◌>>◌, ◌>>=◌,
}
use turbo_net.CountDownLatch as CountDownLatch
use turbo_net.CountDownLatch.{
  Latch, make_latch, test_count, count_down, outside, asleep, woken, passed,
}
use turbo_net.CurrentThread.{Os, new_local, cached_tid}

-- Where the new thread stands in its function: it is not there, at `tid_`, at `t_thread_name`, at
-- `latch_`, at `func_`, in `func_`, returned.
pub data Child : Type 0 where
  unborn born numbered named counted working finished : Child

-- Where the thread with the object stands: in no method, in `Start` behind the creation, in `join`.
pub data Parent : Type 0 where
  idle starting joining : Parent

-- How `std::make_unique<std::thread>` ends: an exception, and what `joinable` answers.
pub data Launch : Type 0 where
  thrown unjoinable joinable : Launch

-- `has_thread` is whether `thread_` is not null. In `latch`, the thread with the object is 0.
-- `child_name` is `t_thread_name` of the new thread.
pub record Thread : Type 0 where
  pub started : Bool
  pub joined : Bool
  pub has_thread : Bool
  pub tid : ℕ
  pub name : List ℕ
  pub latch : Latch
  pub destroyed : Bool
  pub parent : Parent
  pub child : Child
  pub child_name : List ℕ

-- `"Thread"`, `"unknown"` and `"finished"`.
abbrev pub thread_text : List ℕ
thread_text = 84 ∷ 104 ∷ 114 ∷ 101 ∷ 97 ∷ 100 ∷ []

abbrev pub unknown_text : List ℕ
unknown_text = 117 ∷ 110 ∷ 107 ∷ 110 ∷ 111 ∷ 119 ∷ 110 ∷ []

abbrev pub finished_text : List ℕ
finished_text = 102 ∷ 105 ∷ 110 ∷ 105 ∷ 115 ∷ 104 ∷ 101 ∷ 100 ∷ []

-- `SetDefaultName`, for the value that `num_created_` had.
unfoldable pub set_default_name : Os → ℕ → List ℕ → List ℕ
set_default_name os created [] = thread_text ++ os.to_string (suc created)
set_default_name os created (x ∷ xs) = x ∷ xs

unfoldable pub make_thread : Os → ℕ → List ℕ → Thread
make_thread os created name = record {
  started = false;
  joined = false;
  has_thread = false;
  tid = 0;
  name = set_default_name os created name;
  latch = make_latch 1;
  destroyed = false;
  parent = idle;
  child = unborn;
  child_name = unknown_text;
}

-- `Start` up to `latch_.Wait()`, or to the exception.
unfoldable pub launch : Launch → Thread → Thread
launch thrown s = record s { started = true }
launch unjoinable s = record s { started = false; has_thread = true }
launch joinable s = record s { started = true; has_thread = true; parent = starting; child = born }

unfoldable pub start : Launch → Thread → Outcome Thread
start l s = check (not s.started) assertion >> done (launch l s)

-- `Start` behind `latch_.Wait()`.
unfoldable pub end_start : Thread → Outcome Thread
end_start s = check (ltb 0 s.tid) assertion >> done (record s { parent = idle })

-- `Join` up to the wait in `join`.
unfoldable pub join : Thread → Outcome Thread
join s = do
  check (s.started && not s.joined) assertion
  check s.has_thread null_deref
  done (record s { joined = true; parent = joining })

-- The destructor.
unfoldable pub destroy : Thread → Outcome Thread
destroy s = do
  check (if s.started && not s.joined then s.has_thread else true) null_deref
  done (record s { destroyed = true })

-- A member of the object is used.
abbrev pub use_object : Thread → Thread → Outcome Thread
use_object s s' = check (not s.destroyed) out_of_range >> done s'

-- The new thread takes its next step; its number is `t`, and `throws` is whether `func_` ends with an
-- exception. `func_` and what its closure holds are members of the object, which are in use up to its
-- end.
unfoldable pub child_step : Os → ℕ → Bool → Child → Thread → Outcome Thread
child_step os t throws unborn s = done s
child_step os t throws born s =
    use_object s (record s { tid = (cached_tid os t new_local).cached_tid; child = numbered })
child_step os t throws numbered s = use_object s (record s { child_name = s.name; child = named })
child_step os t throws named s =
    use_object s (record s { latch = count_down s.latch; child = counted })
child_step os t throws counted s = use_object s (record s { child = working })
child_step os t throws working s =
    if throws
    then (use_object s s >>= λ s'. stopped aborted)
    else use_object s (record s { child_name = finished_text; child = finished })
child_step os t throws finished s = done s

-- The two threads take turns. A wait on the latch may end at any moment, and `join` ends behind the
-- new thread.
pub data Step (os : Os) (t : ℕ) (s : Thread) : Thread → Type 0 where
  starts :
      (l : Launch) (q : Thread)
      → s.parent ≡ idle
      → s.destroyed ≡ false
      → start l s ≡ done q
      → Step os t s q
  enters :
      s.parent ≡ starting
      → s.latch.threads 0 ≡ outside
      → Step os t s (record s { latch = test_count s.latch 0 })
  rises :
      s.parent ≡ starting
      → s.latch.threads 0 ≡ asleep
      → Step os t s (record s { latch = CountDownLatch.move_to s.latch 0 woken })
  tests :
      s.parent ≡ starting
      → s.latch.threads 0 ≡ woken
      → Step os t s (record s { latch = test_count s.latch 0 })
  returns :
      (q : Thread)
      → s.parent ≡ starting
      → s.latch.threads 0 ≡ passed
      → end_start s ≡ done q
      → Step os t s q
  joins : (q : Thread) → s.parent ≡ idle → s.destroyed ≡ false → join s ≡ done q → Step os t s q
  joined_up : s.parent ≡ joining → s.child ≡ finished → Step os t s (record s { parent = idle })
  destroys :
      (q : Thread) → s.parent ≡ idle → s.destroyed ≡ false → destroy s ≡ done q → Step os t s q
  runs : (throws : Bool) (q : Thread) → child_step os t throws s.child s ≡ done q → Step os t s q

pub data Reach (os : Os) (t : ℕ) (created : ℕ) (name : List ℕ) : Thread → Type 0 where
  here : Reach os t created name (make_thread os created name)
  next : {s q : Thread} → Reach os t created name s → Step os t s q → Reach os t created name q
