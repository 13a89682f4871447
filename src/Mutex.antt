-- ===== src/Mutex.antt =====
-- src/base/mutex.h, src/base/mutex.cpp and src/base/condition.cpp: the lock that knows its holder,
-- and the wait on a condition that gives it back.
pub mod Owner
pub mod Holding
mod Tests
use turbo_net.Common.{
  ℕ, ◌≡◌, Bool, Option, none, some, ◌==◌, if◌then◌else◌, Outcome, done, assertion, check, ◌>>◌,
  ◌>>=◌,
}
use turbo_net.CurrentThread.{Os, Local, new_local, cached_tid}

-- Where a thread stands: without the lock, between `mutex_.lock()` and `AssignHolder`, with the lock,
-- between `UnAssignHolder` and `mutex_.unlock()`, between the guard of `Wait` and the wait, in the
-- wait.
pub data Place : Type 0 where
  outside acquired inside leaving falling asleep : Place

-- `owner` is the thread that the `std::mutex` belongs to; `locals` are the variables of each thread.
pub record MutexLock : Type 0 where
  pub owner : Option ℕ
  pub holder : ℕ
  pub locals : ℕ → Local
  pub places : ℕ → Place

unfoldable pub make_mutex : MutexLock
make_mutex = record { owner = none; holder = 0; locals = λ t. new_local; places = λ t. outside }

unfoldable pub move_to : MutexLock → ℕ → Place → MutexLock
move_to m t place = record m { places = λ u. if u == t then place else m.places u }

-- `CurrentThread::CachedTid` in the thread `t`.
unfoldable pub touch : Os → MutexLock → ℕ → MutexLock
touch os m t = record m {
  locals = λ u. if u == t then cached_tid os t (m.locals t) else m.locals u;
}

abbrev pub tid_of : MutexLock → ℕ → ℕ
tid_of m t = (m.locals t).cached_tid

unfoldable pub assign_holder : Os → MutexLock → ℕ → MutexLock
assign_holder os m t = let m' = touch os m t in record m' { holder = tid_of m' t }

unfoldable pub un_assign_holder : MutexLock → MutexLock
un_assign_holder m = record m { holder = 0 }

-- What the thread `t` is told; the object that `CachedTid` leaves is `touch os m t`.
unfoldable pub is_locked_by_this_thread : Os → MutexLock → ℕ → Bool
is_locked_by_this_thread os m t = m.holder == tid_of (touch os m t) t

unfoldable pub assert_locked : Os → MutexLock → ℕ → Outcome MutexLock
assert_locked os m t = check (is_locked_by_this_thread os m t) assertion >> done (touch os m t)

-- `mutex_.lock()` when it returns, and `mutex_.unlock()`.
unfoldable pub acquire : MutexLock → ℕ → MutexLock
acquire m t = record (move_to m t acquired) { owner = some t }

unfoldable pub release : MutexLock → ℕ → Place → MutexLock
release m t place = record (move_to m t place) { owner = none }

-- `Wait` and `WaitForSeconds` before the wait itself.
unfoldable pub begin_wait : Os → MutexLock → ℕ → Outcome MutexLock
begin_wait os m t = assert_locked os m t >>= λ m'. done (move_to (un_assign_holder m') t falling)

-- The destructor.
unfoldable pub destroy : MutexLock → Outcome MutexLock
destroy m = check (m.holder == 0) assertion >> done m

-- Each access of `holder_` and of the mutex is one step of one thread. Only a `MutexLockGuard` locks
-- and unlocks, and a wait, notified or not, ends with the mutex.
pub data Step (os : Os) (m : MutexLock) : MutexLock → Type 0 where
  locks : (t : ℕ) → m.places t ≡ outside → m.owner ≡ none → Step os m (acquire m t)
  assigns : (t : ℕ) → m.places t ≡ acquired → Step os m (move_to (assign_holder os m t) t inside)
  asks : (t : ℕ) → Step os m (touch os m t)
  un_assigns : (t : ℕ) → m.places t ≡ inside → Step os m (move_to (un_assign_holder m) t leaving)
  unlocks : (t : ℕ) → m.places t ≡ leaving → Step os m (release m t outside)
  waits : (t : ℕ) (n : MutexLock) → begin_wait os m t ≡ done n → Step os m n
  sleeps : (t : ℕ) → m.places t ≡ falling → Step os m (release m t asleep)
  wakes : (t : ℕ) → m.places t ≡ asleep → m.owner ≡ none → Step os m (acquire m t)

pub data Reach (os : Os) : MutexLock → Type 0 where
  here : Reach os make_mutex
  next : {m n : MutexLock} → Reach os m → Step os m n → Reach os n
