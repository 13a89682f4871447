-- ===== src/Reactor/Threads.antt =====
-- src/net/event_loop.cpp: the loops of several threads, and the pointer that each thread keeps to its
-- loop.
pub mod Slots
mod Tests
use turbo_net.Common.{
  ℕ, ◌≡◌, ◌≢◌, logged_fatal, ◌↔◌, inl, inr, refl, sym, ap, ◌∙◌, Bool, true, false, not, ◌||◌,
  Option, none, some, ◌==◌, ==_iff, if◌then◌else◌, Bool-cases, Outcome, done, stopped, assertion,
  check, ◌>>=◌, ◌>>◌, >>=-eq-done, done-injective, subst, arith,
}
use turbo_net.Logger.{end_of_line}
use turbo_net.Reactor.{set}
use turbo_net.Reactor.EventLoop.{EventLoop, make_loop}

-- `t_loop_in_this_thread` of each thread, and the loops that live at an address. `foreign` records
-- whether a loop was destroyed in another thread than its own; the code does not.
pub record Threads (K : Type 0) : Type 0 where
  pub slots : ℕ → Option ℕ
  pub loops : ℕ → Option (EventLoop K)
  pub foreign : Bool

-- The destructor: what it leaves in the slot of the thread that runs it.
unfoldable pub destroy_loop : {K : Type 0} → EventLoop K → Outcome (Option ℕ)
destroy_loop e = check (not e.looping) assertion >> done none

-- The constructor in the thread `tid`, and the destructor in the thread `tid`.
unfoldable pub create : {K : Type 0} → ℕ → ℕ → Threads K → Outcome (Threads K)
create self tid s = do
  made ← make_loop self tid (s.slots tid)
  done (record s { slots = set s.slots tid made.1; loops = set s.loops self (some made.0) })

unfoldable pub destroy : {K : Type 0} → ℕ → ℕ → EventLoop K → Threads K → Outcome (Threads K)
destroy self tid e s = do
  slot ← destroy_loop e
  done (record {
    slots = set s.slots tid slot;
    loops = set s.loops self none;
    foreign = s.foreign || not (e.thread_id == tid);
  })

-- `GetEventLoopCurrentThread` in the thread `tid`.
unfoldable pub get_event_loop_current_thread : {K : Type 0} → ℕ → Threads K → Option ℕ
get_event_loop_current_thread tid s = s.slots tid

unfoldable pub no_loops : {K : Type 0} → Threads K
no_loops = record { slots = λ t. none; loops = λ l. none; foreign = false }

pub data Step {K : Type 0} (s : Threads K) : Threads K → Type 0 where
  creates :
      (self tid : ℕ) (q : Threads K) → s.loops self ≡ none → create self tid s ≡ done q → Step s q
  destroys :
      (self tid : ℕ) (e : EventLoop K) (q : Threads K)
      → s.loops self ≡ some e
      → destroy self tid e s ≡ done q
      → Step s q

pub data Reach {K : Type 0} : Threads K → Type 0 where
  here : Reach no_loops
  next : {s q : Threads K} → Reach s → Step s q → Reach q
