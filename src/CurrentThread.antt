-- ===== src/CurrentThread.antt =====
-- src/base/current_thread.h and src/base/current_thread.cpp: what a thread keeps about itself.
use turbo_net.Common.{ℕ, List, [], length, ◌==◌, if◌then◌else◌}

-- The kernel's number of a thread, and `std::to_string`.
pub record Os : Type 0 where
  pub gettid : ℕ → ℕ
  pub to_string : ℕ → List ℕ

-- The `thread_local` variables of one thread.
pub record Local : Type 0 where
  pub cached_tid : ℕ
  pub tid_string : List ℕ
  pub tid_string_length : ℕ

unfoldable pub new_local : Local
new_local = record { cached_tid = 0; tid_string = []; tid_string_length = 0 }

-- The body of `ConstructTid` under its test, in the thread `t`.
unfoldable pub fill : Os → ℕ → Local
fill os t =
    let tid = os.gettid t in
    let text = os.to_string tid in
    record { cached_tid = tid; tid_string = text; tid_string_length = length text }

unfoldable pub construct_tid : Os → ℕ → Local → Local
construct_tid os t l = if l.cached_tid == 0 then fill os t else l

-- The variables that `CachedTid` leaves; it returns their `cached_tid`.
unfoldable pub cached_tid : Os → ℕ → Local → Local
cached_tid os t l = if l.cached_tid == 0 then construct_tid os t l else l
