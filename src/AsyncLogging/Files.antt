-- ===== src/AsyncLogging/Files.antt =====
-- The calls that the writer of src/logger/async_logging.cpp makes of its `LogFile`.
pub mod Written
use turbo_net.Common.{Bool, ℕ, zero, suc, ◌+◌, List, [], ◌∷◌, Outcome, done, ◌>>=◌}
use turbo_net.LogFile.{LogFile, append_unlocked, flush}
use turbo_net.AsyncLogging.{Output, appended, flushed}

-- `fwrite` is `fwrite_unlocked`, `fopen` tells which files can be opened, `name` is `GetLogFileName`, and `clock` gives the two readings of the
-- clock for each call.
module _ {K : Type 0} (fwrite : K → List ℕ → ℕ × K) (fopen : List ℕ → Bool) (name : ℕ → List ℕ)
    (clock : ℕ → ℕ × ℕ) where
  -- `output.Append` and `output.Flush`. The writer's file has no mutex.
  unfoldable pub call_file : ℕ → Output → LogFile × K → Outcome (LogFile × K)
  call_file n (appended bytes) (l, k) =
      append_unlocked fwrite fopen name (clock n).0 (clock n).1 k l bytes
  call_file n flushed (l, k) = flush fwrite fopen name l >>= λ l'. done (l', k)

  -- The calls in their order, the first of which is the `n`-th.
  unfoldable pub call_all : ℕ → List Output → LogFile × K → Outcome (LogFile × K)
  call_all n [] s = done s
  call_all n (o ∷ os) s = call_file n o s >>= call_all (suc n) os
