-- ===== src/Common/Memory.antt =====
-- Reading and copying a run of array cells, with the bounds that C++ leaves to the caller.
use turbo_net.Common.Compare.{leb}
use turbo_net.Common.Lists.{length}
use turbo_net.Common.Ending.{Outcome, done, out_of_range, check, ◌>>◌}
use turbo_net.Common.Slice.{slice, write_at}
use Prim.Native.Nat.{ℕ, ◌+◌}
use mathlib.Core.List.{List}

module _ {ℓ} {A : Type ℓ} where
  -- The `n` cells from index `i` on.
  unfoldable pub load : List A → ℕ → ℕ → Outcome (List A)
  load s i n = do check (leb (i + n) (length s)) out_of_range; done (slice s i n)

  -- A copy of `ds` to index `i`.
  unfoldable pub copy_to : List A → ℕ → List A → Outcome (List A)
  copy_to s i ds = do check (leb (i + length ds) (length s)) out_of_range; done (write_at s i ds)
