-- ===== src/Singleton.antt =====
-- src/base/singleton.h: an object that the first call makes.
pub mod Single
mod Tests
use turbo_net.Common.{
  Bool, true, false, Option, none, some, if◌then◌else◌, Outcome, done, stopped, assertion,
  null_deref, ◌>>=◌,
}

-- `ponce_`, `value_`, and whether `Destroy` waits for the exit.
pub record Once {ℓ} (A : Type ℓ) : Type ℓ where
  pub called : Bool
  pub value : Option A
  pub at_exit : Bool

module _ {ℓ} {A : Type ℓ} where
  unfoldable pub make_once : Once A
  make_once = record { called = false; value = none; at_exit = false }

  -- `std::call_once`; `new_value` is what the constructor makes, and `no_destroy` is `HasNoDestroy`.
  unfoldable pub call_once : Bool → Once A → A → Once A
  call_once no_destroy o new_value = if o.called then o else record {
    called = true;
    value = some new_value;
    at_exit = if no_destroy then o.at_exit else true;
  }

  -- The assertion of `Instance`, and its reference.
  unfoldable pub object_of : Once A → Option A → Outcome (Once A × A)
  object_of o none = stopped assertion
  object_of o (some a) = done (o, a)

  -- `Instance`.
  unfoldable pub instance_of : Bool → Once A → A → Outcome (Once A × A)
  instance_of no_destroy o new_value =
      let o' = call_once no_destroy o new_value in object_of o' o'.value

  -- `Destroy`, which releases the pointer and destroys the object: it never frees its memory.
  unfoldable pub destroy_value : Once A → Option A → Outcome (Once A)
  destroy_value o none = stopped null_deref
  destroy_value o (some a) = done (record o { value = none })

  -- The exit: what `std::atexit` runs, and then the destructor of the static `value_`, which deletes
  -- an object that is still there.
  unfoldable pub run_at_exit : Once A → Outcome (Once A)
  run_at_exit o = (if o.at_exit then destroy_value o o.value else done o) >>= λ o'.
      done (record o' { value = none })
