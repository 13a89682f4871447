-- ===== src/Singleton/Tests.antt =====
-- A singleton of numbers: two calls, the exit, and what is left.
use turbo_net.Common.{ℕ, true, false, [], ◌∷◌, none, some}
use turbo_net.Singleton.Single.{Run}

-- The second call's arguments would make another object.
abbrev seven_twice : Run ℕ
seven_twice = record {
  once = record { called = true; value = some 7; at_exit = true };
  handed = 7 ∷ 7 ∷ [];
  over = false;
}

abbrev gone : Run ℕ
gone = record {
  once = record { called = true; value = none; at_exit = true };
  handed = 7 ∷ 7 ∷ [];
  over = true;
}
