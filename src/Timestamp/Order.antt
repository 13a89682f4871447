-- ===== src/Timestamp/Order.antt =====
-- The order of points in time, and of what they are cut to.
use turbo_net.Common.{
  Bool-cases, inl, inr, ◌⊎◌, ℕ, zero, suc, ◌/◌, ◌≤◌, ◌≡◌, ◌↔◌, refl, ap, true, false, not, leb,
  ◌==◌, arith, ◌*◌, ◌<◌, ◌^◌, done, lt→ltb,
}
use turbo_net.Common.Int.{ℤ, pos, negsuc}
use turbo_net.Timestamp.{
  Timestamp, less_int, equal_int, less, equal, greater, less_equal, greater_equal, not_equal,
  opposite, cut, time_since_epoch_days, time_since_epoch_seconds, time_since_epoch_micro_seconds,
  plus, add_time, fits64,
}

abbrev pub IsLe : ℤ → ℤ → Type 0
IsLe (pos a) (pos b) = a ≤ b
IsLe (pos a) (negsuc b) = ⊥
IsLe (negsuc a) (pos b) = Unit {0}
IsLe (negsuc a) (negsuc b) = b ≤ a

not-less_int : (x y : ℤ) → (not (less_int x y) ≡ true) ↔ IsLe y x
unfolding less_int
not-less_int (pos a) (pos b) = ground arith
not-less_int (pos a) (negsuc b) = (λ e. tt, λ u. refl)
not-less_int (negsuc a) (pos b) = (λ e. cc, λ e. absurd e)
not-less_int (negsuc a) (negsuc b) = ground arith

not_==_iff : (a b : ℕ) → (not (a == b) ≡ false) ↔ (a ≡ b)
not_==_iff a b = ground arith

pos-injective : {a b : ℕ} → pos a ≡ pos b → a ≡ b
pos-injective e = cc

negsuc-injective : {a b : ℕ} → negsuc a ≡ negsuc b → a ≡ b
negsuc-injective e = cc

less_int_iff : (x y : ℤ) → (less_int x y ≡ false) ↔ IsLe y x
less_int_iff x y = elim (Bool-cases (less_int x y)) [
  | inl e ↦ (λ f. absurd cc, λ i. let f = (not-less_int x y).1 i in absurd cc)
  | inr e ↦ (λ f. (not-less_int x y).0 (ap not e), λ i. e)
]

equal_int_iff : (x y : ℤ) → (not (equal_int x y) ≡ false) ↔ (x ≡ y)
unfolding equal_int
equal_int_iff (pos a) (pos b) =
    (λ e. ap pos ((not_==_iff a b).0 e), λ e. (not_==_iff a b).1 (pos-injective e))
equal_int_iff (pos a) (negsuc b) = (λ e. absurd cc, λ e. absurd cc)
equal_int_iff (negsuc a) (pos b) = (λ e. absurd cc, λ e. absurd cc)
equal_int_iff (negsuc a) (negsuc b) =
    (λ e. ap negsuc ((not_==_iff a b).0 e), λ e. (not_==_iff a b).1 (negsuc-injective e))

opposite-IsLe : (m n : ℕ) → m ≤ n → IsLe (opposite n) (opposite m)
opposite-IsLe zero zero h = omega arith
opposite-IsLe zero (suc n) h = tt
opposite-IsLe (suc m) zero h = absurd (omega arith)
opposite-IsLe (suc m) (suc n) h = omega arith

opposite_pos : (m n : ℕ) → IsLe (opposite m) (pos n)
opposite_pos zero n = omega arith
opposite_pos (suc m) n = tt

cut-IsLe :
    (n : ℕ) → ((a b : ℕ) → a ≤ b → a / n ≤ b / n) → (x y : ℤ) → IsLe x y → IsLe (cut x n) (cut y n)
unfolding cut
cut-IsLe n mono (pos a) (pos b) h = mono a b h
cut-IsLe n mono (pos a) (negsuc b) h = absurd h
cut-IsLe n mono (negsuc a) (pos b) h = opposite_pos (suc a / n) (b / n)
cut-IsLe n mono (negsuc a) (negsuc b) h =
    opposite-IsLe (suc b / n) (suc a / n) (mono (suc b) (suc a) (omega arith))

-- A later end.
later : (x : ℤ) (n : ℕ) → IsLe x (plus x (pos n))
later (pos a) n = omega arith
later (negsuc a) n = elim (Bool-cases (leb (suc a) n)) [
  | inl e ↦ rw e tt
  | inr e ↦ rw e (omega arith)
]

module _ {D : Type 0} (to_micros : D → ℤ) (l r : Timestamp) where
  -- The operators, and the times cut to days, seconds and microseconds.
  pub record Compared : Type 0 where
    pub le : (less_equal l r ≡ true) ↔ IsLe l.time_since_epoch r.time_since_epoch
    pub ge : (greater_equal l r ≡ true) ↔ IsLe r.time_since_epoch l.time_since_epoch
    pub gt : (greater l r ≡ false) ↔ IsLe l.time_since_epoch r.time_since_epoch
    pub lt : (less l r ≡ false) ↔ IsLe r.time_since_epoch l.time_since_epoch
    pub ne : (not_equal l r ≡ false) ↔ (l.time_since_epoch ≡ r.time_since_epoch)
    pub adds :
        (seconds : D) (delta : ℕ)
        → to_micros seconds ≡ pos delta
        → delta * 1000 < 2 ^ 63
        → fits64 (plus l.time_since_epoch (pos (delta * 1000))) ≡ true
        → (q : Timestamp) × (add_time to_micros l seconds ≡ done q) × (less_equal l q ≡ true)
    pub cuts :
        (greater l r ≡ true)
        ⊎ (IsLe (time_since_epoch_days l) (time_since_epoch_days r)
            × IsLe (time_since_epoch_seconds l) (time_since_epoch_seconds r)
            × IsLe (time_since_epoch_micro_seconds l) (time_since_epoch_micro_seconds r))

  -- For any two points in time, before the epoch or behind it: `<`, `>`, `<=`, `>=` and `!=` are the
  -- order and the difference of their integers; where 64 bits hold the nanoseconds that are added and
  -- the sum, `AddTime` returns, and seconds that are not negative give no earlier time; and unless the first is greater, its days, seconds
  -- and microseconds, cut towards 0, are at most those of the second.
  pub compare_lem : Compared
  unfolding add_time fits64 less_equal greater_equal greater less not_equal equal
      time_since_epoch_days time_since_epoch_seconds time_since_epoch_micro_seconds
  compare_lem =
      let x = l.time_since_epoch in
      let y = r.time_since_epoch in
      record {
        le = not-less_int y x;
        ge = not-less_int x y;
        gt = less_int_iff y x;
        lt = less_int_iff x y;
        ne = equal_int_iff x y;
        adds = λ seconds delta e small fits. (
          record { time_since_epoch = plus x (pos (delta * 1000)) },
          rw (e, fits, lt→ltb (delta * 1000) (2 ^ 63) small) refl,
          (not-less_int (plus x (pos (delta * 1000))) x).1 (later x (delta * 1000)),
        );
        cuts = elim (Bool-cases (less_int y x)) [
          | inl e ↦ inl e
          | inr e ↦
              let h = (less_int_iff y x).0 e in
              inr (
                cut-IsLe 86400000000000 (λ a b k. omega arith) x y h,
                cut-IsLe 1000000000 (λ a b k. omega arith) x y h,
                cut-IsLe 1000 (λ a b k. omega arith) x y h,
              )
        ];
      }
