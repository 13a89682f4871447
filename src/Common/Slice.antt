-- ===== src/Common/Slice.antt =====
-- Contiguous parts of an array: reading `n` cells from an index, and the loop of `std::copy`.
use turbo_net.Common.Lists.{length, take, drop, length-take, length-drop}
use Prim.Native.Nat.{ℕ, zero, suc, ◌+◌, ◌≤◌}
use mathlib.Core.Path.{◌≡◌, refl, ap, ◌∙◌}
use mathlib.Core.List.{List, [], ◌∷◌, ◌++◌, append-nil}
use native.Mathlib.Omega.{arith}

module _ {ℓ} {A : Type ℓ} where
  -- The `n` cells from index `r` on.
  abbrev pub slice : List A → ℕ → ℕ → List A
  slice s r n = take n (drop r s)

  -- `std::copy` of `ds` over the front of `s`, cell by cell.
  unfoldable pub overlay : List A → List A → List A
  overlay [] s = s
  overlay (d ∷ ds) [] = []
  overlay (d ∷ ds) (x ∷ s) = d ∷ overlay ds s

  -- `std::copy(ds, ds + n, s + i)`.
  unfoldable pub write_at : List A → ℕ → List A → List A
  unfolding overlay
  write_at s zero ds = overlay ds s
  write_at [] (suc i) ds = []
  write_at (x ∷ s) (suc i) ds = x ∷ write_at s i ds

module _ {ℓ} {A : Type ℓ} where
  length-overlay : (ds s : List A) → length (overlay ds s) ≡ length s
  unfolding overlay
  length-overlay [] s = refl
  length-overlay (d ∷ ds) [] = refl
  length-overlay (d ∷ ds) (x ∷ s) = ap suc (length-overlay ds s)

  pub length-write_at : (s : List A) (i : ℕ) (ds : List A) → length (write_at s i ds) ≡ length s
  unfolding write_at
  length-write_at s zero ds = length-overlay ds s
  length-write_at [] (suc i) ds = refl
  length-write_at (x ∷ s) (suc i) ds = ap suc (length-write_at s i ds)

  pub length-slice : (s : List A) (r n : ℕ) → r + n ≤ length s → length (slice s r n) ≡ n
  length-slice s r n h = omega (arith, length-take n (drop r s), length-drop r s)

  take-overlay :
      (ds s : List A) (n k : ℕ)
      → length ds ≤ length s
      → k ≡ length ds + n
      → take k (overlay ds s) ≡ ds ++ take n (drop (length ds) s)
  unfolding overlay
  take-overlay [] s n k h e = ap (λ m. take m s) (omega arith)
  take-overlay (d ∷ ds) [] n k h e = absurd (omega arith)
  take-overlay (d ∷ ds) (x ∷ s) n zero h e = absurd (omega arith)
  take-overlay (d ∷ ds) (x ∷ s) n (suc k) h e =
      ap (◌∷◌ d) (take-overlay ds s n k (omega arith) (omega arith))

  -- A copy to just past a part extends that part.
  pub slice-write_at_end :
      (s : List A) (r n i k : ℕ) (ds : List A)
      → i ≡ r + n
      → k ≡ n + length ds
      → i + length ds ≤ length s
      → slice (write_at s i ds) r k ≡ slice s r n ++ ds
  unfolding write_at
  slice-write_at_end s zero zero zero k ds e f h =
      take-overlay ds s 0 k (omega arith) (omega arith) ∙ append-nil ds
  slice-write_at_end s zero zero (suc i) k ds e f h = absurd (omega arith)
  slice-write_at_end s zero (suc n) zero k ds e f h = absurd (omega arith)
  slice-write_at_end [] zero (suc n) (suc i) k ds e f h = absurd (omega arith)
  slice-write_at_end (x ∷ s) zero (suc n) (suc i) zero ds e f h = absurd (omega arith)
  slice-write_at_end (x ∷ s) zero (suc n) (suc i) (suc k) ds e f h =
      ap (◌∷◌ x) (slice-write_at_end s zero n i k ds (omega arith) (omega arith) (omega arith))
  slice-write_at_end s (suc r) n zero k ds e f h = absurd (omega arith)
  slice-write_at_end [] (suc r) n (suc i) k ds e f h = absurd (omega arith)
  slice-write_at_end (x ∷ s) (suc r) n (suc i) k ds e f h =
      slice-write_at_end s r n i k ds (omega arith) f (omega arith)

  -- A copy to the front of a part replaces its first cells.
  pub slice-write_at_front :
      (s : List A) (i j n k : ℕ) (ds : List A)
      → j ≡ i + length ds
      → k ≡ length ds + n
      → j ≤ length s
      → slice (write_at s i ds) i k ≡ ds ++ slice s j n
  unfolding write_at
  slice-write_at_front s zero j n k ds e f h =
      take-overlay ds s n k (omega arith) f ∙ ap (λ m. ds ++ take n (drop m s)) (omega arith)
  slice-write_at_front [] (suc i) j n k ds e f h = absurd (omega arith)
  slice-write_at_front (x ∷ s) (suc i) zero n k ds e f h = absurd (omega arith)
  slice-write_at_front (x ∷ s) (suc i) (suc j) n k ds e f h =
      slice-write_at_front s i j n k ds (omega arith) f (omega arith)

  -- Cells added behind a part do not show in it.
  pub slice-append : (s t : List A) (r n : ℕ) → r + n ≤ length s → slice (s ++ t) r n ≡ slice s r n
  slice-append s t zero zero h = refl
  slice-append [] t zero (suc n) h = absurd (omega arith)
  slice-append (x ∷ s) t zero (suc n) h = ap (◌∷◌ x) (slice-append s t zero n (omega arith))
  slice-append [] t (suc r) n h = absurd (omega arith)
  slice-append (x ∷ s) t (suc r) n h = slice-append s t r n (omega arith)

  take-take : (s : List A) (k n : ℕ) → k ≤ n → take k (take n s) ≡ take k s
  take-take s zero n h = refl
  take-take s (suc k) zero h = absurd (omega arith)
  take-take [] (suc k) (suc n) h = refl
  take-take (x ∷ s) (suc k) (suc n) h = ap (◌∷◌ x) (take-take s k n (omega arith))

  pub take-slice : (s : List A) (r k n : ℕ) → k ≤ n → take k (slice s r n) ≡ slice s r k
  take-slice s r k n h = take-take (drop r s) k n h

  drop-take : (s : List A) (k n m : ℕ) → n ≡ k + m → drop k (take n s) ≡ take m (drop k s)
  drop-take s zero n m e = ap (λ j. take j s) (omega arith)
  drop-take s (suc k) zero m e = absurd (omega arith)
  drop-take [] (suc k) (suc n) zero e = refl
  drop-take [] (suc k) (suc n) (suc m) e = refl
  drop-take (x ∷ s) (suc k) (suc n) m e = drop-take s k n m (omega arith)

  drop-drop : (s : List A) (r k j : ℕ) → j ≡ r + k → drop k (drop r s) ≡ drop j s
  drop-drop s zero k j e = ap (λ i. drop i s) (omega arith)
  drop-drop s (suc r) k zero e = absurd (omega arith)
  drop-drop [] (suc r) zero (suc j) e = refl
  drop-drop [] (suc r) (suc k) (suc j) e = refl
  drop-drop (x ∷ s) (suc r) k (suc j) e = drop-drop s r k j (omega arith)

  pub drop-slice :
      (s : List A) (r k n j m : ℕ) → j ≡ r + k → n ≡ k + m → drop k (slice s r n) ≡ slice s j m
  drop-slice s r k n j m e f = drop-take (drop r s) k n m f ∙ ap (take m) (drop-drop s r k j e)

  pub take-append-take :
      (s : List A) (a c n : ℕ) → n ≡ a + c → take a s ++ take c (drop a s) ≡ take n s
  take-append-take s zero c n e = ap (λ k. take k s) (omega arith)
  take-append-take s (suc a) c zero e = absurd (omega arith)
  take-append-take [] (suc a) zero (suc n) e = refl
  take-append-take [] (suc a) (suc c) (suc n) e = refl
  take-append-take (x ∷ s) (suc a) c (suc n) e = ap (◌∷◌ x) (take-append-take s a c n (omega arith))
