-- ===== src/Base/Memory.antt =====
-- A C array or a file's bytes as a list: `overwrite b off s` is `memcpy(b + off, s, len)`.
use Prim.Native.Nat.{ℕ, zero, suc, ◌+◌, ◌≤◌}
use mathlib.Core.Path.{◌≡◌, refl, ap}
use mathlib.Core.List.{List, [], ◌∷◌, ◌++◌}
use native.Mathlib.Omega.{arith}
use electrum_lightning_test.Base.Lists.{
  length, take, drop, All, length-take, length-drop, All-take, All-drop,
}

-- A store past the end is dropped: where the code relies on the array's size, the laws below ask
-- for `off + length s ≤ length b`, or the caller has tested it.
unfoldable pub overwrite {ℓ} : {A : Type ℓ} → List A → ℕ → List A → List A
overwrite [] off s = []
overwrite (y ∷ b) zero [] = y ∷ b
overwrite (y ∷ b) zero (x ∷ s) = x ∷ overwrite b zero s
overwrite (y ∷ b) (suc off) s = y ∷ overwrite b off s

-- The `n` elements from `off` on.
unfoldable pub slice {ℓ} : {A : Type ℓ} → List A → ℕ → ℕ → List A
slice b off n = take n (drop off b)

module _ {ℓ} {A : Type ℓ} where
  pub length-overwrite : (b : List A) (off : ℕ) (s : List A) → length (overwrite b off s) ≡ length b
  unfolding overwrite
  length-overwrite [] off s = refl
  length-overwrite (y ∷ b) zero [] = refl
  length-overwrite (y ∷ b) zero (x ∷ s) = ap suc (length-overwrite b zero s)
  length-overwrite (y ∷ b) (suc off) s = ap suc (length-overwrite b off s)

  pub length-slice : (b : List A) (off n : ℕ) → off + n ≤ length b → length (slice b off n) ≡ n
  unfolding slice
  length-slice b off n h = omega (arith, length-take n (drop off b), length-drop off b)

  pub drop-drop : (b : List A) (m n k : ℕ) → n + m ≡ k → drop m (drop n b) ≡ drop k b
  drop-drop [] zero zero zero e = refl
  drop-drop [] zero (suc n) zero e = refl
  drop-drop [] (suc m) zero zero e = refl
  drop-drop [] (suc m) (suc n) zero e = refl
  drop-drop [] zero zero (suc k) e = refl
  drop-drop [] zero (suc n) (suc k) e = refl
  drop-drop [] (suc m) zero (suc k) e = refl
  drop-drop [] (suc m) (suc n) (suc k) e = refl
  drop-drop (y ∷ b) m zero k e = ap (λ j. drop j (y ∷ b)) (let e' : m ≡ k = omega arith in e')
  drop-drop (y ∷ b) m (suc n) zero e = absurd (omega arith)
  drop-drop (y ∷ b) m (suc n) (suc k) e = drop-drop b m n k (omega arith)

  -- Reading behind a store sees the old bytes.
  pub drop-overwrite_behind :
      (b : List A) (off : ℕ) (s : List A) (k : ℕ)
      → off + length s ≤ k
      → drop k (overwrite b off s) ≡ drop k b
  unfolding overwrite
  drop-overwrite_behind [] off s k h = refl
  drop-overwrite_behind (y ∷ b) zero [] k h = refl
  drop-overwrite_behind (y ∷ b) zero (x ∷ s) zero h = absurd (omega arith)
  drop-overwrite_behind (y ∷ b) zero (x ∷ s) (suc k) h =
      drop-overwrite_behind b zero s k (omega arith)
  drop-overwrite_behind (y ∷ b) (suc off) s zero h = absurd (omega arith)
  drop-overwrite_behind (y ∷ b) (suc off) s (suc k) h =
      drop-overwrite_behind b off s k (omega arith)

  -- Skipping to a place before a store keeps the store.
  pub drop-overwrite_before :
      (b : List A) (off : ℕ) (s : List A) (k j : ℕ)
      → k + j ≡ off
      → drop k (overwrite b off s) ≡ overwrite (drop k b) j s
  unfolding overwrite
  drop-overwrite_before [] off s zero j e = refl
  drop-overwrite_before [] off s (suc k) j e = refl
  drop-overwrite_before (y ∷ b) off s zero j e =
      ap (λ o. overwrite (y ∷ b) o s) (let e' : off ≡ j = omega arith in e')
  drop-overwrite_before (y ∷ b) zero s (suc k) j e = absurd (omega arith)
  drop-overwrite_before (y ∷ b) (suc off) s (suc k) j e =
      drop-overwrite_before b off s k j (omega arith)

  -- A store in range is read back, and what follows is kept.
  pub overwrite-zero :
      (b s : List A) → length s ≤ length b → overwrite b 0 s ≡ s ++ drop (length s) b
  unfolding overwrite
  overwrite-zero [] [] h = refl
  overwrite-zero [] (x ∷ s) h = absurd (omega arith)
  overwrite-zero (y ∷ b) [] h = refl
  overwrite-zero (y ∷ b) (x ∷ s) h = ap (λ t. x ∷ t) (overwrite-zero b s (omega arith))

  pub take-overwrite_before :
      (b : List A) (off : ℕ) (s : List A) (k : ℕ) → k ≤ off → take k (overwrite b off s) ≡ take k b
  unfolding overwrite
  take-overwrite_before [] off s k h = refl
  take-overwrite_before (y ∷ b) zero s zero h = refl
  take-overwrite_before (y ∷ b) zero s (suc k) h = absurd (omega arith)
  take-overwrite_before (y ∷ b) (suc off) s zero h = refl
  take-overwrite_before (y ∷ b) (suc off) s (suc k) h =
      ap (λ t. y ∷ t) (take-overwrite_before b off s k (omega arith))

  pub slice-overwrite_self :
      (b : List A) (off : ℕ) (s : List A)
      → off + length s ≤ length b
      → slice (overwrite b off s) off (length s) ≡ s
  unfolding slice overwrite
  slice-overwrite_self [] zero [] h = refl
  slice-overwrite_self [] (suc off) s h = absurd (omega arith)
  slice-overwrite_self [] zero (x ∷ s) h = absurd (omega arith)
  slice-overwrite_self (y ∷ b) zero [] h = refl
  slice-overwrite_self (y ∷ b) zero (x ∷ s) h =
      ap (λ t. x ∷ t) (slice-overwrite_self b zero s (omega arith))
  slice-overwrite_self (y ∷ b) (suc off) s h = slice-overwrite_self b off s (omega arith)

  -- A store elsewhere does not touch a slice.
  pub slice-overwrite_ne :
      (b : List A) (off : ℕ) (s : List A) (k n : ℕ)
      → k + n ≤ off
      → slice (overwrite b off s) k n ≡ slice b k n
  unfolding slice overwrite
  slice-overwrite_ne [] off s k n h = refl
  slice-overwrite_ne (y ∷ b) off s zero n h = take-overwrite_before (y ∷ b) off s n (omega arith)
  slice-overwrite_ne (y ∷ b) zero s (suc k) n h = absurd (omega arith)
  slice-overwrite_ne (y ∷ b) (suc off) s (suc k) n h = slice-overwrite_ne b off s k n (omega arith)

  pub All-overwrite {κ} :
      (P : A → Type κ) (b : List A) (off : ℕ) (s : List A)
      → All P b
      → All P s
      → All P (overwrite b off s)
  unfolding overwrite
  All-overwrite P [] off s h k = tt
  All-overwrite P (y ∷ b) zero [] h k = h
  All-overwrite P (y ∷ b) zero (x ∷ s) h k = (k.0, All-overwrite P b zero s h.1 k.1)
  All-overwrite P (y ∷ b) (suc off) s h k = (h.0, All-overwrite P b off s h.1 k)

  pub All-slice {κ} : (P : A → Type κ) (b : List A) (off n : ℕ) → All P b → All P (slice b off n)
  unfolding slice
  All-slice P b off n h = All-take P n (drop off b) (All-drop P off b h)
