-- ===== src/Base/Parts.antt =====
-- A part of a list that is put together of three: reading it, and storing over it.
use Prim.Native.Nat.{ℕ, zero, suc, ◌+◌, ◌≤◌}
use mathlib.Core.Path.{◌≡◌, refl, ap, ◌∙◌}
use mathlib.Core.List.{List, [], ◌∷◌, ◌++◌}
use native.Mathlib.Omega.{arith}
use electrum_lightning_test.Base.Lists.{length, take, drop, length-append, drop-append, take_all}
use electrum_lightning_test.Base.Memory.{overwrite, slice, overwrite-zero}

module _ {ℓ} {A : Type ℓ} where
  pub drop_within : (n : ℕ) (xs ys : List A) → n ≤ length xs → drop n (xs ++ ys) ≡ drop n xs ++ ys
  drop_within zero xs ys h = refl
  drop_within (suc n) [] ys h = absurd (omega arith)
  drop_within (suc n) (x ∷ xs) ys h = drop_within n xs ys (omega arith)

  pub take_within : (n : ℕ) (xs ys : List A) → n ≤ length xs → take n (xs ++ ys) ≡ take n xs
  take_within zero xs ys h = refl
  take_within (suc n) [] ys h = absurd (omega arith)
  take_within (suc n) (x ∷ xs) ys h = ap (λ t. x ∷ t) (take_within n xs ys (omega arith))

  pub drop_behind :
      (n : ℕ) (xs ys : List A) (k : ℕ) → n ≡ length xs + k → drop n (xs ++ ys) ≡ drop k ys
  drop_behind n [] ys k h = ap (λ m. drop m ys) (let e : n ≡ k = omega arith in e)
  drop_behind zero (x ∷ xs) ys k h = absurd (omega arith)
  drop_behind (suc n) (x ∷ xs) ys k h = drop_behind n xs ys k (omega arith)

  pub slice_mid :
      (pre d post : List A) (at off n : ℕ)
      → at ≡ length pre + off
      → off + n ≤ length d
      → slice (pre ++ (d ++ post)) at n ≡ slice d off n
  unfolding slice
  slice_mid pre d post at off n h fits =
      ap (take n) (drop_behind at pre (d ++ post) off h ∙ drop_within off d post (omega arith))
      ∙ take_within n (drop off d) post (within off d fits)
    where
      within : (k : ℕ) (xs : List A) → k + n ≤ length xs → n ≤ length (drop k xs)
      within zero xs le = omega arith
      within (suc k) [] le = absurd (omega arith)
      within (suc k) (x ∷ xs) le = within k xs (omega arith)

  pub slice_whole : (d : List A) (n : ℕ) → length d ≡ n → slice d 0 n ≡ d
  unfolding slice
  slice_whole d n h = take_all n d (omega (arith, h))

  pub overwrite_behind :
      (pre xs s : List A) (at : ℕ)
      → at ≡ length pre
      → overwrite (pre ++ xs) at s ≡ pre ++ overwrite xs 0 s
  unfolding overwrite
  overwrite_behind [] xs s zero h = refl
  overwrite_behind [] xs s (suc at) h = absurd (omega arith)
  overwrite_behind (y ∷ pre) xs s zero h = absurd (omega arith)
  overwrite_behind (y ∷ pre) xs s (suc at) h =
      ap (λ t. y ∷ t) (overwrite_behind pre xs s at (omega arith))

  -- A store of a part's length replaces the part.
  pub overwrite_mid :
      (pre old new post : List A) (at : ℕ)
      → at ≡ length pre
      → length new ≡ length old
      → overwrite (pre ++ (old ++ post)) at new ≡ pre ++ (new ++ post)
  overwrite_mid pre old new post at h e =
      overwrite_behind pre (old ++ post) new at h
      ∙ ap (λ t. pre ++ t)
          (overwrite-zero (old ++ post) new (omega (arith, e, length-append old post))
            ∙ ap (λ t. new ++ t) (ap (λ n. drop n (old ++ post)) e ∙ drop-append old post))
