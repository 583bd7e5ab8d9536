-- ===== src/Base/Region.antt =====
-- `Holds b k s`: the bytes `s` stand at offset `k` of `b`. A store next to them keeps them.
use Prim.Native.Nat.{ℕ, zero, suc, ◌+◌, ◌≤◌}
use mathlib.Core.Path.{◌≡◌, refl, ap, ◌∙◌}
use mathlib.Core.Logic.{◌⊎◌, inl, inr}
use mathlib.Core.List.{List, [], ◌∷◌, ◌++◌, append-nil}
use native.Mathlib.Omega.{arith}
use electrum_lightning_test.Base.Lists.{drop_all, get_or, length, take, drop}
use electrum_lightning_test.Base.Memory.{
  overwrite-zero, overwrite, slice, slice-overwrite_self, slice-overwrite_ne, drop-overwrite_behind,
  drop-drop,
}

module _ {ℓ} {A : Type ℓ} where
  abbrev pub Holds : List A → ℕ → List A → Type ℓ
  Holds b k s = slice b k (length s) ≡ s

  pub Holds-self :
      (b : List A) (k : ℕ) (s : List A) → k + length s ≤ length b → Holds (overwrite b k s) k s
  Holds-self b k s h = slice-overwrite_self b k s h

  pub Holds-keep :
      (b : List A) (k : ℕ) (s : List A) (off : ℕ) (t : List A)
      → (off + length t ≤ k) ⊎ (k + length s ≤ off)
      → Holds b k s
      → Holds (overwrite b off t) k s
  unfolding slice
  Holds-keep b k s off t (inl h) e = ap (take (length s)) (drop-overwrite_behind b off t k h) ∙ e
  Holds-keep b k s off t (inr h) e = slice-overwrite_ne b off t k (length s) h ∙ e

  take-eq-append : (n : ℕ) (xs s : List A) → take n xs ≡ s → xs ≡ s ++ drop n xs
  take-eq-append zero xs s e = ap (λ t. t ++ xs) e
  take-eq-append (suc n) [] s e = ap (λ t. t ++ []) e
  take-eq-append (suc n) (x ∷ xs) s e =
      ap (λ t. x ∷ t) (take-eq-append n xs (take n xs) refl) ∙ ap (λ t. t ++ drop n xs) e

  -- What a reader that starts at `k` sees.
  pub drop-Holds :
      (b : List A) (k j : ℕ) (s : List A)
      → Holds b k s
      → k + length s ≡ j
      → drop k b ≡ s ++ drop j b
  unfolding slice
  drop-Holds b k j s e h =
      take-eq-append (length s) (drop k b) s e ∙ ap (λ t. s ++ t) (drop-drop b (length s) k j h)

  -- A single byte that stands at `k`.
  pub get_or-Holds : (b : List A) (k : ℕ) (x d : A) → Holds b k (x ∷ []) → get_or b k d ≡ x
  unfolding slice
  get_or-Holds [] zero x d e = cc
  get_or-Holds [] (suc k) x d e = cc
  get_or-Holds (y ∷ b) zero x d e = cc
  get_or-Holds (y ∷ b) (suc k) x d e = get_or-Holds b k x d e

  -- Two stores one behind the other that fill the array.
  pub overwrite_fills :
      (b s t : List A)
      → length s + length t ≡ length b
      → overwrite (overwrite b 0 s) (length s) t ≡ s ++ t
  unfolding overwrite
  overwrite_fills [] [] [] h = refl
  overwrite_fills [] [] (y ∷ t) h = absurd (omega arith)
  overwrite_fills [] (x ∷ s) t h = absurd (omega arith)
  overwrite_fills (z ∷ b) [] t h =
      overwrite-zero (z ∷ b) t (omega arith)
      ∙ ap (λ r. t ++ r) (drop_all (length t) (z ∷ b) (omega arith))
      ∙ append-nil t
  overwrite_fills (z ∷ b) (x ∷ s) t h = ap (λ r. x ∷ r) (overwrite_fills b s t (omega arith))
