-- ===== src/Patchelf/Rewrite/Sort/Sorted.antt =====
-- What the source relies on of `std::sort`, with a comparison that is a strict weak order: the headers
-- are the same ones, and none stands behind one that it precedes.
use electrum_lightning_test.Base.{ℕ, ◌≡◌, Bool, false, List, [], ◌∷◌, length, All}
use electrum_lightning_test.Base.Table.{Has}
use electrum_lightning_test.Patchelf.Compare.{IsStrictWeakOrder}
use electrum_lightning_test.Patchelf.Rewrite.Sort.{StdSort}

abbrev pub Ordered : (List ℕ → List ℕ → Bool) → List (List ℕ) → Type 0
Ordered less [] = Unit
Ordered less (x ∷ xs) = All (λ y. less y x ≡ false) xs × Ordered less xs

pub record Sorts (less : List ℕ → List ℕ → Bool) (xs ys : List (List ℕ)) : Type 0 where
  pub count : length ys ≡ length xs
  pub from_old : (x : List ℕ) → Has [] x ys → Has [] x xs
  pub to_new : (x : List ℕ) → Has [] x xs → Has [] x ys
  pub ordered : Ordered less ys

abbrev pub IsSort : StdSort → Type 0
IsSort sort =
    (less : List ℕ → List ℕ → Bool) (xs : List (List ℕ))
    → IsStrictWeakOrder less
    → Sorts less xs (sort less xs)
