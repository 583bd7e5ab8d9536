-- ===== src/Patchelf/Tests/Sorting/Insertion.antt =====
-- A concrete `sort`, by insertion, that does what is relied on of `std::sort`.
use electrum_lightning_test.Base.{
  ℕ, suc, zero, ◌≡◌, refl, ap, ◌∙◌, ◌⊎◌, inl, inr, arith, Bool, true, false, Bool-cases, List, [],
  ◌∷◌, length, All,
}
use electrum_lightning_test.Base.Table.{Has, Has-cons}
use electrum_lightning_test.Patchelf.Compare.{IsStrictWeakOrder}
use electrum_lightning_test.Patchelf.Rewrite.Sort.{StdSort}
use electrum_lightning_test.Patchelf.Rewrite.Sort.Sorted.{Ordered, IsSort}

-- `x` before or behind `y`, which `y` stands before `x` or does not.
abbrev place : Bool → (x y : List ℕ) → (rest ys : List (List ℕ)) → List (List ℕ)
place true x y rest ys = y ∷ rest
place false x y rest ys = x ∷ y ∷ ys

abbrev insert_by : (List ℕ → List ℕ → Bool) → List ℕ → List (List ℕ) → List (List ℕ)
insert_by less x [] = x ∷ []
insert_by less x (y ∷ ys) = place (less y x) x y (insert_by less x ys) ys

abbrev pub insertion_sort : StdSort
insertion_sort less [] = []
insertion_sort less (x ∷ xs) = insert_by less x (insertion_sort less xs)

Has-here : (x : List ℕ) (xs : List (List ℕ)) → Has [] x (x ∷ xs)
Has-here x xs = (0, omega arith, refl)

Has-cases : (w x : List ℕ) (xs : List (List ℕ)) → Has [] w (x ∷ xs) → (x ≡ w) ⊎ Has [] w xs
Has-cases w x xs (zero, lt, same) = inl same
Has-cases w x xs (suc i, lt, same) = inr (i, omega (arith, lt), same)

Has-same : (w x : List ℕ) (xs : List (List ℕ)) → x ≡ w → Has [] w (x ∷ xs)
Has-same w x xs same = (0, omega arith, same)

-- The same headers, in another order or not.
abbrev SameMembers : List (List ℕ) → List (List ℕ) → Type 0
SameMembers xs ys =
    (length ys ≡ length xs)
    × ((w : List ℕ) → Has [] w ys → Has [] w xs)
    × ((w : List ℕ) → Has [] w xs → Has [] w ys)

SameMembers-cons :
    (x : List ℕ) (xs ys : List (List ℕ)) → SameMembers xs ys → SameMembers (x ∷ xs) (x ∷ ys)
SameMembers-cons x xs ys (count, back, there) = (
  ap suc count,
  λ w h. elim (Has-cases w x ys h) [
    | inl same ↦ Has-same w x xs same
    | inr behind ↦ Has-cons [] w x xs (back w behind)
  ],
  λ w h. elim (Has-cases w x xs h) [
    | inl same ↦ Has-same w x ys same
    | inr behind ↦ Has-cons [] w x ys (there w behind)
  ],
)

swap : (w x y : List ℕ) (ys : List (List ℕ)) → Has [] w (x ∷ y ∷ ys) → Has [] w (y ∷ x ∷ ys)
swap w x y ys h = elim (Has-cases w x (y ∷ ys) h) [
  | inl same ↦ Has-cons [] w y (x ∷ ys) (Has-same w x ys same)
  | inr behind ↦ elim (Has-cases w y ys behind) [
    | inl same ↦ Has-same w y (x ∷ ys) same
    | inr later ↦ Has-cons [] w y (x ∷ ys) (Has-cons [] w x ys later)
  ]
]

place-SameMembers :
    (b : Bool) (x y : List ℕ) (rest ys : List (List ℕ))
    → SameMembers (x ∷ ys) rest
    → SameMembers (x ∷ y ∷ ys) (place b x y rest ys)
place-SameMembers true x y rest ys same =
    let (count, back, there) = SameMembers-cons y (x ∷ ys) rest same in
    (count, λ w h. swap w y x ys (back w h), λ w h. there w (swap w x y ys h))
place-SameMembers false x y rest ys same = (refl, λ w h. h, λ w h. h)

insert_by-SameMembers :
    (less : List ℕ → List ℕ → Bool) (x : List ℕ) (ys : List (List ℕ))
    → SameMembers (x ∷ ys) (insert_by less x ys)
insert_by-SameMembers less x [] = (refl, λ w h. h, λ w h. h)
insert_by-SameMembers less x (y ∷ ys) =
    place-SameMembers (less y x) x y (insert_by less x ys) ys (insert_by-SameMembers less x ys)

sort-SameMembers :
    (less : List ℕ → List ℕ → Bool) (xs : List (List ℕ)) → SameMembers xs (insertion_sort less xs)
sort-SameMembers less [] = (refl, λ w h. h, λ w h. h)
sort-SameMembers less (x ∷ xs) =
    let (count, back, there) =
      SameMembers-cons x xs (insertion_sort less xs) (sort-SameMembers less xs) in
    let (count', back', there') = insert_by-SameMembers less x (insertion_sort less xs) in
    (count' ∙ count, λ w h. back w (back' w h), λ w h. there' w (there w h))

module _ (less : List ℕ → List ℕ → Bool) (o : IsStrictWeakOrder less) where
  not_both : (x y : List ℕ) → less x y ≡ true → less y x ≡ false
  not_both x y h = elim (Bool-cases (less y x)) [
    | inr apart ↦ apart
    | inl both ↦ cc (o.irreflexive x, o.transitive x y x h both)
  ]

  -- What does not stand before another stands before none that the other does not stand before.
  not_before : (x y z : List ℕ) → less y x ≡ false → less z y ≡ false → less z x ≡ false
  not_before x y z yx zy = elim (Bool-cases (less z x)) [
    | inr apart ↦ apart
    | inl zx ↦ elim (Bool-cases (less y z)) [
      | inl yz ↦ cc (yx, o.transitive y z x yz zx)
      | inr yz ↦ elim (Bool-cases (less x y)) [
        | inl xy ↦ cc (zy, o.transitive z x y zx xy)
        | inr xy ↦ (o.incomparable x y z xy yx yz zy).1
      ]
    ]
  ]

  not_before_all :
      (x y : List ℕ) (ys : List (List ℕ))
      → less y x ≡ false
      → All (λ z. less z y ≡ false) ys
      → All (λ z. less z x ≡ false) ys
  not_before_all x y [] yx all = tt
  not_before_all x y (z ∷ ys) yx all = (not_before x y z yx all.0, not_before_all x y ys yx all.1)

  place-All :
      (b : Bool) (v x y : List ℕ) (rest ys : List (List ℕ))
      → less x v ≡ false
      → All (λ z. less z v ≡ false) (y ∷ ys)
      → All (λ z. less z v ≡ false) rest
      → All (λ z. less z v ≡ false) (place b x y rest ys)
  place-All true v x y rest ys front all more = (all.0, more)
  place-All false v x y rest ys front all more = (front, all)

  insert_by-All :
      (v x : List ℕ) (ys : List (List ℕ))
      → less x v ≡ false
      → All (λ z. less z v ≡ false) ys
      → All (λ z. less z v ≡ false) (insert_by less x ys)
  insert_by-All v x [] front all = (front, tt)
  insert_by-All v x (y ∷ ys) front all =
      place-All (less y x) v x y (insert_by less x ys) ys front all
        (insert_by-All v x ys front all.1)

  place-Ordered :
      (b : Bool) (x y : List ℕ) (ys : List (List ℕ))
      → less y x ≡ b
      → Ordered less (y ∷ ys)
      → Ordered less (insert_by less x ys)
      → Ordered less (place b x y (insert_by less x ys) ys)
  place-Ordered true x y ys before h more = (insert_by-All y x ys (not_both y x before) h.0, more)
  place-Ordered false x y ys before h more = ((before, not_before_all x y ys before h.0), h)

  insert_by-Ordered :
      (x : List ℕ) (ys : List (List ℕ)) → Ordered less ys → Ordered less (insert_by less x ys)
  insert_by-Ordered x [] h = (tt, tt)
  insert_by-Ordered x (y ∷ ys) h =
      place-Ordered (less y x) x y ys refl h (insert_by-Ordered x ys h.1)

  sort-Ordered : (xs : List (List ℕ)) → Ordered less (insertion_sort less xs)
  sort-Ordered [] = tt
  sort-Ordered (x ∷ xs) = insert_by-Ordered x (insertion_sort less xs) (sort-Ordered xs)

pub insertion_sort-IsSort : IsSort insertion_sort
insertion_sort-IsSort less xs o =
    let (count, back, there) = sort-SameMembers less xs in
    record { count = count; from_old = back; to_new = there; ordered = sort-Ordered less o xs }
