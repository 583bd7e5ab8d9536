-- ===== src/Patchelf/Compare.antt =====
-- `CompPhdr` and `CompShdr` of bitcoin-core/patchelf-0.9/src/patchelf.cc, the orders by which
-- `sort` of the C++ library is asked to sort the headers.
use electrum_lightning_test.Base.{
  ℕ, ◌≡◌, ◌↔◌, arith, Bool, true, false, List, ◌==◌, ltb, slice, if◌then◌else◌,
}
use electrum_lightning_test.Patchelf.Elf.{p_type, p_paddr, sh_offset}
use electrum_lightning_test.Patchelf.Elf.Tag.{pt_phdr}
use electrum_lightning_test.Patchelf.Word.{host_value}
use electrum_lightning_test.Patchelf.File.{Elf, get}

-- `x.p_type == PT_PHDR`, without `rdi`
unfoldable pub is_phdr : Elf → List ℕ → Bool
is_phdr e x = let f = p_type e.class_of in host_value (slice x f.at f.width) == pt_phdr

unfoldable pub comp_phdr : Elf → (x y : List ℕ) → Bool
comp_phdr e x y =
    if is_phdr e x
    then true
    else if is_phdr e y
    then false
    else ltb (get e.little_endian (p_paddr e.class_of) x)
        (get e.little_endian (p_paddr e.class_of) y)

unfoldable pub comp_shdr : Elf → (x y : List ℕ) → Bool
comp_shdr e x y =
    ltb (get e.little_endian (sh_offset e.class_of) x)
      (get e.little_endian (sh_offset e.class_of) y)

-- What the C++ standard asks of the order that `sort` is given.
pub record IsStrictWeakOrder {ℓ} {A : Type ℓ} (less : A → A → Bool) : Type ℓ where
  pub irreflexive : (x : A) → less x x ≡ false
  pub transitive : (x y z : A) → less x y ≡ true → less y z ≡ true → less x z ≡ true
  pub incomparable :
      (x y z : A)
      → less x y ≡ false
      → less y x ≡ false
      → less y z ≡ false
      → less z y ≡ false
      → (less x z ≡ false) × (less z x ≡ false)

-- Section headers are compared by a strict weak order.
pub comp_shdr-IsStrictWeakOrder : (e : Elf) → IsStrictWeakOrder (comp_shdr e)
unfolding comp_shdr
comp_shdr-IsStrictWeakOrder e = record {
  irreflexive = λ x. ground arith;
  transitive = λ x y z h k. ground arith;
  incomparable = λ x y z a b c d. (ground arith, ground arith);
}

-- Program headers are compared transitively, but one of type PT_PHDR is less than itself, and two
-- headers are each less than the other exactly when both are of that type: with two such headers, or
-- one compared with itself, the order is not strict.
pub comp_phdr_laws :
    (e : Elf) (x y z : List ℕ)
    → ((comp_phdr e x x ≡ true) ↔ (is_phdr e x ≡ true))
      × (((comp_phdr e x y ≡ true) × (comp_phdr e y x ≡ true))
          ↔ ((is_phdr e x ≡ true) × (is_phdr e y ≡ true)))
      × (comp_phdr e x y ≡ true → comp_phdr e y z ≡ true → comp_phdr e x z ≡ true)
unfolding comp_phdr
comp_phdr_laws e x y z = (
  (λ h. ground arith, λ h. ground arith),
  (
    λ h. (ground (arith, h.0, h.1), ground (arith, h.0, h.1)),
    λ h. (ground (arith, h.0), ground (arith, h.1)),
  ),
  λ h k. ground arith,
)
