-- ===== src/Patchelf/Rewrite/Sort/Moved.antt =====
-- Where the section headers are found once they are sorted.
use electrum_lightning_test.Base.{
  ℕ, suc, zero, ◌+◌, ◌≤◌, ◌<◌, ◌≡◌, ◌≢◌, refl, sym, ap, ◌∙◌, arith, Bool, true, false, lt→ltb, List,
  [], ◌∷◌, length, get_or, some,
}
use mathlib.Core.Path.{subst}
use native.Mathlib.Decide.{dec_lt}
use electrum_lightning_test.Base.Table.{All-get_or}
use electrum_lightning_test.Patchelf.Elf.{Class, Field, sh_offset}
use electrum_lightning_test.Patchelf.Result.{Result}
use electrum_lightning_test.Patchelf.File.{Elf, get}
use electrum_lightning_test.Patchelf.Section.{lookup}
use electrum_lightning_test.Patchelf.Dynamic.{Name}
use electrum_lightning_test.Patchelf.Compare.{comp_shdr}
use electrum_lightning_test.Patchelf.Rewrite.Sort.{NameMap, map_at}
use electrum_lightning_test.Patchelf.Rewrite.Sort.Sorted.{Ordered, Sorts}
use electrum_lightning_test.Patchelf.Rewrite.Sort.Names.{Every, header_name}
use electrum_lightning_test.Patchelf.Rewrite.Sort.Note.{target, target_name, Notes}

abbrev pub offset : Elf → List ℕ → ℕ
offset e h = get e.little_endian (sh_offset e.class_of) h

-- The first header stands for no section: it is at offset 0, and the sections are behind it.
pub record IsPlaced (e : Elf) : Type 0 where
  pub null : offset e (get_or e.shdrs 0 []) ≡ 0
  pub placed : (j : ℕ) → 1 ≤ j → j < length e.shdrs → 0 < offset e (get_or e.shdrs j [])

Ordered-head :
    (less : List ℕ → List ℕ → Bool) (xs : List (List ℕ)) (k : ℕ)
    → Ordered less xs
    → 0 < k
    → k < length xs
    → less (get_or xs k []) (get_or xs 0 []) ≡ false
Ordered-head less [] k h first lt = absurd (omega arith)
Ordered-head less (x ∷ xs) zero h first lt = absurd (omega arith)
Ordered-head less (x ∷ xs) (suc k) h first lt =
    All-get_or (λ y. less y x ≡ false) xs k [] h.0 (omega arith)

map_at-some : (m : NameMap) (key s : Name) → lookup m key ≡ some s → map_at m key ≡ s
unfolding map_at
map_at-some m key s h = rw (h, map_at) refl

module _ (e : Elf) (sorted : List (List ℕ)) where
  front_is_null :
      (k : ℕ)
      → Sorts (comp_shdr e) e.shdrs sorted
      → IsPlaced e
      → 1 ≤ k
      → k < length e.shdrs
      → get_or sorted 0 [] ≢ get_or e.shdrs k []
  unfolding comp_shdr
  front_is_null k s p first lt same =
      let (z, z_lt, z_same) = s.to_new (get_or e.shdrs 0 []) (0, omega (arith, lt), refl) in
      let far : 0 < offset e (get_or sorted 0 []) =
        omega (arith, ap (offset e) same, p.placed k first lt) in
      let near : offset e (get_or sorted z []) ≡ 0 = ap (offset e) z_same ∙ p.null in
      elim (dec_lt 0 z) [
        | yes behind ↦ cc (
          Ordered-head (comp_shdr e) sorted z s.ordered behind z_lt,
          lt→ltb (offset e (get_or sorted z [])) (offset e (get_or sorted 0 []))
              (omega (arith, near, far)),
        )
        | no front ↦
            let zero_z : z ≡ 0 = omega (arith, front) in
            absurd (omega (arith, far, near, ap (λ n. offset e (get_or sorted n [])) zero_z))
      ]

  -- Every section has a place behind the first.
  pub find_moved :
      (k : ℕ)
      → Sorts (comp_shdr e) e.shdrs sorted
      → IsPlaced e
      → 1 ≤ k
      → k < length e.shdrs
      → (j : ℕ) × (1 ≤ j) × (j < length sorted) × (get_or sorted j [] ≡ get_or e.shdrs k [])
  find_moved k s p first lt =
      let (j, j_lt, same) = s.to_new (get_or e.shdrs k []) (k, lt, refl) in
      elim (dec_lt 0 j) [
        | yes behind ↦ (j, omega (arith, behind), j_lt, same)
        | no front ↦
            let zero_j : j ≡ 0 = omega (arith, front) in
            absurd (front_is_null k s p first lt (ap (λ n. get_or sorted n []) (sym zero_j) ∙ same))
      ]

  pub sorted-Every :
      (P : List ℕ → Type 0) → Sorts (comp_shdr e) e.shdrs sorted → Every P e.shdrs → Every P sorted
  sorted-Every P s all j lt =
      let (i, i_lt, same) = s.from_old (get_or sorted j []) (j, lt, refl) in
      subst P same (all i i_lt)

  -- What the map has for a section that refers to another one, and where that one is now.
  pub noted_present :
      (f : Class → Field) (test : Elf → ℕ → Result Bool) (decides : List ℕ → Bool) (m0 m : NameMap)
      (count j : ℕ)
      → Sorts (comp_shdr e) e.shdrs sorted
      → IsPlaced e
      → Notes e f test decides count 1 m0 m
      → length e.shdrs ≡ 1 + count
      → decides (get_or e.shdrs 0 []) ≡ false
      → 1 ≤ target e f (get_or sorted j [])
      → target e f (get_or sorted j []) < length e.shdrs
      → j < length sorted
      → decides (get_or sorted j []) ≡ true
      → (map_at m (header_name e (get_or sorted j [])) ≡ target_name e f (get_or sorted j []))
        × ((k : ℕ) × (1 ≤ k)
            × (k < length sorted)
            × (header_name e (get_or sorted k []) ≡ map_at m (header_name e (get_or sorted j []))))
  noted_present f test decides m0 m count j s p notes whole null low high lt d =
      let h = get_or sorted j [] in
      let (i, i_lt, same) = s.from_old h (j, lt, refl) in
      let behind : 1 ≤ i = elim (dec_lt 0 i) [
        | yes b ↦ (let le : 1 ≤ i = omega (arith, b) in le)
        | no front ↦
            let zero_i : i ≡ 0 = omega (arith, front) in
            cc (null, d, ap decides same, ap (λ n. decides (get_or e.shdrs n [])) zero_i)
      ] in
      let told =
        subst (λ x. decides x ≡ true → lookup m (header_name e x) ≡ some (target_name e f x)) same
          (notes.told i behind (omega (arith, i_lt, whole))) d in
      let (k, first, k_lt, k_same) = find_moved (target e f h) s p low high in
      let wanted : map_at m (header_name e h) ≡ target_name e f h =
        map_at-some m (header_name e h) _ told in
      (wanted, (k, first, k_lt, ap (header_name e) k_same ∙ sym wanted))
