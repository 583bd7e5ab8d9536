-- ===== src/Patchelf/Rewrite/Sort/Names.antt =====
-- The section header table as a list of headers, each with the name that its `sh_name` refers to.
use electrum_lightning_test.Base.{
  ℕ, ◌≤◌, ◌<◌, ◌≡◌, refl, sym, ap, ◌∙◌, inl, inr, arith, true, leb, List, [], length, drop, get_or,
}
use electrum_lightning_test.Base.Table.{get_elem?-get_or}
use electrum_lightning_test.Patchelf.Elf.{sh_name, e_shnum}
use electrum_lightning_test.Patchelf.Result.{ok, ok-inj}
use electrum_lightning_test.Patchelf.File.{Elf, get, hdr_get}
use electrum_lightning_test.Patchelf.Section.{
  until_nul, shdr_at, get_section_name, name_at, find_section3,
}
use electrum_lightning_test.Patchelf.Section.Find.{find_section3-First}
use electrum_lightning_test.Patchelf.Dynamic.{Name}

-- The object with another table.
abbrev pub with_table : Elf → List (List ℕ) → Elf
with_table e table = record e { shdrs = table }

abbrev pub Every : (List ℕ → Type 0) → List (List ℕ) → Type 0
Every P table = (j : ℕ) → j < length table → P (get_or table j [])

abbrev pub name_place : Elf → List ℕ → ℕ
name_place e h = get e.little_endian (sh_name e.class_of) h

abbrev pub header_name : Elf → List ℕ → Name
header_name e h = until_nul (drop (name_place e h) e.section_names)

-- The name stands within the string table.
abbrev pub IsNamed : Elf → List ℕ → Type 0
IsNamed e h = leb (name_place e h) (length e.section_names) ≡ true

module _ (e : Elf) (table : List (List ℕ)) where
  pub shdr_at-entry :
      (j : ℕ) → j < length table → shdr_at (with_table e table) j ≡ ok (get_or table j [])
  unfolding shdr_at
  shdr_at-entry j lt = rw (get_elem?-get_or table j [] lt) refl

  pub name_at-entry :
      (j : ℕ)
      → j < length table
      → IsNamed e (get_or table j [])
      → name_at (with_table e table) j ≡ ok (header_name e (get_or table j []))
  unfolding name_at get_section_name
  name_at-entry j lt named = rw (shdr_at-entry j lt, named) refl

  -- A name that a section has is found, and the index is that of a section with the name.
  pub find_by_name :
      (s : Name) (k : ℕ)
      → hdr_get e e_shnum ≡ length table
      → Every (IsNamed e) table
      → 1 ≤ k
      → k < length table
      → header_name e (get_or table k []) ≡ s
      → (n : ℕ) × (find_section3 (with_table e table) s ≡ ok n)
        × (1 ≤ n)
        × (n < length table)
        × (header_name e (get_or table n []) ≡ s)
  unfolding hdr_get
  find_by_name s k count named first lt same =
      let (n, found, which) = find_section3-First (with_table e table) s (λ i a b. (
        header_name e (get_or table i []),
        let b' : i < length table = omega (arith, b, count) in name_at-entry i b' (named i b'),
      )) in
      elim which [
        | inl (low, high, here, before) ↦
            (let high' : n < length table = omega (arith, high, count) in
              (n, found, low, high', ok-inj (sym (name_at-entry n high' (named n high')) ∙ here)))
        | inr (zero_n, none_at) ↦ absurd (
            none_at k first (omega (arith, lt, count))
              (name_at-entry k lt (named k lt) ∙ ap ok same))
      ]
