-- ===== src/Patchelf/Tests/Sorting.antt =====
-- Sections that stand in another order than their headers, sorted by insertion, and the result of the
-- theorem on it.
mod Insertion
use electrum_lightning_test.Base.{
  ℕ, suc, zero, ◌+◌, ◌≤◌, ◌<◌, ◌≡◌, refl, sym, ap, ◌∙◌, arith, Bool, true, false, List, [], ◌∷◌,
  ◌++◌, length, replicate, get_or, All,
}
use electrum_lightning_test.Base.Table.{All-get_or}
use electrum_lightning_test.Patchelf.Elf.{elf32, e_shnum, e_shstrndx, sum, shdr, sh_link, sh_info}
use electrum_lightning_test.Patchelf.Elf.Tag.{elfmag}
use electrum_lightning_test.Patchelf.Word.{host_bytes, rdi, rdi_loop, host_value}
use electrum_lightning_test.Patchelf.Result.{ok}
use electrum_lightning_test.Patchelf.File.{Elf, get, hdr_get}
use electrum_lightning_test.Patchelf.Section.{until_nul}
use electrum_lightning_test.Patchelf.Compare.{comp_shdr}
use electrum_lightning_test.Patchelf.Rewrite.Sort.{sort_shdrs}
use electrum_lightning_test.Patchelf.Rewrite.Sort.Names.{header_name, IsNamed}
use electrum_lightning_test.Patchelf.Rewrite.Sort.Note.{target, IsDistinct}
use electrum_lightning_test.Patchelf.Rewrite.Sort.Moved.{IsPlaced, offset}
use electrum_lightning_test.Patchelf.Rewrite.Sort.Links.{is_linked, is_informed, IsTable}
use electrum_lightning_test.Patchelf.Rewrite.Sort.Keeps.{SameLinks, sort_shdrs-SameLinks}
use electrum_lightning_test.Patchelf.Tests.Library.{words, halves}
use electrum_lightning_test.Patchelf.Tests.Sorting.Insertion.{insertion_sort, insertion_sort-IsSort}

-- Sections 1, 2 and 3 at 80, 70 and 60: section 1 refers to section 2 by its `sh_link`, and section 3
-- has relocations for section 1. The string table is section 2.
abbrev entry : ℕ → ℕ → ℕ → ℕ → ℕ → List ℕ
entry name type place link info = words (name ∷ type ∷ 0 ∷ 0 ∷ place ∷ 4 ∷ link ∷ info ∷ 1 ∷ 0 ∷ [])

abbrev disordered : Elf
disordered = record {
  contents =
      elfmag
      ++ (1 ∷ 1 ∷ 1 ∷ replicate 9 0)
      ++ halves (3 ∷ 3 ∷ [])
      ++ words (1 ∷ 0 ∷ 0 ∷ 0 ∷ 0 ∷ [])
      ++ halves (52 ∷ 32 ∷ 0 ∷ 40 ∷ 4 ∷ 2 ∷ []);
  max_size = 1000;
  class_of = elf32;
  phdrs = [];
  shdrs = replicate 40 0 ∷ entry 1 6 80 2 0 ∷ entry 3 3 70 0 0 ∷ entry 5 9 60 0 1 ∷ [];
  little_endian = true;
  changed = false;
  is_executable = false;
  replaced_sections = [];
  section_names = 0 ∷ 1 ∷ 0 ∷ 2 ∷ 0 ∷ 3 ∷ 0 ∷ [];
  sections_by_old_index = [];
}

first_byte :
    (i : ℕ) → 1 ≤ i → i < 4 → get_or (header_name disordered (get_or disordered.shdrs i [])) 0 0 ≡ i
unfolding get rdi rdi_loop host_value words electrum_lightning_test.Base.slice until_nul
first_byte zero first lt = absurd (omega arith)
first_byte (suc zero) first lt = refl
first_byte (suc (suc zero)) first lt = refl
first_byte (suc (suc (suc zero))) first lt = refl
first_byte (suc (suc (suc (suc i)))) first lt = absurd (omega arith)

disordered-IsDistinct : IsDistinct disordered
disordered-IsDistinct i j a b c d same = omega (
  arith,
  first_byte i a (omega (arith, c)),
  first_byte j b (omega (arith, d)),
  ap (λ s. get_or s 0 0) same,
)

disordered-IsPlaced : IsPlaced disordered
unfolding get rdi rdi_loop host_value words electrum_lightning_test.Base.slice
disordered-IsPlaced = record { null = refl; placed = behind }
  where
    behind : (j : ℕ) → 1 ≤ j → j < 4 → 0 < offset disordered (get_or disordered.shdrs j [])
    behind zero first lt = absurd (omega arith)
    behind (suc zero) first lt = omega arith
    behind (suc (suc zero)) first lt = omega arith
    behind (suc (suc (suc zero))) first lt = omega arith
    behind (suc (suc (suc (suc i)))) first lt = absurd (omega arith)

disordered-IsTable : IsTable disordered
unfolding get hdr_get rdi rdi_loop host_value words halves electrum_lightning_test.Base.slice
disordered-IsTable = record {
  count = refl;
  some_section = omega arith;
  short = omega arith;
  sized = λ j lt.
      All-get_or (λ h. length h ≡ 40) disordered.shdrs j [] (refl, (refl, (refl, (refl, tt)))) lt;
  named = λ j lt.
      All-get_or (IsNamed disordered) disordered.shdrs j [] (refl, (refl, (refl, (refl, tt)))) lt;
  distinct = disordered-IsDistinct;
  placed = disordered-IsPlaced;
  null_linked = refl;
  null_informed = refl;
  linked = λ j lt.
      All-get_or (λ h. target disordered sh_link h < 4) disordered.shdrs j []
        (omega arith, (omega arith, (omega arith, (omega arith, tt)))) lt;
  informed = λ j lt d.
      All-get_or (λ h. target disordered sh_info h < 4) disordered.shdrs j []
        (omega arith, (omega arith, (omega arith, (omega arith, tt)))) lt;
  strings = omega arith;
  strings_inside = omega arith;
  header = omega arith;
}

sort_shdrs-SameLinks_example :
    (e' : Elf) × (sort_shdrs insertion_sort disordered ≡ ok e')
    × SameLinks disordered (insertion_sort (comp_shdr disordered) disordered.shdrs) e'
sort_shdrs-SameLinks_example =
    sort_shdrs-SameLinks insertion_sort disordered insertion_sort-IsSort disordered-IsTable
