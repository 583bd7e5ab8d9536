-- ===== src/Patchelf/Rewrite/Sort.antt =====
-- `sortPhdrs` and `sortShdrs` of bitcoin-core/patchelf-0.9/src/patchelf.cc. `sort` is `std::sort`, with
-- the comparison and the vector.
pub mod Sorted
pub mod Names
pub mod Note
pub mod Restore
pub mod Restoring
pub mod Moved
pub mod Links
pub mod Kept
pub mod Whole
pub mod Keeps
use electrum_lightning_test.Base.{
  ℕ, ◌-◌, ◌==◌, not, Bool, true, false, ◌||◌, List, [], none, some, if◌then◌else◌,
}
use electrum_lightning_test.Patchelf.Elf.{
  Class, Field, sh_link, sh_info, sh_type, e_shnum, e_shstrndx,
}
use electrum_lightning_test.Patchelf.Elf.Tag.{sht_rel, sht_rela}
use electrum_lightning_test.Patchelf.Result.{Result, ok, ◌>>=◌}
use electrum_lightning_test.Patchelf.File.{Elf, hdr_get, hdr_put}
use electrum_lightning_test.Patchelf.Section.{name_at, find_section3, insert, lookup}
use electrum_lightning_test.Patchelf.Dynamic.{Name}
use electrum_lightning_test.Patchelf.Headers.{for_range, shdr_get, shdr_put}
use electrum_lightning_test.Patchelf.Compare.{comp_phdr, comp_shdr}

abbrev pub StdSort : Type 0
StdSort = (List ℕ → List ℕ → Bool) → List (List ℕ) → List (List ℕ)

abbrev pub NameMap : Type 0
NameMap = List (Name × Name)

unfoldable pub sort_phdrs : StdSort → Elf → Elf
sort_phdrs sort e = record e { phdrs = sort (comp_phdr e) e.phdrs }

-- Whether the field of section `i` is a section's index that is to be kept up: `sh_link` if it is not
-- 0, and `sh_info` if moreover the section has relocations.
unfoldable pub links : Elf → ℕ → Result Bool
links e i = do n ← shdr_get e i sh_link; ok (not (n == 0))

unfoldable pub informs : Elf → ℕ → Result Bool
informs e i = do
  n ← shdr_get e i sh_info
  type ← shdr_get e i sh_type
  ok (if n == 0 then false else (type == sht_rel) || (type == sht_rela))

-- `map[getSectionName(shdrs[i])] = getSectionName(shdrs[rdi(shdrs[i].f)])`
unfoldable pub note_target :
    (Class → Field) → (Elf → ℕ → Result Bool) → Elf → ℕ → NameMap → Result NameMap
note_target f test e i m = do
  t ← test e i
  elim t [
    | false ↦ ok m
    | true ↦ do
      name ← name_at e i
      n ← shdr_get e i f
      target ← name_at e n
      ok (insert m name target)
  ]

-- `map[key]`: the empty string on a missing key
unfoldable pub map_at : NameMap → Name → Name
map_at m key = elim (lookup m key) [ none ↦ [] | some s ↦ s ]

-- `wri(shdrs[i].f, findSection3(map[getSectionName(shdrs[i])]))`
unfoldable pub restore_target :
    (Class → Field) → (Elf → ℕ → Result Bool) → NameMap → ℕ → Elf → Result Elf
restore_target f test m i e = do
  t ← test e i
  elim t [
    | false ↦ ok e
    | true ↦ do name ← name_at e i; n ← find_section3 e (map_at m name); shdr_put f n i e
  ]

unfoldable pub sort_shdrs : StdSort → Elf → Result Elf
sort_shdrs sort e = do
  let k = hdr_get e e_shnum - 1
  linkage ← for_range (note_target sh_link links e) k 1 []
  info ← for_range (note_target sh_info informs e) k 1 []
  shstrtab_name ← name_at e (hdr_get e e_shstrndx)
  let e1 = record e { shdrs = sort (comp_shdr e) e.shdrs }
  e2 ← for_range (restore_target sh_link links linkage) k 1 e1
  e3 ← for_range (restore_target sh_info informs info) k 1 e2
  n ← find_section3 e3 shstrtab_name
  ok (hdr_put e3 e_shstrndx n)
