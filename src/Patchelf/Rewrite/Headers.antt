-- ===== src/Patchelf/Rewrite/Headers.antt =====
-- `rewriteHeaders` of bitcoin-core/patchelf-0.9/src/patchelf.cc.
use electrum_lightning_test.Base.{
  ℕ, suc, zero, ◌+◌, ◌-◌, ◌*◌, ◌/◌, ◌%◌, ◌^◌, ◌==◌, ltb, not, true, false, ◌||◌, ◌&&◌, List, [],
  ◌∷◌, length, drop, bit_and, Option, none, some, get_elem?, if◌then◌else◌,
}
use electrum_lightning_test.Patchelf.Elf.{
  Class, Field, phdr, shdr, sym, sum, e_phoff, e_shoff, e_shnum, p_type, p_offset, p_vaddr, p_paddr,
  p_filesz, p_memsz, sh_type, sh_addr, sh_size, sh_offset, d_tag, d_un, st_shndx, st_info, st_value,
}
use electrum_lightning_test.Patchelf.Elf.Tag.{
  pt_phdr, dt_null, dt_strtab, dt_strsz, dt_symtab, dt_hash, dt_gnu_hash, dt_jmprel, dt_rel,
  dt_rela, dt_verneed, dt_versym, sht_symtab, sht_dynsym, shn_undef, shn_loreserve, stt_section,
}
use electrum_lightning_test.Patchelf.Word.{wri}
use electrum_lightning_test.Patchelf.Result.{
  Result, ok, fault, failed, assert, no_jmprel_section, ◌>>=◌, ◌>>◌,
}
use electrum_lightning_test.Patchelf.File.{Elf, hdr_get}
use electrum_lightning_test.Patchelf.Section.{find_section, find_section2, find_section3, shdr_at}
use electrum_lightning_test.Patchelf.Dynamic.{
  Name, dot_dynamic, dot_dynstr, read_field, write_bytes, dyn_rounds, dyn_size,
}
use electrum_lightning_test.Patchelf.Headers.{
  for_range, shdr_get, phdr_get, phdr_put, phdr_put_raw, raw_field, store_headers,
}
use electrum_lightning_test.Base.{slice}
use electrum_lightning_test.Patchelf.Rewrite.Sort.{StdSort, sort_phdrs, sort_shdrs}

-- The first PT_PHDR among the `k` segments from `i` on gets the place of the table.
unfoldable pub update_phdr : (address : ℕ) → (k i : ℕ) → Elf → Result Elf
update_phdr address zero i e = ok e
update_phdr address (suc k) i e = do
  type ← phdr_get e i p_type
  elim (type == pt_phdr) [
    | false ↦ update_phdr address k (i + 1) e
    | true ↦ do
      let f = e_phoff e.class_of
      let size = length e.phdrs * sum (phdr e.class_of)
      e1 ← phdr_put_raw p_offset (slice e.contents f.at f.width) i e
      e2 ← phdr_put p_paddr address i e1
      e3 ← phdr_put p_vaddr address i e2
      e4 ← phdr_put p_memsz size i e3
      phdr_put p_filesz size i e4
  ]

-- The section header table, with the sections sorted; the first header is not stored.
unfoldable pub store_sections : StdSort → Elf → Result Elf
store_sections sort e = do
  assert (hdr_get e e_shnum == length e.shdrs)
  e1 ← sort_shdrs sort e
  store_headers (hdr_get e1 e_shoff) (sum (shdr e.class_of)) 1 (drop 1 e1.shdrs) e1

-- `dyn->d_un = shdr.f`, byte by byte
unfoldable pub set_from : (at i : ℕ) → (Class → Field) → Elf → Result Elf
set_from at i f e = do s ← shdr_at e i; write_bytes e (at + (d_un e.class_of).at) (raw_field e f s)

unfoldable pub set_from_section : (at : ℕ) → Name → (Class → Field) → Elf → Result Elf
set_from_section at name f e = do i ← find_section e name; set_from at i f e

-- `findSection2` of the names in turn
unfoldable pub find_first : List Name → Elf → Result (Option ℕ)
find_first [] e = ok none
find_first (name ∷ names) e = do
  found ← find_section2 e name
  elim found [ some i ↦ ok (some i) | none ↦ find_first names e ]

unfoldable pub set_from_first :
    (missing : Elf → Result Elf) → (at : ℕ) → List Name → Elf → Result Elf
set_from_first missing at names e = do
  found ← find_first names e
  elim found [ some i ↦ set_from at i sh_addr e | none ↦ missing e ]

abbrev pub dot_dynsym : Name
dot_dynsym = b'.' ∷ b'd' ∷ b'y' ∷ b'n' ∷ b's' ∷ b'y' ∷ b'm' ∷ []

abbrev pub dot_hash : Name
dot_hash = b'.' ∷ b'h' ∷ b'a' ∷ b's' ∷ b'h' ∷ []

abbrev pub dot_gnu_hash : Name
dot_gnu_hash = b'.' ∷ b'g' ∷ b'n' ∷ b'u' ∷ b'.' ∷ b'h' ∷ b'a' ∷ b's' ∷ b'h' ∷ []

abbrev pub dot_rel_plt : Name
dot_rel_plt = b'.' ∷ b'r' ∷ b'e' ∷ b'l' ∷ b'.' ∷ b'p' ∷ b'l' ∷ b't' ∷ []

abbrev pub dot_rela_plt : Name
dot_rela_plt = b'.' ∷ b'r' ∷ b'e' ∷ b'l' ∷ b'a' ∷ b'.' ∷ b'p' ∷ b'l' ∷ b't' ∷ []

abbrev pub dot_rela_ia64 : Name
dot_rela_ia64 =
    b'.' ∷ b'r' ∷ b'e' ∷ b'l' ∷ b'a' ∷ b'.' ∷ b'I' ∷ b'A' ∷ b'_' ∷ b'6' ∷ b'4' ∷ b'.' ∷ b'p' ∷ b'l'
    ∷ b't' ∷ b'o' ∷ b'f' ∷ b'f' ∷ []

abbrev pub dot_rel_dyn : Name
dot_rel_dyn = b'.' ∷ b'r' ∷ b'e' ∷ b'l' ∷ b'.' ∷ b'd' ∷ b'y' ∷ b'n' ∷ []

abbrev pub dot_rel_got : Name
dot_rel_got = b'.' ∷ b'r' ∷ b'e' ∷ b'l' ∷ b'.' ∷ b'g' ∷ b'o' ∷ b't' ∷ []

abbrev pub dot_rela_dyn : Name
dot_rela_dyn = b'.' ∷ b'r' ∷ b'e' ∷ b'l' ∷ b'a' ∷ b'.' ∷ b'd' ∷ b'y' ∷ b'n' ∷ []

abbrev pub dot_gnu_version_r : Name
dot_gnu_version_r =
    b'.' ∷ b'g' ∷ b'n' ∷ b'u' ∷ b'.' ∷ b'v' ∷ b'e' ∷ b'r' ∷ b's' ∷ b'i' ∷ b'o' ∷ b'n' ∷ b'_' ∷ b'r'
    ∷ []

abbrev pub dot_gnu_version : Name
dot_gnu_version =
    b'.' ∷ b'g' ∷ b'n' ∷ b'u' ∷ b'.' ∷ b'v' ∷ b'e' ∷ b'r' ∷ b's' ∷ b'i' ∷ b'o' ∷ b'n' ∷ []

-- The branches on the tag.
unfoldable pub update_dyn : (at tag : ℕ) → Elf → Result Elf
update_dyn at tag e =
    if tag == dt_strtab
    then set_from_section at dot_dynstr sh_addr e
    else if tag == dt_strsz
    then set_from_section at dot_dynstr sh_size e
    else if tag == dt_symtab
    then set_from_section at dot_dynsym sh_addr e
    else if tag == dt_hash
    then set_from_section at dot_hash sh_addr e
    else if tag == dt_gnu_hash
    then set_from_section at dot_gnu_hash sh_addr e
    else if tag == dt_jmprel
    then set_from_first (λ x. failed no_jmprel_section) at
        (dot_rel_plt ∷ dot_rela_plt ∷ dot_rela_ia64 ∷ []) e
    else if tag == dt_rel
    then set_from_first (λ x. ok x) at (dot_rel_dyn ∷ dot_rel_got ∷ []) e
    else if tag == dt_rela
    then set_from_first (λ x. ok x) at (dot_rela_dyn ∷ []) e
    else if tag == dt_verneed
    then set_from_section at dot_gnu_version_r sh_addr e
    else if tag == dt_versym
    then set_from_section at dot_gnu_version sh_addr e
    else ok e

-- The loop over the dynamic section. `d_tag` is an `unsigned int` here, also in the test of DT_NULL, so
-- that this loop is not `for_dyn`; `fuel` is as there.
unfoldable pub update_loop : (fuel at : ℕ) → Elf → Result Elf
update_loop zero at e = fault
update_loop (suc fuel) at e = do
  d ← read_field e at (d_tag e.class_of)
  let tag = d % 2 ^ 32
  elim (tag == dt_null) [
    | true ↦ ok e
    | false ↦ update_dyn at tag e >>= λ next. update_loop fuel (at + dyn_size e.class_of) next
  ]

unfoldable pub update_dynamic : Elf → Result Elf
update_dynamic e = do
  found ← find_section2 e dot_dynamic
  elim found [
    | none ↦ ok e
    | some i ↦ do offset ← shdr_get e i sh_offset; update_loop (dyn_rounds e) offset e
  ]

-- `wri(p->f, v)` for a structure at offset `at` of the contents
unfoldable pub write_field : (at : ℕ) → Field → ℕ → Elf → Result Elf
write_field at f v e = write_bytes e (at + f.at) (wri e.little_endian f.width v)

-- A symbol at `at` gets the new index of its section, whose old one is `shndx`.
unfoldable pub move_symbol : (at shndx : ℕ) → Elf → Result Elf
move_symbol at shndx e = elim (get_elem? e.sections_by_old_index shndx) [
  | none ↦ ok e
  | some section ↦ do
    assert (ltb 0 (length section))
    new_index ← find_section3 e section
    e1 ← write_field at (st_shndx e.class_of) new_index e
    info ← read_field e1 at (st_info e.class_of)
    elim (bit_and info 0xf == stt_section) [
      | false ↦ ok e1
      | true ↦ do
        address ← shdr_get e1 new_index sh_addr
        write_field at (st_value e.class_of) address e1
    ]
]

unfoldable pub update_symbol : (offset entry : ℕ) → Elf → Result Elf
update_symbol offset entry e = do
  let at = offset + entry * sum (sym e.class_of)
  shndx ← read_field e at (st_shndx e.class_of)
  elim (not (shndx == shn_undef) && ltb shndx shn_loreserve) [
    | false ↦ ok e
    | true ↦ move_symbol at shndx e
  ]

-- The symbols of section `i`, if it has any: as many as fit in its size.
unfoldable pub update_symbols : (i : ℕ) → Elf → Result Elf
update_symbols i e = do
  type ← shdr_get e i sh_type
  elim ((type == sht_symtab) || (type == sht_dynsym)) [
    | false ↦ ok e
    | true ↦ do
      offset ← shdr_get e i sh_offset
      size ← shdr_get e i sh_size
      for_range (update_symbol offset) (size / sum (sym e.class_of)) 0 e
  ]

unfoldable pub rewrite_headers : StdSort → (phdr_address : ℕ) → Elf → Result Elf
rewrite_headers sort phdr_address e = do
  e1 ← update_phdr phdr_address (length e.phdrs) 0 e
  let e2 = sort_phdrs sort e1
  e3 ← store_headers (hdr_get e2 e_phoff) (sum (phdr e.class_of)) 0 e2.phdrs e2
  e4 ← store_sections sort e3
  e5 ← update_dynamic e4
  for_range update_symbols (hdr_get e5 e_shnum - 1) 1 e5
