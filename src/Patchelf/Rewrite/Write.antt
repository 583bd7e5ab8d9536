-- ===== src/Patchelf/Rewrite/Write.antt =====
-- `writeReplacedSections` of bitcoin-core/patchelf-0.9/src/patchelf.cc. A store is to stay in the file,
-- which the callers have grown.
pub mod Space
pub mod Sync
pub mod Named
pub mod Put
pub mod Wrote
pub mod Round
pub mod Loop
pub mod Back
use electrum_lightning_test.Base.{ℕ, ◌+◌, ◌%◌, ◌==◌, true, false, List, [], ◌∷◌, length, replicate}
use electrum_lightning_test.Patchelf.Elf.{
  p_type, p_offset, p_vaddr, p_paddr, p_filesz, p_memsz, sh_offset, sh_addr, sh_size, sh_addralign,
}
use electrum_lightning_test.Patchelf.Elf.Tag.{pt_interp, pt_dynamic}
use electrum_lightning_test.Patchelf.Word.{round_up}
use electrum_lightning_test.Patchelf.Result.{Result, ok, ◌>>=◌}
use electrum_lightning_test.Patchelf.File.{Elf, section_alignment}
use electrum_lightning_test.Patchelf.Section.{find_section, shdr_at, string_eq}
use electrum_lightning_test.Patchelf.Interpreter.{dot_interp}
use electrum_lightning_test.Patchelf.Dynamic.{Name, dot_dynamic, write_bytes}
use electrum_lightning_test.Patchelf.Headers.{
  for_range, shdr_get, shdr_put, phdr_get, phdr_put_raw, raw_field, sub_word, word,
}

-- The first loop: `memset` of a section's old place to 'X'.
unfoldable pub cross_sections : List (Name × List ℕ) → Elf → Result Elf
cross_sections [] e = ok e
cross_sections (entry ∷ rest) e = do
  i ← find_section e entry.0
  offset ← shdr_get e i sh_offset
  size ← shdr_get e i sh_size
  e' ← write_bytes e offset (replicate size b'X')
  cross_sections rest e'

-- A segment of one type gets the fields of the section header, byte by byte.
unfoldable pub sync_segment : (type i j : ℕ) → Elf → Result Elf
sync_segment type i j e = do
  t ← phdr_get e j p_type
  elim (t == type) [
    | false ↦ ok e
    | true ↦ do
      s ← shdr_at e i
      e1 ← phdr_put_raw p_offset (raw_field e sh_offset s) j e
      e2 ← phdr_put_raw p_paddr (raw_field e sh_addr s) j e1
      e3 ← phdr_put_raw p_vaddr (raw_field e sh_addr s) j e2
      e4 ← phdr_put_raw p_memsz (raw_field e sh_size s) j e3
      phdr_put_raw p_filesz (raw_field e sh_size s) j e4
  ]

unfoldable pub sync_segments : (name key : Name) → (type i : ℕ) → Elf → Result Elf
sync_segments name key type i e = elim (string_eq name key) [
  | false ↦ ok e
  | true ↦ for_range (sync_segment type i) (length e.phdrs) 0 e
]

-- A round of the second loop: the section is written at `curOff`, and its header and segment follow.
unfoldable pub write_section :
    (cur_off start_addr start_offset : ℕ) → Name → List ℕ → Elf → Result Elf
write_section cur_off start_addr start_offset name bytes e = do
  i ← find_section e name
  e1 ← write_bytes e cur_off bytes
  e2 ← shdr_put sh_offset cur_off i e1
  e3 ← shdr_put sh_addr (start_addr + sub_word e.class_of cur_off start_offset) i e2
  e4 ← shdr_put sh_size (length bytes) i e3
  e5 ← shdr_put sh_addralign (section_alignment e.class_of) i e4
  e6 ← sync_segments name dot_interp pt_interp i e5
  sync_segments name dot_dynamic pt_dynamic i e6

unfoldable pub write_sections :
    (start_addr start_offset : ℕ) → List (Name × List ℕ) → (cur_off : ℕ) → Elf → Result (ℕ × Elf)
write_sections start_addr start_offset [] cur_off e = ok (cur_off, e)
write_sections start_addr start_offset (entry ∷ rest) cur_off e = do
  e' ← write_section cur_off start_addr start_offset entry.0 entry.1 e
  write_sections start_addr start_offset rest
      ((cur_off + round_up (length entry.1) (section_alignment e.class_of)) % word e.class_of) e'

-- The result has `curOff` as it is after.
unfoldable pub write_replaced_sections :
    (cur_off start_addr start_offset : ℕ) → Elf → Result (ℕ × Elf)
write_replaced_sections cur_off start_addr start_offset e = do
  e1 ← cross_sections e.replaced_sections e
  r ← write_sections start_addr start_offset e.replaced_sections cur_off e1
  ok (r.0, record r.1 { replaced_sections = [] })
