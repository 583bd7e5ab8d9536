-- ===== src/Patchelf/Rewrite/Shift.antt =====
-- `shiftFile` of bitcoin-core/patchelf-0.9/src/patchelf.cc.
pub mod Moved
pub mod Sections
pub mod Segments
pub mod Fields
pub mod Whole
use electrum_lightning_test.Base.{
  ℕ, ◌+◌, ◌-◌, ◌*◌, ◌%◌, ◌^◌, ◌==◌, leb, true, false, length, replicate,
}
use electrum_lightning_test.Base.{slice}
use electrum_lightning_test.Patchelf.Elf.{
  ehdr, sum, e_phoff, e_shoff, e_shnum, e_phnum, sh_offset, p_offset, p_vaddr, p_align,
}
use electrum_lightning_test.Patchelf.Result.{Result, ok, within, ◌>>=◌, ◌>>◌}
use electrum_lightning_test.Patchelf.File.{Elf, hdr_get, hdr_put, grow_file}
use electrum_lightning_test.Patchelf.Dynamic.{write_bytes}
use electrum_lightning_test.Patchelf.Headers.{
  for_range, shdr_get, shdr_put, phdr_get, phdr_put, add_segment, sub_word,
}

-- `memmove` of the file by `shift` bytes, and `memset` of the gap behind the ELF header. `oldSize` has
-- 32 bits.
unfoldable pub move_contents : (shift : ℕ) → Elf → Result Elf
move_contents shift e = do
  let size = sum (ehdr e.class_of)
  let old_size = length e.contents % 2 ^ 32
  e1 ← grow_file e (length e.contents + shift)
  e2 ← write_bytes e1 shift (slice e1.contents 0 old_size)
  within (leb size shift)
  write_bytes e2 size (replicate (shift - size) 0)

unfoldable pub shift_shdr : (shift i : ℕ) → Elf → Result Elf
shift_shdr shift i e = do offset ← shdr_get e i sh_offset; shdr_put sh_offset (offset + shift) i e

-- The alignment becomes the page size where the address and the new offset do not agree.
unfoldable pub shift_phdr : (page shift i : ℕ) → Elf → Result Elf
shift_phdr page shift i e = do
  offset ← phdr_get e i p_offset
  e1 ← phdr_put p_offset (offset + shift) i e
  align ← phdr_get e1 i p_align
  address ← phdr_get e1 i p_vaddr
  moved ← phdr_get e1 i p_offset
  elim (align == 0) [
    | true ↦ ok e1
    | false ↦ elim (sub_word e.class_of address moved % align == 0) [
      | true ↦ ok e1
      | false ↦ phdr_put p_align page i e1
    ]
  ]

unfoldable pub shift_file : (page extra_pages start_page : ℕ) → Elf → Result Elf
shift_file page extra_pages start_page e = do
  let shift = extra_pages * page % 2 ^ 32
  e1 ← move_contents shift e
  let e2 = hdr_put e1 e_phoff (sum (ehdr e.class_of))
  let e3 = hdr_put e2 e_shoff (hdr_get e2 e_shoff + shift)
  e4 ← for_range (shift_shdr shift) (hdr_get e3 e_shnum - 1) 1 e3
  e5 ← for_range (shift_phdr page shift) (hdr_get e4 e_phnum) 0 e4
  add_segment page 0 start_page shift e5
