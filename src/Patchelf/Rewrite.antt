-- ===== src/Patchelf/Rewrite.antt =====
-- `rewriteSections` of bitcoin-core/patchelf-0.9/src/patchelf.cc, with its two cases; the methods below
-- it are in the children. `page` is `getPageSize()`, and `sort` is `std::sort`.
pub mod Sort
pub mod Shift
pub mod Write
pub mod Headers
use electrum_lightning_test.Base.{
  ℕ, suc, zero, ◌+◌, ◌-◌, ◌*◌, ◌/◌, ◌%◌, ◌^◌, ◌==◌, leb, ltb, not, Bool, true, false, ◌||◌, ◌&&◌,
  List, [], ◌∷◌, length, replicate, Option, none, some, if◌then◌else◌,
}
use electrum_lightning_test.Patchelf.Elf.{
  Class, ehdr, phdr, sum, e_type, e_phoff, e_shoff, e_shnum, e_shentsize, p_vaddr, p_memsz, sh_type,
  sh_offset, sh_addr, sh_size,
}
use electrum_lightning_test.Patchelf.Elf.Tag.{et_dyn, et_exec, sht_progbits}
use electrum_lightning_test.Patchelf.Word.{round_up}
use electrum_lightning_test.Patchelf.Result.{
  Result, ok, failed, assert, require, within, unknown_elf_type, address_space_underrun, ◌>>=◌,
  ◌>>◌,
}
use electrum_lightning_test.Patchelf.File.{Elf, section_alignment, get, hdr_get, hdr_put, grow_file}
use electrum_lightning_test.Patchelf.Section.{name_at, lookup, string_eq, replace_section}
use electrum_lightning_test.Patchelf.Parse.{table_end}
use electrum_lightning_test.Patchelf.Interpreter.{dot_interp}
use electrum_lightning_test.Patchelf.Dynamic.{Name, dot_dynstr, write_bytes}
use electrum_lightning_test.Patchelf.Headers.{for_range, shdr_get, add_segment, sub_word, word}
use electrum_lightning_test.Patchelf.Rewrite.Sort.{StdSort, sort_shdrs}
use electrum_lightning_test.Patchelf.Rewrite.Shift.{shift_file}
use electrum_lightning_test.Patchelf.Rewrite.Write.{write_replaced_sections}
use electrum_lightning_test.Patchelf.Rewrite.Headers.{store_sections, rewrite_headers}

-- The page behind the segments: the greatest `roundUp` of a segment's end, or 0.
unfoldable pub last_page : (page : ℕ) → Elf → List (List ℕ) → (start_page : ℕ) → ℕ
last_page page e [] start_page = start_page
last_page page e (h ∷ hs) start_page =
    let c = e.class_of in
    let address = get e.little_endian (p_vaddr c) h + get e.little_endian (p_memsz c) h in
    let this_page = round_up (address % word c) page in
    last_page page e hs (if ltb start_page this_page then this_page else start_page)

-- `neededSpace += roundUp(i->second.size(), sectionAlignment)` over the replaced sections
unfoldable pub needed_space : Class → List (Name × List ℕ) → ℕ
needed_space c [] = 0
needed_space c (entry ∷ rest) =
    round_up (length entry.1) (section_alignment c) + needed_space c rest

-- The hole for executables: the file, the new offset and the new page.
unfoldable pub make_hole : (page start_offset start_page : ℕ) → Elf → Result (Elf × ℕ × ℕ)
make_hole page start_offset start_page e = elim e.is_executable [
  | false ↦ ok (e, start_offset, start_page)
  | true ↦ elim (leb start_page start_offset) [
    | true ↦ ok (e, start_offset, start_offset)
    | false ↦ do
      let hole = start_page - start_offset
      assert (hole % page == 0)
      e' ← grow_file e (length e.contents + hole)
      ok (e', start_page, start_page)
  ]
]

unfoldable pub rewrite_sections_library : StdSort → (page : ℕ) → Elf → Result Elf
rewrite_sections_library sort page e = do
  let c = e.class_of
  let size = sum (phdr c)
  let space = (length e.phdrs + 1) * size + needed_space c e.replaced_sections
  let offset = round_up (length e.contents) page
  e1 ← grow_file e (offset + space)
  h ← make_hole page offset (last_page page e e.phdrs 0) e1
  e2 ← add_segment page h.1 h.2 space h.0
  w ← write_replaced_sections ((h.1 + length e2.phdrs * size) % word c) h.2 h.1 e2
  assert (w.0 == h.1 + space)
  rewrite_headers sort h.2 (hdr_put w.1 e_phoff h.1)

-- The index of the last replaced section among the `k` from `i` on, or the one so far.
unfoldable pub last_replaced : Elf → (k i last : ℕ) → Result ℕ
last_replaced e zero i last = ok last
last_replaced e (suc k) i last = do
  name ← name_at e i
  last_replaced e k (i + 1) (elim (lookup e.replaced_sections name) [ none ↦ last | some s ↦ i ])

-- `startOffset`, `startAddr` and the object, behind the loop over the sections before the last one
-- replaced.
pub record Reserved : Type 0 where
  pub offset : ℕ
  pub address : ℕ
  pub object : Elf

-- A section of program data other than .interp ends the loop, and so does one behind .dynstr; any other
-- one that is in the way is replaced by itself.
unfoldable pub reserve_loop : (k i : ℕ) → (previous : Name) → Reserved → Result Reserved
reserve_loop zero i previous r = ok r
reserve_loop (suc k) i previous r = do
  let e = r.object
  name ← name_at e i
  type ← shdr_get e i sh_type
  offset ← shdr_get e i sh_offset
  address ← shdr_get e i sh_addr
  size ← shdr_get e i sh_size
  elim (((type == sht_progbits) && not (string_eq name dot_interp))
      || string_eq previous dot_dynstr) [
        | true ↦ ok (record r { offset = offset; address = address })
        | false ↦ elim (lookup e.replaced_sections name) [
          | some s ↦ reserve_loop k (i + 1) name r
          | none ↦ replace_section e name (size % 2 ^ 32) >>= λ replaced.
              reserve_loop k (i + 1) name (record r { object = replaced.1 })
        ]
      ]

-- `growFile(fileSize + size)` with the sum in an `off_t`: a `size` from 2 ^ 63 on is below 0.
unfoldable pub grow_by : (size : ℕ) → Elf → Result Elf
grow_by size e = if ltb size (2 ^ 63) then grow_file e (length e.contents + size) else ok e

-- Section headers in front of the reserved place move to the end of the file.
unfoldable pub save_sections : StdSort → (start_offset : ℕ) → Elf → Result Elf
save_sections sort start_offset e = elim (ltb (hdr_get e e_shoff) start_offset) [
  | false ↦ ok e
  | true ↦ do
    let new_offset = length e.contents
    e1 ←
        grow_by
          (table_end e.class_of (hdr_get e e_shoff) (hdr_get e e_shnum) (hdr_get e e_shentsize)) e
    store_sections sort (hdr_put e1 e_shoff new_offset)
]

-- Pages in front of the file, when the reserved place is too small: the space needed, `startOffset`,
-- `firstPage` and the object.
unfoldable pub make_room : (page space start_offset first_page : ℕ) → Elf → Result (ℕ × ℕ × ℕ × Elf)
make_room page space start_offset first_page e = elim (ltb start_offset space) [
  | false ↦ ok (space, start_offset, first_page, e)
  | true ↦ do
    let space' = space + sum (phdr e.class_of)
    let pages = round_up (space' - start_offset) page / page
    let bytes = pages * page % 2 ^ 32
    require (leb bytes first_page) address_space_underrun
    e' ← shift_file page pages (first_page - bytes) e
    ok (space', start_offset + bytes, first_page - bytes, e')
]

unfoldable pub rewrite_sections_executable : StdSort → (page : ℕ) → Elf → Result Elf
rewrite_sections_executable sort page e0 = do
  e ← sort_shdrs sort e0
  let c = e.class_of
  last ← last_replaced e (hdr_get e e_shnum - 1) 1 0
  assert (not (last == 0))
  assert (ltb (last + 1) (length e.shdrs))
  offset ← shdr_get e (last + 1) sh_offset
  address ← shdr_get e (last + 1) sh_addr
  r ← reserve_loop last 1 [] (record { offset = offset; address = address; object = e })
  assert (r.address % page == r.offset % page)
  e1 ← save_sections sort r.offset r.object
  let header = sum (ehdr c) + length e1.phdrs * sum (phdr c)
  m ←
      make_room page (header + needed_space c e1.replaced_sections) r.offset
        (sub_word c r.address r.offset) e1
  let e2 = m.3
  let cur_off = sum (ehdr c) + length e2.phdrs * sum (phdr c)
  within (leb cur_off m.1)
  e3 ← write_bytes e2 cur_off (replicate (m.1 - cur_off) 0)
  w ← write_replaced_sections cur_off m.2 0 e3
  assert (w.0 == m.0)
  rewrite_headers sort ((m.2 + hdr_get w.1 e_phoff) % word c) w.1

unfoldable pub rewrite_sections : StdSort → (page : ℕ) → Elf → Result Elf
rewrite_sections sort page e = elim e.replaced_sections [
  | [] ↦ ok e
  | s ∷ rest ↦
      let type = hdr_get e e_type in
      if type == et_dyn
      then rewrite_sections_library sort page e
      else if type == et_exec
      then rewrite_sections_executable sort page e
      else failed unknown_elf_type
]
