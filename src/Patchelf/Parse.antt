-- ===== src/Patchelf/Parse.antt =====
-- `ElfFile::parse` of bitcoin-core/patchelf-0.9/src/patchelf.cc. `int` has 32 bits, `off_t` 64.
pub mod Laws
pub mod Whole
pub mod Total
use electrum_lightning_test.Base.{
  ℕ, suc, zero, ◌+◌, ◌*◌, ◌-◌, ◌%◌, ◌^◌, ◌==◌, leb, ltb, Bool, true, false, not, List, [], ◌∷◌,
  ◌++◌, length, replicate, set, slice, get_or, if◌then◌else◌, ◌&&◌, ◌||◌,
}
use electrum_lightning_test.Patchelf.Elf.{
  Class, Field, elf32, elf64, ehdr, phdr, shdr, sum, e_type, e_phoff, e_shoff, e_phnum, e_phentsize,
  e_shnum, e_shentsize, e_shstrndx, p_type, sh_size, sh_offset,
}
use electrum_lightning_test.Patchelf.Elf.Tag.{
  elfmag, ei_data, elfdata2lsb, et_exec, et_dyn, pt_interp,
}
use electrum_lightning_test.Patchelf.Word.{host_value}
use electrum_lightning_test.Patchelf.Result.{
  Result, ok, assert, require, within, missing_elf_header, not_an_elf_executable, wrong_elf_type,
  missing_program_headers, missing_section_headers, program_headers_have_wrong_size, ◌>>◌, ◌>>=◌,
}
use electrum_lightning_test.Patchelf.File.{Elf, get, hdr_get, check_pointer, read_bytes}
use electrum_lightning_test.Patchelf.Section.{string_eq, shdr_at, name_at}

-- `Elf_Off` and `Elf_Addr` have this many bits.
abbrev pub bits_of : Class → ℕ
bits_of elf32 = 32
bits_of elf64 = 64

-- `(off_t) (off + num * entsize) > fileSize`. The product of two 16-bit fields is an `int`, so it is
-- below 0 from 2 ^ 31 on, and so is the `off_t` of a sum of 64 bits from 2 ^ 63 on.
unfoldable pub table_end : Class → (off num entsize : ℕ) → ℕ
table_end c off num entsize =
    let n = num * entsize % 2 ^ 32 in
    let product = if ltb n (2 ^ 31) then n else n + (2 ^ 64 - 2 ^ 32) in
    (off + product) % 2 ^ bits_of c

unfoldable pub beyond : ℕ → (file_size : ℕ) → Bool
beyond table file_size = ltb table (2 ^ 63) && ltb file_size table

-- `hdrs.push_back(* ((Elf_Hdr *) (contents + off) + i))`, with `k` headers left
unfoldable pub copy_headers : List ℕ → (off size k i : ℕ) → Result (List (List ℕ))
copy_headers contents off size zero i = ok []
copy_headers contents off size (suc k) i = do
  h ← read_bytes contents (off + size * i) size
  rest ← copy_headers contents off size k (i + 1)
  ok (h ∷ rest)

-- Whether a program header copied is of type PT_INTERP, which sets `isExecutable`.
unfoldable pub has_interp : Bool → Class → List (List ℕ) → Bool
has_interp little c [] = false
has_interp little c (h ∷ hs) = (get little (p_type c) h == pt_interp) || has_interp little c hs

-- `sectionsByOldIndex[i] = getSectionName(shdrs[i])`, with `k` sections left
unfoldable pub name_sections : Elf → (k i : ℕ) → List (List ℕ) → Result (List (List ℕ))
name_sections e zero i names = ok names
name_sections e (suc k) i names = do
  n ← name_at e i
  within (ltb i (length names))
  name_sections e k (i + 1) (set names i n)

-- The object that the constructor makes, with the file that `readFile` has read.
unfoldable pub new_elf : Class → (contents : List ℕ) (max_size : ℕ) → Elf
new_elf c contents max_size = record {
  contents = contents;
  max_size = max_size;
  class_of = c;
  phdrs = [];
  shdrs = [];
  little_endian = false;
  changed = false;
  is_executable = false;
  replaced_sections = [];
  section_names = [];
  sections_by_old_index = [];
}

-- The tests of the ELF header, up to the copies of the tables.
unfoldable pub check_header : Elf → Result (Unit {0})
check_header e = do
  let file_size = length e.contents
  let type = hdr_get e e_type
  require ((type == et_exec) || (type == et_dyn)) wrong_elf_type
  require
      (not (
        beyond
          (table_end e.class_of (hdr_get e e_phoff) (hdr_get e e_phnum) (hdr_get e e_phentsize))
          file_size))
      missing_program_headers
  require
      (not (
        beyond
          (table_end e.class_of (hdr_get e e_shoff) (hdr_get e e_shnum) (hdr_get e e_shentsize))
          file_size))
      missing_section_headers
  require (hdr_get e e_phentsize == sum (phdr e.class_of)) program_headers_have_wrong_size

-- The string table of the section names.
unfoldable pub read_names : Elf → Result (List ℕ)
read_names e = do
  let index = hdr_get e e_shstrndx
  assert (ltb index (length e.shdrs))
  s ← shdr_at e index
  let size = get e.little_endian (sh_size e.class_of) s % 2 ^ 32
  let at = get e.little_endian (sh_offset e.class_of) s
  check_pointer e.contents at size
  assert (ltb 0 size)
  assert (get_or e.contents (at + size - 1) 0 == 0)
  ok (slice e.contents at size)

-- `resize(hdr->e_shnum)` reads the field without `rdi`.
unfoldable pub old_index_size : Elf → ℕ
old_index_size e = let f = e_shnum e.class_of in host_value (slice e.contents f.at f.width)

-- The copies of both tables, and `isExecutable`.
unfoldable pub copy_tables : Elf → Result Elf
copy_tables e = do
  ps ← copy_headers e.contents (hdr_get e e_phoff) (sum (phdr e.class_of)) (hdr_get e e_phnum) 0
  ss ← copy_headers e.contents (hdr_get e e_shoff) (sum (shdr e.class_of)) (hdr_get e e_shnum) 0
  ok (record e { phdrs = ps; shdrs = ss; is_executable = has_interp e.little_endian e.class_of ps })

-- `sectionsByOldIndex`, with the loop that fills it
unfoldable pub index_sections : Elf → Result Elf
index_sections e = do
  old ← name_sections e (hdr_get e e_shnum - 1) 1 (replicate (old_index_size e) [])
  ok (record e { sections_by_old_index = old })

unfoldable pub with_order : Elf → Elf
with_order e = record e { little_endian = get_or e.contents ei_data 0 == elfdata2lsb }

unfoldable pub with_names : Elf → List ℕ → Elf
with_names e names = record e { section_names = names }

-- `parse`, called once on a new object: its vectors are empty before.
unfoldable pub parse : Elf → Result Elf
parse e = do
  require (leb (sum (ehdr e.class_of)) (length e.contents)) missing_elf_header
  require (string_eq (slice e.contents 0 4) elfmag) not_an_elf_executable
  check_header (with_order e)
  e2 ← copy_tables (with_order e)
  names ← read_names e2
  index_sections (with_names e2 names)
