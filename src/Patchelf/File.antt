-- ===== src/Patchelf/File.antt =====
-- The file in memory and the class `ElfFile` of bitcoin-core/patchelf-0.9/src/patchelf.cc: their
-- state, `growFile`, `checkPointer`, and the fields of headers. The host is x86-64.
pub mod Fields
use electrum_lightning_test.Base.{
  ℕ, suc, zero, ◌+◌, ◌-◌, ◌==◌, leb, Bool, true, List, [], ◌∷◌, ◌++◌, length, replicate, overwrite,
  slice, if◌then◌else◌,
}
use electrum_lightning_test.Patchelf.Elf.{Class, Field, ehdr, phdr, shdr, sum, elf32, elf64}
use electrum_lightning_test.Patchelf.Word.{rdi, wri}
use electrum_lightning_test.Patchelf.Result.{
  Result, ok, fault, assert, require, maximum_file_size_exceeded, ◌>>◌, ◌>>=◌,
}

-- `contents` and `fileSize`, its length; `maxSize`; the members of `ElfFile`. A header is its bytes.
-- `replaced_sections` is the `map`, in the order of its keys.
pub record Elf : Type 0 where
  pub contents : List ℕ
  pub max_size : ℕ
  pub class_of : Class
  pub phdrs : List (List ℕ)
  pub shdrs : List (List ℕ)
  pub little_endian : Bool
  pub changed : Bool
  pub is_executable : Bool
  pub replaced_sections : List (List ℕ × List ℕ)
  pub section_names : List ℕ
  pub sections_by_old_index : List (List ℕ)

-- `sectionAlignment`
abbrev pub section_alignment : Class → ℕ
section_alignment elf32 = 4
section_alignment elf64 = 8

-- `rdi(s.f)` of a structure's bytes, and `wri(s.f, v)`
unfoldable pub get : Bool → Field → List ℕ → ℕ
get little f s = rdi little (slice s f.at f.width)

unfoldable pub put : Bool → Field → ℕ → List ℕ → List ℕ
put little f v s = overwrite s f.at (wri little f.width v)

-- A field of `*hdr`, which stands at the start of the contents.
unfoldable pub hdr_get : Elf → (Class → Field) → ℕ
hdr_get e f = get e.little_endian (f e.class_of) e.contents

unfoldable pub hdr_put : Elf → (Class → Field) → ℕ → Elf
hdr_put e f v = record e { contents = put e.little_endian (f e.class_of) v e.contents }

-- `growFile`. Its bytes from `fileSize` on are allocated.
unfoldable pub grow_file : Elf → ℕ → Result Elf
grow_file e new_size = do
  require (leb new_size e.max_size) maximum_file_size_exceeded
  ok (
      if leb new_size (length e.contents)
      then e
      else record e { contents = e.contents ++ replicate (new_size - length e.contents) 0 })

-- `checkPointer(contents + at, size)`
unfoldable pub check_pointer : List ℕ → (at size : ℕ) → Result (Unit {0})
check_pointer contents at size = assert (leb (at + size) (length contents))

-- The bytes at `contents + at`. The buffer is longer than `fileSize` (`readFile` asks malloc for
-- `fileSize + maxSize`), but what stands behind `fileSize` was never stored: a run that reads it goes
-- on with bytes of which nothing is known, and so is a fault, of which no theorem says how it ends.
unfoldable pub read_bytes : List ℕ → (at size : ℕ) → Result (List ℕ)
read_bytes contents at size =
    if leb (at + size) (length contents) then ok (slice contents at size) else fault
