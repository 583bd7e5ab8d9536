-- ===== src/Patchelf/Elf.antt =====
-- The structures and constants of bitcoin-core/patchelf-0.9/src/elf.h that patchelf.cc reads. A
-- structure is the list of its members' widths; it has no padding on the two hosts.
pub mod Tag
use electrum_lightning_test.Base.{ℕ, ◌+◌, List, [], ◌∷◌, get_or, take}

-- `ELFCLASS32` and `ELFCLASS64`, for which the class template is instantiated.
pub data Class : Type 0 where
  elf32 elf64 : Class

-- Where a member stands in its structure, and how many bytes it has.
pub record Field : Type 0 where
  pub at : ℕ
  pub width : ℕ

abbrev pub sum : List ℕ → ℕ
sum [] = 0
sum (w ∷ ws) = w + sum ws

abbrev pub member : List ℕ → ℕ → Field
member widths i = record { at = sum (take i widths); width = get_or widths i 0 }

-- e_ident, e_type, e_machine, e_version, e_entry, e_phoff, e_shoff, e_flags, e_ehsize, e_phentsize,
-- e_phnum, e_shentsize, e_shnum, e_shstrndx
abbrev pub ehdr : Class → List ℕ
ehdr elf32 = 16 ∷ 2 ∷ 2 ∷ 4 ∷ 4 ∷ 4 ∷ 4 ∷ 4 ∷ 2 ∷ 2 ∷ 2 ∷ 2 ∷ 2 ∷ 2 ∷ []
ehdr elf64 = 16 ∷ 2 ∷ 2 ∷ 4 ∷ 8 ∷ 8 ∷ 8 ∷ 4 ∷ 2 ∷ 2 ∷ 2 ∷ 2 ∷ 2 ∷ 2 ∷ []

-- sh_name, sh_type, sh_flags, sh_addr, sh_offset, sh_size, sh_link, sh_info, sh_addralign, sh_entsize
abbrev pub shdr : Class → List ℕ
shdr elf32 = 4 ∷ 4 ∷ 4 ∷ 4 ∷ 4 ∷ 4 ∷ 4 ∷ 4 ∷ 4 ∷ 4 ∷ []
shdr elf64 = 4 ∷ 4 ∷ 8 ∷ 8 ∷ 8 ∷ 8 ∷ 4 ∷ 4 ∷ 8 ∷ 8 ∷ []

-- elf32: p_type, p_offset, p_vaddr, p_paddr, p_filesz, p_memsz, p_flags, p_align
-- elf64: p_type, p_flags, p_offset, p_vaddr, p_paddr, p_filesz, p_memsz, p_align
abbrev pub phdr : Class → List ℕ
phdr elf32 = 4 ∷ 4 ∷ 4 ∷ 4 ∷ 4 ∷ 4 ∷ 4 ∷ 4 ∷ []
phdr elf64 = 4 ∷ 4 ∷ 8 ∷ 8 ∷ 8 ∷ 8 ∷ 8 ∷ 8 ∷ []

-- d_tag and the union d_un, whose members d_val and d_ptr have one width.
abbrev pub dyn : Class → List ℕ
dyn elf32 = 4 ∷ 4 ∷ []
dyn elf64 = 8 ∷ 8 ∷ []

-- elf32: st_name, st_value, st_size, st_info, st_other, st_shndx
-- elf64: st_name, st_info, st_other, st_shndx, st_value, st_size
abbrev pub sym : Class → List ℕ
sym elf32 = 4 ∷ 4 ∷ 4 ∷ 1 ∷ 1 ∷ 2 ∷ []
sym elf64 = 4 ∷ 1 ∷ 1 ∷ 2 ∷ 8 ∷ 8 ∷ []

abbrev pub e_type : Class → Field
e_type c = member (ehdr c) 1

abbrev pub e_phoff : Class → Field
e_phoff c = member (ehdr c) 5

abbrev pub e_shoff : Class → Field
e_shoff c = member (ehdr c) 6

abbrev pub e_phentsize : Class → Field
e_phentsize c = member (ehdr c) 9

abbrev pub e_phnum : Class → Field
e_phnum c = member (ehdr c) 10

abbrev pub e_shentsize : Class → Field
e_shentsize c = member (ehdr c) 11

abbrev pub e_shnum : Class → Field
e_shnum c = member (ehdr c) 12

abbrev pub e_shstrndx : Class → Field
e_shstrndx c = member (ehdr c) 13

abbrev pub sh_name : Class → Field
sh_name c = member (shdr c) 0

abbrev pub sh_type : Class → Field
sh_type c = member (shdr c) 1

abbrev pub sh_addr : Class → Field
sh_addr c = member (shdr c) 3

abbrev pub sh_offset : Class → Field
sh_offset c = member (shdr c) 4

abbrev pub sh_size : Class → Field
sh_size c = member (shdr c) 5

abbrev pub p_type : Class → Field
p_type c = member (phdr c) 0

abbrev pub d_tag : Class → Field
d_tag c = member (dyn c) 0

abbrev pub d_un : Class → Field
d_un c = member (dyn c) 1

abbrev pub p_paddr : Class → Field
p_paddr elf32 = member (phdr elf32) 3
p_paddr elf64 = member (phdr elf64) 4

abbrev pub sh_link : Class → Field
sh_link c = member (shdr c) 6

abbrev pub sh_info : Class → Field
sh_info c = member (shdr c) 7

abbrev pub sh_addralign : Class → Field
sh_addralign c = member (shdr c) 8

abbrev pub p_offset : Class → Field
p_offset elf32 = member (phdr elf32) 1
p_offset elf64 = member (phdr elf64) 2

abbrev pub p_vaddr : Class → Field
p_vaddr elf32 = member (phdr elf32) 2
p_vaddr elf64 = member (phdr elf64) 3

abbrev pub p_filesz : Class → Field
p_filesz elf32 = member (phdr elf32) 4
p_filesz elf64 = member (phdr elf64) 5

abbrev pub p_memsz : Class → Field
p_memsz elf32 = member (phdr elf32) 5
p_memsz elf64 = member (phdr elf64) 6

abbrev pub p_flags : Class → Field
p_flags elf32 = member (phdr elf32) 6
p_flags elf64 = member (phdr elf64) 1

abbrev pub p_align : Class → Field
p_align c = member (phdr c) 7

abbrev pub st_value : Class → Field
st_value elf32 = member (sym elf32) 1
st_value elf64 = member (sym elf64) 4

abbrev pub st_info : Class → Field
st_info elf32 = member (sym elf32) 3
st_info elf64 = member (sym elf64) 1

abbrev pub st_shndx : Class → Field
st_shndx elf32 = member (sym elf32) 5
st_shndx elf64 = member (sym elf64) 3
