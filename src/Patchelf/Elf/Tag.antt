-- ===== src/Patchelf/Elf/Tag.antt =====
-- Constants of bitcoin-core/patchelf-0.9/src/elf.h, and `DT_IGNORE` of patchelf.cc.
use electrum_lightning_test.Base.{ℕ, List, [], ◌∷◌}

-- `ELFMAG`, `SELFMAG` bytes long
abbrev pub elfmag : List ℕ
elfmag = 0o177 ∷ b'E' ∷ b'L' ∷ b'F' ∷ []

abbrev pub ei_class : ℕ
ei_class = 4

abbrev pub ei_data : ℕ
ei_data = 5

abbrev pub ei_version : ℕ
ei_version = 6

abbrev pub elfclass32 : ℕ
elfclass32 = 1

abbrev pub elfclass64 : ℕ
elfclass64 = 2

abbrev pub elfdata2lsb : ℕ
elfdata2lsb = 1

abbrev pub ev_current : ℕ
ev_current = 1

abbrev pub et_exec : ℕ
et_exec = 2

abbrev pub et_dyn : ℕ
et_dyn = 3

abbrev pub pt_interp : ℕ
pt_interp = 3

abbrev pub pt_phdr : ℕ
pt_phdr = 6

abbrev pub shn_undef : ℕ
shn_undef = 0

abbrev pub shn_loreserve : ℕ
shn_loreserve = 0xff00

abbrev pub sht_progbits : ℕ
sht_progbits = 1

abbrev pub sht_symtab : ℕ
sht_symtab = 2

abbrev pub sht_rela : ℕ
sht_rela = 4

abbrev pub sht_rel : ℕ
sht_rel = 9

abbrev pub sht_dynsym : ℕ
sht_dynsym = 11

abbrev pub stt_section : ℕ
stt_section = 3

abbrev pub pt_load : ℕ
pt_load = 1

abbrev pub pt_dynamic : ℕ
pt_dynamic = 2

abbrev pub pf_w : ℕ
pf_w = 2

abbrev pub pf_r : ℕ
pf_r = 4

abbrev pub dt_hash : ℕ
dt_hash = 4

abbrev pub dt_symtab : ℕ
dt_symtab = 6

abbrev pub dt_rela : ℕ
dt_rela = 7

abbrev pub dt_strsz : ℕ
dt_strsz = 10

abbrev pub dt_rel : ℕ
dt_rel = 17

abbrev pub dt_jmprel : ℕ
dt_jmprel = 23

abbrev pub dt_gnu_hash : ℕ
dt_gnu_hash = 0x6ffffef5

abbrev pub dt_versym : ℕ
dt_versym = 0x6ffffff0

abbrev pub dt_verneed : ℕ
dt_verneed = 0x6ffffffe

abbrev pub dt_null : ℕ
dt_null = 0

abbrev pub dt_needed : ℕ
dt_needed = 1

abbrev pub dt_strtab : ℕ
dt_strtab = 5

abbrev pub dt_init : ℕ
dt_init = 12

abbrev pub dt_soname : ℕ
dt_soname = 14

abbrev pub dt_rpath : ℕ
dt_rpath = 15

abbrev pub dt_runpath : ℕ
dt_runpath = 29

abbrev pub dt_flags_1 : ℕ
dt_flags_1 = 0x6ffffffb

abbrev pub df_1_nodeflib : ℕ
df_1_nodeflib = 0x00000800

abbrev pub dt_ignore : ℕ
dt_ignore = 0x00726e67
