-- ===== src/Patchelf/Soname.antt =====
-- `modifySoname` of bitcoin-core/patchelf-0.9/src/patchelf.cc, and the search for DT_STRTAB that it
-- shares with `modifyRPath`.
pub mod Strtab
pub mod Added
use electrum_lightning_test.Base.{
  ℕ, ◌+◌, ◌==◌, not, true, false, List, [], ◌∷◌, ◌++◌, length, replicate, Option, none, some,
}
use electrum_lightning_test.Patchelf.Elf.{e_type, d_un, sh_addr}
use electrum_lightning_test.Patchelf.Elf.Tag.{et_dyn, dt_strtab, dt_soname, dt_init}
use electrum_lightning_test.Patchelf.Result.{
  Result, ok, assert, require, no_string_table, ◌>>=◌, ◌>>◌,
}
use electrum_lightning_test.Patchelf.File.{Elf, get, hdr_get}
use electrum_lightning_test.Patchelf.Section.{string_eq}
use electrum_lightning_test.Patchelf.Dynamic.{
  Name, dot_dynamic, dot_dynstr, section_header, read_field, write_bytes, c_string, for_dyn,
  dyn_rounds, edit_section, push_dyn, raw_size,
}
use electrum_lightning_test.Patchelf.Needed.{offset_of, size_of, mark_changed}

-- `if (rdi(dyn->d_tag) == DT_STRTAB) strTabAddr = rdi(dyn->d_un.d_ptr);`
unfoldable pub strtab_body : (at tag : ℕ) → Elf → (address : ℕ) → Result (Elf × ℕ)
strtab_body at tag e address = elim (tag == dt_strtab) [
  | true ↦ do p ← read_field e at (d_un e.class_of); ok (e, p)
  | false ↦ ok (e, address)
]

-- The loop, and the tests of the address that it finds.
unfoldable pub check_strtab : Elf → (dynamic dynstr : List ℕ) → Result (Unit {0})
check_strtab e dynamic dynstr = do
  r ← for_dyn strtab_body (dyn_rounds e) (offset_of e dynamic) e 0
  require (not (r.1 == 0)) no_string_table
  assert (r.1 == get e.little_endian (sh_addr e.class_of) dynstr)

-- `dynSoname` and `soname`: the offsets of the entry and of the name. The names of DT_INIT entries are
-- read too, and not used.
unfoldable pub soname_body :
    (strtab at tag : ℕ) → Elf → Option (ℕ × ℕ) → Result (Elf × Option (ℕ × ℕ))
soname_body strtab at tag e found = elim (tag == dt_soname) [
  | true ↦ do value ← read_field e at (d_un e.class_of); ok (e, some (at, strtab + value))
  | false ↦ elim (tag == dt_init) [
    | true ↦ do
      value ← read_field e at (d_un e.class_of)
      name ← c_string e (strtab + value)
      ok (e, found)
    | false ↦ ok (e, found)
  ]
]

-- `string(soname ? soname : "")`, also for `rpath`
unfoldable pub string_at : Elf → Option ℕ → Result Name
string_at e none = ok []
string_at e (some p) = c_string e p

-- `memset(p, 'X', strlen(p))` if there is a string: the object, and the length.
unfoldable pub cross_out : Elf → Option ℕ → Result (Elf × ℕ)
cross_out e none = ok (e, 0)
cross_out e (some p) = do
  s ← c_string e p
  e' ← write_bytes e p (replicate (length s) b'X')
  ok (e', length s)

-- The name gets a place behind `.dynstr`, and the entry, if there is one, or a new one, refers to it.
unfoldable pub store_soname :
    Elf → (dynamic dynstr : List ℕ) → (entry : Option ℕ) → Name → Result Elf
store_soname e dynamic dynstr entry new_soname = do
  let size = size_of e dynstr
  e1 ← edit_section e dot_dynstr (size + length new_soname + 1) size (new_soname ++ 0 ∷ [])
  e2 ← elim entry [
    | some at ↦ write_bytes e1 (at + (d_un e.class_of).at) (raw_size e dynstr)
    | none ↦ push_dyn e1 dynamic dt_soname (raw_size e dynstr)
  ]
  ok (mark_changed e2)

pub data SonameMode : Type 0 where
  print_soname replace_soname : SonameMode

abbrev pub entry_of : Option (ℕ × ℕ) → Option ℕ
entry_of none = none
entry_of (some found) = some found.0

abbrev pub name_of : Option (ℕ × ℕ) → Option ℕ
name_of none = none
name_of (some found) = some found.1

-- What is left to do once the entry is found; a line printed comes with the object.
unfoldable pub soname_op :
    SonameMode → Elf → (dynamic dynstr : List ℕ) → Option (ℕ × ℕ) → Name → Result (Elf × List Name)
soname_op print_soname e dynamic dynstr found new_soname = do
  s ← string_at e (name_of found)
  ok (e, (elim s [ [] ↦ [] | c ∷ cs ↦ (c ∷ cs) ∷ [] ]))
soname_op replace_soname e dynamic dynstr found new_soname = do
  s ← string_at e (name_of found)
  elim (string_eq s new_soname) [
    | true ↦ ok (e, [])
    | false ↦ do
      crossed ← cross_out e (name_of found)
      e' ← store_soname crossed.0 dynamic dynstr (entry_of found) new_soname
      ok (e', [])
  ]

unfoldable pub modify_soname : SonameMode → Name → Elf → Result (Elf × List Name)
modify_soname op new_soname e = elim (hdr_get e e_type == et_dyn) [
  | false ↦ ok (e, [])
  | true ↦ do
    dynamic ← section_header e dot_dynamic
    dynstr ← section_header e dot_dynstr
    check_strtab e dynamic dynstr
    r ← for_dyn (soname_body (offset_of e dynstr)) (dyn_rounds e) (offset_of e dynamic) e none
    soname_op op e dynamic dynstr r.1 new_soname
]
