-- ===== src/Patchelf/Needed.antt =====
-- `removeNeeded`, `replaceNeeded`, `addNeeded`, `printNeededLibs` and `noDefaultLib` of
-- bitcoin-core/patchelf-0.9/src/patchelf.cc. A `set` of strings is the list of its members in order.
pub mod Compact
pub mod Filter
pub mod Remove
pub mod Print
pub mod Moved
pub mod Rest
pub mod Length
use electrum_lightning_test.Base.{
  ℕ, suc, zero, ◌+◌, ◌-◌, ◌*◌, ◌/◌, ◌%◌, ◌^◌, ◌==◌, ltb, Bool, true, false, List, [], ◌∷◌, ◌++◌,
  length, ◌||◌, replicate, bit_and, bit_or, overwrite, Option, none, some, if◌then◌else◌,
}
use electrum_lightning_test.Patchelf.Elf.{
  Class, Field, elf32, elf64, dyn, d_tag, d_un, sh_size, sh_offset,
}
use electrum_lightning_test.Patchelf.Elf.Tag.{dt_null, dt_needed, dt_flags_1, df_1_nodeflib}
use electrum_lightning_test.Patchelf.Word.{wri, host_value, host_bytes}
use electrum_lightning_test.Patchelf.Result.{Result, ok, fault, ◌>>=◌}
use electrum_lightning_test.Patchelf.File.{Elf, get, read_bytes}
use electrum_lightning_test.Patchelf.Section.{replace_section, set_substr, insert, lookup}
use electrum_lightning_test.Patchelf.Dynamic.{
  Name, dot_dynamic, dot_dynstr, dyn_size, section_header, read_field, write_bytes, write_raw,
  c_string, for_dyn, dyn_rounds, contains, edit_section, shift_dynamic, new_dyn, push_dyn, raw_size,
}

-- `rdi(shdr.sh_offset)` and `rdi(shdr.sh_size)`
abbrev pub offset_of : Elf → List ℕ → ℕ
offset_of e header = get e.little_endian (sh_offset e.class_of) header

abbrev pub size_of : Elf → List ℕ → ℕ
size_of e header = get e.little_endian (sh_size e.class_of) header

abbrev pub mark_changed : Elf → Elf
mark_changed e = record e { changed = true }

-- The loops that drop entries: an entry is dropped, or stored at `last`, which goes on.
unfoldable pub compact_body :
    ((at tag : ℕ) → Elf → Result Bool) → (at tag : ℕ) → Elf → (last : ℕ) → Result (Elf × ℕ)
compact_body drops at tag e last = do
  dropped ← drops at tag e
  elim dropped [
    | true ↦ ok (mark_changed e, last)
    | false ↦ do
      d ← read_bytes e.contents at (dyn_size e.class_of)
      e' ← write_bytes e last d
      ok (e', last + dyn_size e.class_of)
  ]

-- Such a loop from the entry at `start`, and the `memset` behind it.
unfoldable pub compact : ((at tag : ℕ) → Elf → Result Bool) → (start : ℕ) → Elf → Result Elf
compact drops start e = do
  r ← for_dyn (compact_body drops) (dyn_rounds e) start e start
  write_bytes r.0 r.1 (replicate (r.2 - r.1) 0)

-- The name of a DT_NEEDED entry
unfoldable pub needed_name : (strtab at : ℕ) → Elf → Result Name
needed_name strtab at e = do value ← read_field e at (d_un e.class_of); c_string e (strtab + value)

-- Whether `removeNeeded` drops an entry.
unfoldable pub drops_needed : (strtab : ℕ) → List Name → (at tag : ℕ) → Elf → Result Bool
drops_needed strtab libs at tag e = elim (tag == dt_needed) [
  | true ↦ do name ← needed_name strtab at e; ok (contains libs name)
  | false ↦ ok false
]

unfoldable pub remove_needed : List Name → Elf → Result Elf
remove_needed [] e = ok e
remove_needed (lib ∷ libs) e = do
  dynamic ← section_header e dot_dynamic
  dynstr ← section_header e dot_dynstr
  compact (drops_needed (offset_of e dynstr) (lib ∷ libs)) (offset_of e dynamic) e

-- The body of the loop of `replaceNeeded`, with `dynStrAddedBytes`. `d_val` gets the sum of the field as
-- it stands in memory and the bytes added.
unfoldable pub replace_body :
    (dynstr : List ℕ) → List (Name × Name) → (at tag : ℕ) → Elf → (added : ℕ) → Result (Elf × ℕ)
replace_body dynstr libs at tag e added = elim (tag == dt_needed) [
  | false ↦ ok (e, added)
  | true ↦ do
    name ← needed_name (offset_of e dynstr) at e
    elim (lookup libs name) [
      | none ↦ ok (e, added)
      | some replacement ↦ do
        let size = size_of e dynstr
        e' ←
            edit_section e dot_dynstr (size + length replacement + 1 + added) (size + added)
              (replacement ++ 0 ∷ [])
        e'' ← write_raw e' at (d_un e.class_of) (host_value (raw_size e dynstr) + added)
        ok (mark_changed e'', (added + length replacement + 1) % 2 ^ 32)
    ]
]

unfoldable pub replace_needed : List (Name × Name) → Elf → Result Elf
replace_needed [] e = ok e
replace_needed (lib ∷ libs) e = do
  dynamic ← section_header e dot_dynamic
  dynstr ← section_header e dot_dynstr
  r ← for_dyn (replace_body dynstr (lib ∷ libs)) (dyn_rounds e) (offset_of e dynamic) e 0
  ok r.0

-- `length` of `addNeeded`
unfoldable pub added_length : List Name → ℕ
added_length [] = 0
added_length (lib ∷ libs) = (length lib + 1 + added_length libs) % 2 ^ 32

-- `libStrings.insert(n)`, a set of numbers in order
unfoldable pub insert_number : ℕ → List ℕ → List ℕ
insert_number n [] = n ∷ []
insert_number n (m ∷ ms) =
    if n == m then m ∷ ms else if ltb n m then n ∷ m ∷ ms else m ∷ insert_number n ms

abbrev pub off_bits : Class → ℕ
off_bits elf32 = 32
off_bits elf64 = 64

-- The loop that stores the names in `newDynStr`, behind its first `size` bytes.
unfoldable pub add_names :
    Class
    → (size : ℕ) → List Name
    → (pos : ℕ) → (strings : List ℕ) → (s : List ℕ) → Result (List ℕ × List ℕ)
add_names c size [] pos strings s = ok (strings, s)
add_names c size (lib ∷ libs) pos strings s = do
  s' ← set_substr s ((size + pos) % 2 ^ 32) (lib ++ 0 ∷ [])
  add_names c size libs ((pos + length lib + 1) % 2 ^ 32)
      (insert_number ((size + pos) % 2 ^ off_bits c) strings) s'

-- The loop that stores the new entries at the top of `newDynamic`.
unfoldable pub add_entries : Elf → List ℕ → (i : ℕ) → (s : List ℕ) → Result (List ℕ)
add_entries e [] i s = ok s
add_entries e (n ∷ ns) i s = do
  s' ←
      set_substr s (i * dyn_size e.class_of)
        (new_dyn e dt_needed (wri e.little_endian (d_un e.class_of).width n))
  add_entries e ns (i + 1) s'

unfoldable pub add_needed : List Name → Elf → Result Elf
add_needed [] e = ok e
add_needed (lib ∷ libs) e = do
  dynamic ← section_header e dot_dynamic
  dynstr ← section_header e dot_dynstr
  let size = size_of e dynstr
  r ← replace_section e dot_dynstr ((size + added_length (lib ∷ libs) + 1) % 2 ^ 32)
  names ← add_names e.class_of size (lib ∷ libs) 0 [] r.0
  let e1 = record r.1 { replaced_sections = insert r.1.replaced_sections dot_dynstr names.1 }
  moved ← shift_dynamic e1 dynamic (length (lib ∷ libs))
  s ← add_entries e names.0 0 moved.0
  ok (
      mark_changed
        (record moved.1 { replaced_sections = insert moved.1.replaced_sections dot_dynamic s }))

-- `printNeededLibs`: the lines printed.
unfoldable pub print_body : (strtab at tag : ℕ) → Elf → List Name → Result (Elf × List Name)
print_body strtab at tag e lines = elim (tag == dt_needed) [
  | true ↦ do name ← needed_name strtab at e; ok (e, lines ++ name ∷ [])
  | false ↦ ok (e, lines)
]

unfoldable pub print_needed_libs : Elf → Result (List Name)
print_needed_libs e = do
  dynamic ← section_header e dot_dynamic
  dynstr ← section_header e dot_dynstr
  r ← for_dyn (print_body (offset_of e dynstr)) (dyn_rounds e) (offset_of e dynamic) e []
  ok r.1

-- The loop of `noDefaultLib`, which stops at DT_FLAGS_1.
unfoldable pub find_flags : Elf → (fuel at : ℕ) → Result (Option ℕ)
find_flags e zero at = fault
find_flags e (suc fuel) at = do
  tag ← read_field e at (d_tag e.class_of)
  elim (tag == dt_null) [
    | true ↦ ok none
    | false ↦ elim (tag == dt_flags_1) [
      | true ↦ ok (some at)
      | false ↦ find_flags e fuel (at + dyn_size e.class_of)
    ]
  ]

-- With an entry, its value is read, tested and stored without `rdi` and `wri`.
unfoldable pub set_flag_at : Elf → (at : ℕ) → Result Elf
set_flag_at e at = do
  let f = d_un e.class_of
  b ← read_bytes e.contents (at + f.at) f.width
  let flags = host_value b
  elim (bit_and flags df_1_nodeflib == 0) [
    | false ↦ ok e
    | true ↦ do e' ← write_raw e at f (bit_or flags df_1_nodeflib); ok (mark_changed e')
  ]

unfoldable pub no_default_lib : Elf → Result Elf
no_default_lib e = do
  dynamic ← section_header e dot_dynamic
  found ← find_flags e (dyn_rounds e) (offset_of e dynamic)
  elim found [
    | some at ↦ set_flag_at e at
    | none ↦ do
      e' ← push_dyn e dynamic dt_flags_1 (host_bytes (d_un e.class_of).width df_1_nodeflib)
      ok (mark_changed e')
  ]
