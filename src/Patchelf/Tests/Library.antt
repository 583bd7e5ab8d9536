-- ===== src/Patchelf/Tests/Library.antt =====
-- A small library for i386 with a dynamic section, and the results of the theorems on it: the names
-- "a" and "b", each needed by an entry, and an entry for the string table.
use electrum_lightning_test.Base.{
  ℕ, ◌+◌, ◌*◌, ◌%◌, ◌^◌, ◌≤◌, ◌<◌, ◌≡◌, ◌≢◌, refl, arith, Bool, true, false, List, [], ◌∷◌, ◌++◌,
  length, replicate, take, Option, none, some, inl, inr, All,
}
use electrum_lightning_test.Patchelf.Elf.{elf32}
use electrum_lightning_test.Patchelf.Elf.Tag.{elfmag}
use electrum_lightning_test.Patchelf.Word.{host_bytes, rdi, rdi_loop, host_value}
use electrum_lightning_test.Patchelf.Result.{ok}
use electrum_lightning_test.Patchelf.File.{Elf, get, hdr_get, read_bytes}
use electrum_lightning_test.Patchelf.Section.{
  find_section, find_section2, find_section3, find_loop, name_at, shdr_at, get_section_name,
  string_eq, until_nul, section_bytes, lookup,
}
use electrum_lightning_test.Patchelf.Dynamic.{
  contains, Name, dot_dynamic, dot_dynstr, section_header, push_dyn, new_dyn, for_dyn, dyn_rounds,
}
use electrum_lightning_test.Patchelf.Dynamic.Table.{concat, tag_of}
use electrum_lightning_test.Patchelf.Dynamic.Top.{push_dyn_entries}
use electrum_lightning_test.Patchelf.Soname.{modify_soname, replace_soname}
use electrum_lightning_test.Patchelf.Soname.Added.{modify_soname_new}
use electrum_lightning_test.Patchelf.Rpath.{drops_rpath, shrink, modify_rpath, rp_set}
use electrum_lightning_test.Patchelf.Rpath.Added.{modify_rpath_new}
use electrum_lightning_test.Patchelf.Rpath.Shrink.{join, keep_dirs, resolve}
use electrum_lightning_test.Patchelf.Rpath.Loop.{shrink-keep_dirs}
use electrum_lightning_test.Patchelf.Refer.{HasTables, Refers}
use electrum_lightning_test.Patchelf.Needed.{
  remove_needed, mark_changed, compact_body, print_needed_libs,
}
use electrum_lightning_test.Patchelf.Needed.Length.{compact_body-Keeps}
use electrum_lightning_test.Patchelf.Needed.Rest.{outside, print-remove_needed}
use electrum_lightning_test.Patchelf.Dynamic.Rounds.{for_dyn_enough}
use electrum_lightning_test.Patchelf.Needed.Remove.{remove_needed_filter}

unfoldable pub words : List ℕ → List ℕ
unfolding host_bytes
words [] = []
words (w ∷ ws) = host_bytes 4 w ++ words ws

unfoldable pub halves : List ℕ → List ℕ
unfolding host_bytes
halves [] = []
halves (w ∷ ws) = host_bytes 2 w ++ halves ws

abbrev pub elf_header : List ℕ
elf_header =
    elfmag
    ++ (1 ∷ 1 ∷ 1 ∷ replicate 9 0)
    ++ halves (3 ∷ 3 ∷ [])
    ++ words (1 ∷ 0 ∷ 0 ∷ 0 ∷ 0 ∷ [])
    ++ halves (52 ∷ 32 ∷ 0 ∷ 40 ∷ 3 ∷ 0 ∷ [])

abbrev pub names : List ℕ
names = b'a' ∷ 0 ∷ b'b' ∷ 0 ∷ []

abbrev pub front_part : List ℕ
front_part = elf_header ++ names

abbrev pub needs_a : List ℕ
needs_a = words (1 ∷ 0 ∷ [])

abbrev pub needs_b : List ℕ
needs_b = words (1 ∷ 2 ∷ [])

abbrev pub strtab_entry : List ℕ
strtab_entry = words (5 ∷ 52 ∷ [])

abbrev pub end_entry : List ℕ
end_entry = words (0 ∷ 0 ∷ [])

abbrev pub dynamic_header : List ℕ
dynamic_header = words (0 ∷ 6 ∷ 3 ∷ 56 ∷ 56 ∷ 32 ∷ 2 ∷ 0 ∷ 4 ∷ 8 ∷ [])

abbrev pub dynstr_header : List ℕ
dynstr_header = words (9 ∷ 3 ∷ 2 ∷ 52 ∷ 52 ∷ 4 ∷ 0 ∷ 0 ∷ 1 ∷ 0 ∷ [])

abbrev pub library : Elf
library = record {
  contents = front_part ++ (needs_a ++ (needs_b ++ (strtab_entry ++ end_entry)));
  max_size = 1000;
  class_of = elf32;
  phdrs = [];
  shdrs = replicate 40 0 ∷ dynamic_header ∷ dynstr_header ∷ [];
  little_endian = true;
  changed = false;
  is_executable = false;
  replaced_sections = [];
  section_names = dot_dynamic ++ 0 ∷ (dot_dynstr ++ 0 ∷ []);
  sections_by_old_index = [] ∷ dot_dynamic ∷ dot_dynstr ∷ [];
}

dynamic_found : section_header library dot_dynamic ≡ ok dynamic_header
unfolding section_header find_section find_section2 find_section3 find_loop name_at shdr_at
    get_section_name string_eq until_nul read_bytes hdr_get get rdi rdi_loop host_value words halves
    electrum_lightning_test.Base.slice
dynamic_found = refl

dynstr_found : section_header library dot_dynstr ≡ ok dynstr_header
unfolding section_header find_section find_section2 find_section3 find_loop name_at shdr_at
    get_section_name string_eq until_nul read_bytes hdr_get get rdi rdi_loop host_value words halves
    electrum_lightning_test.Base.slice
dynstr_found = refl

abbrev entries : List (List ℕ)
entries = needs_a ∷ needs_b ∷ strtab_entry ∷ []

remove_needed_filter_example :
    remove_needed ((b'a' ∷ []) ∷ []) library
    ≡ ok (record library {
      contents = front_part ++ (needs_b ++ (strtab_entry ++ (replicate 8 0 ++ end_entry)));
      changed = true;
    })
unfolding get rdi rdi_loop host_value words halves electrum_lightning_test.Base.slice until_nul
    string_eq contains
remove_needed_filter_example =
    remove_needed_filter library (b'a' ∷ []) [] dynamic_header dynstr_header front_part end_entry
      entries dynamic_found dynstr_found refl refl (omega arith, refl)
      ((refl, refl), ((refl, refl), ((refl, refl), tt)))
      (λ h. inl (omega arith), (λ h. inl (omega arith), (λ h. cc, tt)))

abbrev path_entry : List ℕ
path_entry = words (29 ∷ 0 ∷ [])

abbrev pathed : Elf
pathed = record library {
  contents = front_part ++ (needs_a ++ (path_entry ++ (strtab_entry ++ end_entry)));
}

abbrev has_y_a : Name → Bool
has_y_a p = string_eq p (b'/' ∷ b'y' ∷ b'/' ∷ b'a' ∷ [])

abbrev dirs : List Name
dirs = (b'/' ∷ b'x' ∷ []) ∷ (b'/' ∷ b'y' ∷ []) ∷ (b'z' ∷ []) ∷ []

abbrev kept_dirs : List Name
kept_dirs = (b'/' ∷ b'y' ∷ []) ∷ (b'z' ∷ []) ∷ []

shrink-keep_dirs_example :
    (shrink has_y_a ((b'a' ∷ []) ∷ []) (join dirs) ≡ join kept_dirs)
    × ((lib : Name)
        → contains ((b'a' ∷ []) ∷ []) lib ≡ true
        → resolve has_y_a lib kept_dirs ≡ resolve has_y_a lib dirs)
unfolding keep_dirs string_eq
shrink-keep_dirs_example = shrink-keep_dirs has_y_a ((b'a' ∷ []) ∷ []) dirs (
  (omega arith, (refl, (refl, tt))),
  ((omega arith, (refl, (refl, tt))), ((omega arith, (refl, tt)), tt)),
)

entries_held : section_bytes library dot_dynamic ≡ ok (concat entries ++ end_entry)
unfolding section_bytes lookup find_section find_section2 find_section3 find_loop name_at shdr_at
    get_section_name string_eq until_nul read_bytes hdr_get get rdi rdi_loop host_value words halves
    electrum_lightning_test.Base.slice
entries_held = refl

strings_held : section_bytes library dot_dynstr ≡ ok names
unfolding section_bytes lookup find_section find_section2 find_section3 find_loop name_at shdr_at
    get_section_name string_eq until_nul read_bytes hdr_get get rdi rdi_loop host_value words halves
    electrum_lightning_test.Base.slice
strings_held = refl

push_dyn_entries_example :
    (e' : Elf) × (rest : List ℕ) × (push_dyn library dynamic_header 14 (replicate 4 0) ≡ ok e')
    × (section_bytes e' dot_dynamic
        ≡ ok (concat (new_dyn library 14 (replicate 4 0) ∷ entries) ++ (end_entry ++ rest)))
    × (tag_of library (new_dyn library 14 (replicate 4 0)) ≡ 14)
    × ((other : Name)
        → dot_dynamic ≢ other
        → lookup e'.replaced_sections other ≡ lookup library.replaced_sections other)
    × (e'.contents ≡ library.contents)
    × (e'.changed ≡ library.changed)
unfolding get rdi rdi_loop host_value words halves electrum_lightning_test.Base.slice
push_dyn_entries_example =
    push_dyn_entries library dynamic_header 14 (replicate 4 0) entries end_entry entries_held refl
      (omega arith) (omega arith, refl) ((refl, refl), ((refl, refl), ((refl, refl), tt))) refl

tables : HasTables library dynamic_header dynstr_header names entries end_entry 2
unfolding get rdi rdi_loop host_value words halves electrum_lightning_test.Base.slice
tables = record {
  strings_held = strings_held;
  strings_size = refl;
  strings_fit = omega arith;
  entries_held = entries_held;
  entries_size = refl;
  entries_fit = omega arith;
  entries = ((refl, refl), ((refl, refl), ((refl, refl), tt)));
  ended = (omega arith, refl);
  header = refl;
}

modify_soname_new_example :
    (e' : Elf) × (modify_soname replace_soname (b'c' ∷ []) library ≡ ok (mark_changed e', []))
    × Refers library 14 (b'c' ∷ []) names entries e'
unfolding get rdi rdi_loop host_value words halves hdr_get string_eq
    electrum_lightning_test.Base.slice
modify_soname_new_example =
    modify_soname_new library (b'c' ∷ []) dynamic_header dynstr_header names front_part end_entry
      end_entry entries refl dynamic_found dynstr_found refl refl (omega arith, refl) refl refl
      ((refl, refl), ((refl, refl), ((refl, refl), tt))) refl tables

modify_rpath_new_example :
    (e' : Elf) × (modify_rpath (λ name. false) true [] rp_set (b'/' ∷ []) library
      ≡ ok (e', [], (b'a' ∷ []) ∷ (b'b' ∷ []) ∷ []))
    × Refers (mark_changed library) 15 (b'/' ∷ []) names entries e'
unfolding get rdi rdi_loop host_value words halves electrum_lightning_test.Base.slice until_nul
modify_rpath_new_example =
    modify_rpath_new (λ name. false) true [] library b'/' [] dynamic_header dynstr_header names
      front_part end_entry end_entry entries dynamic_found dynstr_found refl refl
      (omega arith, refl) refl refl
      (
        (refl, refl, λ h. omega arith),
        ((refl, refl, λ h. omega arith), ((refl, refl, λ h. cc), tt)),
      )
      tables

for_dyn_enough_example :
    for_dyn (compact_body drops_rpath) 1000 56 pathed 56
    ≡ for_dyn (compact_body drops_rpath) (dyn_rounds pathed) 56 pathed 56
unfolding halves words
for_dyn_enough_example =
    for_dyn_enough (compact_body drops_rpath) 1000 56 pathed 56 (compact_body-Keeps drops_rpath)
      (omega arith)

print-remove_needed_example :
    (printed : List Name) × (e' : Elf) × (print_needed_libs library ≡ ok printed)
    × (remove_needed ((b'a' ∷ []) ∷ []) library ≡ ok e')
    × (print_needed_libs e' ≡ ok (outside ((b'a' ∷ []) ∷ []) printed))
unfolding get rdi rdi_loop host_value words halves electrum_lightning_test.Base.slice until_nul
    string_eq
print-remove_needed_example =
    print-remove_needed library (b'a' ∷ []) [] dynamic_header dynstr_header front_part end_entry
      entries dynamic_found dynstr_found refl (omega arith) refl (omega arith, refl)
      ((refl, refl), ((refl, refl), ((refl, refl), tt)))
      (λ h. inl (omega arith), (λ h. inl (omega arith), (λ h. cc, tt)))
